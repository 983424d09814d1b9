-- ===== src/Digraph/Store.antt =====
-- Reading the vertices of digraph.c after a write through a pointer.
use idit_sdn.Base.{ℕ, ◌≡◌, refl, Bool, true, false, none, some, not}
use idit_sdn.Base.{List, [], ◌∷◌, ◌++◌, ◌&&◌, ◌||◌, ◌==◌, if◌then◌else◌, any}
use idit_sdn.Base.{arith}
use mathlib.Core.Option
use idit_sdn.EdgeRing.{Edge}
use idit_sdn.Digraph.{Vertice, vertice_at, modify, edges_of, energy_of, id_of, set_edges, in_all}
use idit_sdn.Digraph.{insert_vertice, new_vertice, unlink}

abbrev pub has_ptr : ℕ → Vertice → Bool
has_ptr p v = v.ptr == p

-- The pointer leads to a vertex of the ring.
abbrev pub is_live : ℕ → List Vertice → Bool
is_live p = any (has_ptr p)

abbrev pub KeepsPtr : (Vertice → Vertice) → Type 0
KeepsPtr f = (v : Vertice) → (f v).ptr ≡ v.ptr

pub vertice_at-modify :
    (p q : ℕ) (f : Vertice → Vertice) (vs : List Vertice)
    → KeepsPtr f
    → vertice_at q (modify p f vs)
      ≡ (if p == q then Option.map f (vertice_at q vs) else vertice_at q vs)
unfolding modify
vertice_at-modify p q f [] k = ground arith
vertice_at-modify p q f (v ∷ vs) k = ground (arith, k v, vertice_at-modify p q f vs k)

pub live-modify :
    (p q : ℕ) (f : Vertice → Vertice) (vs : List Vertice)
    → KeepsPtr f
    → is_live q (modify p f vs) ≡ is_live q vs
unfolding modify
live-modify p q f [] k = refl
live-modify p q f (v ∷ vs) k = ground (arith, k v, live-modify p q f vs k)

pub live-at : (p : ℕ) (vs : List Vertice) → vertice_at p vs ≡ none → is_live p vs ≡ false
live-at p [] h = refl
live-at p (v ∷ vs) h = ground (arith, live-at p vs)

pub at-live : (p : ℕ) (vs : List Vertice) → is_live p vs ≡ false → vertice_at p vs ≡ none
at-live p [] h = refl
at-live p (v ∷ vs) h = ground (arith, at-live p vs)

pub edges-dead : (p : ℕ) (vs : List Vertice) → is_live p vs ≡ false → edges_of p vs ≡ []
unfolding edges_of
edges-dead p vs h = ground (arith, at-live p vs)

-- A write to the edges of a vertex of the ring shows in its edges alone.
pub edges-set_edges :
    (p q : ℕ) (f : List Edge → List Edge) (vs : List Vertice)
    → is_live p vs ≡ true
    → edges_of q (set_edges p f vs) ≡ (if p == q then f (edges_of q vs) else edges_of q vs)
unfolding edges_of
edges-set_edges p q f vs h = ground (
  arith,
  live-at p vs,
  vertice_at-modify p q (λ (v : Vertice). record v { edges = f v.edges }) vs (λ v. refl),
)

pub energy-set_edges :
    (p q : ℕ) (f : List Edge → List Edge) (vs : List Vertice)
    → energy_of q (set_edges p f vs) ≡ energy_of q vs
unfolding energy_of
energy-set_edges p q f vs =
    ground (
      arith,
      vertice_at-modify p q (λ (v : Vertice). record v { edges = f v.edges }) vs (λ v. refl),
    )

pub id-set_edges :
    (p q : ℕ) (f : List Edge → List Edge) (vs : List Vertice)
    → id_of q (set_edges p f vs) ≡ id_of q vs
unfolding id_of
id-set_edges p q f vs =
    ground (
      arith,
      vertice_at-modify p q (λ (v : Vertice). record v { edges = f v.edges }) vs (λ v. refl),
    )

pub live-set_edges :
    (p q : ℕ) (f : List Edge → List Edge) (vs : List Vertice)
    → is_live q (set_edges p f vs) ≡ is_live q vs
live-set_edges p q f vs = live-modify p q (λ v. record v { edges = f v.edges }) vs (λ v. refl)

pub at-in_all :
    (q : ℕ) (f : List Edge → List Edge) (vs : List Vertice)
    → vertice_at q (in_all f vs)
      ≡ Option.map (λ (v : Vertice). record v { edges = f v.edges }) (vertice_at q vs)
at-in_all q f [] = refl
at-in_all q f (v ∷ vs) = ground (arith, at-in_all q f vs)

pub edges-in_all :
    (q : ℕ) (f : List Edge → List Edge) (vs : List Vertice)
    → f [] ≡ []
    → edges_of q (in_all f vs) ≡ f (edges_of q vs)
unfolding edges_of
edges-in_all q f vs h = ground (arith, at-in_all q f vs)

pub live-in_all :
    (q : ℕ) (f : List Edge → List Edge) (vs : List Vertice) → is_live q (in_all f vs) ≡ is_live q vs
live-in_all q f [] = refl
live-in_all q f (v ∷ vs) = ground (arith, live-in_all q f vs)

pub live-insert :
    (q : ℕ) (v : Vertice) (vs : List Vertice)
    → is_live q (insert_vertice v vs) ≡ has_ptr q v || is_live q vs
unfolding insert_vertice
live-insert q v [] = refl
live-insert q v (h ∷ vs) = ground arith

pub at-insert :
    (q : ℕ) (v : Vertice) (vs : List Vertice)
    → is_live v.ptr vs ≡ false
    → vertice_at q (insert_vertice v vs) ≡ (if has_ptr q v then some v else vertice_at q vs)
unfolding insert_vertice
at-insert q v [] h = refl
at-insert q v (x ∷ vs) h = ground arith

-- A new vertex has no edges, and the others keep theirs.
pub edges-insert :
    (q p id : ℕ) (vs : List Vertice)
    → is_live p vs ≡ false
    → edges_of q (insert_vertice (new_vertice p id) vs) ≡ edges_of q vs
unfolding edges_of
edges-insert q p id vs h = ground (arith, at-insert q (new_vertice p id) vs, at-live p vs)

-- The ring after `unlink`, as it is seen through pointers.
at-append :
    (q : ℕ) (xs ys : List Vertice)
    → vertice_at q (xs ++ ys) ≡ elim (vertice_at q xs) [ some v ↦ some v | none ↦ vertice_at q ys ]
at-append q [] ys = refl
at-append q (x ∷ xs) ys = ground (arith, at-append q xs ys)

pub live-append :
    (q : ℕ) (xs ys : List Vertice) → is_live q (xs ++ ys) ≡ is_live q xs || is_live q ys
live-append q [] ys = refl
live-append q (x ∷ xs) ys = ground (arith, live-append q xs ys)

-- No two vertices have one pointer.
abbrev pub is_distinct : List Vertice → Bool
is_distinct [] = true
is_distinct (v ∷ vs) = not (is_live v.ptr vs) && is_distinct vs

pub at-unlink :
    (p q : ℕ) (passed vs : List Vertice)
    → is_live p passed ≡ false
    → is_distinct vs ≡ true
    → is_live q passed && is_live q vs ≡ false
    → vertice_at q (unlink p passed vs) ≡ (
        if p == q
        then none
        else elim (vertice_at q passed) [ some v ↦ some v | none ↦ vertice_at q vs ])
unfolding unlink
at-unlink p q passed [] a b c = ground (arith, at-live p passed)
at-unlink p q passed (v ∷ vs) a b c = ground (
  arith,
  at-append q vs passed,
  at-append q passed (v ∷ []),
  live-append q passed (v ∷ []),
  live-append p passed (v ∷ []),
  at-live q passed,
  at-live q vs,
  live-at q passed,
  at-unlink p q (passed ++ (v ∷ [])) vs,
)

-- Behind `unlink` from the header on, a pointer leads to what it led to, but for the one that is
-- taken out.
pub edges-unlink :
    (p q : ℕ) (vs : List Vertice)
    → is_distinct vs ≡ true
    → edges_of q (unlink p [] vs) ≡ (if p == q then [] else edges_of q vs)
unfolding edges_of
edges-unlink p q vs d = ground (arith, at-unlink p q [] vs)

pub live-unlink :
    (p q : ℕ) (vs : List Vertice)
    → is_distinct vs ≡ true
    → is_live q (unlink p [] vs) ≡ not (p == q) && is_live q vs
live-unlink p q vs d = ground (
  arith,
  at-unlink p q [] vs,
  at-live q vs,
  live-at q vs,
  at-live q (unlink p [] vs),
  live-at q (unlink p [] vs),
)

distinct-append :
    (xs ys : List Vertice)
    → is_distinct xs ≡ true
    → is_distinct ys ≡ true
    → ((q : ℕ) → is_live q xs && is_live q ys ≡ false)
    → is_distinct (xs ++ ys) ≡ true
distinct-append [] ys dx dy apart = dy
distinct-append (x ∷ xs) ys dx dy apart = ground (
  arith,
  live-append x.ptr xs ys,
  apart x.ptr,
  distinct-append xs ys (ground arith) dy (λ q. ground (arith, apart q)),
)

pub distinct-unlink :
    (p : ℕ) (passed vs : List Vertice)
    → is_distinct passed ≡ true
    → is_distinct vs ≡ true
    → ((q : ℕ) → is_live q passed && is_live q vs ≡ false)
    → is_distinct (unlink p passed vs) ≡ true
unfolding unlink
distinct-unlink p passed [] dp dv apart = dp
distinct-unlink p passed (v ∷ vs) dp dv apart = ground (
  arith,
  distinct-append vs passed (ground arith) dp (λ q. ground (arith, apart q)),
  distinct-unlink p (passed ++ (v ∷ [])) vs
      (distinct-append passed (v ∷ []) dp refl (λ q. ground (arith, apart q))) (ground arith)
      (λ q. ground (arith, apart q, live-append q passed (v ∷ []))),
)

pub distinct-modify :
    (p : ℕ) (f : Vertice → Vertice) (vs : List Vertice)
    → KeepsPtr f
    → is_distinct (modify p f vs) ≡ is_distinct vs
unfolding modify
distinct-modify p f [] k = refl
distinct-modify p f (v ∷ vs) k =
    ground (arith, k v, live-modify p v.ptr f vs k, distinct-modify p f vs k)

pub distinct-in_all :
    (f : List Edge → List Edge) (vs : List Vertice) → is_distinct (in_all f vs) ≡ is_distinct vs
distinct-in_all f [] = refl
distinct-in_all f (v ∷ vs) = ground (arith, live-in_all v.ptr f vs, distinct-in_all f vs)

pub distinct-insert :
    (v : Vertice) (vs : List Vertice)
    → is_live v.ptr vs ≡ false
    → is_distinct vs ≡ true
    → is_distinct (insert_vertice v vs) ≡ true
unfolding insert_vertice
distinct-insert v [] h d = refl
distinct-insert v (x ∷ vs) h d = ground arith
