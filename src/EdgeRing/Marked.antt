-- ===== src/EdgeRing/Marked.antt =====
-- The deletions from a ring of edges, in one pass and against `filter`.
use idit_sdn.Base.{ℕ, ◌≡◌, refl, sym, subst, Bool, true, false}
use idit_sdn.Base.{List, [], ◌∷◌, ◌++◌, append_assoc, not, ◌&&◌, ◌||◌, ◌==◌}
use idit_sdn.Base.{none}
use idit_sdn.Base.{if◌then◌else◌, filter, any, Bool-cases, inl, inr, arith}
use idit_sdn.EdgeRing.{Edge, leads_to, is_deleted, find_edge, del_edge, del_behind, del_towards}
use idit_sdn.EdgeRing.{sweep, del_marked, mark_all, mark_towards}
use idit_sdn.EdgeRing.{del_marked_behind, del_marked_towards}
use idit_sdn.EdgeRing.Laws.{has_edge, is_simple}

abbrev pub without : ℕ → List Edge → List Edge
without to es = filter (λ e. not (leads_to to e)) es

abbrev pub unmarked : List Edge → List Edge
unmarked es = filter (λ e. not (is_deleted e)) es

pub without-absent : (to : ℕ) (es : List Edge) → has_edge to es ≡ false → without to es ≡ es
without-absent to [] h = refl
without-absent to (e ∷ es) h = ground (arith, without-absent to es)

-- On a simple ring `digraph_del_edge` takes out all that leads to the vertex.
pub del_edge-eq-without :
    (to : ℕ) (es : List Edge) → is_simple es ≡ true → del_edge to es ≡ without to es
unfolding del_edge
del_edge-eq-without to [] s = refl
del_edge-eq-without to (e ∷ es) s = ground (arith, without-absent to es, del_edge-eq-without to es)

del_behind-eq-without : (to : ℕ) (es : List Edge) → del_behind to es ≡ without to es
unfolding del_behind
del_behind-eq-without to [] = refl
del_behind-eq-without to (e ∷ es) = ground (arith, del_behind-eq-without to es)

-- So does the loop of `digraph_del_edges_to`.
pub del_towards-eq-without :
    (to : ℕ) (es : List Edge) → is_simple es ≡ true → del_towards to es ≡ without to es
unfolding del_towards
del_towards-eq-without to [] s = refl
del_towards-eq-without to (e ∷ es) s =
    ground (arith, without-absent to es, del_behind-eq-without to es)

del_edge-append :
    (pre es : List Edge) (e : Edge)
    → has_edge e.vertice pre ≡ false
    → del_edge e.vertice (pre ++ (e ∷ es)) ≡ pre ++ es
unfolding del_edge
del_edge-append [] es e h = ground arith
del_edge-append (x ∷ pre) es e h = ground (arith, del_edge-append pre es e)

has_edge-append :
    (to : ℕ) (xs ys : List Edge) → has_edge to (xs ++ ys) ≡ has_edge to xs || has_edge to ys
has_edge-append to [] ys = refl
has_edge-append to (x ∷ xs) ys = ground (arith, has_edge-append to xs ys)

simple-middle :
    (pre es : List Edge) (e : Edge)
    → is_simple (pre ++ (e ∷ es)) ≡ true
    → (has_edge e.vertice pre ≡ false) × (is_simple (pre ++ es) ≡ true)
simple-middle [] es e s = ground arith
simple-middle (x ∷ pre) es e s = ground (
  arith,
  simple-middle pre es e,
  has_edge-append x.vertice pre (e ∷ es),
  has_edge-append x.vertice pre es,
)

-- The loop takes out each marked edge that it visits, and nothing else.
sweep-ring :
    (es pre : List Edge) (d : Bool)
    → is_simple (pre ++ es) ≡ true
    → (sweep es (pre ++ es) d).1 ≡ pre ++ unmarked es
unfolding sweep
sweep-ring [] pre d s = refl
sweep-ring (e ∷ es) pre d s = elim (Bool-cases (is_deleted e)) [
  | inl t ↦
      let (absent, rest) = simple-middle pre es e s in
      ground (arith, del_edge-append pre es e absent, sweep-ring es pre true rest)
  | inr f ↦
      let ring = append_assoc pre (e ∷ []) es in
      let s' = subst (λ l. is_simple l ≡ true) (sym ring) s in
      ground
        (arith, ring, append_assoc pre (e ∷ []) (unmarked es), sweep-ring es (pre ++ (e ∷ [])) d s')
]

sweep-flag : (es ring : List Edge) (d : Bool) → (sweep es ring d).0 ≡ d || any is_deleted es
unfolding sweep
sweep-flag [] ring d = ground arith
sweep-flag (e ∷ es) ring d = ground (
  arith,
  sweep-flag es (if is_deleted e then del_edge e.vertice ring else ring)
      (if is_deleted e then true else d),
)

-- `digraph_del_marked_edges_to_del_from` takes out exactly the marked edges and keeps the order of
-- the others.
pub del_marked-ring : (es : List Edge) → is_simple es ≡ true → (del_marked es).1 ≡ unmarked es
unfolding del_marked
del_marked-ring [] s = refl
del_marked-ring (h ∷ []) s = ground (arith, sweep-ring (h ∷ []) [] false)
del_marked-ring (h ∷ e ∷ rest) s = ground (arith, sweep-ring (e ∷ rest) (h ∷ []) false s)

-- Whether the ring has a second edge, whose loop never visits the header.
abbrev pub visited : List Edge → List Edge
visited [] = []
visited (h ∷ []) = h ∷ []
visited (h ∷ e ∷ rest) = e ∷ rest

-- The flag that `digraph_del_marked_edges_to_del_from` returns speaks of the visited edges alone.
pub del_marked-flag : (es : List Edge) → (del_marked es).0 ≡ any is_deleted (visited es)
unfolding del_marked
del_marked-flag [] = refl
del_marked-flag (h ∷ []) = sweep-flag (h ∷ []) (h ∷ []) false
del_marked-flag (h ∷ e ∷ rest) = sweep-flag (e ∷ rest) (h ∷ e ∷ rest) false

abbrev pub marked_towards : ℕ → Edge → Bool
marked_towards to e = leads_to to e && is_deleted e

del_marked_behind_lem :
    (to : ℕ) (es : List Edge)
    → (del_marked_behind to es).1 ≡ filter (λ e. not (marked_towards to e)) es
unfolding del_marked_behind
del_marked_behind_lem to [] = refl
del_marked_behind_lem to (e ∷ es) = ground (arith, del_marked_behind_lem to es)

del_marked_behind-flag :
    (to : ℕ) (es : List Edge) → (del_marked_behind to es).0 ≡ any (marked_towards to) es
unfolding del_marked_behind
del_marked_behind-flag to [] = refl
del_marked_behind-flag to (e ∷ es) = ground (arith, del_marked_behind-flag to es)

absent-filter :
    (to : ℕ) (es : List Edge)
    → has_edge to es ≡ false
    → (filter (λ e. not (marked_towards to e)) es ≡ es) × (any (marked_towards to) es ≡ false)
absent-filter to [] h = (refl, refl)
absent-filter to (e ∷ es) h = ground (arith, absent-filter to es)

-- On a simple ring the loop of `digraph_del_marked_edges_to_del_towards` takes out the marked edge
-- to the vertex, and says whether there was one.
pub del_marked_towards_lem :
    (to : ℕ) (es : List Edge)
    → is_simple es ≡ true
    → ((del_marked_towards to es).1 ≡ filter (λ e. not (marked_towards to e)) es)
      × ((del_marked_towards to es).0 ≡ any (marked_towards to) es)
unfolding del_marked_towards
del_marked_towards_lem to [] s = (refl, refl)
del_marked_towards_lem to (h ∷ rest) s =
    ground
      (arith, absent-filter to rest, del_marked_behind_lem to rest, del_marked_behind-flag to rest)

pub has-filter :
    (p : Edge → Bool) (to : ℕ) (es : List Edge)
    → has_edge to es ≡ false
    → has_edge to (filter p es) ≡ false
has-filter p to [] h = refl
has-filter p to (e ∷ es) h = ground (arith, has-filter p to es)

pub simple-filter :
    (p : Edge → Bool) (es : List Edge) → is_simple es ≡ true → is_simple (filter p es) ≡ true
simple-filter p [] s = refl
simple-filter p (e ∷ es) s = ground (arith, simple-filter p es, has-filter p e.vertice es)

pub has-mark_all : (to : ℕ) (es : List Edge) → has_edge to (mark_all es) ≡ has_edge to es
unfolding mark_all
has-mark_all to [] = refl
has-mark_all to (e ∷ es) = ground (arith, has-mark_all to es)

pub simple-mark_all : (es : List Edge) → is_simple (mark_all es) ≡ is_simple es
unfolding mark_all
simple-mark_all [] = refl
simple-mark_all (e ∷ es) = ground (arith, has-mark_all e.vertice es, simple-mark_all es)

pub has-mark_towards : (q to : ℕ) (es : List Edge) → has_edge q (mark_towards to es) ≡ has_edge q es
unfolding mark_towards
has-mark_towards q to [] = refl
has-mark_towards q to (e ∷ es) = ground (arith, has-mark_towards q to es)

pub simple-mark_towards : (to : ℕ) (es : List Edge) → is_simple (mark_towards to es) ≡ is_simple es
unfolding mark_towards
simple-mark_towards to [] = refl
simple-mark_towards to (e ∷ es) =
    ground (arith, has-mark_towards e.vertice to es, simple-mark_towards to es)

pub find-without :
    (to q : ℕ) (es : List Edge)
    → find_edge q (without to es) ≡ (if to == q then none else find_edge q es)
find-without to q [] = ground arith
find-without to q (e ∷ es) = ground (arith, find-without to q es)
