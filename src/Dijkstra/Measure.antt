-- ===== src/Dijkstra/Measure.antt =====
-- The work that is left in a search of dijkstra.c: the vertices not reached and the queue's entries.
use idit_sdn.Base.{ℕ, suc, ◌+◌, ◌≡◌, refl, ap, ◌∙◌, Bool, true, false, not, ◌≢◌}
use idit_sdn.Base.{List, [], ◌∷◌, ◌==◌, ◌&&◌, if◌then◌else◌}
use idit_sdn.Base.{length, arith, Bool-cases, inl, inr, ==→eq, ne→==}
use idit_sdn.EdgeRing.{Edge}
use idit_sdn.EdgeRing.Laws.{has_edge}
use idit_sdn.Digraph.{Vertice, Label}
use idit_sdn.Digraph.Store.{is_live, is_distinct}
use idit_sdn.Dijkstra.{Search, push_sorted, dijkstra_queue_push, relax, scan}
use idit_sdn.Dijkstra.{weight_at, set_route}
use idit_sdn.Dijkstra.Scan.{is_some, relax-labels}

-- How many vertices pass a test on their pointers.
abbrev pub tally : (ℕ → Bool) → List Vertice → ℕ
tally f [] = 0
tally f (v ∷ vs) = if f v.ptr then suc (tally f vs) else tally f vs

tally-absent :
    (f g : ℕ → Bool) (q : ℕ) (vs : List Vertice)
    → ((p : ℕ) → q ≢ p → f p ≡ g p)
    → is_live q vs ≡ false
    → tally f vs ≡ tally g vs
tally-absent f g q [] same h = refl
tally-absent f g q (v ∷ vs) same h =
    let e : f v.ptr ≡ g v.ptr = same v.ptr (λ d. ground arith) in
    ground (arith, e, tally-absent f g q vs same)

pub tally-same :
    (f g : ℕ → Bool) (vs : List Vertice) → ((p : ℕ) → f p ≡ g p) → tally f vs ≡ tally g vs
tally-same f g [] same = refl
tally-same f g (v ∷ vs) same = ground (arith, same v.ptr, tally-same f g vs same)

-- One vertex that no longer passes lowers the tally by one.
pub tally-drop :
    (f g : ℕ → Bool) (q : ℕ) (vs : List Vertice)
    → ((p : ℕ) → q ≢ p → f p ≡ g p)
    → f q ≡ true
    → g q ≡ false
    → is_distinct vs ≡ true
    → is_live q vs ≡ true
    → tally f vs ≡ suc (tally g vs)
tally-drop f g q [] same fq gq d l = ground arith
tally-drop f g q (v ∷ vs) same fq gq d l = elim (Bool-cases (v.ptr == q)) [
  | inl e ↦
      let at : v.ptr ≡ q = ==→eq v.ptr q e in
      let fv : f v.ptr ≡ true = ap f at ∙ fq in
      let gv : g v.ptr ≡ false = ap g at ∙ gq in
      let absent : is_live q vs ≡ false = ground arith in
      ground (arith, fv, gv, tally-absent f g q vs same absent)
  | inr n ↦
      let e : f v.ptr ≡ g v.ptr = same v.ptr (λ d. ground arith) in
      ground (arith, e, tally-drop f g q vs same fq gq)
]

-- The vertex was not reached: it is not visited and has no root.
abbrev pub is_fresh : Label → Bool
is_fresh l = not l.visited && not (is_some l.route_root)

abbrev pub unseen : (ℕ → Label) → List Vertice → ℕ
unseen labels = tally (λ p. is_fresh (labels p))

abbrev pub work : List Vertice → Search → ℕ
work vs s = unseen s.labels vs + length s.queue

length-push_sorted :
    (weight : ℕ → ℕ) (p : ℕ) (l : List ℕ) → length (push_sorted weight p l) ≡ suc (length l)
unfolding push_sorted
length-push_sorted weight p [] = refl
length-push_sorted weight p (h ∷ l) = ground (arith, length-push_sorted weight p l)

module _ (extend : ℕ → ℕ → ℕ) (vs : List Vertice) (d : is_distinct vs ≡ true) where
  relax-queue-fresh :
      (u : ℕ) (e : Edge) (s : Search)
      → length (relax extend u e s).queue
        ≡ (if is_fresh (s.labels e.vertice) then suc (length s.queue) else length s.queue)
  unfolding relax dijkstra_queue_push
  relax-queue-fresh u e s = ground (
    arith,
    length-push_sorted (weight_at (set_route e.vertice (extend (weight_at s u) e.weight) u s))
        e.vertice s.queue,
  )

  relax-work :
      (u : ℕ) (e : Edge) (s : Search)
      → is_live e.vertice vs ≡ true
      → work vs (relax extend u e s) ≡ work vs s
  relax-work u e s live = elim (Bool-cases (is_fresh (s.labels e.vertice))) [
    | inl f ↦
        let drop =
          tally-drop (λ p. is_fresh (s.labels p)) (λ p. is_fresh ((relax extend u e s).labels p))
            e.vertice vs (λ p n. ground (arith, relax-labels extend u p e s, ne→== e.vertice p n)) f
            (ground (arith, relax-labels extend u e.vertice e s)) d live in
        ground (arith, drop, relax-queue-fresh u e s)
    | inr n ↦
        let same =
          tally-same (λ p. is_fresh (s.labels p)) (λ p. is_fresh ((relax extend u e s).labels p)) vs
            (λ p. ground (arith, relax-labels extend u p e s)) in
        ground (arith, same, relax-queue-fresh u e s)
  ]

  -- The inner loop conserves the work: what it queues it reaches.
  pub scan-work :
      (u : ℕ) (es : List Edge) (s : Search)
      → ((q : ℕ) → has_edge q es ≡ true → is_live q vs ≡ true)
      → work vs (scan extend u es s) ≡ work vs s
  unfolding scan
  scan-work u [] s live = refl
  scan-work u (e ∷ es) s live =
      scan-work u es (relax extend u e s) (λ q h. live q (ground arith))
      ∙ relax-work u e s (live e.vertice (ground arith))
