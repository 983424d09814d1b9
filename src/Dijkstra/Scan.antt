-- ===== src/Dijkstra/Scan.antt =====
-- The inner loop of dijkstra.c in one step: what it does to the label of each vertex, and to the
-- queue.
use idit_sdn.Base.{ℕ, ◌≡◌, refl, Bool, true, false, not, Option, none, some}
use idit_sdn.Base.{List, [], ◌∷◌, ltb, ◌==◌, ◌&&◌, ◌||◌, if◌then◌else◌, any, arith}
use idit_sdn.EdgeRing.{Edge, find_edge}
use idit_sdn.EdgeRing.Laws.{has_edge, is_simple, find_edge-has}
use idit_sdn.Digraph.{Label}
use idit_sdn.Dijkstra.{Search, weight_at, push_sorted, dijkstra_queue_push, set_route, relax, scan}

abbrev pub is_some {ℓ} : {A : Type ℓ} → Option A → Bool
is_some none = false
is_some (some _) = true

abbrev pub mem : ℕ → List ℕ → Bool
mem q l = any (λ p. p == q) l

abbrev pub is_distinct : List ℕ → Bool
is_distinct [] = true
is_distinct (p ∷ l) = not (mem p l) && is_distinct l

mem-push_sorted :
    (weight : ℕ → ℕ) (p q : ℕ) (l : List ℕ) → mem q (push_sorted weight p l) ≡ (p == q) || mem q l
unfolding push_sorted
mem-push_sorted weight p q [] = refl
mem-push_sorted weight p q (h ∷ l) = ground (arith, mem-push_sorted weight p q l)

distinct-push_sorted :
    (weight : ℕ → ℕ) (p : ℕ) (l : List ℕ)
    → is_distinct l ≡ true
    → mem p l ≡ false
    → is_distinct (push_sorted weight p l) ≡ true
unfolding push_sorted
distinct-push_sorted weight p [] d m = refl
distinct-push_sorted weight p (h ∷ l) d m =
    ground (arith, distinct-push_sorted weight p l, mem-push_sorted weight p h l)

-- No vertex is queued twice, and a queued vertex has a root.
pub record IsQueue (s : Search) : Type 0 where
  pub distinct : is_distinct s.queue ≡ true
  pub rooted : (q : ℕ) → mem q s.queue ≡ true → is_some (s.labels q).route_root ≡ true

module _ (extend : ℕ → ℕ → ℕ) where
  -- What an edge of `u`, whose weight is `w`, does to the label of its end.
  abbrev pub relax_label : ℕ → ℕ → Edge → Label → Label
  relax_label u w e l = if l.visited then l else elim l.route_root [
    | none ↦ record l { route_weight = extend w e.weight; route_root = some u }
    | some _ ↦
        if ltb (extend w e.weight) l.route_weight
        then record l { route_weight = extend w e.weight; route_root = some u }
        else l
  ]

  pub relax-labels :
      (u q : ℕ) (e : Edge) (s : Search)
      → (relax extend u e s).labels q
        ≡ (if e.vertice == q then relax_label u (weight_at s u) e (s.labels q) else s.labels q)
  unfolding relax dijkstra_queue_push
  relax-labels u q e s = ground arith

  -- Each vertex is relaxed by the edge that leads to it.
  pub scan-labels :
      (u q : ℕ) (es : List Edge) (s : Search)
      → is_simple es ≡ true
      → (s.labels u).visited ≡ true
      → (scan extend u es s).labels q ≡ elim (find_edge q es) [
        | none ↦ s.labels q
        | some e ↦ relax_label u (weight_at s u) e (s.labels q)
      ]
  unfolding scan
  scan-labels u q [] s h v = refl
  scan-labels u q (e ∷ es) s h v = ground (
    arith,
    relax-labels u q e s,
    relax-labels u u e s,
    find_edge-has e.vertice es,
    scan-labels u q es (relax extend u e s),
  )

  pub relax-mem :
      (u q : ℕ) (e : Edge) (s : Search)
      → mem q (relax extend u e s).queue
        ≡ (e.vertice == q) && not (s.labels q).visited && not (is_some (s.labels q).route_root)
          || mem q s.queue
  unfolding relax dijkstra_queue_push
  relax-mem u q e s = ground (
    arith,
    mem-push_sorted (weight_at (set_route e.vertice (extend (weight_at s u) e.weight) u s))
        e.vertice q s.queue,
  )

  -- Pushed are the ends of edges that were not reached before.
  pub scan-mem :
      (u q : ℕ) (es : List Edge) (s : Search)
      → is_simple es ≡ true
      → (s.labels u).visited ≡ true
      → mem q (scan extend u es s).queue
        ≡ has_edge q es && not (s.labels q).visited && not (is_some (s.labels q).route_root)
          || mem q s.queue
  unfolding scan
  scan-mem u q [] s h v = refl
  scan-mem u q (e ∷ es) s h v = ground (
    arith,
    relax-labels u q e s,
    relax-labels u u e s,
    relax-mem u q e s,
    scan-mem u q es (relax extend u e s),
  )

  relax-IsQueue : (u : ℕ) (e : Edge) (s : Search) → IsQueue s → IsQueue (relax extend u e s)
  relax-IsQueue u e s i = record {
    distinct =
        unfold relax dijkstra_queue_push in
        ground (
          arith,
          i.distinct,
          i.rooted e.vertice,
          distinct-push_sorted
              (weight_at (set_route e.vertice (extend (weight_at s u) e.weight) u s)) e.vertice
              s.queue,
        );
    rooted = λ q m. ground (arith, relax-mem u q e s, relax-labels u q e s, i.rooted q);
  }

  pub scan-IsQueue :
      (u : ℕ) (es : List Edge) (s : Search) → IsQueue s → IsQueue (scan extend u es s)
  unfolding scan
  scan-IsQueue u [] s i = i
  scan-IsQueue u (e ∷ es) s i = scan-IsQueue u es (relax extend u e s) (relax-IsQueue u e s i)
