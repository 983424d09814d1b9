-- ===== src/Dijkstra/Rounds.antt =====
-- The outer loop of dijkstra.c: its invariant, and that one round keeps it.
pub mod Loop
pub mod Total
use idit_sdn.Base.{ℕ, zero, suc, ◌+◌, ◌<◌, ◌≡◌, refl, ap, ◌∙◌, sym, Bool, true, false, not}
use idit_sdn.Base.{Option, none, some, List, [], ◌∷◌, ltb, ◌==◌, ◌&&◌, ◌||◌, if◌then◌else◌, any}
use idit_sdn.Base.{◌⊎◌, inl, inr, arith, Bool-cases, Option-cases, ==→eq, ==-self, find?, ne→==}
use idit_sdn.EdgeRing.{Edge, leads_to, find_edge}
use idit_sdn.EdgeRing.Laws.{has_edge, find_edge-none, find_edge-has}
use idit_sdn.Digraph.{Vertice, Digraph, Label, blank_label, set_label, edges_of}
use idit_sdn.Digraph.Store.{is_live, edges-dead}
use idit_sdn.Digraph.Invariant.{IsGraph}
use idit_sdn.Dijkstra.{Search, set_visited, scan}
use idit_sdn.Dijkstra.Scan.{is_some, mem, relax_label, scan-labels, scan-mem, IsQueue, scan-IsQueue}

-- Behind the weight of a vertex stands the edge from its root, whose weight is final.
pub record ByEdge (extend : ℕ → ℕ → ℕ) (g : Digraph) (labels : ℕ → Label) (q p : ℕ) : Type 0 where
  pub edge : Edge
  pub found : find_edge q (edges_of p g.vertices) ≡ some edge
  pub final : (labels p).visited ≡ true
  pub weight : (labels q).route_weight ≡ extend (labels p).route_weight edge.weight

-- A search from `source` after `k` vertices were visited; `pending` is the vertex that has left the
-- queue and is not visited yet, and `rank` the order of the visits.
pub record State (extend : ℕ → ℕ → ℕ) (g : Digraph) (source : ℕ) (pending : ℕ → Bool) (rank : ℕ → ℕ)
    (k : ℕ) (s : Search) : Type 0 where
  pub queue : IsQueue s
  pub source_root : (s.labels source).route_root ≡ none
  pub source_weight : (s.labels source).route_weight ≡ 0
  pub source_seen : (s.labels source).visited || pending source ≡ true
  pub by_edge : (q p : ℕ) → (s.labels q).route_root ≡ some p → ByEdge extend g s.labels q p
  pub waiting :
      (q : ℕ)
      → is_some (s.labels q).route_root ≡ true
      → (s.labels q).visited || mem q s.queue || pending q ≡ true
  pub unvisited : (q : ℕ) → mem q s.queue || pending q ≡ true → (s.labels q).visited ≡ false
  pub known :
      (q : ℕ)
      → (s.labels q).visited ≡ true
      → (source == q) || is_some (s.labels q).route_root ≡ true
  pub closed :
      (p q : ℕ)
      → (s.labels p).visited ≡ true
      → has_edge q (edges_of p g.vertices) ≡ true
      → (s.labels q).visited || is_some (s.labels q).route_root ≡ true
  pub outside : (q : ℕ) → is_live q g.vertices ≡ false → s.labels q ≡ blank_label
  pub rank_lt : (q : ℕ) → (s.labels q).visited ≡ true → rank q < k
  pub rank_root :
      (q p : ℕ) → (s.labels q).visited ≡ true → (s.labels q).route_root ≡ some p → rank p < rank q

module _ (extend : ℕ → ℕ → ℕ) {g : Digraph} (i : IsGraph g) (u : ℕ) (s : Search) where
  abbrev pub visit : Search
  visit = scan extend u (edges_of u g.vertices) (set_visited u s)

  visit-labels :
      (q : ℕ)
      → visit.labels q ≡ elim (find_edge q (edges_of u g.vertices)) [
        | none ↦ (set_visited u s).labels q
        | some e ↦ relax_label extend u (s.labels u).route_weight e ((set_visited u s).labels q)
      ]
  visit-labels q =
      ground (arith, scan-labels extend u q (edges_of u g.vertices) (set_visited u s) (i.simple u))

  -- A round visits `u` alone,
  pub visit-visited : (q : ℕ) → (visit.labels q).visited ≡ (u == q) || (s.labels q).visited
  visit-visited q = ground (arith, visit-labels q)

  -- leaves the routes to visited vertices alone,
  pub visit-final :
      (q : ℕ)
      → (u == q) || (s.labels q).visited ≡ true
      → ((visit.labels q).route_root ≡ (s.labels q).route_root)
        × ((visit.labels q).route_weight ≡ (s.labels q).route_weight)
  visit-final q h = ground (arith, visit-labels q)

  -- gives a root to the ends of the edges of `u`,
  pub visit-rooted :
      (q : ℕ)
      → is_some (visit.labels q).route_root
        ≡ is_some (s.labels q).route_root
          || has_edge q (edges_of u g.vertices) && not ((u == q) || (s.labels q).visited)
  visit-rooted q = ground (
    arith,
    visit-labels q,
    find_edge-none q (edges_of u g.vertices),
    find_edge-has q (edges_of u g.vertices),
  )

  -- and changes a route only to one by an edge of `u`.
  pub visit-route :
      (q p : ℕ)
      → (visit.labels q).route_root ≡ some p
      → ((s.labels q).route_root ≡ some p)
          × ((visit.labels q).route_weight ≡ (s.labels q).route_weight)
        ⊎ (u ≡ p)
          × ((u == q) || (s.labels q).visited ≡ false)
          × (e : Edge) × (find_edge q (edges_of u g.vertices) ≡ some e)
          × ((visit.labels q).route_weight ≡ extend (s.labels u).route_weight e.weight)
  visit-route q p h = elim (Option-cases (find_edge q (edges_of u g.vertices))) [
    | inl no_edge ↦ inl (ground (arith, visit-labels q))
    | inr (e, at) ↦
        let better =
          not ((u == q) || (s.labels q).visited)
          && (not (is_some (s.labels q).route_root)
              || ltb (extend (s.labels u).route_weight e.weight) (s.labels q).route_weight) in
        elim (Bool-cases better) [
          | inl t ↦ inr (
            ground (arith, visit-labels q),
            ground (arith, visit-labels q),
            e,
            at,
            ground (arith, visit-labels q),
          )
          | inr f ↦ inl (ground (arith, visit-labels q))
        ]
  ]

  pub visit-mem :
      (q : ℕ)
      → mem q visit.queue
        ≡ has_edge q (edges_of u g.vertices)
            && not ((u == q) || (s.labels q).visited)
            && not (is_some (s.labels q).route_root)
          || mem q s.queue
  visit-mem q =
      ground (arith, scan-mem extend u q (edges_of u g.vertices) (set_visited u s) (i.simple u))
