-- ===== src/Dijkstra.antt =====
-- controller-server/digraph/dijkstra.c: the route search of the controller. The queue of vertices,
-- linked from `dijkstra_queue_head` to `dijkstra_queue_tail`, is the list of its entries; an entry
-- is a pointer to a vertex, whose weight is read where it is needed.
pub mod Scan
pub mod Measure
pub mod Rounds
pub mod Trace
pub mod Route
pub mod Check
use idit_sdn.Base.{ℕ, zero, suc, ◌+◌, ◌-◌, Bool, true, false, Option, none, some}
use idit_sdn.Base.{List, [], ◌∷◌, ltb, if◌then◌else◌, length}
use idit_sdn.EdgeRing.{Edge}
use idit_sdn.Digraph.{Digraph, Vertice, Label, blank_label, set_label, edges_of, id_of}
use idit_sdn.Digraph.{digraph_get_vertice, digraph_count_vertice}
use idit_sdn.Digraph.Store.{is_live}

-- The state of a search: the labels of the vertices, and the queue.
pub record Search : Type 0 where
  pub labels : ℕ → Label
  pub queue : List ℕ

abbrev pub weight_at : Search → ℕ → ℕ
weight_at s p = (s.labels p).route_weight

-- A new entry stands behind all entries up to the first one that is heavier.
unfoldable pub push_sorted : (ℕ → ℕ) → ℕ → List ℕ → List ℕ
push_sorted weight p [] = p ∷ []
push_sorted weight p (h ∷ rest) =
    if ltb (weight p) (weight h) then p ∷ h ∷ rest else h ∷ push_sorted weight p rest

unfoldable pub dijkstra_queue_push : ℕ → Search → Search
dijkstra_queue_push p s = record s { queue = push_sorted (weight_at s) p s.queue }

unfoldable pub dijkstra_queue_pop : Search → Option ℕ × Search
dijkstra_queue_pop s = elim s.queue [
  | [] ↦ (none, s)
  | p ∷ rest ↦ (some p, record s { queue = rest })
]

-- `route_weight` and `route_root` of a vertex are written.
abbrev pub set_route : ℕ → ℕ → ℕ → Search → Search
set_route q weight root s = record s {
  labels =
      set_label q (record (s.labels q) { route_weight = weight; route_root = some root }) s.labels;
}

abbrev pub set_visited : ℕ → Search → Search
set_visited p s = record s {
  labels = set_label p (record (s.labels p) { visited = true }) s.labels;
}

-- `struct route`; the list of the entries is the linked list, and NULL the empty list.
pub record Hop : Type 0 where
  pub vertice_id : ℕ
  pub route_weight : ℕ
  pub hops : ℕ
  pub keep_route_cache : ℕ

-- The loop along the `route_root`s, with the weight of the whole route.
unfoldable pub collect : ℕ → List Vertice → (ℕ → Label) → ℕ → ℕ → Option ℕ → Option (List Hop)
collect fuel vs labels total hops none = some []
collect zero vs labels total hops (some p) = none
collect (suc fuel) vs labels total hops (some p) =
    let rest = collect fuel vs labels total (suc hops) (labels p).route_root in
    elim rest [
      | none ↦ none
      | some r ↦ some (
          record {
            vertice_id = id_of p vs;
            route_weight = total - (labels p).route_weight;
            hops = hops;
            keep_route_cache = 0;
          }
          ∷ r)
    ]

-- The route from the target back to the source, or NULL.
unfoldable pub build_route : ℕ → List Vertice → (ℕ → Label) → ℕ → Option (List Hop)
unfolding collect
build_route fuel vs labels target =
    let total = (labels target).route_weight in
    let rest = collect fuel vs labels total 1 (labels target).route_root in
    elim (labels target).route_root [
      | none ↦ some []
      | some _ ↦ elim rest [
        | none ↦ none
        | some r ↦ some (
            record {
              vertice_id = id_of target vs;
              route_weight = total;
              hops = 0;
              keep_route_cache = 0;
            }
            ∷ r)
      ]
    ]

-- The labels of all vertices of the ring are cleaned.
unfoldable pub clean_labels : List Vertice → (ℕ → Label) → ℕ → Label
clean_labels vs labels p = if is_live p vs then blank_label else labels p

-- The two algorithms differ in the weight of a route that is longer by one edge.
module _ (extend : ℕ → ℕ → ℕ) where
  -- The body of the inner loop, at an edge of `u`.
  unfoldable pub relax : ℕ → Edge → Search → Search
  unfolding dijkstra_queue_push push_sorted
  relax u e s =
      let weight = extend (weight_at s u) e.weight in
      let found = set_route e.vertice weight u s in
      if (s.labels e.vertice).visited then s else elim (s.labels e.vertice).route_root [
        | none ↦ dijkstra_queue_push e.vertice found
        | some _ ↦ if ltb weight (weight_at s e.vertice) then found else s
      ]

  unfoldable pub scan : ℕ → List Edge → Search → Search
  scan u [] s = s
  scan u (e ∷ es) s = scan u es (relax u e s)

  -- The outer loop; `none` if the fuel runs out.
  unfoldable pub search : List Vertice → ℕ → ℕ → Search → Option Search
  search vs zero u s = none
  search vs (suc fuel) u s =
      let s' = scan u (edges_of u vs) (set_visited u s) in
      elim (dijkstra_queue_pop s').0 [
        | none ↦ some s'
        | some v ↦ search vs fuel v (dijkstra_queue_pop s').1
      ]

  -- `none` only if a loop has more rounds than there are vertices.
  unfoldable pub path_algorithm : ℕ → ℕ → Digraph → Option (List Hop × Digraph)
  unfolding search build_route clean_labels
  path_algorithm id_from id_to g =
      let (root, g1) = digraph_get_vertice id_from g in
      let n = digraph_count_vertice g1 in
      elim (search g1.vertices n root (record { labels = g1.labels; queue = [] })) [
        | none ↦ none
        | some s ↦
            let (target, g2) = digraph_get_vertice id_to (record g1 { labels = s.labels }) in
            elim (build_route n g2.vertices g2.labels target) [
              | none ↦ none
              | some route ↦ some (route, record g2 { labels = clean_labels g2.vertices g2.labels })
            ]
      ]

-- The larger of two weights, as `widest_shortest_path_algorithm` takes it
abbrev pub worst : ℕ → ℕ → ℕ
worst route edge = if ltb edge route then route else edge

unfoldable pub shortest_path_algorithm : ℕ → ℕ → Digraph → Option (List Hop × Digraph)
unfolding path_algorithm
shortest_path_algorithm = path_algorithm ◌+◌

unfoldable pub widest_shortest_path_algorithm : ℕ → ℕ → Digraph → Option (List Hop × Digraph)
unfolding path_algorithm
widest_shortest_path_algorithm = path_algorithm worst

-- PATH_FINDER_ALGORITHM is SHORTEST_PATH.
unfoldable pub dijkstra_shortest_path : ℕ → ℕ → Digraph → Option (List Hop × Digraph)
unfolding shortest_path_algorithm
dijkstra_shortest_path = shortest_path_algorithm
