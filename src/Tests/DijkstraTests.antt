-- ===== src/Tests/DijkstraTests.antt =====
-- The route search of dijkstra.c at a concrete graph.
use idit_sdn.Base.{ℕ, ◌+◌, ◌≡◌, refl, some, List, [], ◌∷◌}
use mathlib.Core.Option
use idit_sdn.Digraph.{Digraph, blank_label, digraph_find_vertice, edges_of, id_of}
use idit_sdn.Digraph.{digraph_get_vertice, digraph_count_vertice}
use idit_sdn.Dijkstra.{Hop, path_algorithm, shortest_path_algorithm, dijkstra_shortest_path}
use idit_sdn.Dijkstra.{dijkstra_queue_push, dijkstra_queue_pop, push_sorted, relax, scan, search}
use idit_sdn.Dijkstra.{collect, build_route}
use idit_sdn.Dijkstra.Trace.{Walk, here, step}
use idit_sdn.Dijkstra.Route.{Answer, path_algorithm_lem}
use idit_sdn.Dijkstra.{widest_shortest_path_algorithm}
use idit_sdn.Dijkstra.Check.{
  checks_shortest_route, checks_widest_shortest_route, dijkstra_checks_route, checks_loop,
  checks_route, edge_by_id,
}
use idit_sdn.Dijkstra.Check.Found.{
  HasIds, source_first, weight_of, shortest_path-checks_route, widest_path-checks_route,
}
use idit_sdn.Base.{◌⊎◌, arith, none}
use idit_sdn.Tests.DigraphTests.{sample, sample-IsGraph, link}

path_algorithm_lem_example :
    (route : List Hop) × (g' : Digraph) × (path_algorithm ◌+◌ 100 102 sample ≡ some (route, g'))
    × Answer ◌+◌ sample 0 2 route
    × (g'.vertices ≡ sample.vertices)
    × ((p : ℕ) → g'.labels p ≡ blank_label)
unfolding digraph_find_vertice
path_algorithm_lem_example =
    path_algorithm_lem ◌+◌ 100 102 0 2 sample sample-IsGraph (λ p. refl) refl refl

abbrev hop : ℕ → ℕ → ℕ → Hop
hop id w k = record { vertice_id = id; route_weight = w; hops = k; keep_route_cache = 0 }

-- The route that is returned weighs 5.
route-sample :
    Option.map (λ r. r.0) (dijkstra_shortest_path 100 102 sample)
    ≡ some (hop 102 5 0 ∷ hop 100 5 1 ∷ [])
unfolding dijkstra_shortest_path shortest_path_algorithm path_algorithm digraph_find_vertice
    digraph_get_vertice digraph_count_vertice dijkstra_queue_push dijkstra_queue_pop push_sorted
    relax scan search collect build_route edges_of id_of
route-sample = refl

-- A way through 1 and 3 weighs 3.
lighter_walk : Walk ◌+◌ sample 0 2 3
unfolding edges_of
lighter_walk =
    step {p = 3}
      (step {p = 1} (step {p = 0} (here refl refl) (link 1 1) refl refl) (link 3 1) refl refl)
      (link 2 1) refl refl

sample-HasIds : HasIds sample
unfolding digraph_find_vertice id_of
sample-HasIds p h = ground arith

shortest_path-checks_route_example :
    (route : List Hop) × (g' : Digraph) × (shortest_path_algorithm 100 102 sample
      ≡ some (route, g'))
    × ((route ≡ [])
        ⊎ (checks_shortest_route (source_first [] route) sample ≡ some (weight_of route, sample)))
unfolding digraph_find_vertice
shortest_path-checks_route_example =
    shortest_path-checks_route 100 102 0 2 sample sample-IsGraph sample-HasIds (λ p. refl) refl refl

widest_path-checks_route_example :
    (route : List Hop) × (g' : Digraph) × (widest_shortest_path_algorithm 100 102 sample
      ≡ some (route, g'))
    × ((route ≡ [])
        ⊎ (checks_widest_shortest_route (source_first [] route) sample
            ≡ some (weight_of route, sample)))
unfolding digraph_find_vertice
widest_path-checks_route_example =
    widest_path-checks_route 100 102 0 2 sample sample-IsGraph sample-HasIds (λ p. refl) refl refl

-- The way through 1 and 3 passes the check with its weight, and one without the edge does not.
checks-sample : dijkstra_checks_route (100 ∷ 101 ∷ 103 ∷ 102 ∷ []) sample ≡ some (some 3, sample)
unfolding dijkstra_checks_route checks_shortest_route checks_route checks_loop edge_by_id
    digraph_get_vertice digraph_find_vertice edges_of id_of
checks-sample = refl

checks-no_edge : dijkstra_checks_route (100 ∷ 101 ∷ 102 ∷ []) sample ≡ some (none, sample)
unfolding dijkstra_checks_route checks_shortest_route checks_route checks_loop edge_by_id
    digraph_get_vertice digraph_find_vertice edges_of id_of
checks-no_edge = refl

-- At a node without edges the check reads through NULL.
checks-fault : dijkstra_checks_route (102 ∷ 100 ∷ []) sample ≡ none
unfolding dijkstra_checks_route checks_shortest_route checks_route checks_loop edge_by_id
    digraph_get_vertice digraph_find_vertice edges_of id_of
checks-fault = refl
