-- ===== src/Tests/ControllerTests.antt =====
-- Reports of neighbours and of energy at concrete graphs.
use idit_sdn.Base.{arith}
use idit_sdn.Base.{
  ℕ, ◌<◌, ◌≡◌, refl, true, false, some, List, [], ◌∷◌, ◌==◌, ◌&&◌, ◌||◌, any, if◌then◌else◌,
}
use idit_sdn.EdgeRing.Laws.{has_edge, is_simple}
use idit_sdn.Digraph.Store.{is_live}
use idit_sdn.Digraph.Energy.{digraph_update_energy_vertice}
use idit_sdn.Digraph.Energy.Weights.{is_weighed}
use idit_sdn.Controller.Energy.{process_energy_metric_lem}
use idit_sdn.Controller.{process_energy_metric}
use idit_sdn.Digraph.{blank_label, energy_of}
use idit_sdn.EdgeRing.{add_edge, mark_all}
use idit_sdn.Digraph.{edges_of, digraph_find_vertice, modify, digraph_mark_edges_to_del_from}
use idit_sdn.Digraph.Invariant.{IsGraph}
use idit_sdn.Controller.{Controller, process_neighbor_report, full_graph, data_flow_request}
use idit_sdn.Controller.{update_flow_table_cache, ack, Neighbor, report_neighbors, report_neighbor}
use idit_sdn.Controller.{known_vertice, check_full_graph, link_both}
use idit_sdn.Digraph.{
  digraph_add_vertice, digraph_count_vertice, digraph_add_edge, digraph_find_edge,
}
use idit_sdn.Controller.Reports.{stands_for, process_neighbor_report_lem}
use idit_sdn.Tests.DigraphTests.{sample, sample-IsGraph, metric, link}
use idit_sdn.Digraph.{id_of}
use idit_sdn.EdgeRing.{update_edge}

-- Five nodes are awaited; the graph has four.
abbrev four_nodes : Controller
four_nodes = record { graph = sample; cli_nnodes = 5; outputs = [] }

-- The node 101 reports 100 and the new node 104.
abbrev two_neighbors : List Neighbor
two_neighbors = record { neighbor = 100; etx = 3 } ∷ record { neighbor = 104; etx = 4 } ∷ []

report-outputs :
    (process_neighbor_report metric true 101 two_neighbors four_nodes).outputs
    ≡ full_graph 5 0 98 ∷ data_flow_request 104 ∷ update_flow_table_cache ∷ ack 101 ∷ []
unfolding process_neighbor_report report_neighbors report_neighbor known_vertice check_full_graph
    link_both digraph_find_vertice digraph_find_edge edges_of digraph_add_edge modify
    digraph_mark_edges_to_del_from digraph_count_vertice digraph_add_vertice add_edge mark_all
report-outputs = refl

-- A report of an unknown node passes the type of the message as its time.
report-swapped :
    (process_neighbor_report metric true 104 [] four_nodes).outputs
    ≡ full_graph 5 98 0 ∷ data_flow_request 104 ∷ update_flow_table_cache ∷ ack 104 ∷ []
unfolding process_neighbor_report report_neighbors report_neighbor known_vertice check_full_graph
    link_both digraph_find_vertice digraph_count_vertice digraph_add_vertice
report-swapped = refl

process_neighbor_report_lem_example :
    let g' = (process_neighbor_report metric true 101 two_neighbors four_nodes).graph in
    (p : ℕ) × (digraph_find_vertice 101 g' ≡ some p)
    × IsGraph g'
    × ((r q : ℕ)
        → has_edge q (edges_of r g'.vertices) ≡ (
            if r == p
            then any (λ n. stands_for n.neighbor q g') two_neighbors
            else ((q == p) && any (λ n. stands_for n.neighbor r g') two_neighbors)
              || has_edge q (edges_of r sample.vertices)))
process_neighbor_report_lem_example =
    process_neighbor_report_lem metric true 101 two_neighbors four_nodes sample-IsGraph

-- Two nodes with edges in both directions.
abbrev pair : Controller
pair = record {
  graph = record {
    vertices =
        record { ptr = 0; vertice_id = 100; energy = 255; edges = link 1 56 ∷ [] }
        ∷ record { ptr = 1; vertice_id = 101; energy = 200; edges = link 0 56 ∷ [] }
        ∷ [];
    labels = λ _. blank_label;
    next_ptr = 2;
  };
  cli_nnodes = 0;
  outputs = [];
}

pair-bounded : (p : ℕ) → is_live p pair.graph.vertices ≡ true → p < 2
pair-bounded p h = ground arith

pair-simple : (p : ℕ) → is_simple (edges_of p pair.graph.vertices) ≡ true
unfolding edges_of
pair-simple p = ground arith

pair-closed :
    (p q : ℕ)
    → has_edge q (edges_of p pair.graph.vertices) ≡ true
    → is_live q pair.graph.vertices ≡ true
unfolding edges_of
pair-closed p q h = ground arith

pair-IsGraph : IsGraph pair.graph
pair-IsGraph = record {
  distinct = refl;
  bounded = pair-bounded;
  simple = pair-simple;
  closed = pair-closed;
}

pair-symmetric :
    (a q : ℕ)
    → has_edge q (edges_of a pair.graph.vertices) ≡ true
    → has_edge a (edges_of q pair.graph.vertices) ≡ true
unfolding edges_of
pair-symmetric a q h = ground arith

pair-weighed : (a q : ℕ) → is_weighed metric a q pair.graph ≡ true
unfolding edges_of energy_of
pair-weighed a q = ground arith

process_energy_metric_lem_example :
    let g' = (process_energy_metric metric 100 50 pair).graph in
    IsGraph g' × ((a q : ℕ) → is_weighed metric a q g' ≡ true)
process_energy_metric_lem_example =
    process_energy_metric_lem metric 100 50 pair pair-IsGraph pair-symmetric pair-weighed

-- The update reaches both edges.
update-pair :
    (digraph_update_energy_vertice metric 0 50 pair.graph).1.vertices
    ≡ record { ptr = 0; vertice_id = 100; energy = 50; edges = link 1 206 ∷ [] }
      ∷ record { ptr = 1; vertice_id = 101; energy = 200; edges = link 0 206 ∷ [] }
      ∷ []
unfolding digraph_update_energy_vertice edges_of energy_of modify id_of update_edge
update-pair = refl

-- In `sample` no edge leads from 3 back to 1: the weight of the edge from 1 to 3 stays that of the
-- old energies.
update-stale : is_weighed metric 1 3 (digraph_update_energy_vertice metric 3 50 sample).1 ≡ false
unfolding digraph_update_energy_vertice edges_of energy_of modify
update-stale = refl
