-- ===== src/Tests/DigraphTests.antt =====
-- The graph of digraph.c at a concrete graph.
use idit_sdn.Base.{ℕ, suc, ◌+◌, ◌<◌, ◌≡◌, refl, true, some, none}
use idit_sdn.Base.{[], ◌∷◌, ◌==◌, ◌&&◌, if◌then◌else◌, ◌-◌, arith}
use idit_sdn.EdgeRing.{Edge, edge_static}
use idit_sdn.EdgeRing.Laws.{has_edge, is_simple}
use idit_sdn.EdgeRing.Marked.{without}
use idit_sdn.Digraph.{Digraph, blank_label, edges_of, energy_of, lower}
use idit_sdn.Digraph.{digraph_add_edge, digraph_find_edge, digraph_get_vertice}
use idit_sdn.Digraph.{digraph_find_vertice, digraph_count_vertice, digraph_del_vertice}
use idit_sdn.Digraph.Store.{is_live}
use idit_sdn.Digraph.Invariant.{IsGraph}
use idit_sdn.Digraph.Deletion.{del_vertice-IsGraph, del_vertice-edges}
use idit_sdn.Digraph.Edges.{add_edge_lem}
use idit_sdn.Digraph.Vertices.{get_vertice_lem}

abbrev pub link : ℕ → ℕ → Edge
link p w = record { vertice = p; etx = 1; weight = w; status = edge_static }

-- The source 0 has edges to 1, 2 and 3; 1 has one to 3, and 3 one to 2.
abbrev pub sample : Digraph
sample = record {
  vertices =
      record {
        ptr = 0;
        vertice_id = 100;
        energy = 255;
        edges = link 1 1 ∷ link 2 5 ∷ link 3 10 ∷ [];
      }
      ∷ record { ptr = 1; vertice_id = 101; energy = 200; edges = link 3 1 ∷ [] }
      ∷ record { ptr = 2; vertice_id = 102; energy = 255; edges = [] }
      ∷ record { ptr = 3; vertice_id = 103; energy = 255; edges = link 2 1 ∷ [] }
      ∷ [];
  labels = λ _. blank_label;
  next_ptr = 4;
}

sample-bounded : (p : ℕ) → is_live p sample.vertices ≡ true → p < 4
sample-bounded p h = ground arith

sample-simple : (p : ℕ) → is_simple (edges_of p sample.vertices) ≡ true
unfolding edges_of
sample-simple p = ground arith

sample-closed :
    (p q : ℕ) → has_edge q (edges_of p sample.vertices) ≡ true → is_live q sample.vertices ≡ true
unfolding edges_of
sample-closed p q h = ground arith

pub sample-IsGraph : IsGraph sample
sample-IsGraph = record {
  distinct = refl;
  bounded = sample-bounded;
  simple = sample-simple;
  closed = sample-closed;
}

-- A metric: the cost, more for a low energy.
abbrev pub metric : ℕ → ℕ → ℕ
metric energy etx = etx + (255 - energy)

del_vertice-IsGraph_example : IsGraph (digraph_del_vertice 3 sample)
del_vertice-IsGraph_example = del_vertice-IsGraph 3 sample-IsGraph refl

del_vertice-edges_example :
    edges_of 0 (digraph_del_vertice 3 sample).vertices
    ≡ (if 3 == 0 then [] else without 3 (edges_of 0 sample.vertices))
del_vertice-edges_example = del_vertice-edges 3 0 sample-IsGraph refl

add_edge_lem_example :
    let (e, g') = digraph_add_edge metric 2 1 7 sample in
    (digraph_find_edge 2 1 g'
      ≡ (if (2 == 2) && (1 == 1) then some e else digraph_find_edge 2 1 sample))
    × (e.vertice ≡ 1)
    × (e.etx ≡ 7)
    × (e.weight ≡ metric (lower (energy_of 2 sample.vertices) (energy_of 1 sample.vertices)) 7)
add_edge_lem_example = add_edge_lem metric 2 1 7 2 1 sample refl

get_vertice_lem_example :
    let (p, g') = digraph_get_vertice 105 sample in
    (digraph_find_vertice 105 g' ≡ (if 105 == 105 then some p else digraph_find_vertice 105 sample))
    × (digraph_count_vertice g' ≡ elim (digraph_find_vertice 105 sample) [
      | some _ ↦ digraph_count_vertice sample
      | none ↦ suc (digraph_count_vertice sample)
    ])
get_vertice_lem_example = get_vertice_lem 105 105 sample
