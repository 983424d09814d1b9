-- ===== src/Controller/Energy.antt =====
-- An energy report of sdn-process-packets-controller.c, on the graph.
use idit_sdn.Base.{ℕ, ◌≡◌, sym, subst, true, ◌%◌}
use idit_sdn.Base.{arith, ==→eq}
use idit_sdn.EdgeRing.Laws.{has_edge, find_edge-has}
use idit_sdn.Digraph.{Digraph, edges_of, energy_of, new_vertice}
use idit_sdn.Digraph.{digraph_add_vertice, digraph_get_vertice}
use idit_sdn.Digraph.Energy.{digraph_update_energy_vertice}
use idit_sdn.Digraph.Energy.Weights.{is_weighed, update_energy_lem}
use idit_sdn.Digraph.Store.{is_live, at-insert, edges-dead}
use idit_sdn.Digraph.Invariant.{IsGraph, get_vertice-IsGraph, fresh-dead}
use idit_sdn.Digraph.Vertices.{find-live}
use idit_sdn.Controller.{Controller, process_energy_metric}
use idit_sdn.Controller.Links.{get-found, get-edges}

energy-get :
    (id q : ℕ) {g : Digraph}
    → IsGraph g
    → is_live q g.vertices ≡ true
    → energy_of q (digraph_get_vertice id g).1.vertices ≡ energy_of q g.vertices
unfolding digraph_get_vertice digraph_add_vertice energy_of
energy-get id q {g} i h =
    ground
      (arith, at-insert q (new_vertice g.next_ptr id) g.vertices, fresh-dead i, ==→eq g.next_ptr q)

-- A vertex that is made has no edges to weigh.
get-weighed :
    (get_weight : ℕ → ℕ → ℕ) (id a q : ℕ) {g : Digraph}
    → IsGraph g
    → is_weighed get_weight a q g ≡ true
    → is_weighed get_weight a q (digraph_get_vertice id g).1 ≡ true
get-weighed get_weight id a q {g} i w = ground (
  arith,
  get-edges id a i,
  find_edge-has q (edges_of a g.vertices),
  i.closed a q,
  edges-dead a g.vertices,
  energy-get id a i,
  energy-get id q i,
)

-- The graph after the report is that of the update at the vertex that was found or made.
energy_metric-graph :
    (get_weight : ℕ → ℕ → ℕ) (id battery : ℕ) (c : Controller)
    → let (p, g) = digraph_get_vertice id c.graph in
      (process_energy_metric get_weight id battery c).graph
      ≡ (digraph_update_energy_vertice get_weight p (battery % 256) g).1
unfolding process_energy_metric digraph_get_vertice
energy_metric-graph get_weight id battery c = ground arith

-- In a graph where every edge has one that leads back and the weight of the lower energy of its
-- ends, an energy report keeps the invariant and the weights.
pub process_energy_metric_lem :
    (get_weight : ℕ → ℕ → ℕ) (id battery : ℕ) (c : Controller)
    → IsGraph c.graph
    → ((a q : ℕ)
        → has_edge q (edges_of a c.graph.vertices) ≡ true
        → has_edge a (edges_of q c.graph.vertices) ≡ true)
    → ((a q : ℕ) → is_weighed get_weight a q c.graph ≡ true)
    → let g' = (process_energy_metric get_weight id battery c).graph in
      IsGraph g' × ((a q : ℕ) → is_weighed get_weight a q g' ≡ true)
process_energy_metric_lem get_weight id battery c i symmetric w =
    let (p, g) = digraph_get_vertice id c.graph in
    let (i', w') =
      update_energy_lem get_weight p (battery % 256) g (get_vertice-IsGraph id i)
        (find-live id p g (get-found id c.graph))
        (λ a h. ground (arith, get-edges id a i, get-edges id p i, symmetric a p))
        (λ a q. get-weighed get_weight id a q i (w a q)) in
    (
      subst IsGraph (sym (energy_metric-graph get_weight id battery c)) i',
      λ a q. ground (arith, energy_metric-graph get_weight id battery c, w' a q),
    )
