-- ===== src/Digraph/Edges.antt =====
-- Adding, finding and refreshing the edges of digraph.c.
use idit_sdn.Base.{ℕ, ◌≡◌, true}
use idit_sdn.Base.{◌==◌, ◌&&◌, if◌then◌else◌}
use idit_sdn.Base.{some, arith}
use idit_sdn.EdgeRing.{add_edge}
use idit_sdn.EdgeRing.Laws.{find-add_edge, add_edge_fields}
use idit_sdn.Digraph.{Digraph, edges_of, energy_of, lower, digraph_add_edge, digraph_find_edge}
use idit_sdn.Digraph.Store.{is_live, edges-set_edges}

-- After `digraph_add_edge` on a vertex of the ring a search finds the returned edge, whose weight
-- is that of the lower of the two energies, and every other edge of the graph as before.
pub add_edge_lem :
    (get_weight : ℕ → ℕ → ℕ) (from to etx p q : ℕ) (g : Digraph)
    → is_live from g.vertices ≡ true
    → let (e, g') = digraph_add_edge get_weight from to etx g in
      (digraph_find_edge p q g'
        ≡ (if (from == p) && (to == q) then some e else digraph_find_edge p q g))
      × (e.vertice ≡ to)
      × (e.etx ≡ etx)
      × (e.weight ≡ get_weight (lower (energy_of from g.vertices) (energy_of to g.vertices)) etx)
unfolding digraph_add_edge digraph_find_edge
add_edge_lem get_weight from to etx p q g live =
    let w = get_weight (lower (energy_of from g.vertices) (energy_of to g.vertices)) etx in
    let es = edges_of from g.vertices in
    let (same, cost, weight) = add_edge_fields to etx w es in
    (
      ground (
        arith,
        edges-set_edges from p (λ es. (add_edge to etx w es).1) g.vertices live,
        find-add_edge to etx w q es,
      ),
      same,
      cost,
      weight,
    )
