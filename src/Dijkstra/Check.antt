-- ===== src/Dijkstra/Check.antt =====
-- `dijkstra_checks_route` of controller-server/digraph/dijkstra.c: does a route that the cache has
-- still follow edges of the graph, and what does it weigh now? Where the code reads a field of NULL,
-- because a vertex has no edges or the route has no next entry, there is no result.
pub mod Found
use idit_sdn.Base.{ℕ, ◌+◌, Option, none, some, List, [], ◌∷◌, ltb, ◌==◌, if◌then◌else◌, find?}
use idit_sdn.EdgeRing.{Edge}
use idit_sdn.Digraph.{Digraph, Vertice, edges_of, id_of, digraph_get_vertice}

-- The search for the edge to the next entry, from the header of the ring on; `none` if there is no
-- header.
unfoldable pub edge_by_id : ℕ → List Vertice → List Edge → Option (Option Edge)
edge_by_id next vs [] = none
edge_by_id next vs (h ∷ es) = some (find? (λ e. id_of e.vertice vs == next) (h ∷ es))

-- The answer is NULL, or the weight of the whole route; `none` is a weight of -1.
module _ (extend_checked : Option ℕ → ℕ → ℕ) where
  -- The loop, from the entry with the id `id`; `rest` are the ids of the entries behind it.
  unfoldable pub checks_loop : ℕ → List ℕ → Option ℕ → Digraph → Option (Option ℕ × Digraph)
  unfolding edge_by_id
  checks_loop id [] weight g = none
  checks_loop id (next ∷ rest) weight g =
      let (p, g') = digraph_get_vertice id g in
      elim (edge_by_id next g'.vertices (edges_of p g'.vertices)) [
        | none ↦ none
        | some none ↦ some (none, g')
        | some (some e) ↦ elim rest [
          | [] ↦ some (some (extend_checked weight e.weight), g')
          | _ ∷ _ ↦ checks_loop next rest (some (extend_checked weight e.weight)) g'
        ]
      ]

  -- A route is the list of the ids of its entries, from the source to the target.
  unfoldable pub checks_route : Option ℕ → List ℕ → Digraph → Option (Option ℕ × Digraph)
  unfolding checks_loop
  checks_route start [] g = none
  checks_route start (id ∷ rest) g = checks_loop id rest start g

-- `current_route->route_weight + edge->weight`, from 0
abbrev pub add_checked : Option ℕ → ℕ → ℕ
add_checked none w = w
add_checked (some v) w = v + w

-- The first weight, and then each that is larger.
abbrev pub worst_checked : Option ℕ → ℕ → ℕ
worst_checked none w = w
worst_checked (some v) w = if ltb v w then w else v

unfoldable pub checks_shortest_route : List ℕ → Digraph → Option (Option ℕ × Digraph)
unfolding checks_route
checks_shortest_route = checks_route add_checked (some 0)

unfoldable pub checks_widest_shortest_route : List ℕ → Digraph → Option (Option ℕ × Digraph)
unfolding checks_route
checks_widest_shortest_route = checks_route worst_checked none

-- PATH_FINDER_ALGORITHM is SHORTEST_PATH.
unfoldable pub dijkstra_checks_route : List ℕ → Digraph → Option (Option ℕ × Digraph)
unfolding checks_shortest_route
dijkstra_checks_route = checks_shortest_route
