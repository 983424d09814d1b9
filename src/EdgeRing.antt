-- ===== src/EdgeRing.antt =====
-- controller-server/digraph/digraph.c, the part that works on the edges of one vertex. A ring of
-- edges, linked by `next` and `back`, is the list of its edges from `edge_header` on, and the empty
-- ring (NULL) is the empty list. `edge->next` of the last edge is the first edge.
pub mod Laws
pub mod Marked
pub mod Flag
pub mod Reports
use idit_sdn.Base.{ℕ, zero, suc, Bool, true, false, Option, none, some, List, [], ◌∷◌, map}
use idit_sdn.Base.{◌==◌, ◌&&◌, if◌then◌else◌, find?}

-- `enum edge_estatus`
pub data Status : Type 0 where
  edge_new edge_static edge_updated edge_deleted : Status

-- `struct edge`; `vertice` is the pointer to the vertex that the edge leads to.
pub record Edge : Type 0 where
  pub vertice : ℕ
  pub etx : ℕ
  pub weight : ℕ
  pub status : Status

abbrev pub is_deleted : Edge → Bool
is_deleted e = elim e.status [ edge_deleted ↦ true | _ ↦ false ]

abbrev pub leads_to : ℕ → Edge → Bool
leads_to to e = e.vertice == to

unfoldable pub digraph_new_edge : ℕ → ℕ → ℕ → Edge
digraph_new_edge to etx weight = record {
  vertice = to;
  etx = etx;
  weight = weight;
  status = edge_new;
}

-- The first edge to the vertex, from the header on.
abbrev pub find_edge : ℕ → List Edge → Option Edge
find_edge to = find? (leads_to to)

-- A new edge stands behind the header.
unfoldable pub insert_edge : Edge → List Edge → List Edge
insert_edge e [] = e ∷ []
insert_edge e (h ∷ rest) = h ∷ e ∷ rest

-- What `digraph_add_edge` does to an edge that is there.
unfoldable pub refresh_edge : ℕ → ℕ → Edge → Edge
refresh_edge etx weight e =
    if e.weight == weight
    then record e { etx = etx; status = edge_static }
    else record e { etx = etx; weight = weight; status = edge_updated }

-- A write through the pointer that `digraph_find_edge` returned.
unfoldable pub update_edge : ℕ → (Edge → Edge) → List Edge → List Edge
update_edge to f [] = []
update_edge to f (e ∷ es) = if leads_to to e then f e ∷ es else e ∷ update_edge to f es

-- `digraph_add_edge` on the ring of the edges of `vertice_from`.
unfoldable pub add_edge : ℕ → ℕ → ℕ → List Edge → Edge × List Edge
unfolding refresh_edge digraph_new_edge insert_edge update_edge
add_edge to etx weight es = elim (find_edge to es) [
  | none ↦ let e = digraph_new_edge to etx weight in (e, insert_edge e es)
  | some e ↦ (refresh_edge etx weight e, update_edge to (refresh_edge etx weight) es)
]

-- `digraph_del_edge`: the first edge to the vertex is taken out. If it is the header, the header
-- becomes the next edge, or NULL.
unfoldable pub del_edge : ℕ → List Edge → List Edge
del_edge to [] = []
del_edge to (e ∷ es) = if leads_to to e then es else e ∷ del_edge to es

-- `while (edge_header != NULL) digraph_del_edge(from, edge_header->vertice);`
unfoldable pub del_all_loop : ℕ → List Edge → List Edge
del_all_loop zero es = es
del_all_loop (suc fuel) [] = []
del_all_loop (suc fuel) (e ∷ es) = del_all_loop fuel (del_edge e.vertice (e ∷ es))

abbrev pub mark : Edge → Edge
mark e = record e { status = edge_deleted }

-- `digraph_mark_edges_to_del_from` on a ring
unfoldable pub mark_all : List Edge → List Edge
mark_all es = map mark es

-- `digraph_mark_edges_to_del_towards` on a ring
unfoldable pub mark_towards : ℕ → List Edge → List Edge
mark_towards to es = map (λ e. if leads_to to e then mark e else e) es

-- The loop of `digraph_del_marked_edges_to_del_from`: the edges still to visit, the ring, and
-- `edge_deleted`.
unfoldable pub sweep : List Edge → List Edge → Bool → Bool × List Edge
sweep [] ring deleted = (deleted, ring)
sweep (e ∷ es) ring deleted =
    sweep es (if is_deleted e then del_edge e.vertice ring else ring)
      (if is_deleted e then true else deleted)

-- The check of the header, behind the loop; it does not set `edge_deleted`.
unfoldable pub sweep_header : List Edge → List Edge
sweep_header [] = []
sweep_header (h ∷ rest) = if is_deleted h then del_edge h.vertice (h ∷ rest) else h ∷ rest

-- The loop starts at `edge_header->next`, the header itself if the ring has one edge, and ends
-- where it comes back to the header.
unfoldable pub del_marked : List Edge → Bool × List Edge
unfolding sweep sweep_header del_edge
del_marked [] = (false, [])
del_marked (h ∷ []) =
    let (deleted, ring) = sweep (h ∷ []) (h ∷ []) false in (deleted, sweep_header ring)
del_marked (h ∷ e ∷ rest) =
    let (deleted, ring) = sweep (e ∷ rest) (h ∷ e ∷ rest) false in (deleted, sweep_header ring)

-- The edges behind the header in the loop of `digraph_del_edges_to`.
unfoldable pub del_behind : ℕ → List Edge → List Edge
del_behind to [] = []
del_behind to (e ∷ es) = if leads_to to e then del_behind to es else e ∷ del_behind to es

-- `digraph_del_edges_to` on a ring. If the header goes, the loop stands at the new header and ends.
unfoldable pub del_towards : ℕ → List Edge → List Edge
unfolding del_behind
del_towards to [] = []
del_towards to (h ∷ rest) = if leads_to to h then rest else h ∷ del_behind to rest

-- The edges behind the header in the loop of `digraph_del_marked_edges_to_del_towards`.
unfoldable pub del_marked_behind : ℕ → List Edge → Bool × List Edge
del_marked_behind to [] = (false, [])
del_marked_behind to (e ∷ es) =
    let (deleted, rest) = del_marked_behind to es in
    if leads_to to e && is_deleted e then (true, rest) else (deleted, e ∷ rest)

-- `digraph_del_marked_edges_to_del_towards` on a ring. The loop reads `edge->next` after the edge
-- was freed; the model reads the link that the edge had.
unfoldable pub del_marked_towards : ℕ → List Edge → Bool × List Edge
unfolding del_marked_behind
del_marked_towards to [] = (false, [])
del_marked_towards to (h ∷ rest) =
    let (deleted, rest') = del_marked_behind to rest in
    if leads_to to h && is_deleted h then (true, rest) else (deleted, h ∷ rest')
