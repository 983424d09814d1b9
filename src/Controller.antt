-- ===== src/Controller.antt =====
-- controller-server/sdn-process-packets-controller.c: what the controller does with a neighbour
-- report and an energy report, in the build of controller-pc.pro (SDN_NEIGHBORINFO_NEIGHBORS_TO_SRC and
-- SDN_NEIGHBORINFO_SRC_TO_NEIGHBORS are defined, SDN_INFORM_NEW_EDGE_SERIAL is not). The graph and
-- the number of nodes that the command line asks for are the state; the packets that it puts into
-- the send queue and the calls at its end are kept in order in `outputs`.
pub mod Links
pub mod Reports
pub mod Energy
use idit_sdn.Base.{ℕ, ◌+◌, ◌%◌, Bool, true, false, not, Option, none, some}
use idit_sdn.Base.{List, [], ◌∷◌, ◌++◌, ◌==◌, ◌||◌, if◌then◌else◌}
use idit_sdn.EdgeRing.{Status, Edge, edge_static}
use idit_sdn.Digraph.{Digraph, digraph_add_vertice, digraph_find_vertice, digraph_count_vertice}
use idit_sdn.Digraph.{digraph_add_edge, digraph_find_edge}
use idit_sdn.Digraph.Energy.{digraph_update_energy_vertice}
use idit_sdn.Digraph.{digraph_mark_edges_to_del_from, digraph_del_marked_edges_to_del_from}

abbrev pub full_graph_type : ℕ
full_graph_type = 98

-- The packets for the send queue, and the calls behind the report. `full_graph` is the call of
-- `sdn_send_queue_enqueue_custom` with its data, `time` and `msg_type`.
pub data Output : Type 0 where
  full_graph : (nodes time msg_type : ℕ) → Output
  data_flow_request : (source : ℕ) → Output
  update_flow_table_cache send_down_once : Output
  ack : (source : ℕ) → Output

-- `sdn_neighbor_report_list_t`
pub record Neighbor : Type 0 where
  pub neighbor : ℕ
  pub etx : ℕ

pub record Controller : Type 0 where
  pub graph : Digraph
  pub cli_nnodes : ℕ
  pub outputs : List Output

abbrev pub is_static : Edge → Bool
is_static e = elim e.status [ edge_static ↦ true | _ ↦ false ]

-- Behind `digraph_add_vertice`: is the graph complete? The number goes out as one byte.
unfoldable pub check_full_graph : ℕ → ℕ → Controller → Controller
check_full_graph time msg_type c =
    if digraph_count_vertice c.graph == c.cli_nnodes
    then record c {
      outputs = c.outputs ++ (full_graph (c.cli_nnodes % 256) time msg_type ∷ []);
      cli_nnodes = 0;
    }
    else c

-- The vertex of an id, made if it is not there, and whether it was made. The two places of the code
-- differ in the `time` and the `msg_type` that they pass on.
unfoldable pub known_vertice : ℕ → ℕ → ℕ → Controller → ℕ × Bool × Controller
unfolding check_full_graph
known_vertice time msg_type id c = elim (digraph_find_vertice id c.graph) [
  | some p ↦ (p, false, c)
  | none ↦
      let (p, g) = digraph_add_vertice id c.graph in
      let c' = check_full_graph time msg_type (record c { graph = g }) in
      (p, true, record c' { outputs = c'.outputs ++ (data_flow_request id ∷ []) })
]

module _ (get_weight : ℕ → ℕ → ℕ) where
  -- The edges of a report: the one to the neighbour is added or refreshed, the one back is only
  -- added. The flag says whether an edge was not static.
  unfoldable pub link_both : ℕ → ℕ → ℕ → Digraph → Bool × Digraph
  link_both source dest etx g =
      let (e, g') = digraph_add_edge get_weight source dest etx g in
      elim (digraph_find_edge dest source g') [
        | some _ ↦ (not (is_static e), g')
        | none ↦
            let (e', g'') = digraph_add_edge get_weight dest source etx g' in
            (not (is_static e) || not (is_static e'), g'')
      ]

  -- The body of the loop over the neighbours, with `digraph_changed`.
  unfoldable pub report_neighbor : ℕ → Neighbor → Bool × Controller → Bool × Controller
  unfolding known_vertice link_both
  report_neighbor source n (changed, c) =
      let (dest, _, c') = known_vertice 0 full_graph_type n.neighbor c in
      let (linked, g) = link_both source dest n.etx c'.graph in
      (changed || linked, record c' { graph = g })

  unfoldable pub report_neighbors : ℕ → List Neighbor → Bool × Controller → Bool × Controller
  unfolding report_neighbor
  report_neighbors source [] s = s
  report_neighbors source (n ∷ ns) s = report_neighbors source ns (report_neighbor source n s)

  unfoldable pub process_neighbor_report : Bool → ℕ → List Neighbor → Controller → Controller
  unfolding report_neighbors
  process_neighbor_report reliable id ns c =
      let (source, made, c1) = known_vertice full_graph_type 0 id c in
      let marked = record c1 { graph = digraph_mark_edges_to_del_from source c1.graph } in
      let (changed, c2) = report_neighbors source ns (made, marked) in
      let (deleted, g) = digraph_del_marked_edges_to_del_from source c2.graph in
      record c2 {
        graph = g;
        outputs =
            c2.outputs
            ++ ((if changed || deleted then update_flow_table_cache else send_down_once)
                ∷ (if reliable then ack id ∷ [] else []));
      }

  -- The battery level goes to the graph as one byte.
  unfoldable pub process_energy_metric : ℕ → ℕ → Controller → Controller
  process_energy_metric id battery c = elim (digraph_find_vertice id c.graph) [
    | some p ↦
        let (changed, g) = digraph_update_energy_vertice get_weight p (battery % 256) c.graph in
        record c {
          graph = g;
          outputs = c.outputs ++ (if changed then update_flow_table_cache ∷ [] else []);
        }
    | none ↦
        let (p, g) = digraph_add_vertice id c.graph in
        record c {
          graph = (digraph_update_energy_vertice get_weight p (battery % 256) g).1;
          outputs = c.outputs ++ (data_flow_request id ∷ update_flow_table_cache ∷ []);
        }
  ]
