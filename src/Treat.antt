-- ===== src/Treat.antt =====
-- sdn-common/sdn-process-packets.c on an enabled node (SDN_ENABLED_NODE, SDN_TX_RELIABILITY,
-- MANAGEMENT, CP_DETECT and DIST_DETECT): what the node does with a packet. A handler gives the
-- calls that it makes of other modules, in their order; none of them changes what it reads.
pub mod Decide
pub mod Shared
pub mod Local
pub mod LocalMult
pub mod Checked
pub mod Safety
pub mod Same
pub mod Arrival
pub mod Perform
use idit_sdn.Base.{ℕ, ◌+◌, ◌-◌, ◌*◌, ◌%◌, Bool, true, false, not, ◌&&◌, ◌||◌, Option, none, some}
use idit_sdn.Base.{List, [], ◌∷◌, ◌++◌, ◌==◌, if◌then◌else◌}
use idit_sdn.Queue.{sdn_success, sdn_error, dec8}
use idit_sdn.Packet.{Bytes, field, set_byte, copy_addr, bytes, Kind, packet_source}
use idit_sdn.Packet.{setup_path_len, ack_path_len, mult_path_len, mult_set_len, setup_size}
use idit_sdn.Packet.{src_rtd_setup_size, src_rtd_ack_size, mult_size, cont_mngt_size}
use idit_sdn.Packet.{control_flow_setup, data_flow_setup, control_flow_request, data_flow_request}
use idit_sdn.Packet.{neighbor_report, data_packet, src_routed_control_flow_setup}
use idit_sdn.Packet.{src_routed_data_flow_setup, multiple_control_flow_setup}
use idit_sdn.Packet.{multiple_data_flow_setup, nd, cd, ack_by_flow_id, src_routed_ack}
use idit_sdn.Packet.{register_flowid, ack_by_flow_address, mngt_cont_src_rtd, mngt_node_data}
use idit_sdn.Packet.{unknown_type}

-- `SDN_AWAITING_CONTROLLER_ROUTE`
abbrev pub awaiting_controller_route : ℕ
awaiting_controller_route = 1

-- What the handlers read besides the packet: `sdn_node_addr`, `sdn_state`, `sdn_controller_flow`,
-- `sdn_addr_broadcast`, and what a null pointer leads to.
pub record Config : Type 0 where
  pub own : ℕ
  pub state : ℕ
  pub controller_flow : ℕ
  pub broadcast : ℕ
  pub at_null : ℕ

-- The calls of other modules. `enqueue` is the macro `ALLOC_AND_ENQUEUE`, with the bytes it copies;
-- `steady_state` is the assignment of `sdn_state`.
pub data Effect : Type 0 where
  controlflow_insert : ℕ → ℕ → ℕ → Effect
  dataflow_insert : ℕ → ℕ → ℕ → Effect
  sld_rcv_addr_req : ℕ → Effect
  sld_rcv_flow_req : ℕ → Effect
  sld_rcv_ack : ℕ → ℕ → Effect
  send_control_flow_setup_ack : ℕ → ℕ → ℕ → ℕ → Effect
  send_data_flow_setup_ack : ℕ → ℕ → ℕ → ℕ → Effect
  steady_state : Effect
  send_neighbor_report : Effect
  enqueue : List ℕ → ℕ → Effect
  callback_receive : List ℕ → ℕ → ℕ → Effect
  nd_input : List ℕ → Effect
  cd_input : List ℕ → Effect
  send_data_management : ℕ → ℕ → Effect
  unknown_flow : List ℕ → ℕ → Effect
  unknown_dest : List ℕ → Effect
  add_suspect : ℕ → Effect
  metric_rx : Effect
  manag_update : ℕ → ℕ → Effect

-- `uint16_t` subtraction
abbrev pub sub16 : ℕ → ℕ → ℕ
sub16 len n = (len + (65536 - n)) % 65536

-- `path_len --` at its offset, then the address after the shorter path is the next destination.
abbrev pub next_hop_packet : ℕ → ℕ → Bytes → Bytes
next_hop_packet size path_len p =
    let q = set_byte path_len (dec8 (p path_len)) p in copy_addr 6 (size + 2 * q path_len) q

-- The same where the set flows stand before the path.
abbrev pub next_mult_packet : Bytes → Bytes
next_mult_packet p = next_hop_packet (mult_size + 3 * p mult_set_len) mult_path_len p

unfoldable pub treat_control_flow_setup : Config → Bytes → List Effect
treat_control_flow_setup c p =
    controlflow_insert (field p 8) (field p 11) (p 10)
    ∷ sld_rcv_addr_req (field p 8)
    ∷ send_control_flow_setup_ack c.own (field p 8) (field p 11) (p 10)
    ∷ []

unfoldable pub treat_data_flow_setup : Config → Bytes → List Effect
treat_data_flow_setup c p =
    sld_rcv_flow_req (field p 8)
    ∷ send_data_flow_setup_ack c.own (field p 8) (field p 11) (p 10)
    ∷ dataflow_insert (field p 8) (field p 11) (p 10)
    ∷ (if c.state == awaiting_controller_route && field p 8 == c.controller_flow
        then steady_state ∷ send_neighbor_report ∷ []
        else [])

-- Both source routed setups, with the type and the handler of the setup that they carry.
unfoldable pub treat_src_routed_setup :
    ℕ → (Config → Bytes → List Effect) → Config → Bytes → ℕ → List Effect
treat_src_routed_setup type treat c p len =
    if p setup_path_len == 0
    then (if field p 13 == c.own
        then treat c p
        else enqueue (bytes 0 setup_size (copy_addr 6 13 (set_byte 0 type p))) 0 ∷ [])
    else enqueue (bytes 0 (sub16 len 2) (next_hop_packet src_rtd_setup_size setup_path_len p)) 0
      ∷ []

unfoldable pub treat_src_routed_control_flow_setup : Config → Bytes → ℕ → List Effect
treat_src_routed_control_flow_setup = treat_src_routed_setup 0 treat_control_flow_setup

unfoldable pub treat_src_routed_data_flow_setup : Config → Bytes → ℕ → List Effect
treat_src_routed_data_flow_setup = treat_src_routed_setup 1 treat_data_flow_setup

unfoldable pub treat_src_routed_ack : Config → Bytes → ℕ → List Effect
treat_src_routed_ack c p len =
    if p ack_path_len == 0
    then (if field p 10 == c.own then sld_rcv_ack (p 8) (p 9) ∷ [] else [])
    else enqueue (bytes 0 (sub16 len 2) (next_hop_packet src_rtd_ack_size ack_path_len p)) 0 ∷ []

unfoldable pub treat_mult_data_flow_setup : Config → Bytes → ℕ → List Effect
treat_mult_data_flow_setup c p len =
    if p mult_path_len == 0
    then (let q = set_byte mult_set_len (dec8 (p mult_set_len)) p in
        let elem = mult_size + 3 * q mult_set_len in
        dataflow_insert (field q 8) (field q (elem + 1)) (q elem)
        ∷ sld_rcv_flow_req (field q 8)
        ∷ ((if c.state == awaiting_controller_route && field q 8 == c.controller_flow
              then steady_state ∷ []
              else [])
            ++ (if q mult_set_len == 0
                then []
                else enqueue (bytes 0 (sub16 len 3) (copy_addr 6 (elem + 1) q)) 0 ∷ [])))
    else enqueue (bytes 0 (sub16 len 2) (next_mult_packet p)) 0 ∷ []

-- The element is taken at `set_len` before it is decreased.
unfoldable pub treat_mult_control_flow_setup : Config → Bytes → ℕ → List Effect
treat_mult_control_flow_setup c p len =
    if p mult_path_len == 0
    then (let set_len = dec8 (p mult_set_len) in
        let elem = mult_size + 3 * p mult_set_len in
        let q = set_byte mult_set_len set_len p in
        controlflow_insert (field p 8) (field p (elem + 1)) (p elem)
        ∷ sld_rcv_addr_req (field p 8)
        ∷ (if set_len == 0
            then []
            else enqueue
                (bytes 0 (sub16 len 3) (copy_addr 6 (mult_size + 3 * q mult_set_len + 1) q)) 0
              ∷ []))
    else enqueue (bytes 0 (sub16 len 2) (next_mult_packet p)) 0 ∷ []

unfoldable pub treat_data : Bytes → ℕ → List Effect
treat_data p len = callback_receive (bytes 8 (sub16 len 8) p) (packet_source p) (field p 6) ∷ []

unfoldable pub treat_controller_mngt_requisition : Config → Bytes → ℕ → List Effect
treat_controller_mngt_requisition c p len =
    if p 10 == 0
    then (if field p 8 == c.own then send_data_management (field p 11) 2 ∷ [] else [])
    else enqueue (bytes 0 (sub16 len 2) (next_hop_packet cont_mngt_size 10 p)) 0 ∷ []

-- A node ignores the packets that only the controller treats. Of the management data, which a node
-- hands to `process_mngt_data`, that function reads the metrics and uses none.
unfoldable pub sdn_execute_action_receive : Config → Kind → Bytes → ℕ → List Effect
sdn_execute_action_receive c control_flow_setup p len = treat_control_flow_setup c p
sdn_execute_action_receive c data_flow_setup p len = treat_data_flow_setup c p
sdn_execute_action_receive c data_packet p len = treat_data p len
sdn_execute_action_receive c control_flow_request p len = []
sdn_execute_action_receive c data_flow_request p len = []
sdn_execute_action_receive c neighbor_report p len = []
sdn_execute_action_receive c src_routed_control_flow_setup p len =
    treat_src_routed_control_flow_setup c p len
sdn_execute_action_receive c src_routed_data_flow_setup p len =
    treat_src_routed_data_flow_setup c p len
sdn_execute_action_receive c multiple_control_flow_setup p len =
    treat_mult_control_flow_setup c p len
sdn_execute_action_receive c multiple_data_flow_setup p len = treat_mult_data_flow_setup c p len
sdn_execute_action_receive c nd p len = nd_input (bytes 0 len p) ∷ []
sdn_execute_action_receive c cd p len = cd_input (bytes 0 len p) ∷ []
sdn_execute_action_receive c ack_by_flow_id p len = []
sdn_execute_action_receive c ack_by_flow_address p len = sld_rcv_ack (p 8) (p 9) ∷ []
sdn_execute_action_receive c src_routed_ack p len = treat_src_routed_ack c p len
sdn_execute_action_receive c register_flowid p len = []
sdn_execute_action_receive c mngt_cont_src_rtd p len = treat_controller_mngt_requisition c p len
sdn_execute_action_receive c mngt_node_data p len = []
sdn_execute_action_receive c unknown_type p len = []
