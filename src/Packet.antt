-- ===== src/Packet.antt =====
-- sdn-common/sdn-protocol.h and `check_packet_len` of sdn-common/sdn-process-packets.c: how packets
-- are laid out, how they are routed and how long they have to be. A packet is the memory from its
-- pointer on, a function that gives the byte at each offset. Addresses and flow identifiers have
-- two bytes, and the processor is little-endian.
pub mod Agree
use idit_sdn.Base.{ℕ, zero, suc, ◌+◌, ◌*◌, ◌%◌, Bool, true, false, List, [], ◌∷◌}
use idit_sdn.Base.{◌==◌, ltb, if◌then◌else◌}
use idit_sdn.Queue.{sdn_success, sdn_error}

abbrev pub Bytes : Type 0
Bytes = ℕ → ℕ

-- The two bytes at an offset, as a number.
abbrev pub field : Bytes → ℕ → ℕ
field p i = p i + 256 * p (i + 1)

abbrev pub set_byte : ℕ → ℕ → Bytes → Bytes
set_byte i v p j = if j == i then v else p j

-- `sdnaddr_copy` within a packet.
abbrev pub copy_addr : ℕ → ℕ → Bytes → Bytes
copy_addr to from p = set_byte (to + 1) (p (from + 1)) (set_byte to (p from) p)

-- The bytes from an offset on, as many as told.
unfoldable pub bytes : ℕ → ℕ → Bytes → List ℕ
bytes i zero p = []
bytes i (suc n) p = p i ∷ bytes (i + 1) n p

-- `enum sdn_packet_type`, and what is no packet type.
pub data Kind : Type 0 where
  control_flow_setup : Kind
  data_flow_setup : Kind
  control_flow_request : Kind
  data_flow_request : Kind
  neighbor_report : Kind
  data_packet : Kind
  src_routed_control_flow_setup : Kind
  src_routed_data_flow_setup : Kind
  multiple_control_flow_setup : Kind
  multiple_data_flow_setup : Kind
  nd : Kind
  cd : Kind
  ack_by_flow_id : Kind
  src_routed_ack : Kind
  register_flowid : Kind
  ack_by_flow_address : Kind
  mngt_cont_src_rtd : Kind
  mngt_node_data : Kind
  unknown_type : Kind

-- The header's first byte, `type`.
unfoldable pub kind_of : ℕ → Kind
kind_of type =
    if type == 0
    then control_flow_setup
    else if type == 1
    then data_flow_setup
    else if type == 2
    then control_flow_request
    else if type == 3
    then data_flow_request
    else if type == 4
    then neighbor_report
    else if type == 5
    then data_packet
    else if type == 6 + 224
    then src_routed_control_flow_setup
    else if type == 7 + 224
    then src_routed_data_flow_setup
    else if type == 8 + 208
    then multiple_control_flow_setup
    else if type == 9 + 208
    then multiple_data_flow_setup
    else if type == 10
    then nd
    else if type == 11
    then cd
    else if type == 12
    then ack_by_flow_id
    else if type == 13
    then src_routed_ack
    else if type == 14
    then register_flowid
    else if type == 16
    then ack_by_flow_address
    else if type == 17
    then mngt_cont_src_rtd
    else if type == 18
    then mngt_node_data
    else unknown_type

-- `SDN_ROUTED_BY_FLOWID`
unfoldable pub routed_by_flowid : Kind → Bool
routed_by_flowid control_flow_request = true
routed_by_flowid data_flow_request = true
routed_by_flowid neighbor_report = true
routed_by_flowid data_packet = true
routed_by_flowid ack_by_flow_id = true
routed_by_flowid register_flowid = true
routed_by_flowid mngt_node_data = true
routed_by_flowid _ = false

-- `SDN_ROUTED_BY_ADDR`
unfoldable pub routed_by_addr : Kind → Bool
routed_by_addr control_flow_setup = true
routed_by_addr ack_by_flow_address = true
routed_by_addr data_flow_setup = true
routed_by_addr _ = false

-- `SDN_ROUTED_BY_SRC`
unfoldable pub routed_by_src : Kind → Bool
routed_by_src src_routed_control_flow_setup = true
routed_by_src src_routed_data_flow_setup = true
routed_by_src multiple_control_flow_setup = true
routed_by_src multiple_data_flow_setup = true
routed_by_src src_routed_ack = true
routed_by_src mngt_cont_src_rtd = true
routed_by_src _ = false

-- `SDN_ROUTED_NOT`
unfoldable pub routed_not : Kind → Bool
routed_not nd = true
routed_not cd = true
routed_not _ = false

-- `SDN_GET_PACKET_FLOW` and `SDN_GET_PACKET_ADDR`, at the size of the header.
abbrev pub packet_flow : Bytes → ℕ
packet_flow p = field p 6

abbrev pub packet_addr : Bytes → ℕ
packet_addr p = field p 6

-- The header's `source`.
abbrev pub packet_source : Bytes → ℕ
packet_source p = field p 4

-- `SDN_GET_PACKET_REAL_DEST`, where `at_null` is what the null pointer leads to.
unfoldable pub packet_real_dest : ℕ → Kind → Bytes → ℕ
packet_real_dest at_null src_routed_control_flow_setup p = field p 13
packet_real_dest at_null src_routed_data_flow_setup p = field p 13
packet_real_dest at_null src_routed_ack p = field p 10
packet_real_dest at_null mngt_cont_src_rtd p = field p 8
packet_real_dest at_null _ p = at_null

-- The offset of `path_len` in the source routed packets, and of `set_len`.
abbrev pub setup_path_len : ℕ
setup_path_len = 15

abbrev pub ack_path_len : ℕ
ack_path_len = 12

abbrev pub mult_path_len : ℕ
mult_path_len = 10

abbrev pub mult_set_len : ℕ
mult_set_len = 11

-- The sizes of the structures.
abbrev pub setup_size : ℕ
setup_size = 13

abbrev pub src_rtd_setup_size : ℕ
src_rtd_setup_size = 16

abbrev pub src_rtd_ack_size : ℕ
src_rtd_ack_size = 13

abbrev pub mult_size : ℕ
mult_size = 12

abbrev pub cont_mngt_size : ℕ
cont_mngt_size = 13

-- The length that `check_packet_len` asks of a packet of the kind.
unfoldable pub least_len : Kind → Bytes → ℕ
least_len control_flow_setup p = setup_size
least_len data_flow_setup p = setup_size
least_len data_packet p = 8
least_len control_flow_request p = 10
least_len data_flow_request p = 10
least_len neighbor_report p = 9 + 4 * p 8
least_len src_routed_control_flow_setup p = src_rtd_setup_size + 2 * p setup_path_len
least_len src_routed_data_flow_setup p = src_rtd_setup_size + 2 * p setup_path_len
least_len multiple_control_flow_setup p = mult_size + 3 * p mult_set_len + 2 * p mult_path_len
least_len multiple_data_flow_setup p = mult_size + 3 * p mult_set_len + 2 * p mult_path_len
least_len nd p = 6
least_len cd p = 6
least_len ack_by_flow_id p = 8
least_len ack_by_flow_address p = 10
least_len src_routed_ack p = src_rtd_ack_size + 2 * p ack_path_len
least_len register_flowid p = 10
least_len mngt_cont_src_rtd p = cont_mngt_size
least_len mngt_node_data p = 0
least_len unknown_type p = 0

unfoldable pub known_type : Kind → Bool
known_type unknown_type = false
known_type _ = true

unfoldable pub check_packet_len : Kind → Bytes → ℕ → ℕ
check_packet_len k p len =
    if known_type k then (if ltb len (least_len k p) then sdn_error else sdn_success) else sdn_error
