-- ===== src/Treat/Checked.antt =====
-- What a packet holds that passes the check of its length, and that its handler reads no more.
use idit_sdn.Base.{ℕ, ◌+◌, ◌*◌, ◌≤◌, ◌<◌, ◌≡◌, refl, ap}
use idit_sdn.Base.{inl, inr, Bool, true, not, ◌&&◌, ◌||◌}
use idit_sdn.Base.{[], ◌∷◌, arith, ltb, leb, ◌==◌}
use idit_sdn.Base.{if◌then◌else◌, Bool-cases}
use idit_sdn.Base.{ltb→lt, ltb→le}
use idit_sdn.Queue.{sdn_success, sdn_error}
use idit_sdn.Packet.{
  Bytes, Kind, check_packet_len, known_type, least_len, mult_path_len, mult_set_len,
}
use idit_sdn.Packet.{routed_by_flowid, routed_by_addr, routed_by_src, routed_not}
use idit_sdn.Packet.{control_flow_setup, data_flow_setup, control_flow_request, data_flow_request}
use idit_sdn.Packet.{neighbor_report, data_packet, src_routed_control_flow_setup}
use idit_sdn.Packet.{src_routed_data_flow_setup, multiple_control_flow_setup}
use idit_sdn.Packet.{multiple_data_flow_setup, nd, cd, ack_by_flow_id, src_routed_ack}
use idit_sdn.Packet.{register_flowid, ack_by_flow_address, mngt_cont_src_rtd, mngt_node_data}
use idit_sdn.Packet.{unknown_type}
use idit_sdn.Packet.Agree.{Agree, Agree-at, bytes-Agree}
use idit_sdn.Treat.{Config, treat_control_flow_setup, treat_data_flow_setup}
use idit_sdn.Treat.{treat_src_routed_control_flow_setup, treat_src_routed_data_flow_setup}
use idit_sdn.Treat.{sdn_execute_action_receive, nd_input, cd_input}
use idit_sdn.Treat.Decide.{is_data}
use idit_sdn.Treat.Local.{control-local, data-local, setup-local, ack-local, payload-local}
use idit_sdn.Treat.Local.{requisition-local, mult_control-local}
use idit_sdn.Treat.LocalMult.{mult_data-local}

-- The packets whose treatment is guarded by the check of their length: not those with flows to set
-- in a control table whose path is done, nor those with none to set, nor the management packets
-- whose length the check leaves open.
unfoldable pub guarded : Kind → Bytes → ℕ → Bool
guarded multiple_control_flow_setup p len = not (p mult_path_len == 0)
guarded multiple_data_flow_setup p len = not (p mult_path_len == 0 && p mult_set_len == 0)
guarded mngt_cont_src_rtd p len = p 10 == 0
guarded mngt_node_data p len = leb 8 len
guarded _ p len = true

-- A length that is read past the packet makes it too short whatever is read.
longer-local :
    (n base at x y : ℕ)
    → at < base
    → (at < n → x ≡ y)
    → (if ltb n (base + x) then sdn_error else sdn_success)
      ≡ (if ltb n (base + y) then sdn_error else sdn_success)
longer-local n base at x y h same = elim (Bool-cases (ltb at n)) [
  | inl l ↦ rw (same (ltb→lt at n l)) refl
  | inr ge ↦ ground (arith, ltb→le at n ge)
]

module _ (n : ℕ) (p q : Bytes) (same : Agree n p q) where
  mult_check-local :
      (if ltb n (12 + 3 * p 11 + 2 * p 10) then sdn_error else sdn_success)
      ≡ (if ltb n (12 + 3 * q 11 + 2 * q 10) then sdn_error else sdn_success)
  mult_check-local = elim (Bool-cases (ltb 11 n)) [
    | inl l ↦
        ground
          (arith, Agree-at n p q same 11 (ltb→lt 11 n l), Agree-at n p q same 10 (ground arith))
    | inr ge ↦ ground (arith, ltb→le 11 n ge)
  ]

  -- The check comes to the same even where it reads a length that the packet does not hold.
  pub check-local : (k : Kind) → check_packet_len k p n ≡ check_packet_len k q n
  unfolding check_packet_len known_type least_len
  check-local control_flow_setup = refl
  check-local data_flow_setup = refl
  check-local control_flow_request = refl
  check-local data_flow_request = refl
  check-local neighbor_report =
      longer-local n 9 8 (4 * p 8) (4 * q 8) (omega arith)
        (λ h. ap (λ v. 4 * v) (Agree-at n p q same 8 h))
  check-local data_packet = refl
  check-local src_routed_control_flow_setup =
      longer-local n 16 15 (2 * p 15) (2 * q 15) (omega arith)
        (λ h. ap (λ v. 2 * v) (Agree-at n p q same 15 h))
  check-local src_routed_data_flow_setup =
      longer-local n 16 15 (2 * p 15) (2 * q 15) (omega arith)
        (λ h. ap (λ v. 2 * v) (Agree-at n p q same 15 h))
  check-local multiple_control_flow_setup = mult_check-local
  check-local multiple_data_flow_setup = mult_check-local
  check-local nd = refl
  check-local cd = refl
  check-local ack_by_flow_id = refl
  check-local src_routed_ack =
      longer-local n 13 12 (2 * p 12) (2 * q 12) (omega arith)
        (λ h. ap (λ v. 2 * v) (Agree-at n p q same 12 h))
  check-local register_flowid = refl
  check-local ack_by_flow_address = refl
  check-local mngt_cont_src_rtd = refl
  check-local mngt_node_data = refl
  check-local unknown_type = refl

  pub execute-local :
      (c : Config) (k : Kind)
      → least_len k p ≤ n
      → guarded k p n ≡ true
      → sdn_execute_action_receive c k p n ≡ sdn_execute_action_receive c k q n
  unfolding sdn_execute_action_receive least_len guarded treat_src_routed_control_flow_setup
      treat_src_routed_data_flow_setup
  execute-local c control_flow_setup h g = control-local n p q same c h
  execute-local c data_flow_setup h g = data-local n p q same c h
  execute-local c control_flow_request h g = refl
  execute-local c data_flow_request h g = refl
  execute-local c neighbor_report h g = refl
  execute-local c data_packet h g = payload-local n p q same h
  execute-local c src_routed_control_flow_setup h g =
      setup-local n p q same 0 treat_control_flow_setup c (control-local n p q same c) h
  execute-local c src_routed_data_flow_setup h g =
      setup-local n p q same 1 treat_data_flow_setup c (data-local n p q same c) h
  execute-local c multiple_control_flow_setup h g =
      mult_control-local n p q same c h (ground (arith, g))
  execute-local c multiple_data_flow_setup h g = mult_data-local n p q same c h (ground (arith, g))
  execute-local c nd h g = ap (λ l. nd_input l ∷ []) (bytes-Agree n p q same 0 n (omega arith))
  execute-local c cd h g = ap (λ l. cd_input l ∷ []) (bytes-Agree n p q same 0 n (omega arith))
  execute-local c ack_by_flow_id h g = refl
  execute-local c src_routed_ack h g = ack-local n p q same c h
  execute-local c register_flowid h g = refl
  execute-local c ack_by_flow_address h g =
      rw (Agree-at n p q same 8 (omega arith), Agree-at n p q same 9 (omega arith)) refl
  execute-local c mngt_cont_src_rtd h g = requisition-local n p q same c h g
  execute-local c mngt_node_data h g = refl
  execute-local c unknown_type h g = refl

-- A packet that passes the check has the length, and holds what it is routed by.
pub check-least_len :
    (k : Kind) (p : Bytes) (n : ℕ)
    → (check_packet_len k p n == sdn_success) ≡ true
    → least_len k p ≤ n
unfolding check_packet_len
check-least_len k p n h =
    ground (arith, Bool-cases (known_type k), Bool-cases (ltb n (least_len k p)))

pub routed-len :
    (k : Kind) (p : Bytes) (n : ℕ)
    → least_len k p ≤ n
    → guarded k p n ≡ true
    → (routed_by_flowid k || routed_by_addr k || routed_by_src k) ≡ true
    → 8 ≤ n
unfolding least_len guarded routed_by_flowid routed_by_addr routed_by_src
routed-len control_flow_setup p n h g r = omega arith
routed-len data_flow_setup p n h g r = omega arith
routed-len control_flow_request p n h g r = omega arith
routed-len data_flow_request p n h g r = omega arith
routed-len neighbor_report p n h g r = omega arith
routed-len data_packet p n h g r = omega arith
routed-len src_routed_control_flow_setup p n h g r = omega arith
routed-len src_routed_data_flow_setup p n h g r = omega arith
routed-len multiple_control_flow_setup p n h g r = omega arith
routed-len multiple_data_flow_setup p n h g r = omega arith
routed-len nd p n h g r = ground arith
routed-len cd p n h g r = ground arith
routed-len ack_by_flow_id p n h g r = omega arith
routed-len src_routed_ack p n h g r = omega arith
routed-len register_flowid p n h g r = omega arith
routed-len ack_by_flow_address p n h g r = omega arith
routed-len mngt_cont_src_rtd p n h g r = omega arith
routed-len mngt_node_data p n h g r = ground arith
routed-len unknown_type p n h g r = ground arith

pub source-len :
    (k : Kind) (p : Bytes) (n : ℕ) → least_len k p ≤ n → (routed_not k || is_data k) ≡ true → 6 ≤ n
unfolding least_len routed_not is_data
source-len nd p n h r = h
source-len cd p n h r = h
source-len data_packet p n h r = omega arith
source-len control_flow_setup p n h r = ground arith
source-len data_flow_setup p n h r = ground arith
source-len control_flow_request p n h r = ground arith
source-len data_flow_request p n h r = ground arith
source-len neighbor_report p n h r = ground arith
source-len src_routed_control_flow_setup p n h r = ground arith
source-len src_routed_data_flow_setup p n h r = ground arith
source-len multiple_control_flow_setup p n h r = ground arith
source-len multiple_data_flow_setup p n h r = ground arith
source-len ack_by_flow_id p n h r = ground arith
source-len src_routed_ack p n h r = ground arith
source-len register_flowid p n h r = ground arith
source-len ack_by_flow_address p n h r = ground arith
source-len mngt_cont_src_rtd p n h r = ground arith
source-len mngt_node_data p n h r = ground arith
source-len unknown_type p n h r = ground arith
