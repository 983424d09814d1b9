-- ===== src/Treat/Decide.antt =====
-- `sdn_treat_packet` and `sdn_treat_packet_receiv` of sdn-common/sdn-process-packets.c: what is done
-- with a packet to send and with a packet received. Each function has its own copy of the code.
use idit_sdn.Base.{ℕ, ◌+◌, ◌%◌, Bool, true, false, not, ◌&&◌, Option, none, some}
use idit_sdn.Base.{List, [], ◌∷◌, ◌++◌, ◌==◌, if◌then◌else◌}
use idit_sdn.Queue.{sdn_success}
use idit_sdn.Contiki.{Contiki}
use idit_sdn.FlowTable.{Entry, Tables, put, action_receive, action_forward, action_drop}
use idit_sdn.FlowTable.{sdn_dataflow_get, sdn_controlflow_get}
use idit_sdn.Packet.{Bytes, bytes, Kind, kind_of, check_packet_len, packet_flow, packet_addr}
use idit_sdn.Packet.{packet_source, packet_real_dest, routed_by_flowid, routed_by_addr}
use idit_sdn.Packet.{routed_by_src, routed_not, data_packet, mngt_cont_src_rtd, mngt_node_data}
use idit_sdn.Treat.{Config, Effect, sdn_execute_action_receive}
use idit_sdn.Treat.{unknown_flow, unknown_dest, add_suspect, metric_rx, manag_update}

unfoldable pub is_data : Kind → Bool
is_data data_packet = true
is_data _ = false

unfoldable pub is_mngt : Kind → Bool
is_mngt mngt_cont_src_rtd = true
is_mngt mngt_node_data = true
is_mngt _ = false

-- `times_used++` of a `uint16_t`
abbrev pub used : Entry → Entry
used e = record e { times_used = (e.times_used + 1) % 65536 }

-- The variables `action` and `next_hop`, the calls made so far and the flow tables.
pub record Decision (os : Contiki) : Type 0 where
  pub action : ℕ
  pub next_hop : Option ℕ
  pub effects : List Effect
  pub tables : Tables os

module _ (os : Contiki) where
  abbrev pub decision : ℕ → Option ℕ → List Effect → Tables os → Decision os
  decision action next_hop effects t = record {
    action = action;
    next_hop = next_hop;
    effects = effects;
    tables = t;
  }

  abbrev pub count_data : ℕ → Tables os → Tables os
  count_data a t = record t {
    dft = record t.dft { entries = put a (used (t.dft.entries a)) t.dft.entries };
  }

  abbrev pub count_control : ℕ → Tables os → Tables os
  count_control a t = record t {
    cft = record t.cft { entries = put a (used (t.cft.entries a)) t.cft.entries };
  }

  -- The code of `sdn_treat_packet` up to its `switch`: the check, and the four ways to route.
  unfoldable pub treat_route : Config → Kind → Bytes → ℕ → ℕ → Tables os → Decision os
  treat_route c k p len time t =
      if not (check_packet_len k p len == sdn_success)
      then decision action_drop none [] t
      else if routed_by_flowid k
      then elim (sdn_dataflow_get os (packet_flow p) t) as (λ _. Decision os) [
        | some a ↦
            decision (t.dft.entries a).action (some (t.dft.entries a).next_hop) [] (count_data a t)
        | none ↦ decision action_drop none (unknown_flow (bytes 0 len p) time ∷ []) t
      ]
      else if routed_by_addr k
      then elim (sdn_controlflow_get os (packet_addr p) t) as (λ _. Decision os) [
        | some a ↦
            decision (t.cft.entries a).action (some (t.cft.entries a).next_hop) []
              (count_control a t)
        | none ↦ decision action_drop none (unknown_dest (bytes 0 len p) ∷ []) t
      ]
      else if routed_by_src k
      then (if packet_addr p == c.own
          then decision action_receive (some (packet_addr p)) [] t
          else decision action_forward (some (packet_addr p)) [] t)
      else if routed_not k
      then (if packet_source p == c.own
          then decision action_forward (some c.broadcast) [] t
          else decision action_receive none [] t)
      else decision action_drop none [] t

  -- Its `switch`.
  unfoldable pub treat_switch : Config → Kind → Bytes → ℕ → Decision os → Decision os
  treat_switch c k p len d =
      if d.action == action_forward
      then d
      else if d.action == action_receive
      then record d {
        next_hop = none;
        effects =
            d.effects
            ++ ((if not (routed_by_src k && not (packet_real_dest c.at_null k p == c.own))
                  then metric_rx ∷ []
                  else [])
                ++ sdn_execute_action_receive c k p len);
      }
      else if d.action == action_drop
      then record d { next_hop = none }
      else record d { next_hop = none }

  unfoldable pub sdn_treat_packet : Config → Bytes → ℕ → ℕ → Tables os → Decision os
  sdn_treat_packet c p len time t =
      let k = kind_of (p 0) in treat_switch c k p len (treat_route c k p len time t)

  -- The code of `sdn_treat_packet_receiv` up to its `switch`: the check, and the four ways to route.
  unfoldable pub receiv_route : Config → Kind → Bytes → ℕ → ℕ → Tables os → Decision os
  receiv_route c k p len time t =
      if not (check_packet_len k p len == sdn_success)
      then decision action_drop none [] t
      else if routed_by_flowid k
      then elim (sdn_dataflow_get os (packet_flow p) t) as (λ _. Decision os) [
        | some a ↦ decision (t.dft.entries a).action (some (t.dft.entries a).next_hop) [] t
        | none ↦
            decision action_drop none
              (unknown_flow (bytes 0 len p) time
                ∷ (if is_data k then add_suspect (packet_source p) ∷ [] else []))
              t
      ]
      else if routed_by_addr k
      then elim (sdn_controlflow_get os (packet_addr p) t) as (λ _. Decision os) [
        | some a ↦ decision (t.cft.entries a).action (some (t.cft.entries a).next_hop) [] t
        | none ↦ decision action_drop none (unknown_dest (bytes 0 len p) ∷ []) t
      ]
      else if routed_by_src k
      then (if packet_addr p == c.own
          then decision action_receive (some (packet_addr p)) [] t
          else decision action_forward (some (packet_addr p)) [] t)
      else if routed_not k
      then (if packet_source p == c.own
          then decision action_forward (some c.broadcast) [] t
          else decision action_receive none [] t)
      else decision action_drop none [] t

  -- Its `switch`.
  unfoldable pub receiv_switch : Config → Kind → Bytes → ℕ → Decision os → Decision os
  receiv_switch c k p len d =
      if d.action == action_forward
      then d
      else if d.action == action_receive
      then record d {
        next_hop = none;
        effects =
            d.effects
            ++ ((if not (routed_by_src k && not (packet_real_dest c.at_null k p == c.own))
                  then metric_rx
                    ∷ (if not (is_data k) && not (is_mngt k)
                        then manag_update 0 3 ∷ []
                        else if is_data k
                        then manag_update 0 2 ∷ []
                        else [])
                  else [])
                ++ sdn_execute_action_receive c k p len);
      }
      else if d.action == action_drop
      then record d { next_hop = none }
      else record d { next_hop = none }

  unfoldable pub sdn_treat_packet_receiv : Config → Bytes → ℕ → ℕ → Tables os → Decision os
  sdn_treat_packet_receiv c p len time t =
      let k = kind_of (p 0) in receiv_switch c k p len (receiv_route c k p len time t)
