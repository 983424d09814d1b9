-- ===== src/Send/Unknown.antt =====
-- `sdn_unknown_flow` and `sdn_unknown_dest` of sdn-common/sdn-unknown-route.c on an enabled node: a
-- packet without a route is kept, and the route is asked for.
use idit_sdn.Base.{ℕ, Bool, List, if◌then◌else◌}
use idit_sdn.Contiki.{Contiki}
use idit_sdn.Packet.{Bytes, packet_flow, packet_addr}
use idit_sdn.Keep.{Kept, store_packet}
use idit_sdn.Send.{Outbox, sdn_send_data_flow_request, sdn_send_control_flow_request}

module _ (os : Contiki) where
  -- `awaiting` is whether `sdn_state` is `SDN_AWAITING_CONTROLLER_ROUTE`; `pending` is what
  -- `has_data_flow_request_retransmission` says of the flow.
  unfoldable pub sdn_unknown_flow :
      ℕ → ℕ → Bool → Bool → Bytes → ℕ → ℕ → List Kept × Outbox os → List Kept × Outbox os
  sdn_unknown_flow own controller_flow awaiting pending p len time (ks, o) =
      let stored = store_packet os p len time ks o.sender in
      let u = record o { sender = stored.1 } in
      let request = sdn_send_data_flow_request os own controller_flow pending (packet_flow p) u in
      (stored.0, if awaiting then u else request.1)

  unfoldable pub sdn_unknown_dest :
      ℕ → ℕ → Bool → Bool → Bytes → ℕ → List Kept × Outbox os → List Kept × Outbox os
  sdn_unknown_dest own controller_flow awaiting pending p len (ks, o) =
      let stored = store_packet os p len 0 ks o.sender in
      let u = record o { sender = stored.1 } in
      let request =
        sdn_send_control_flow_request os own controller_flow pending (packet_addr p) u in
      (stored.0, if awaiting then u else request.1)
