-- ===== src/Send/RoundTrip.antt =====
-- The setups that are made are the ones that a node treats.
use idit_sdn.Base.{ℕ, ◌+◌, ◌*◌, ◌%◌, ◌<◌, ◌≡◌, refl}
use idit_sdn.Base.{◌&&◌}
use idit_sdn.Base.{[], ◌∷◌, arith, ◌==◌}
use idit_sdn.Base.{if◌then◌else◌}
use idit_sdn.Base.{◌/◌}
use idit_sdn.Queue.{sdn_success}
use idit_sdn.Packet.{Bytes, field, kind_of, check_packet_len, known_type, least_len}
use idit_sdn.Packet.{packet_addr}
use idit_sdn.Treat.{Config, treat_control_flow_setup, treat_data_flow_setup}
use idit_sdn.Treat.{controlflow_insert, sld_rcv_addr_req, send_control_flow_setup_ack}
use idit_sdn.Treat.{dataflow_insert, sld_rcv_flow_req, send_data_flow_setup_ack, steady_state}
use idit_sdn.Treat.{send_neighbor_report, awaiting_controller_route}
use idit_sdn.Send.{make_setup, make_header}

-- A field of two bytes holds what is put there.
field_lem : (v : ℕ) → v < 65536 → v % 256 + 256 * (v / 256 % 256) ≡ v
field_lem v h = omega arith

module _ (type own dest key next_hop action : ℕ) (old : Bytes) where
  abbrev made : Bytes
  made = make_setup type own dest key next_hop action old

  made-dest : dest < 65536 → field made 6 ≡ dest
  unfolding make_setup make_header
  made-dest h = field_lem dest h

  made-key : key < 65536 → field made 8 ≡ key
  unfolding make_setup make_header
  made-key h = field_lem key h

  made-next_hop : next_hop < 65536 → field made 11 ≡ next_hop
  unfolding make_setup make_header
  made-next_hop h = field_lem next_hop h

  made-action : made 10 ≡ action
  unfolding make_setup make_header
  made-action = refl

  made-type : made 0 ≡ type
  unfolding make_setup make_header
  made-type = refl

-- The setups that are made for a destination, a route destination or flow, a next hop and an action,
-- all of which their fields can hold, are addressed to the destination and pass the length check;
-- the handler of a control setup inserts the route, and that of a data setup the flow, with this next
-- hop and action, and both acknowledge them.
pub setup-treated :
    (c : Config) (own dest key next_hop action : ℕ) (old : Bytes)
    → dest < 65536
    → key < 65536
    → next_hop < 65536
    → let p = make_setup 0 own dest key next_hop action old in
      let q = make_setup 1 own dest key next_hop action old in
      (packet_addr p ≡ dest)
      × (packet_addr q ≡ dest)
      × (check_packet_len (kind_of (p 0)) p 13 ≡ sdn_success)
      × (check_packet_len (kind_of (q 0)) q 13 ≡ sdn_success)
      × (treat_control_flow_setup c p
          ≡ controlflow_insert key next_hop action
            ∷ sld_rcv_addr_req key
            ∷ send_control_flow_setup_ack c.own key next_hop action
            ∷ [])
      × (treat_data_flow_setup c q
          ≡ sld_rcv_flow_req key
            ∷ send_data_flow_setup_ack c.own key next_hop action
            ∷ dataflow_insert key next_hop action
            ∷ (if c.state == awaiting_controller_route && key == c.controller_flow
                then steady_state ∷ send_neighbor_report ∷ []
                else []))
unfolding check_packet_len known_type least_len kind_of treat_control_flow_setup
    treat_data_flow_setup make_setup make_header
setup-treated c own dest key next_hop action old d k n = (
  made-dest 0 own dest key next_hop action old d,
  made-dest 1 own dest key next_hop action old d,
  refl,
  refl,
  rw
      (
        made-key 0 own dest key next_hop action old k,
        made-next_hop 0 own dest key next_hop action old n,
        made-action 0 own dest key next_hop action old,
      )
      refl,
  rw
      (
        made-key 1 own dest key next_hop action old k,
        made-next_hop 1 own dest key next_hop action old n,
        made-action 1 own dest key next_hop action old,
      )
      refl,
)
