-- ===== src/Send.antt =====
-- sdn-common/sdn-send-packet.c on an enabled node, with the macros of sdn-common/sdn-send-packet.h and
-- sdn-common/sdn-common-send.h: the packets that a node makes. A function writes the packet in a
-- buffer from the pool, over what the buffer held, and enqueues it.
pub mod RoundTrip
pub mod Report
pub mod Unknown
pub mod HandOver
pub mod Outcome
use idit_sdn.Base.{get_or, set}
use idit_sdn.Base.{
  ℕ, zero, suc, ◌+◌, ◌-◌, ◌*◌, ◌/◌, ◌%◌, Bool, ◌&&◌, Option, none, some, List, [], ◌∷◌,
}
use idit_sdn.Base.{◌==◌, ltb, if◌then◌else◌}
use idit_sdn.Queue.{sdn_success, sdn_error, sdn_send_queue_enqueue, inc8}
use idit_sdn.Queue.{Header, SendSlot, no_send_slot, sdn_send_queue_find_by_type}
use idit_sdn.Contiki.{Contiki}
use idit_sdn.Packet.{Bytes, set_byte, copy_addr, setup_size, packet_source}
use idit_sdn.Keep.{Sender, sdn_packetbuf_pool_get, sdn_packetbuf_pool_put, sdn_send_down_once}
use idit_sdn.Keep.{put_buffer, copy_packet}

-- `SDN_DEFAULT_TTL`
abbrev pub default_ttl : ℕ
default_ttl = 60

-- `SDN_MAX_PACKET_SIZE` of applications/project-conf.h
abbrev pub max_packet_size : ℕ
max_packet_size = 127 - 11

-- Two bytes at an offset.
abbrev pub put_field : ℕ → ℕ → Bytes → Bytes
put_field i v p = set_byte (i + 1) (v / 256 % 256) (set_byte i (v % 256) p)

-- `memmove` of the first bytes of a packet.
abbrev pub move_bytes : ℕ → ℕ → Bytes → Bytes
move_bytes by n p i = if ltb i by then p i else if ltb i (by + n) then p (i - by) else p i

-- `MAKE_SDN_HEADER`
unfoldable pub make_header : ℕ → ℕ → ℕ → Bytes → Bytes
make_header own type thl p =
    put_field 4 own (set_byte 3 0 (set_byte 2 thl (set_byte 1 255 (set_byte 0 type p))))

-- The contents of both setups; `key` is the route destination of the first, the flow of the second.
unfoldable pub make_setup : ℕ → ℕ → ℕ → ℕ → ℕ → ℕ → Bytes → Bytes
make_setup type own dest key next_hop action p = set_byte 10 action (
    put_field 11 next_hop (put_field 6 dest (put_field 8 key (make_header own type default_ttl p))))

-- The contents of both requests and of the registration of a flow, to the controller's flow.
unfoldable pub make_request : ℕ → ℕ → ℕ → ℕ → Bytes → Bytes
make_request type own controller_flow key p =
    put_field 6 controller_flow (put_field 8 key (make_header own type default_ttl p))

-- The contents of both acknowledgements: the setup, behind the header of the acknowledgement.
unfoldable pub make_setup_ack : ℕ → ℕ → ℕ → ℕ → ℕ → ℕ → ℕ → Bytes → Bytes
make_setup_ack type own controller_flow dest key next_hop action p = put_field 6 controller_flow (
    make_header own 12 default_ttl
      (move_bytes 8 setup_size (make_setup type own dest key next_hop action p)))

unfoldable pub make_data : ℕ → ℕ → Bytes → ℕ → Bytes → Bytes
make_data own flowid octets len p i =
    let q = put_field 6 flowid (make_header own 5 default_ttl p) in
    if ltb i 8 then q i else if ltb i (8 + len) then octets (i - 8) else q i

-- The loop over the neighbours that the table gives, with their addresses and metrics.
unfoldable pub report_loop : List (ℕ × ℕ) → ℕ → Bytes → ℕ × Bytes
report_loop [] len p = (len, p)
report_loop (n ∷ ns) len p =
    let rest =
      report_loop ns (len + 4)
        (set_byte 8 (inc8 (p 8)) (put_field (len + 2) n.1 (put_field len n.0 p))) in
    if ltb len max_packet_size then rest else (len, p)

unfoldable pub make_report : ℕ → List (ℕ × ℕ) → Bytes → ℕ × Bytes
make_report own ns p =
    report_loop ns 9 (set_byte 8 0 (put_field 6 0 (make_header own 4 default_ttl p)))

-- The header of a packet.
abbrev pub header_of : Bytes → Header
header_of p = record {
  type = p 0;
  reserved = p 1;
  thl = p 2;
  seq_no = p 3;
  source = packet_source p;
}

-- `sdn_seq_no` and the rest of what the sending works on.
pub record Outbox (os : Contiki) : Type 0 where
  pub seq_no : ℕ
  pub sender : Sender os

module _ (os : Contiki) where
  -- `INCREMENT_SEQ_NO` for a packet in a buffer.
  unfoldable pub increment_seq_no : ℕ → ℕ → Outbox os → Outbox os
  increment_seq_no own a o =
      let s = o.sender in
      if packet_source (s.buffers a) == own
      then record o {
        seq_no = inc8 o.seq_no;
        sender = record s { buffers = put_buffer a (set_byte 3 o.seq_no (s.buffers a)) s.buffers };
      }
      else o

  -- A packet in a buffer goes into the send queue, or its buffer back to the pool.
  unfoldable pub hand_over : ℕ → ℕ → ℕ → Outbox os → ℕ × Outbox os
  hand_over a len time o =
      let s = o.sender in
      let r = sdn_send_queue_enqueue a len time s.queues in
      if r.0 == sdn_success
      then (sdn_success, record o { sender = sdn_send_down_once os (record s { queues = r.1 }) })
      else (sdn_error, record o { sender = sdn_packetbuf_pool_put os a s })

  -- `ENQUEUE_AND_SEND`
  unfoldable pub enqueue_and_send : ℕ → ℕ → ℕ → ℕ → Outbox os → ℕ × Outbox os
  enqueue_and_send own a len time o = hand_over a len time (increment_seq_no own a o)

  -- `ALLOC_AND_ENQUEUE`; the number is written in the packet and in its copy.
  unfoldable pub alloc_and_enqueue : ℕ → Bytes → ℕ → ℕ → Outbox os → Bytes × Outbox os
  alloc_and_enqueue own p len time o =
      elim (sdn_packetbuf_pool_get os o.sender) as (λ _. Bytes × Outbox os) [
        | none ↦ (p, o)
        | some (a, s) ↦
            let copy = copy_packet len p (s.buffers a) in
            let numbered = record o {
              seq_no = inc8 o.seq_no;
              sender = record s { buffers = put_buffer a (set_byte 3 o.seq_no copy) s.buffers };
            } in
            let same = record o { sender = record s { buffers = put_buffer a copy s.buffers } } in
            if packet_source p == own
            then (set_byte 3 o.seq_no p, (hand_over a len time numbered).1)
            else (p, (hand_over a len time same).1)
      ]

  -- The frame of the functions below: a buffer, the packet in it, and the sending.
  unfoldable pub send_made : ℕ → (Bytes → Bytes) → ℕ → ℕ → Outbox os → ℕ × Outbox os
  send_made own make len time o =
      elim (sdn_packetbuf_pool_get os o.sender) as (λ _. ℕ × Outbox os) [
        | none ↦ (sdn_error, o)
        | some (a, s) ↦ enqueue_and_send own a len time (record o {
          sender = record s { buffers = put_buffer a (make (s.buffers a)) s.buffers };
        })
      ]

  unfoldable pub sdn_send_control_flow_setup : ℕ → ℕ → ℕ → ℕ → ℕ → Outbox os → ℕ × Outbox os
  sdn_send_control_flow_setup own dest route next_hop action =
      send_made own (make_setup 0 own dest route next_hop action) setup_size 0

  unfoldable pub sdn_send_data_flow_setup : ℕ → ℕ → ℕ → ℕ → ℕ → Outbox os → ℕ × Outbox os
  sdn_send_data_flow_setup own dest flowid next_hop action =
      send_made own (make_setup 1 own dest flowid next_hop action) setup_size 0

  -- `pending` is what `has_control_flow_request_retransmission` says of the address.
  unfoldable pub sdn_send_control_flow_request : ℕ → ℕ → Bool → ℕ → Outbox os → ℕ × Outbox os
  sdn_send_control_flow_request own controller_flow pending address o =
      if pending
      then (sdn_error, o)
      else send_made own (make_request 2 own controller_flow address) 10 0 o

  unfoldable pub sdn_send_data_flow_request : ℕ → ℕ → Bool → ℕ → Outbox os → ℕ × Outbox os
  sdn_send_data_flow_request own controller_flow pending flowid o =
      if pending
      then (sdn_error, o)
      else send_made own (make_request 3 own controller_flow flowid) 10 0 o

  unfoldable pub sdn_send_register_flowid : ℕ → ℕ → ℕ → Outbox os → ℕ × Outbox os
  sdn_send_register_flowid own controller_flow flowid =
      send_made own (make_request 14 own controller_flow flowid) 10 0

  unfoldable pub sdn_send_data_flow_setup_ack : ℕ → ℕ → ℕ → ℕ → ℕ → ℕ → Outbox os → ℕ × Outbox os
  sdn_send_data_flow_setup_ack own controller_flow dest flowid next_hop action =
      send_made own (make_setup_ack 1 own controller_flow dest flowid next_hop action) 21 0

  unfoldable pub sdn_send_control_flow_setup_ack : ℕ → ℕ → ℕ → ℕ → ℕ → ℕ → Outbox os → ℕ × Outbox os
  sdn_send_control_flow_setup_ack own controller_flow dest route next_hop action =
      send_made own (make_setup_ack 0 own controller_flow dest route next_hop action) 21 0

  -- `now` is `clock_time()`.
  unfoldable pub sdn_send_data : ℕ → ℕ → Bytes → ℕ → ℕ → Outbox os → ℕ × Outbox os
  sdn_send_data own now octets len flowid =
      send_made own (make_data own flowid octets len) ((8 + len) % 65536) now

  -- `sdn_send_nd` and `sdn_send_cd` write the header of a packet that is in a buffer.
  unfoldable pub send_in : ℕ → ℕ → ℕ → ℕ → Outbox os → ℕ × Outbox os
  send_in type own a len o =
      let s = o.sender in
      enqueue_and_send own a len 0 (record o {
        sender = record s {
          buffers = put_buffer a (make_header own type 1 (s.buffers a)) s.buffers;
        };
      })

  unfoldable pub sdn_send_nd : ℕ → Option ℕ → ℕ → Outbox os → ℕ × Outbox os
  sdn_send_nd own none len o = (sdn_error, o)
  sdn_send_nd own (some a) len o = send_in 10 own a len o

  unfoldable pub sdn_send_cd : ℕ → Option ℕ → ℕ → Outbox os → ℕ × Outbox os
  sdn_send_cd own none len o = (sdn_error, o)
  sdn_send_cd own (some a) len o = send_in 11 own a len o

  -- A report that waits in the send queue is written anew, with its number, in its buffer.
  unfoldable pub replace_report : ℕ → List (ℕ × ℕ) → ℕ → ℕ → Outbox os → ℕ × Outbox os
  replace_report own ns slot a o =
      let s = o.sender in
      let r = make_report own ns (s.buffers a) in
      let old = get_or s.queues.send_slots slot no_send_slot in
      (
        sdn_success,
        record o {
          sender = record s {
            buffers = put_buffer a (set_byte 3 (s.buffers a 3) r.1) s.buffers;
            queues = record s.queues {
              send_slots = set s.queues.send_slots slot (record old { len = r.0 });
            };
          };
        },
      )

  unfoldable pub new_report : ℕ → List (ℕ × ℕ) → Outbox os → ℕ × Outbox os
  new_report own ns o = elim (sdn_packetbuf_pool_get os o.sender) as (λ _. ℕ × Outbox os) [
    | none ↦ (sdn_error, o)
    | some (a, s) ↦
        let r = make_report own ns (s.buffers a) in
        enqueue_and_send own a r.0 0
          (record o { sender = record s { buffers = put_buffer a r.1 s.buffers } })
  ]

  -- The purge of the list of packets that await an acknowledgement (`sld_purge`) is on other state.
  unfoldable pub sdn_send_neighbor_report : ℕ → List (ℕ × ℕ) → Outbox os → ℕ × Outbox os
  sdn_send_neighbor_report own ns o =
      let s = o.sender in
      elim (sdn_send_queue_find_by_type (λ a. header_of (s.buffers a)) own 4 s.queues)
        as (λ _. ℕ × Outbox os) [
          | none ↦ new_report own ns o
          | some slot ↦
              elim ((get_or s.queues.send_slots slot no_send_slot).packet) as (λ _. ℕ × Outbox os) [
                | none ↦ (sdn_error, o)
                | some a ↦ replace_report own ns slot a o
              ]
        ]
