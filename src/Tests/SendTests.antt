-- ===== src/Tests/SendTests.antt =====
-- The packets that a node keeps, and those that it makes, at concrete states.
use idit_sdn.Base.{ℕ, ◌*◌, ◌≡◌, refl, inl, inr, true, false, ◌||◌, Option, none, some}
use idit_sdn.Base.{List, [], ◌∷◌, arith, ltb, ◌==◌, if◌then◌else◌, any, map}
use idit_sdn.Queue.{
  Queues, SendSlot, RecvSlot, sdn_send_queue_enqueue, sdn_send_queue_empty, sdn_success,
}
use idit_sdn.Queue.Invariant.{IsValid}
use idit_sdn.Queue.Fifo.{sent}
use idit_sdn.FlowTable.{Entry, new_entry}
use idit_sdn.Packet.{Bytes, bytes, kind_of, routed_by_flowid, check_packet_len}
use idit_sdn.Packet.{packet_addr}
use idit_sdn.Keep.{Kept, Sender, store_packet, sdn_solve_unknown_flow, sdn_solve_unknown_dest}
use idit_sdn.Keep.{
  awaits_flow, awaits_dest, solve_from, release, sdn_send_down_once, sdn_packetbuf_pool_get,
}
use idit_sdn.Keep.Solve.{IsSolved, solve_unknown_lem}
use idit_sdn.Keep.Solved.{solved, left, holds}
use idit_sdn.Keep.Store.{keep-then-solve}
use idit_sdn.Treat.{treat_control_flow_setup, treat_data_flow_setup, controlflow_insert}
use idit_sdn.Treat.{sld_rcv_addr_req, send_control_flow_setup_ack}
use idit_sdn.Treat.{dataflow_insert, sld_rcv_flow_req, send_data_flow_setup_ack}
use idit_sdn.Treat.Arrival.{load}
use idit_sdn.Send.{make_setup, make_report, make_header}
use idit_sdn.Send.RoundTrip.{setup-treated}
use idit_sdn.Send.Report.{make_report-len}
use idit_sdn.Send.{Outbox, make_request, make_setup_ack}
use idit_sdn.Send.{sdn_send_control_flow_setup, sdn_send_data_flow_setup}
use idit_sdn.Send.{sdn_send_control_flow_request, sdn_send_data_flow_request}
use idit_sdn.Send.{sdn_send_register_flowid, sdn_send_control_flow_setup_ack}
use idit_sdn.Send.{sdn_send_data_flow_setup_ack}
use idit_sdn.Send.Outcome.{Outcome, sends-Outcome}
use idit_sdn.Management.{make_management, process_mngt_data, node_alarm, node_metrics, sink_metrics}
use idit_sdn.Management.RoundTrip.{make_management-process}
use idit_sdn.Tests.FlowTableTests.{small}
use idit_sdn.Treat.{Config}

abbrev own_node : Config
own_node = record { own = 4; state = 2; controller_flow = 0; broadcast = 65535; at_null = 0 }

-- A data packet of a flow, with one octet.
abbrev pub data_of : ℕ → Bytes
data_of flow = load (5 ∷ 255 ∷ 60 ∷ 0 ∷ 1 ∷ 0 ∷ flow ∷ 0 ∷ 42 ∷ [])

abbrev slot : ℕ → SendSlot
slot p = record { packet = some p; len = 9; last_next_hop = 0; time = 0 }

abbrev recv_slot : RecvSlot
recv_slot = record { packet = none; len = 0; time = 0 }

-- The send queue has one packet, from block 13, and room for two.
abbrev pub queues : Queues
queues = record {
  send_queue = record { head = 2; tail = 0; max_size = 3; size = 1 };
  recv_queue = record { head = 0; tail = 0; max_size = 2; size = 0 };
  send_slots = slot 9 ∷ slot 7 ∷ slot 13 ∷ [];
  recv_slots = recv_slot ∷ recv_slot ∷ [];
}

pub queues-IsValid : IsValid queues
queues-IsValid = record {
  send = record {
    byte = omega arith;
    array = omega arith;
    head_in = omega arith;
    tail_in = omega arith;
    size_in = omega arith;
    tail_after = inr refl;
  };
  recv = record {
    byte = omega arith;
    array = omega arith;
    head_in = omega arith;
    tail_in = omega arith;
    size_in = omega arith;
    tail_after = inl refl;
  };
}

-- A packet of flow 5 is kept in block 10, and one of flow 6 in block 11.
abbrev pub sender : Sender small
sender = record {
  pool = λ b. b == 10 || b == 11 || b == 13;
  buffers = λ b. if b == 11 then data_of 6 else data_of 5;
  queues = queues;
  send_status = 0;
  posted = 0;
}

abbrev place_of : Option ℕ → Kept
place_of p = record { packet = p; len = 9; time = 3 }

abbrev kept : List Kept
kept = place_of (some 10) ∷ place_of (some 11) ∷ place_of none ∷ []

abbrev flow_route : Entry
flow_route = new_entry 5 3 1

solve_unknown_lem_example :
    IsSolved small
      (awaits_flow 5)
      kept
      sender
      (sdn_solve_unknown_flow small flow_route (kept, sender))
    × IsSolved small
        (awaits_dest 5)
        kept
        sender
        (sdn_solve_unknown_dest small flow_route (kept, sender))
solve_unknown_lem_example = solve_unknown_lem small flow_route kept sender queues-IsValid

keep-then-solve_example :
    let stored = store_packet small (data_of 5) 9 7 kept sender in
    let r = sdn_solve_unknown_flow small flow_route stored in
    (any (holds 12) (sent r.1.queues) ≡ true)
    × (bytes 0 9 (r.1.buffers 12) ≡ bytes 0 9 (data_of 5))
    × (r.0 ≡ map (left (awaits_flow 5) stored.1.buffers) stored.0)
unfolding solved store_packet sdn_packetbuf_pool_get routed_by_flowid kind_of
keep-then-solve_example =
    keep-then-solve small (data_of 5) 9 7 12 (λ b. b == 12 || sender.pool b) flow_route kept sender
      queues-IsValid (omega arith) refl refl refl (omega arith)

-- The packets of flow 5 are sent, and the one of flow 6 stays.
kept-sent :
    (sdn_solve_unknown_flow small flow_route (store_packet small (data_of 5) 9 7 kept sender)).0
    ≡ place_of none ∷ place_of (some 11) ∷ record { packet = none; len = 9; time = 7 } ∷ []
unfolding sdn_solve_unknown_flow solve_from store_packet sdn_packetbuf_pool_get release
    routed_by_flowid kind_of sdn_send_queue_enqueue sdn_send_down_once sdn_send_queue_empty
kept-sent = refl

setup-treated_example :
    let p = make_setup 0 1 4 7 3 2 (data_of 5) in
    let q = make_setup 1 1 4 7 3 2 (data_of 5) in
    (packet_addr p ≡ 4)
    × (packet_addr q ≡ 4)
    × (check_packet_len (kind_of (p 0)) p 13 ≡ sdn_success)
    × (check_packet_len (kind_of (q 0)) q 13 ≡ sdn_success)
    × (treat_control_flow_setup own_node p
        ≡ controlflow_insert 7 3 2 ∷ sld_rcv_addr_req 7 ∷ send_control_flow_setup_ack 4 7 3 2 ∷ [])
    × (treat_data_flow_setup own_node q
        ≡ sld_rcv_flow_req 7 ∷ send_data_flow_setup_ack 4 7 3 2 ∷ dataflow_insert 7 3 2 ∷ [])
setup-treated_example =
    setup-treated own_node 1 4 7 3 2 (data_of 5) (omega arith) (omega arith) (omega arith)

abbrev pub outbox : Outbox small
outbox = record { seq_no = 255; sender = sender }

sends-Outcome_example :
    Outcome small false
      (make_setup 0 4 9 7 3 2)
      13
      0
      outbox
      (sdn_send_control_flow_setup small 4 9 7 3 2 outbox)
    × Outcome small false
        (make_setup 1 4 9 7 3 2)
        13
        0
        outbox
        (sdn_send_data_flow_setup small 4 9 7 3 2 outbox)
    × Outcome small true
        (make_request 2 4 0 7)
        10
        0
        outbox
        (sdn_send_control_flow_request small 4 0 true 7 outbox)
    × Outcome small true
        (make_request 3 4 0 7)
        10
        0
        outbox
        (sdn_send_data_flow_request small 4 0 true 7 outbox)
    × Outcome small false
        (make_request 14 4 0 7)
        10
        0
        outbox
        (sdn_send_register_flowid small 4 0 7 outbox)
    × Outcome small false
        (make_setup_ack 0 4 0 9 7 3 2)
        21
        0
        outbox
        (sdn_send_control_flow_setup_ack small 4 0 9 7 3 2 outbox)
    × Outcome small false
        (make_setup_ack 1 4 0 9 7 3 2)
        21
        0
        outbox
        (sdn_send_data_flow_setup_ack small 4 0 9 7 3 2 outbox)
sends-Outcome_example = sends-Outcome small 4 0 9 7 3 2 true outbox (omega arith) queues-IsValid

make_report-len_example : (make_report 4 ((2, 30) ∷ (3, 50) ∷ []) (data_of 5)).0 ≡ 17
make_report-len_example = make_report-len 4 ((2, 30) ∷ (3, 50) ∷ []) (data_of 5)

-- What a node measures: the value of a metric is its identifier, tenfold.
abbrev measured : ℕ → ℕ
measured id = if ltb id 256 then 10 * id else 0

make_management-process_example :
    process_mngt_data 4 (make_management 4 0 42 measured 0 (data_of 5)).1
    ≡ node_metrics 2 20 ∷ node_metrics 8 80 ∷ sink_metrics 320 ∷ []
make_management-process_example =
    make_management-process 4 4 0 42 0 measured (data_of 5) (omega arith) (omega arith)
      (λ id. ground arith) refl

-- With the alarm and a metric the controller takes the metric for the suspect.
alarm-swapped :
    process_mngt_data 4 (make_management 4 0 130 measured 9 (data_of 5)).1
    ≡ node_alarm 4 20 ∷ node_metrics 2 0 ∷ []
unfolding process_mngt_data make_management make_header
alarm-swapped = refl
