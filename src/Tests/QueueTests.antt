-- ===== src/Tests/QueueTests.antt =====
-- The queues of sdn-queue.c at concrete states.
use idit_sdn.Base.{ℕ, ◌≡◌, refl, List, [], ◌∷◌, some, none, get_or}
use idit_sdn.Base.{find?, arith, inl, inr}
use mathlib.Core.Option
use idit_sdn.Queue.{Queues, SendSlot, RecvSlot, Header, no_send_slot}
use idit_sdn.Queue.{fresh_indices, is_own_of_type}
use idit_sdn.Queue.{sdn_send_queue_find_by_type}
use idit_sdn.Queue.{sdn_send_queue_enqueue, sdn_send_queue_dequeue, sdn_send_queue_empty, advance}
use idit_sdn.Queue.{sdn_recv_queue_enqueue, sdn_recv_queue_dequeue}
use idit_sdn.Queue.{find_by_type_from}
use idit_sdn.Queue.Invariant.{IsValid}
use idit_sdn.Queue.Fifo.{sent, received, send_contents}
use idit_sdn.Queue.System.{Call, put_send, put_recv, take_send, take_recv, code, entry}
use idit_sdn.Queue.System.{run, step, spec_run, run_refines}
use idit_sdn.Queue.Search.{find_by_type_lem}

abbrev slot : ℕ → SendSlot
slot p = record { packet = some p; len = 10; last_next_hop = 0; time = 0 }

abbrev recv_slot : ℕ → RecvSlot
recv_slot p = record { packet = some p; len = 10; time = 0 }

-- The send queue holds the packets 8 and 9, round the end of its array; the other queue is empty.
abbrev wrapped : Queues
wrapped = record {
  send_queue = record { head = 2; tail = 1; max_size = 3; size = 2 };
  recv_queue = fresh_indices 2;
  send_slots = slot 9 ∷ slot 7 ∷ slot 8 ∷ [];
  recv_slots = recv_slot 0 ∷ recv_slot 0 ∷ [];
}

wrapped-IsValid : IsValid wrapped
wrapped-IsValid = record {
  send = record {
    byte = omega arith;
    array = omega arith;
    head_in = omega arith;
    tail_in = omega arith;
    size_in = omega arith;
    tail_after = inr refl;
  };
  recv = record {
    byte = omega arith;
    array = omega arith;
    head_in = omega arith;
    tail_in = omega arith;
    size_in = omega arith;
    tail_after = inl refl;
  };
}

abbrev script : List Call
script =
    put_send 1 10 5 ∷ put_send 2 10 5 ∷ take_send ∷ take_recv ∷ put_recv 4 3 10 ∷ take_recv ∷ []

run-wrapped :
    run script wrapped
    ≡ code 0
      ∷ code 1
      ∷ entry (some (some 8, 10, 0))
      ∷ entry none
      ∷ code 0
      ∷ entry (some (some 3, 10, 4))
      ∷ []
unfolding run step sdn_send_queue_enqueue sdn_send_queue_dequeue sdn_recv_queue_enqueue
    sdn_recv_queue_dequeue advance sdn_send_queue_empty
run-wrapped = refl

run_refines_example : run script wrapped ≡ spec_run 3 2 script (sent wrapped) (received wrapped)
run_refines_example = run_refines script wrapped-IsValid

-- Packet 9 is a neighbour report of this node, the others are not of it.
abbrev memory : ℕ → Header
memory p = record { type = 4; reserved = 0; thl = 60; seq_no = 0; source = p }

find_by_type_lem_example :
    Option.map
      (λ k. get_or wrapped.send_slots k no_send_slot)
      (sdn_send_queue_find_by_type memory 9 4 wrapped)
    ≡ find? (is_own_of_type memory 9 4) (send_contents wrapped)
find_by_type_lem_example = find_by_type_lem memory 9 4 wrapped

found-wrapped : sdn_send_queue_find_by_type memory 9 4 wrapped ≡ some 0
unfolding sdn_send_queue_find_by_type find_by_type_from is_own_of_type advance
found-wrapped = refl
