-- ===== src/Queue/System.antt =====
-- Both queues of sdn-queue.c under any sequence of calls.
use idit_sdn.Base.{ℕ, ◌≡◌, refl, List, [], ◌∷◌, Option, some, none, if◌then◌else◌, get_or, arith}
use mathlib.Core.Option
use idit_sdn.Queue.{Queues, no_send_slot, no_recv_slot}
use idit_sdn.Queue.{sdn_send_queue_enqueue, sdn_send_queue_dequeue, sdn_send_queue_empty}
use idit_sdn.Queue.{sdn_recv_queue_enqueue, sdn_recv_queue_dequeue}
use idit_sdn.Queue.Invariant.{IsValid, send_enqueue-IsValid, send_dequeue-IsValid}
use idit_sdn.Queue.Invariant.{recv_enqueue-IsValid, recv_dequeue-IsValid}
use idit_sdn.Queue.Fifo.{Entry, push, pop, sent, received, send_entry, recv_entry}
use idit_sdn.Queue.Fifo.{send_enqueue_refines, send_dequeue_refines}
use idit_sdn.Queue.Fifo.{recv_enqueue_refines, recv_dequeue_refines}

-- The calls of the rest of the program, with what it hands over.
pub data Call : Type 0 where
  put_send put_recv : ℕ → ℕ → ℕ → Call
  take_send take_recv : Call

-- What a call shows: a return code, or the entry behind the returned pointer.
pub data Reply : Type 0 where
  code : ℕ → Reply
  entry : Option Entry → Reply

-- Callers read what `sdn_send_queue_dequeue` returns only where the queue was not empty.
unfoldable pub step : Call → Queues → Reply × Queues
step (put_send packet len time) m =
    let (c, m') = sdn_send_queue_enqueue packet len time m in (code c, m')
step (put_recv now packet len) m =
    let (c, m') = sdn_recv_queue_enqueue now packet len m in (code c, m')
step take_send m =
    let (slot, m') = sdn_send_queue_dequeue m in
    (
      entry (
          if sdn_send_queue_empty m
          then none
          else some (send_entry (get_or m.send_slots slot no_send_slot))),
      m',
    )
step take_recv m =
    let (slot, m') = sdn_recv_queue_dequeue m in
    (entry (Option.map (λ i. recv_entry (get_or m.recv_slots i no_recv_slot)) slot), m')

unfoldable pub run : List Call → Queues → List Reply
run [] m = []
run (c ∷ cs) m = let (r, m') = step c m in r ∷ run cs m'

-- The specification: two lists of entries, each with its capacity.
module _ (send_cap recv_cap : ℕ) where
  unfoldable pub spec_step : Call → List Entry → List Entry → Reply × List Entry × List Entry
  spec_step (put_send packet len time) s r =
      let (c, s') = push send_cap (some packet, len, time) s in (code c, s', r)
  spec_step (put_recv now packet len) s r =
      let (c, r') = push recv_cap (some packet, len, now) r in (code c, s, r')
  spec_step take_send s r = let (e, s') = pop s in (entry e, s', r)
  spec_step take_recv s r = let (e, r') = pop r in (entry e, s, r')

  unfoldable pub spec_run : List Call → List Entry → List Entry → List Reply
  spec_run [] s r = []
  spec_run (c ∷ cs) s r = let (reply, s', r') = spec_step c s r in reply ∷ spec_run cs s' r'

step-IsValid : (c : Call) {m : Queues} → IsValid m → IsValid (step c m).1
unfolding step
step-IsValid (put_send packet len time) v = send_enqueue-IsValid packet len time v
step-IsValid (put_recv now packet len) v = recv_enqueue-IsValid now packet len v
step-IsValid take_send v = send_dequeue-IsValid v
step-IsValid take_recv v = recv_dequeue-IsValid v

-- A call keeps both capacities.
step_caps :
    (c : Call) (m : Queues)
    → ((step c m).1.send_queue.max_size ≡ m.send_queue.max_size)
      × ((step c m).1.recv_queue.max_size ≡ m.recv_queue.max_size)
unfolding step sdn_send_queue_enqueue sdn_send_queue_dequeue sdn_recv_queue_enqueue
    sdn_recv_queue_dequeue
step_caps (put_send packet len time) m = ground arith
step_caps (put_recv now packet len) m = ground arith
step_caps take_send m = ground arith
step_caps take_recv m = ground arith

step_refines :
    (c : Call) {m : Queues}
    → IsValid m
    → let (r, m') = step c m in
      (r, sent m', received m')
      ≡ spec_step m.send_queue.max_size m.recv_queue.max_size c (sent m) (received m)
unfolding step spec_step sdn_send_queue_enqueue sdn_send_queue_dequeue sdn_recv_queue_enqueue
    sdn_recv_queue_dequeue
step_refines (put_send packet len time) {m} v =
    ground (arith, send_enqueue_refines packet len time v)
step_refines (put_recv now packet len) {m} v = ground (arith, recv_enqueue_refines now packet len v)
step_refines take_send {m} v = ground (arith, send_dequeue_refines v)
step_refines take_recv {m} v = ground (arith, recv_dequeue_refines v)

-- No sequence of calls tells a valid pair of rings from the two bounded queues of their entries:
-- the replies are the same.
pub run_refines :
    (cs : List Call) {m : Queues}
    → IsValid m
    → run cs m ≡ spec_run m.send_queue.max_size m.recv_queue.max_size cs (sent m) (received m)
unfolding run spec_run
run_refines [] v = refl
run_refines (c ∷ cs) {m} v =
    rw (run_refines cs (step-IsValid c v), ← step_refines c v, (step_caps c m).0, (step_caps c m).1)
