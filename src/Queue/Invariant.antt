-- ===== src/Queue/Invariant.antt =====
-- The invariant of sdn-queue.c: indices inside the array, and the tail `size` slots after the head.
use idit_sdn.Base.{ℕ, ◌≤◌, ◌<◌, ◌≡◌, List, map, length, length-set, get_or, arith}
use idit_sdn.Base.{suc, refl, ap, [], ◌∷◌, some, zero}
use idit_sdn.Queue.{Indices, Queues, SendSlot, filled}
use idit_sdn.Queue.{
  blank_send_slot, blank_recv_slot, no_send_slot, drop_head, push_tail, clear_send_times,
}
use idit_sdn.Queue.{sdn_send_queue_init, sdn_send_queue_enqueue, sdn_send_queue_dequeue}
use idit_sdn.Queue.{sdn_recv_queue_init, sdn_recv_queue_enqueue, sdn_recv_queue_dequeue}
use idit_sdn.Queue.Contents.{IsAfter, advance-cases}

pub record IsRing (q : Indices) (slots : ℕ) : Type 0 where
  pub byte : q.max_size ≤ 255
  pub array : q.max_size ≤ slots
  pub head_in : q.head < q.max_size
  pub tail_in : q.tail < q.max_size
  pub size_in : q.size ≤ q.max_size
  pub tail_after : IsAfter q.max_size q.head q.size q.tail

pub record IsValid (m : Queues) : Type 0 where
  pub send : IsRing m.send_queue (length m.send_slots)
  pub recv : IsRing m.recv_queue (length m.recv_slots)

pub push_tail-IsRing :
    {q : Indices} {n : ℕ} → IsRing q n → q.size < q.max_size → IsRing (push_tail q) n
push_tail-IsRing {q} r lt = ground (arith, advance-cases q.max_size q.tail)

pub drop_head-IsRing : {q : Indices} {n : ℕ} → IsRing q n → 0 < q.size → IsRing (drop_head q) n
drop_head-IsRing {q} r lt = ground (arith, advance-cases q.max_size q.head)

length-map {ℓ κ} :
    {A : Type ℓ} {B : Type κ} (f : A → B) (xs : List A) → length (map f xs) ≡ length xs
length-map f [] = refl
length-map f (x ∷ xs) = ap suc (length-map f xs)

length-clear_send_times :
    (n : ℕ) (slots : List SendSlot) → length (clear_send_times n slots) ≡ length slots
unfolding clear_send_times
length-clear_send_times zero slots = refl
length-clear_send_times (suc n) [] = refl
length-clear_send_times (suc n) (s ∷ slots) = ap suc (length-clear_send_times n slots)

-- From arrays that are large enough, the two initialisers give a valid state, in this order and
-- whatever the variables held before.
pub init-IsValid :
    (s r : ℕ) (m : Queues)
    → 0 < s
    → s ≤ 255
    → s ≤ length m.send_slots
    → 0 < r
    → r ≤ 255
    → r ≤ length m.recv_slots
    → IsValid (sdn_recv_queue_init r (sdn_send_queue_init s m))
unfolding sdn_recv_queue_init sdn_send_queue_init
init-IsValid s r m hs bs ls hr br lr = omega (
  arith,
  length-clear_send_times r (map blank_send_slot m.send_slots),
  length-map blank_send_slot m.send_slots,
  length-map blank_recv_slot m.recv_slots,
)

-- Every operation keeps both rings valid.
pub send_enqueue-IsValid :
    (packet len time : ℕ) {m : Queues}
    → IsValid m
    → IsValid (sdn_send_queue_enqueue packet len time m).1
unfolding sdn_send_queue_enqueue
send_enqueue-IsValid packet len time {m} v = ground (
  arith,
  push_tail-IsRing v.send,
  length-set m.send_slots m.send_queue.tail
      (filled (get_or m.send_slots m.send_queue.tail no_send_slot) packet len time),
)

pub send_dequeue-IsValid : {m : Queues} → IsValid m → IsValid (sdn_send_queue_dequeue m).1
unfolding sdn_send_queue_dequeue
send_dequeue-IsValid v = ground (arith, drop_head-IsRing v.send)

pub recv_enqueue-IsValid :
    (now packet len : ℕ) {m : Queues}
    → IsValid m
    → IsValid (sdn_recv_queue_enqueue now packet len m).1
unfolding sdn_recv_queue_enqueue
recv_enqueue-IsValid now packet len {m} v = ground (
  arith,
  push_tail-IsRing v.recv,
  length-set m.recv_slots m.recv_queue.tail
      (record { packet = some packet; len = len; time = now }),
)

pub recv_dequeue-IsValid : {m : Queues} → IsValid m → IsValid (sdn_recv_queue_dequeue m).1
unfolding sdn_recv_queue_dequeue
recv_dequeue-IsValid v = ground (arith, drop_head-IsRing v.recv)
