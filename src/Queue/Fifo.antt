-- ===== src/Queue/Fifo.antt =====
-- The send queue and the receive queue of sdn-queue.c against bounded first-in first-out queues.
use idit_sdn.Base.{ℕ, zero, suc, ◌-◌, ◌<◌, ◌≡◌, refl, ap, ◌∙◌}
use idit_sdn.Base.{List, [], ◌∷◌, ◌++◌, map, Option, some, none}
use idit_sdn.Base.{ltb, if◌then◌else◌, length, get_or, set, arith}
use mathlib.Core.Option
use idit_sdn.Queue.{
  Indices, inc8, Queues, SendSlot, RecvSlot, sdn_success, sdn_error, advance, filled,
}
use idit_sdn.Queue.{no_send_slot, no_recv_slot}
use idit_sdn.Queue.{sdn_send_queue_enqueue, sdn_send_queue_dequeue, sdn_send_queue_empty}
use idit_sdn.Queue.{sdn_recv_queue_enqueue, sdn_recv_queue_dequeue}
use idit_sdn.Queue.Contents.{contents, contents-set, length-contents}
use idit_sdn.Queue.Invariant.{IsRing, IsValid}

-- The specification, over entries of any kind.
module _ {ℓ} {A : Type ℓ} where
  abbrev pub push : ℕ → A → List A → ℕ × List A
  push cap a q = if ltb (length q) cap then (sdn_success, q ++ (a ∷ [])) else (sdn_error, q)

  abbrev pub pop : List A → Option A × List A
  pop [] = (none, [])
  pop (a ∷ q) = (some a, q)

-- What an entry is, the pointer, the length and the time stamp. The send slots' `last_next_hop` is
-- forgotten: it is no argument of an enqueue.
abbrev pub Entry : Type 0
Entry = Option ℕ × ℕ × ℕ

abbrev pub send_entry : SendSlot → Entry
send_entry s = (s.packet, s.len, s.time)

abbrev pub recv_entry : RecvSlot → Entry
recv_entry s = (s.packet, s.len, s.time)

abbrev pub send_contents : Queues → List SendSlot
send_contents m =
    contents no_send_slot m.send_slots m.send_queue.max_size m.send_queue.head m.send_queue.size

abbrev pub recv_contents : Queues → List RecvSlot
recv_contents m =
    contents no_recv_slot m.recv_slots m.recv_queue.max_size m.recv_queue.head m.recv_queue.size

abbrev pub sent : Queues → List Entry
sent m = map send_entry (send_contents m)

abbrev pub received : Queues → List Entry
received m = map recv_entry (recv_contents m)

map-append {ℓ κ} :
    {A : Type ℓ} {B : Type κ} (f : A → B) (xs ys : List A) → map f (xs ++ ys) ≡ map f xs ++ map f ys
map-append f [] ys = refl
map-append f (x ∷ xs) ys = ap (λ r. f x ∷ r) (map-append f xs ys)

length-map {ℓ κ} :
    {A : Type ℓ} {B : Type κ} (f : A → B) (xs : List A) → length (map f xs) ≡ length xs
length-map f [] = refl
length-map f (x ∷ xs) = ap suc (length-map f xs)

pub length-sent : (m : Queues) → length (sent m) ≡ m.send_queue.size
length-sent m =
    length-map send_entry (send_contents m)
    ∙ length-contents no_send_slot m.send_slots m.send_queue.max_size m.send_queue.head
        m.send_queue.size

pub length-received : (m : Queues) → length (received m) ≡ m.recv_queue.size
length-received m =
    length-map recv_entry (recv_contents m)
    ∙ length-contents no_recv_slot m.recv_slots m.recv_queue.max_size m.recv_queue.head
        m.recv_queue.size

module _ {ℓ} {A : Type ℓ} (d : A) (slots : List A) (m h : ℕ) where
  -- `contents` matches on `suc`, the code tests `size == 0`.
  contents_of_pos :
      (n : ℕ)
      → 0 < n
      → contents d slots m h n ≡ get_or slots h d ∷ contents d slots m (advance m h) (n - 1)
  contents_of_pos zero p = absurd (omega arith)
  contents_of_pos (suc n) p =
      ap (λ k. get_or slots h d ∷ contents d slots m (advance m h) k) (omega arith)

-- The entries after a write at the tail, with the size counted in a byte.
entries-set {ℓ κ} :
    {A : Type ℓ} {B : Type κ} (f : A → B) (d v : A) (slots : List A) {q : Indices}
    → IsRing q (length slots)
    → q.size < q.max_size
    → map f (contents d (set slots q.tail v) q.max_size q.head (inc8 q.size))
      ≡ map f (contents d slots q.max_size q.head q.size) ++ (f v ∷ [])
entries-set f d v slots {q} r lt =
    ap (λ k. map f (contents d (set slots q.tail v) q.max_size q.head k)) {y = suc q.size}
      (omega arith)
    ∙ ap (map f) (
        contents-set d slots q.max_size q.head q.size q.tail v r.head_in lt r.byte r.array r.tail_in
          r.tail_after)
    ∙ map-append f (contents d slots q.max_size q.head q.size) (v ∷ [])

-- `sdn_send_queue_enqueue` returns the code of the specification's `push` with the capacity
-- `max_size`, and leaves the queue with its entries.
pub send_enqueue_refines :
    (packet len time : ℕ) {m : Queues}
    → IsValid m
    → let (code, m') = sdn_send_queue_enqueue packet len time m in
      (code, sent m') ≡ push m.send_queue.max_size (some packet, len, time) (sent m)
unfolding sdn_send_queue_enqueue
send_enqueue_refines packet len time {m} v = ground (
  arith,
  length-sent m,
  entries-set send_entry no_send_slot
      (filled (get_or m.send_slots m.send_queue.tail no_send_slot) packet len time) m.send_slots
      v.send,
)

-- `sdn_send_queue_dequeue` leaves the rest of the queue and returns the slot of its oldest entry,
-- where there is one.
pub send_dequeue_refines :
    {m : Queues}
    → IsValid m
    → let (slot, m') = sdn_send_queue_dequeue m in
      (
        if sdn_send_queue_empty m
            then none
            else some (send_entry (get_or m.send_slots slot no_send_slot)),
        sent m',
      )
      ≡ pop (sent m)
unfolding sdn_send_queue_dequeue
send_dequeue_refines {m} v = ground (
  arith,
  contents_of_pos no_send_slot m.send_slots m.send_queue.max_size m.send_queue.head
      m.send_queue.size,
)

-- `sdn_recv_queue_enqueue` returns the code of the specification's `push` with the capacity
-- `max_size`, and leaves the queue with its entries.
pub recv_enqueue_refines :
    (now packet len : ℕ) {m : Queues}
    → IsValid m
    → let (code, m') = sdn_recv_queue_enqueue now packet len m in
      (code, received m') ≡ push m.recv_queue.max_size (some packet, len, now) (received m)
unfolding sdn_recv_queue_enqueue
recv_enqueue_refines now packet len {m} v = ground (
  arith,
  length-received m,
  entries-set recv_entry no_recv_slot (record { packet = some packet; len = len; time = now })
      m.recv_slots v.recv,
)

-- `sdn_recv_queue_dequeue` leaves the rest of the queue and returns the slot of its oldest entry,
-- or NULL where there is none.
pub recv_dequeue_refines :
    {m : Queues}
    → IsValid m
    → let (slot, m') = sdn_recv_queue_dequeue m in
      (Option.map (λ i. recv_entry (get_or m.recv_slots i no_recv_slot)) slot, received m')
      ≡ pop (received m)
unfolding sdn_recv_queue_dequeue
recv_dequeue_refines {m} v = ground (
  arith,
  contents_of_pos no_recv_slot m.recv_slots m.recv_queue.max_size m.recv_queue.head
      m.recv_queue.size,
)
