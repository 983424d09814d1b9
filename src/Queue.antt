-- ===== src/Queue.antt =====
-- sdn-common/sdn-queue.c: the send queue and the receive queue of a node, two rings of packet
-- pointers. The build is that of an enabled node with MANAGEMENT, so a slot has a time stamp.
-- A pointer to a slot is the slot's index, a pointer to a packet is a number.
pub mod Contents
pub mod Invariant
pub mod Fifo
pub mod System
pub mod Search
use idit_sdn.Base.{
  ℕ, zero, suc, ◌+◌, ◌-◌, ◌%◌, Bool, true, false, Option, none, some, List, [], ◌∷◌,
}
use idit_sdn.Base.{ltb, ◌==◌, if◌then◌else◌, ◌&&◌, get_or, set, map}

abbrev pub sdn_success : ℕ
sdn_success = 0

abbrev pub sdn_error : ℕ
sdn_error = 1

-- `sdn_queue_t`. Its fields are of type `uint8_t`.
pub record Indices : Type 0 where
  pub head : ℕ
  pub tail : ℕ
  pub max_size : ℕ
  pub size : ℕ

-- `sdn_send_queue_data_t`
pub record SendSlot : Type 0 where
  pub packet : Option ℕ
  pub len : ℕ
  pub last_next_hop : ℕ
  pub time : ℕ

-- `sdn_recv_queue_data_t`
pub record RecvSlot : Type 0 where
  pub packet : Option ℕ
  pub len : ℕ
  pub time : ℕ

-- The file's variables: the indices and the arrays of both queues.
pub record Queues : Type 0 where
  pub send_queue : Indices
  pub recv_queue : Indices
  pub send_slots : List SendSlot
  pub recv_slots : List RecvSlot

-- `sdn_header_t`, what a packet pointer leads to.
pub record Header : Type 0 where
  pub type : ℕ
  pub reserved : ℕ
  pub thl : ℕ
  pub seq_no : ℕ
  pub source : ℕ

-- What a read past the end of an array gives; `Invariant.in_bounds` rules such reads out.
abbrev pub no_send_slot : SendSlot
no_send_slot = record { packet = none; len = 0; last_next_hop = 0; time = 0 }

abbrev pub no_recv_slot : RecvSlot
no_recv_slot = record { packet = none; len = 0; time = 0 }

-- `uint8_t` arithmetic
abbrev pub inc8 : ℕ → ℕ
inc8 n = (n + 1) % 256

abbrev pub dec8 : ℕ → ℕ
dec8 n = (n + 255) % 256

-- `head++; if (head == max_size) head = 0;`
unfoldable pub advance : ℕ → ℕ → ℕ
advance max_size i = if inc8 i == max_size then 0 else inc8 i

-- `head++`, wrapped, and `size--`
abbrev pub drop_head : Indices → Indices
drop_head q = record q { head = advance q.max_size q.head; size = dec8 q.size }

-- `tail += 1`, wrapped, and `size += 1`
abbrev pub push_tail : Indices → Indices
push_tail q = record q { tail = advance q.max_size q.tail; size = inc8 q.size }

abbrev pub fresh_indices : ℕ → Indices
fresh_indices max_size = record { head = 0; tail = 0; max_size = max_size; size = 0 }

abbrev pub blank_send_slot : SendSlot → SendSlot
blank_send_slot s = record s { packet = none; len = 0; time = 0 }

abbrev pub blank_recv_slot : RecvSlot → RecvSlot
blank_recv_slot s = record s { packet = none; len = 0 }

-- The array has `max_size` elements, so the loop goes over all of it.
unfoldable pub sdn_send_queue_init : ℕ → Queues → Queues
sdn_send_queue_init max_size m = record m {
  send_queue = fresh_indices max_size;
  send_slots = map blank_send_slot m.send_slots;
}

unfoldable pub sdn_send_queue_empty : Queues → Bool
sdn_send_queue_empty m = m.send_queue.size == 0

unfoldable pub sdn_send_queue_size : Queues → ℕ
sdn_send_queue_size m = m.send_queue.size

-- `sdn_send_queue_maxSize`
unfoldable pub sdn_send_queue_max_size : Queues → ℕ
sdn_send_queue_max_size m = m.send_queue.max_size

unfoldable pub sdn_send_queue_head : Queues → ℕ
sdn_send_queue_head m = m.send_queue.head

unfoldable pub sdn_send_queue_tail : Queues → ℕ
sdn_send_queue_tail m =
    if m.send_queue.tail == 0 then m.send_queue.max_size - 1 else m.send_queue.tail - 1

-- The head's slot is returned also where the queue is empty.
unfoldable pub sdn_send_queue_dequeue : Queues → ℕ × Queues
unfolding sdn_send_queue_head sdn_send_queue_empty
sdn_send_queue_dequeue m =
    let t = sdn_send_queue_head m in
    if sdn_send_queue_empty m then (t, m) else (t, record m { send_queue = drop_head m.send_queue })

-- `last_next_hop` keeps the value of the packet that held the slot before.
abbrev pub filled : SendSlot → ℕ → ℕ → ℕ → SendSlot
filled s packet len time = record s { packet = some packet; len = len; time = time }

unfoldable pub sdn_send_queue_enqueue : ℕ → ℕ → ℕ → Queues → ℕ × Queues
unfolding sdn_send_queue_size sdn_send_queue_max_size
sdn_send_queue_enqueue packet len time m =
    if ltb (sdn_send_queue_size m) (sdn_send_queue_max_size m)
    then (
      sdn_success,
      record m {
        send_queue = push_tail q;
        send_slots =
            set m.send_slots q.tail
              (filled (get_or m.send_slots q.tail no_send_slot) packet len time);
      },
    )
    else (sdn_error, m)
  where
    open m use {send_queue as q}

-- `memory` leads from a packet pointer to the header, `own` is `sdn_node_addr`.
module _ (memory : ℕ → Header) (own type : ℕ) where
  -- Whether a slot holds a packet of the type that this node made.
  unfoldable pub is_own_of_type : SendSlot → Bool
  is_own_of_type s = elim s.packet [
    | none ↦ false
    | some p ↦ (memory p).type == type && (memory p).source == own
  ]

  -- The loop, with the rounds that are left and the index of the slot.
  unfoldable pub find_by_type_from : List SendSlot → ℕ → ℕ → ℕ → Option ℕ
  find_by_type_from slots max_size zero i = none
  find_by_type_from slots max_size (suc n) i =
      let rest = find_by_type_from slots max_size n (advance max_size i) in
      if is_own_of_type (get_or slots i no_send_slot) then some i else rest

  unfoldable pub sdn_send_queue_find_by_type : Queues → Option ℕ
  sdn_send_queue_find_by_type m =
      find_by_type_from m.send_slots m.send_queue.max_size m.send_queue.size m.send_queue.head

-- `for (i = 0; i < n; i++) sdn_send_queue_data[i].time = 0;`
unfoldable pub clear_send_times : ℕ → List SendSlot → List SendSlot
clear_send_times zero slots = slots
clear_send_times (suc n) [] = []
clear_send_times (suc n) (s ∷ slots) = record s { time = 0 } ∷ clear_send_times n slots

-- The time stamps that are cleared are those of the send queue.
unfoldable pub sdn_recv_queue_init : ℕ → Queues → Queues
unfolding clear_send_times
sdn_recv_queue_init max_size m = record m {
  recv_queue = fresh_indices max_size;
  recv_slots = map blank_recv_slot m.recv_slots;
  send_slots = clear_send_times max_size m.send_slots;
}

unfoldable pub sdn_recv_queue_empty : Queues → Bool
sdn_recv_queue_empty m = m.recv_queue.size == 0

unfoldable pub sdn_recv_queue_size : Queues → ℕ
sdn_recv_queue_size m = m.recv_queue.size

-- `sdn_recv_queue_maxSize`
unfoldable pub sdn_recv_queue_max_size : Queues → ℕ
sdn_recv_queue_max_size m = m.recv_queue.max_size

unfoldable pub sdn_recv_queue_head : Queues → ℕ
sdn_recv_queue_head m = m.recv_queue.head

unfoldable pub sdn_recv_queue_dequeue : Queues → Option ℕ × Queues
unfolding sdn_recv_queue_head sdn_recv_queue_empty
sdn_recv_queue_dequeue m =
    if sdn_recv_queue_empty m
    then (none, m)
    else (some (sdn_recv_queue_head m), record m { recv_queue = drop_head m.recv_queue })

-- `now` is what `clock_time()` returns.
unfoldable pub sdn_recv_queue_enqueue : ℕ → ℕ → ℕ → Queues → ℕ × Queues
unfolding sdn_recv_queue_size sdn_recv_queue_max_size
sdn_recv_queue_enqueue now packet len m =
    if ltb (sdn_recv_queue_size m) (sdn_recv_queue_max_size m)
    then (
      sdn_success,
      record m {
        recv_queue = push_tail q;
        recv_slots =
            set m.recv_slots q.tail (record { packet = some packet; len = len; time = now });
      },
    )
    else (sdn_error, m)
  where
    open m use {recv_queue as q}
