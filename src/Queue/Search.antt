-- ===== src/Queue/Search.antt =====
-- The two reads of sdn-queue.c that look into the send queue.
use idit_sdn.Base.{ℕ, zero, suc, ◌-◌, ◌≤◌, ◌<◌, ◌≡◌, refl, ap, ◌∙◌}
use idit_sdn.Base.{List, [], ◌∷◌, ◌++◌, some, inl, inr}
use idit_sdn.Base.{get_or, find?, Bool-cases, arith}
use mathlib.Core.Option
use idit_sdn.Queue.{Queues, SendSlot, Header, no_send_slot, advance, is_own_of_type}
use idit_sdn.Queue.{find_by_type_from, sdn_send_queue_find_by_type, sdn_send_queue_tail}
use idit_sdn.Queue.Contents.{contents, IsAfter, IsAfter-advance, advance-lt}
use idit_sdn.Queue.Invariant.{IsValid}
use idit_sdn.Queue.Fifo.{send_contents}

module _ (memory : ℕ → Header) (own type : ℕ) where
  find_from :
      (slots : List SendSlot) (m n i : ℕ)
      → Option.map
          (λ k. get_or slots k no_send_slot)
          (find_by_type_from memory own type slots m n i)
        ≡ find? (is_own_of_type memory own type) (contents no_send_slot slots m i n)
  unfolding find_by_type_from
  find_from slots m zero i = refl
  find_from slots m (suc n) i =
      elim (Bool-cases (is_own_of_type memory own type (get_or slots i no_send_slot))) [
        | inl t ↦ rw t
        | inr f ↦ rw f (find_from slots m n (advance m i))
      ]

  find_from-lt :
      (slots : List SendSlot) (m n i k : ℕ)
      → i < m
      → m ≤ 255
      → find_by_type_from memory own type slots m n i ≡ some k
      → k < m
  unfolding find_by_type_from
  find_from-lt slots m zero i k lt le e = ground arith
  find_from-lt slots m (suc n) i k lt le e =
      ground (arith, find_from-lt slots m n (advance m i) k (advance-lt m i lt le) le)

  -- `sdn_send_queue_find_by_type` finds the slot of the oldest queued packet of the type that this
  -- node made, and nothing only if there is none.
  pub find_by_type_lem :
      (m : Queues)
      → Option.map
          (λ k. get_or m.send_slots k no_send_slot)
          (sdn_send_queue_find_by_type memory own type m)
        ≡ find? (is_own_of_type memory own type) (send_contents m)
  unfolding sdn_send_queue_find_by_type
  find_by_type_lem m =
      find_from m.send_slots m.send_queue.max_size m.send_queue.size m.send_queue.head

  -- The index that it returns is one of the ring's.
  pub find_by_type-lt :
      (m : Queues) (k : ℕ)
      → IsValid m
      → sdn_send_queue_find_by_type memory own type m ≡ some k
      → k < m.send_queue.max_size
  unfolding sdn_send_queue_find_by_type
  find_by_type-lt m k v e =
      find_from-lt m.send_slots m.send_queue.max_size m.send_queue.size m.send_queue.head k
        v.send.head_in v.send.byte e

contents_snoc {ℓ} :
    {A : Type ℓ} (d : A) (slots : List A) (m h n i : ℕ)
    → h < m
    → n < m
    → m ≤ 255
    → i < m
    → IsAfter m h n i
    → contents d slots m h (suc n) ≡ contents d slots m h n ++ (get_or slots i d ∷ [])
contents_snoc d slots m h zero i hh hn hm hi a =
    ap (λ k. get_or slots k d ∷ []) {x = h} {y = i} (omega arith)
contents_snoc d slots m h (suc n) i hh hn hm hi a =
    ap (λ r. get_or slots h d ∷ r)
      (contents_snoc d slots m (advance m h) n i (advance-lt m h hh hm) (omega arith) hm hi
        (IsAfter-advance m h n i hh hm hi a))

-- In a queue with an entry `sdn_send_queue_tail` leads to the slot of the newest entry: the
-- contents are those of one entry less, and this slot.
pub tail_lem :
    {m : Queues}
    → IsValid m
    → 0 < m.send_queue.size
    → (sdn_send_queue_tail m < m.send_queue.max_size)
      × (send_contents m
          ≡ contents no_send_slot m.send_slots m.send_queue.max_size m.send_queue.head
              (m.send_queue.size - 1)
            ++ (get_or m.send_slots (sdn_send_queue_tail m) no_send_slot ∷ []))
unfolding sdn_send_queue_tail
tail_lem {m} v pos = (
  ground arith,
  ap (λ k. contents no_send_slot m.send_slots m.send_queue.max_size m.send_queue.head k)
        {x = m.send_queue.size} {y = suc (m.send_queue.size - 1)} (omega arith)
      ∙ contents_snoc no_send_slot m.send_slots m.send_queue.max_size m.send_queue.head
          (m.send_queue.size - 1) _ v.send.head_in (ground arith) v.send.byte (ground arith)
          (ground arith),
)
