-- ===== src/Send/HandOver.antt =====
-- A packet in its buffer goes into the send queue, or the buffer back to the pool.
use idit_sdn.Base.{ℕ, ◌≤◌, ◌≡◌, refl, sym, ap, ◌∙◌, subst}
use idit_sdn.Base.{◌⊎◌, inl, inr, Bool, true, false, some}
use idit_sdn.Base.{List, [], ◌∷◌, ◌++◌, arith, ltb, ◌==◌}
use idit_sdn.Base.{if◌then◌else◌, Bool-cases, length}
use idit_sdn.Queue.{sdn_success, sdn_error, sdn_send_queue_enqueue}
use idit_sdn.Queue.Invariant.{IsValid}
use idit_sdn.Queue.Fifo.{sent, send_enqueue_refines}
use idit_sdn.Queue.Fifo.{Entry as Queued}
use idit_sdn.Contiki.{Contiki}
use idit_sdn.Keep.{release}
use idit_sdn.Keep.Release.{IsReleased, release-IsReleased}
use idit_sdn.Send.{Outbox, hand_over}

if_true {ℓ} : {A : Type ℓ} (b : Bool) (x y : A) → b ≡ true → (if b then x else y) ≡ x
if_true b x y h = rw h refl

if_false {ℓ} : {A : Type ℓ} (b : Bool) (x y : A) → b ≡ false → (if b then x else y) ≡ y
if_false b x y h = rw h refl

if_both {ℓ} :
    {A B : Type ℓ} (f : A → B) (b : Bool) (x y : A)
    → f (if b then x else y) ≡ (if b then f x else f y)
if_both f true x y = refl
if_both f false x y = refl

module _ (os : Contiki) where
  module _ (a len time : ℕ) (o : Outbox os) where
    abbrev code : ℕ
    code = (sdn_send_queue_enqueue a len time o.sender.queues).0

    hand_over-sender :
        (hand_over os a len time o).1.sender
        ≡ release os a (record { packet = some a; len = len; time = time }) o.sender
    unfolding hand_over release
    hand_over-sender = if_both (λ (r : ℕ × Outbox os). r.1.sender) (code == sdn_success) _ _

    pub hand_over-seq_no : (hand_over os a len time o).1.seq_no ≡ o.seq_no
    unfolding hand_over
    hand_over-seq_no = elim (Bool-cases (code == sdn_success)) [
      | inl h ↦ rw h refl
      | inr h ↦ rw h refl
    ]

    abbrev has_room : Bool
    has_room = ltb (length (sent o.sender.queues)) o.sender.queues.send_queue.max_size

    code_lem : IsValid o.sender.queues → code ≡ (if has_room then sdn_success else sdn_error)
    code_lem v =
        ap (λ (r : ℕ × List Queued). r.0) (send_enqueue_refines a len time v)
        ∙ elim (Bool-cases has_room) [ inl h ↦ rw h refl | inr h ↦ rw h refl ]

    hand_over-code :
        (hand_over os a len time o).0 ≡ (if code == sdn_success then sdn_success else sdn_error)
    unfolding hand_over
    hand_over-code = if_both (λ (r : ℕ × Outbox os). r.0) (code == sdn_success) _ _

    pub hand_over-IsReleased :
        IsValid o.sender.queues
        → IsReleased os (some a, len, time) a o.sender (hand_over os a len time o).1.sender
    hand_over-IsReleased v =
        subst (IsReleased os (some a, len, time) a o.sender) (sym hand_over-sender)
          (release-IsReleased os a (record { packet = some a; len = len; time = time }) o.sender v)

    hand_over-result :
        (b : Bool)
        → IsValid o.sender.queues
        → has_room ≡ b
        → (hand_over os a len time o).0 ≡ (if b then sdn_success else sdn_error)
    hand_over-result b v h =
        hand_over-code
        ∙ (ap (λ c. if c == sdn_success then sdn_success else sdn_error) (code_lem v)
            ∙ elim (Bool-cases b) [ inl e ↦ rw (h, e) refl | inr e ↦ rw (h, e) refl ])

    -- Either half of the outcome, by the room in the queue.
    pub hand_over-cases :
        IsValid o.sender.queues
        → (((hand_over os a len time o).0 ≡ sdn_success)
            × (sent (hand_over os a len time o).1.sender.queues
                ≡ sent o.sender.queues ++ ((some a, len, time) ∷ []))
            × ((hand_over os a len time o).1.sender.pool ≡ o.sender.pool))
          ⊎ (((hand_over os a len time o).0 ≡ sdn_error)
              × (o.sender.queues.send_queue.max_size ≤ length (sent o.sender.queues))
              × (sent (hand_over os a len time o).1.sender.queues ≡ sent o.sender.queues)
              × ((hand_over os a len time o).1.sender.pool ≡ os.memb_free a o.sender.pool))
    hand_over-cases v = elim (hand_over-IsReleased v).outcome [
      | inl (free, less, q, p) ↦ inl (hand_over-result true v (ground arith), q, p)
      | inr (full, none_left, q, p) ↦
          inr (hand_over-result false v (ground arith), ground arith, q, p)
    ]

    pub hand_over-sent :
        IsValid o.sender.queues
        → sent (hand_over os a len time o).1.sender.queues ≡ (
            if has_room
            then sent o.sender.queues ++ ((some a, len, time) ∷ [])
            else sent o.sender.queues)
    hand_over-sent v = elim (hand_over-IsReleased v).outcome [
      | inl (free, less, q, p) ↦ q ∙ sym (if_true has_room _ _ (ground arith))
      | inr (full, none_left, q, p) ↦ q ∙ sym (if_false has_room _ _ (ground arith))
    ]
