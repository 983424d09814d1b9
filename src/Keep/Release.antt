-- ===== src/Keep/Release.antt =====
-- The release of one kept packet: into the send queue, or back to the pool where that is full.
use idit_sdn.Base.{ℕ, ◌+◌, ◌-◌, ◌<◌, ◌≡◌, refl, sym, ap, ◌∙◌, subst}
use idit_sdn.Base.{◌⊎◌, inl, inr, Bool, true, false, not, ◌&&◌, some}
use idit_sdn.Base.{List, [], ◌∷◌, ◌++◌, arith, ltb, ◌==◌}
use idit_sdn.Base.{if◌then◌else◌, Bool-cases, length}
use idit_sdn.Base.{length-append}
use idit_sdn.Base.{ap₂}
use idit_sdn.Queue.{Queues, sdn_success, sdn_error, sdn_send_queue_enqueue, sdn_send_queue_empty}
use idit_sdn.Queue.Invariant.{IsValid, send_enqueue-IsValid}
use idit_sdn.Queue.Fifo.{sent, send_enqueue_refines}
use idit_sdn.Queue.Fifo.{Entry as Queued}
use idit_sdn.Contiki.{Contiki}
use idit_sdn.Keep.{send_busy, send_idle}
use idit_sdn.Keep.{Kept, Sender, release, sdn_send_down_once, sdn_packetbuf_pool_put}

module _ (os : Contiki) where
  abbrev pub room : Sender os → ℕ
  room s = s.queues.send_queue.max_size - length (sent s.queues)

  -- What a release does where the queue has room, and where it is full.
  pub record IsReleased (q : Queued) (a : ℕ) (s u : Sender os) : Type 0 where
    pub valid : IsValid u.queues
    pub buffers_same : u.buffers ≡ s.buffers
    pub max_same : u.queues.send_queue.max_size ≡ s.queues.send_queue.max_size
    pub outcome :
        ((0 < room s)
          × (room u ≡ room s - 1)
          × (sent u.queues ≡ sent s.queues ++ (q ∷ []))
          × (u.pool ≡ s.pool))
        ⊎ ((room s ≡ 0)
            × (room u ≡ 0)
            × (sent u.queues ≡ sent s.queues)
            × (u.pool ≡ os.memb_free a s.pool))

  down_once-cases :
      (u : Sender os)
      → (sdn_send_down_once os u ≡ u)
        ⊎ (sdn_send_down_once os u ≡ record u { send_status = send_busy; posted = u.posted + 1 })
  unfolding sdn_send_down_once
  down_once-cases u =
      elim (Bool-cases (u.send_status == send_idle && not (sdn_send_queue_empty u.queues))) [
        | inl h ↦ inr (rw h refl)
        | inr h ↦ inl (rw h refl)
      ]

  module _ (a : ℕ) (k : Kept) (s : Sender os) (v : IsValid s.queues) where
    abbrev enqueued_as : ℕ × Queues
    enqueued_as = sdn_send_queue_enqueue a k.len k.time s.queues

    release-room :
        (enqueued_as.0 == sdn_success) ≡ true
        → release os a k s ≡ sdn_send_down_once os (record s { queues = enqueued_as.1 })
    unfolding release
    release-room h = rw h refl

    release-full :
        (enqueued_as.0 == sdn_success) ≡ false
        → release os a k s ≡ record s { pool = os.memb_free a s.pool }
    unfolding release sdn_packetbuf_pool_put
    release-full h = rw h refl

    enqueued-max : enqueued_as.1.send_queue.max_size ≡ s.queues.send_queue.max_size
    unfolding sdn_send_queue_enqueue
    enqueued-max = ground arith

    pushed :
        (b : Bool)
        → ltb (length (sent s.queues)) s.queues.send_queue.max_size ≡ b
        → ◌≡◌ {A = ℕ × List Queued}
            (enqueued_as.0, sent enqueued_as.1)
            (if b
              then (sdn_success, sent s.queues ++ ((some a, k.len, k.time) ∷ []))
              else (sdn_error, sent s.queues))
    pushed b h =
        send_enqueue_refines a k.len k.time v
        ∙ ap
            (λ x.
              if x
              then (sdn_success, sent s.queues ++ ((some a, k.len, k.time) ∷ []))
              else (sdn_error, sent s.queues))
            h

    queued-room :
        ltb (length (sent s.queues)) s.queues.send_queue.max_size ≡ true
        → enqueued_as.1.send_queue.max_size - length (sent enqueued_as.1) ≡ room s - 1
    queued-room h =
        let l =
          ap (λ r. length r.1) (pushed true h)
          ∙ length-append (sent s.queues) ((some a, k.len, k.time) ∷ []) in
        ap₂ (λ x y. x - y) enqueued-max l ∙ omega arith

    -- The queue after the packet is in it, whether or not the sending is started.
    queued-IsReleased :
        ltb (length (sent s.queues)) s.queues.send_queue.max_size ≡ true
        → (status posted : ℕ)
        → IsReleased
            (some a, k.len, k.time)
            a
            s
            (record s { queues = enqueued_as.1; send_status = status; posted = posted })
    queued-IsReleased h status posted = record {
      valid = send_enqueue-IsValid a k.len k.time v;
      buffers_same = refl;
      max_same = enqueued-max;
      outcome = inl (ground (arith, h), queued-room h, ap (λ r. r.1) (pushed true h), refl);
    }

    pub release-IsReleased : IsReleased (some a, k.len, k.time) a s (release os a k s)
    release-IsReleased =
        elim (Bool-cases (ltb (length (sent s.queues)) s.queues.send_queue.max_size)) [
          | inl h ↦
              let u = record s { queues = enqueued_as.1 } in
              subst (IsReleased (some a, k.len, k.time) a s)
                (sym (release-room (ap (λ r. r.0 == sdn_success) (pushed true h))))
                (elim (down_once-cases u) [
                  | inl e ↦
                      subst (IsReleased (some a, k.len, k.time) a s) (sym e)
                        (queued-IsReleased h s.send_status s.posted)
                  | inr e ↦
                      subst (IsReleased (some a, k.len, k.time) a s) (sym e)
                        (queued-IsReleased h send_busy (s.posted + 1))
                ])
          | inr h ↦
              subst (IsReleased (some a, k.len, k.time) a s)
                (sym (release-full (ap (λ r. r.0 == sdn_success) (pushed false h))))
                (record {
                  valid = v;
                  buffers_same = refl;
                  max_same = refl;
                  outcome = inr (ground (arith, h), ground (arith, h), refl, refl);
                })
        ]
