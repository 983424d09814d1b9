-- ===== src/Window/Retransmit.antt =====
-- The timer of a slot: what `sld_f` makes of the packet that waits there.
use idit_sdn.Base.{ℕ, ◌<◌, ◌≡◌, refl, ap, ◌∙◌}
use idit_sdn.Base.{inl, inr, false, some}
use idit_sdn.Base.{List, [], ◌∷◌, ◌++◌, arith, ltb, ◌==◌}
use idit_sdn.Base.{if◌then◌else◌, Bool-cases, Option-cases, length}
use idit_sdn.Base.{get_or}
use idit_sdn.Queue.Invariant.{IsValid}
use idit_sdn.Queue.Fifo.{sent}
use idit_sdn.Queue.Fifo.{Entry as Queued}
use idit_sdn.Contiki.{Contiki}
use idit_sdn.Keep.{sdn_packetbuf_pool_get, send_idle}
use idit_sdn.Send.{Outbox, alloc_and_enqueue}
use idit_sdn.Send.HandOver.{hand_over-sent}
use idit_sdn.Packet.{Bytes, packet_source}
use idit_sdn.Base.{length-set, get_or-set_self}
use idit_sdn.Window.Renew.{lt→ltb}
use idit_sdn.Window.{Waiting, Window, no_slot, sld_f, sld_remove_element, full_window}

removed_slot :
    (i : ℕ) (u : Window)
    → i < length u.slots
    → i < 4
    → (get_or (sld_remove_element i u).1.slots i no_slot).len ≡ 0
unfolding sld_remove_element
removed_slot i u b c =
    rw (sld_remove_element, lt→ltb i 4 c)
      (ap (λ (x : Waiting). x.len)
        (get_or-set_self u.slots i (record (get_or u.slots i no_slot) { len = 0; armed = false })
          no_slot b))

module _ (os : Contiki) where
  -- The queue with the packet, where it has room.
  abbrev pub queued : ℕ → ℕ → Outbox os → List Queued
  queued a len o =
      if ltb (length (sent o.sender.queues)) o.sender.queues.send_queue.max_size
      then sent o.sender.queues ++ ((some a, len, 0) ∷ [])
      else sent o.sender.queues

  alloc_and_enqueue-sent :
      (own : ℕ) (p : Bytes) (len a : ℕ) (pool : os.Pool) (o : Outbox os)
      → IsValid o.sender.queues
      → os.memb_alloc o.sender.pool ≡ some (a, pool)
      → sent (alloc_and_enqueue os own p len 0 o).1.sender.queues ≡ queued a len o
  unfolding alloc_and_enqueue sdn_packetbuf_pool_get
  alloc_and_enqueue-sent own p len a pool o v h = elim (Bool-cases (packet_source p == own)) [
    | inl e ↦ rw (alloc_and_enqueue, sdn_packetbuf_pool_get, h, e) (hand_over-sent os a len 0 _ v)
    | inr e ↦ rw (alloc_and_enqueue, sdn_packetbuf_pool_get, h, e) (hand_over-sent os a len 0 _ v)
  ]

  module _ (own i : ℕ) (w : Window) (o : Outbox os) where
    abbrev awake : Outbox os
    awake =
        if o.sender.send_status == full_window
        then record o { sender = record o.sender { send_status = send_idle } }
        else o

    abbrev waiting : Waiting
    waiting = get_or w.slots i no_slot

    f-queue :
        (sld_f os own i (w, o)).1 ≡ (alloc_and_enqueue os own waiting.packet waiting.len 0 awake).1
    unfolding sld_f
    f-queue = elim (Option-cases (os.memb_alloc o.sender.pool)) [
      | inl h ↦ rw (h, sld_f) refl
      | inr (x, h) ↦ rw (h, sld_f) refl
    ]

    f-slots :
        (a : ℕ) (pool : os.Pool)
        → os.memb_alloc o.sender.pool ≡ some (a, pool)
        → i < length w.slots
        → i < 4
        → (get_or (sld_f os own i (w, o)).0.slots i no_slot).len ≡ 0
    unfolding sld_f
    f-slots a pool h b c =
        rw (h, sld_f)
          (removed_slot i _
            (omega (
              arith,
              length-set w.slots i (record waiting {
                packet = (alloc_and_enqueue os own waiting.packet waiting.len 0 awake).0;
                armed = false;
              }),
              b,
            ))
            c)

    awake-queued :
        (a len : ℕ)
        → IsValid o.sender.queues
        → ((IsValid awake.sender.queues)
            × (awake.sender.pool ≡ o.sender.pool)
            × (queued a len awake ≡ queued a len o))
    awake-queued a len v = elim (Bool-cases (o.sender.send_status == full_window)) [
      | inl h ↦ rw h (v, refl, refl)
      | inr h ↦ rw h (v, refl, refl)
    ]

  -- When the timer of a slot runs out and there is a buffer, the slot is emptied, and the packet is
  -- sent again only if the send queue has room: if it is full, the packet is lost.
  pub retransmit_lem :
      (own i a : ℕ) (pool : os.Pool) (w : Window) (o : Outbox os)
      → IsValid o.sender.queues
      → length w.slots ≡ 4
      → i < 4
      → os.memb_alloc o.sender.pool ≡ some (a, pool)
      → ((get_or (sld_f os own i (w, o)).0.slots i no_slot).len ≡ 0)
        × (sent (sld_f os own i (w, o)).1.sender.queues ≡ (
            if ltb (length (sent o.sender.queues)) o.sender.queues.send_queue.max_size
            then sent o.sender.queues ++ ((some a, (get_or w.slots i no_slot).len, 0) ∷ [])
            else sent o.sender.queues))
  retransmit_lem own i a pool w o v size b h =
      let len = (get_or w.slots i no_slot).len in
      let (valid, same, q) = awake-queued own i w o a len v in
      (
        f-slots own i w o a pool h (omega (arith, size)) b,
        ap (λ u. sent u.sender.queues) (f-queue own i w o)
            ∙ (alloc_and_enqueue-sent own (get_or w.slots i no_slot).packet len a pool
                  (awake own i w o) valid (ap os.memb_alloc same ∙ h)
                ∙ q),
      )
