-- ===== src/Receive/Accepted.antt =====
-- What `sdn_receive` does with a packet that it has a buffer for.
use idit_sdn.Base.{
  ℕ, zero, suc, ◌+◌, ◌-◌, ◌*◌, ◌<◌, ◌≤◌, ◌≡◌, refl, sym, ap, ap₂, ◌∙◌, ◌≢◌, subst, inl, inr,
}
use idit_sdn.Base.{Bool, true, false, not, ◌&&◌, ◌||◌, some, [], ◌∷◌, ◌++◌, arith}
use idit_sdn.Base.{length, ltb, ◌==◌, if◌then◌else◌, Bool-cases, ==-self, ℕ-cases, ne→==}
use idit_sdn.Queue.{Queues, sdn_success, dec8, sdn_recv_queue_empty, sdn_recv_queue_enqueue}
use idit_sdn.Queue.Invariant.{IsValid, recv_enqueue-IsValid}
use idit_sdn.Queue.Fifo.{received, recv_enqueue_refines, push}
use idit_sdn.Contiki.{Contiki}
use idit_sdn.Packet.{Bytes, packet_source, set_byte}
use idit_sdn.Keep.{Sender, sdn_packetbuf_pool_get, sdn_packetbuf_pool_put, copy_packet, put_buffer}
use idit_sdn.Receive.{Inbox, is_last_of, sdn_seqno_is_duplicate}
use idit_sdn.Receive.Numbers.{forgotten, register_lem}
use idit_sdn.Receive.{sdn_seqno_register, sdn_receive}

module _ (os : Contiki) (now own len a : ℕ) (pool : os.Pool) (p : Bytes) (b : Inbox os) where
  -- Has the packet a hop left, and the receive queue room for it?
  abbrev pub accepted : Bool
  accepted =
      not (p 2 == 0) && ltb (length (received b.node.queues)) b.node.queues.recv_queue.max_size

  abbrev copied : Bytes
  copied = copy_packet len p (b.node.buffers a)

  abbrev passed : Bytes
  passed = set_byte 2 (dec8 (copied 2)) copied

  abbrev entry : ℕ × Queues
  entry = sdn_recv_queue_enqueue now a len b.node.queues

  abbrev in_buffer : Bytes → os.Pool → Sender os
  in_buffer q l = record b.node { pool = l; buffers = put_buffer a q b.node.buffers }

  abbrev expired : Inbox os
  expired = record b { node = in_buffer copied (os.memb_free a pool) }

  abbrev refused : Inbox os
  refused = record b { node = in_buffer passed (os.memb_free a pool) }

  abbrev taken : Inbox os
  taken = record {
    received_seqnos = sdn_seqno_register passed b.received_seqnos;
    node = record (in_buffer passed pool) { queues = entry.1 };
    posted = if sdn_recv_queue_empty b.node.queues then suc b.posted else b.posted;
  }

  receive_lem :
      os.memb_alloc b.node.pool ≡ some (a, pool)
      → sdn_seqno_is_duplicate own p b.received_seqnos ≡ false
      → sdn_receive os now own p len b ≡ (
          if copied 2 == 0
          then expired
          else if not (entry.0 == sdn_success)
          then refused
          else taken)
  unfolding sdn_receive sdn_packetbuf_pool_get sdn_packetbuf_pool_put
  receive_lem h d = rw (sdn_receive, d, sdn_packetbuf_pool_get, h) refl

  copied_byte : (j : ℕ) → j < len → copied j ≡ p j
  copied_byte j h = ground arith

  passed-source : 6 ≤ len → packet_source passed ≡ packet_source p
  passed-source h =
      ap₂ (λ x y. x + 256 * y) (copied_byte 4 (omega arith)) (copied_byte 5 (omega arith))

  -- The state after a packet was received that there was a buffer for.
  pub record IsReceived (r : Inbox os) : Type 0 where
    pub valid : IsValid r.node.queues
    pub queue : received r.node.queues ≡ (
        if accepted
        then received b.node.queues ++ ((some a, len, now) ∷ [])
        else received b.node.queues)
    pub blocks :
        (c : ℕ) → os.in_use c r.node.pool ≡ ((accepted && c == a) || os.in_use c b.node.pool)
    pub one_hop_less : (j : ℕ) → j < len → r.node.buffers a j ≡ (if j == 2 then p 2 - 1 else p j)
    pub numbers : r.received_seqnos ≡ (
        if accepted
        then record { sender = packet_source p; seqno = p 3 }
          ∷ forgotten (packet_source p) b.received_seqnos
        else b.received_seqnos)
    pub events :
        r.posted
        ≡ (if accepted && b.node.queues.recv_queue.size == 0 then suc b.posted else b.posted)

  put_same : (q : Bytes) (j : ℕ) → put_buffer a q b.node.buffers a j ≡ q j
  put_same q j = rw (==-self a) refl

  module _ (h : os.memb_alloc b.node.pool ≡ some (a, pool)) where
    in_use-freed : (c : ℕ) → os.in_use c (os.memb_free a pool) ≡ os.in_use c b.node.pool
    in_use-freed c = os.memb_free_lem pool a c ∙ elim (ℕ-cases c a) [
      | inl e ↦ rw e (rw (==-self a, os.memb_alloc-free b.node.pool pool a h) refl)
      | inr n ↦ rw (ne→== c a n) (os.memb_alloc_lem b.node.pool pool a c h ∙ rw (ne→== c a n) refl)
    ]

    module _ (v : IsValid b.node.queues) (long : 6 ≤ len) (byte : p 2 < 256) where
      enqueued :
          entry.0
          ≡ (push b.node.queues.recv_queue.max_size (some a, len, now) (received b.node.queues)).0
      enqueued = ap (λ x. x.0) (recv_enqueue_refines now a len v)

      expired-IsReceived : p 2 ≡ 0 → IsReceived expired
      expired-IsReceived e = record {
        valid = v;
        queue = rw e refl;
        blocks = λ c. rw e (in_use-freed c);
        one_hop_less = λ j l.
            put_same copied j
            ∙ (copied_byte j l
                ∙ elim (ℕ-cases j 2) [ inl i ↦ rw i (rw e refl) | inr n ↦ rw (ne→== j 2 n) refl ]);
        numbers = rw e refl;
        events = rw e refl;
      }

      passed_byte : (j : ℕ) → 0 < p 2 → j < len → passed j ≡ (if j == 2 then p 2 - 1 else p j)
      passed_byte j z l = elim (ℕ-cases j 2) [
        | inl i ↦ rw i (rw (copied_byte 2 (omega arith)) (omega arith))
        | inr n ↦ rw (ne→== j 2 n) (copied_byte j l)
      ]

      refused-IsReceived : 0 < p 2 → accepted ≡ false → IsReceived refused
      refused-IsReceived z n = record {
        valid = v;
        queue = rw n refl;
        blocks = λ c. rw n (in_use-freed c);
        one_hop_less = λ j l. put_same passed j ∙ passed_byte j z l;
        numbers = rw n refl;
        events = rw n refl;
      }

      taken-IsReceived : 0 < length b.received_seqnos → 0 < p 2 → accepted ≡ true → IsReceived taken
      unfolding sdn_recv_queue_empty
      taken-IsReceived some_seqnos z y = record {
        valid = recv_enqueue-IsValid now a len v;
        queue = ap (λ x. x.1) (recv_enqueue_refines now a len v) ∙ ground (arith, y);
        blocks = λ c. rw y (os.memb_alloc_lem b.node.pool pool a c h);
        one_hop_less = λ j l. put_same passed j ∙ passed_byte j z l;
        numbers = rw y (
            register_lem passed b.received_seqnos some_seqnos
            ∙ rw (passed-source long, copied_byte 3 (omega arith)) refl);
        events = rw y refl;
      }

  pos : (n : ℕ) → n ≢ 0 → 0 < n
  pos zero n = absurd (n refl)
  pos (suc k) n = omega arith

  -- Is the packet a duplicate once its number stands in the first place?
  again :
      sdn_seqno_is_duplicate own p b.received_seqnos ≡ false
      → sdn_seqno_is_duplicate own p (
          if accepted
          then record { sender = packet_source p; seqno = p 3 }
            ∷ forgotten (packet_source p) b.received_seqnos
          else b.received_seqnos)
        ≡ accepted
  unfolding sdn_seqno_is_duplicate is_last_of
  again d = elim (Bool-cases accepted) [
    | inl y ↦ rw y (
        rw (==-self (packet_source p), ==-self (p 3))
          (ground (arith, Bool-cases (packet_source p == own))))
    | inr n ↦ rw n d
  ]

  branches :
      IsValid b.node.queues
      → 6 ≤ len
      → p 2 < 256
      → 0 < length b.received_seqnos
      → os.memb_alloc b.node.pool ≡ some (a, pool)
      → IsReceived (
          if copied 2 == 0
          then expired
          else if not (entry.0 == sdn_success)
          then refused
          else taken)
  branches v long byte some_seqnos h = elim (ℕ-cases (p 2) 0) [
    | inl e ↦
        rw (ap (λ x. x == 0) (copied_byte 2 (omega arith) ∙ e)) (expired-IsReceived h v long byte e)
    | inr n ↦
        let z : 0 < p 2 = pos (p 2) n in
        let hop : (p 2 == 0) ≡ false = ne→== (p 2) 0 n in
        elim (Bool-cases
          (ltb (length (received b.node.queues)) b.node.queues.recv_queue.max_size)) [
            | inl y ↦
                rw (ap (λ x. x == 0) (copied_byte 2 (omega arith)) ∙ hop, enqueued h v long byte, y)
                  (taken-IsReceived h v long byte some_seqnos z (rw (hop, y) refl))
            | inr y ↦
                rw (ap (λ x. x == 0) (copied_byte 2 (omega arith)) ∙ hop, enqueued h v long byte, y)
                  (refused-IsReceived h v long byte z (rw (hop, y) refl))
          ]
  ]

  -- A packet of six bytes or more is handed over that is not a duplicate, and there is a buffer for
  -- it; the queues are valid and the numbers of packets have at least one place. The packet is
  -- accepted if it has a hop left and the receive queue has room. Accepted, it stands behind what is
  -- in the receive queue, in the buffer, with one hop less; its sender has its number in the first
  -- place, in exchange for the sender's old one or for the last place; and the core process gets an
  -- event if the queue was empty. Else the queue, the numbers, the events and the blocks in use are as
  -- before, so that the packet may come again. The same packet is then a duplicate exactly if it was
  -- accepted.
  pub sdn_receive_lem :
      IsValid b.node.queues
      → 6 ≤ len
      → p 2 < 256
      → 0 < length b.received_seqnos
      → os.memb_alloc b.node.pool ≡ some (a, pool)
      → sdn_seqno_is_duplicate own p b.received_seqnos ≡ false
      → IsReceived (sdn_receive os now own p len b)
        × (sdn_seqno_is_duplicate own p (sdn_receive os now own p len b).received_seqnos ≡ accepted)
  sdn_receive_lem v long byte some_seqnos h d =
      let r = subst IsReceived (sym (receive_lem h d)) (branches v long byte some_seqnos h) in
      (r, ap (sdn_seqno_is_duplicate own p) r.numbers ∙ again d)
