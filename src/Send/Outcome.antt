-- ===== src/Send/Outcome.antt =====
-- What becomes of a packet that a node makes: it is enqueued with a number, or its buffer is back in
-- the pool.
use idit_sdn.Base.{ℕ, ◌+◌, ◌*◌, ◌%◌, ◌≤◌, ◌<◌, ◌≡◌, refl, sym, ap, ◌∙◌, subst}
use idit_sdn.Base.{◌⊎◌, inl, inr, Bool, true, false, not, ◌&&◌, none, some}
use idit_sdn.Base.{[], ◌∷◌, ◌++◌, arith, ◌==◌}
use idit_sdn.Base.{if◌then◌else◌, Bool-cases, Option-cases, length, ==→eq}
use idit_sdn.Base.{==-self}
use idit_sdn.Base.{◌/◌}
use idit_sdn.Queue.{sdn_success, sdn_error, inc8}
use idit_sdn.Queue.Invariant.{IsValid}
use idit_sdn.Queue.Fifo.{sent}
use idit_sdn.Contiki.{Contiki}
use idit_sdn.Packet.{Bytes, set_byte, packet_source}
use idit_sdn.Keep.{sdn_packetbuf_pool_get, put_buffer}
use idit_sdn.Send.{make_setup, make_request, make_setup_ack, make_header}
use idit_sdn.Send.{sdn_send_control_flow_setup, sdn_send_data_flow_setup}
use idit_sdn.Send.{sdn_send_control_flow_request, sdn_send_data_flow_request}
use idit_sdn.Send.{sdn_send_register_flowid, sdn_send_control_flow_setup_ack}
use idit_sdn.Send.{sdn_send_data_flow_setup_ack}
use idit_sdn.Send.{Outbox, hand_over, increment_seq_no, enqueue_and_send, send_made}
use idit_sdn.Send.HandOver.{hand_over-cases, hand_over-IsReleased, hand_over-seq_no}

module _ (os : Contiki) where
  -- The packet is in the send queue, in a block that was free, with the number that was next; or
  -- there is an error, for want of a block or of room in the queue or because a request is pending,
  -- and the queue and the blocks in use are as before.
  abbrev pub Outcome : Bool → (Bytes → Bytes) → ℕ → ℕ → Outbox os → ℕ × Outbox os → Type 0
  Outcome pending make len time o r =
      ((a : ℕ) × (r.0 ≡ sdn_success)
        × (sent r.1.sender.queues ≡ sent o.sender.queues ++ ((some a, len, time) ∷ []))
        × (r.1.sender.buffers a ≡ set_byte 3 o.seq_no (make (o.sender.buffers a)))
        × (os.in_use a o.sender.pool ≡ false)
        × (r.1.seq_no ≡ inc8 o.seq_no))
      ⊎ ((r.0 ≡ sdn_error)
          × ((os.memb_alloc o.sender.pool ≡ none)
              ⊎ (o.sender.queues.send_queue.max_size ≤ length (sent o.sender.queues))
              ⊎ (pending ≡ true))
          × (sent r.1.sender.queues ≡ sent o.sender.queues)
          × ((b : ℕ) → os.in_use b r.1.sender.pool ≡ os.in_use b o.sender.pool))

  module _ (own a : ℕ) (o : Outbox os) where
    increment_seq_no_lem :
        packet_source (o.sender.buffers a) ≡ own
        → increment_seq_no os own a o ≡ record o {
          seq_no = inc8 o.seq_no;
          sender = record o.sender {
            buffers = put_buffer a (set_byte 3 o.seq_no (o.sender.buffers a)) o.sender.buffers;
          };
        }
    unfolding increment_seq_no
    increment_seq_no_lem h = rw (h, ==-self own) refl

  module _ (own : ℕ) (make : Bytes → Bytes) (len time : ℕ) (o : Outbox os) (a : ℕ)
      (pool : os.Pool) where
    -- The packet in its block, and with its number.
    abbrev in_block : Outbox os
    in_block = record o {
      sender = record o.sender {
        pool = pool;
        buffers = put_buffer a (make (o.sender.buffers a)) o.sender.buffers;
      };
    }

    abbrev numbered : Outbox os
    numbered = record o {
      seq_no = inc8 o.seq_no;
      sender = record o.sender {
        pool = pool;
        buffers =
            put_buffer a (set_byte 3 o.seq_no (in_block.sender.buffers a)) in_block.sender.buffers;
      };
    }

    send_made-block :
        os.memb_alloc o.sender.pool ≡ some (a, pool)
        → packet_source (make (o.sender.buffers a)) ≡ own
        → send_made os own make len time o ≡ hand_over os a len time numbered
    unfolding send_made sdn_packetbuf_pool_get enqueue_and_send
    send_made-block h e =
        rw (h, send_made, sdn_packetbuf_pool_get)
          (ap (hand_over os a len time) (increment_seq_no_lem own a in_block (rw (==-self a) e)))

    freed-again :
        os.memb_alloc o.sender.pool ≡ some (a, pool)
        → (b : ℕ) → os.in_use b (os.memb_free a pool) ≡ os.in_use b o.sender.pool
    freed-again h b =
        os.memb_free_lem pool a b
        ∙ (ap (λ x. not (b == a) && x) (os.memb_alloc_lem o.sender.pool pool a b h)
            ∙ elim (Bool-cases (b == a)) [
              | inl e ↦ rw (e, ==→eq b a e, os.memb_alloc-free o.sender.pool pool a h) refl
              | inr e ↦ rw e refl
            ])

    block-Outcome :
        IsValid o.sender.queues
        → os.memb_alloc o.sender.pool ≡ some (a, pool)
        → Outcome false make len time o (hand_over os a len time numbered)
    block-Outcome v h = elim (hand_over-cases os a len time numbered v) [
      | inl (ok, q, p) ↦ inl (
        a,
        ok,
        q,
        ap (λ m. m a) (hand_over-IsReleased os a len time numbered v).buffers_same
            ∙ rw (==-self a) refl,
        os.memb_alloc-free o.sender.pool pool a h,
        hand_over-seq_no os a len time numbered,
      )
      | inr (bad, full, q, p) ↦
          inr (bad, inr (inl full), q, λ b. ap (os.in_use b) p ∙ freed-again h b)
    ]

  -- Every packet that carries its maker's address as its source.
  send_made-Outcome :
      (own : ℕ) (make : Bytes → Bytes) (len time : ℕ) (o : Outbox os)
      → IsValid o.sender.queues
      → ((p : Bytes) → packet_source (make p) ≡ own)
      → Outcome false make len time o (send_made os own make len time o)
  unfolding send_made sdn_packetbuf_pool_get
  send_made-Outcome own make len time o v e = elim (Option-cases (os.memb_alloc o.sender.pool)) [
    | inl h ↦ rw (h, send_made, sdn_packetbuf_pool_get) (inr (refl, inl refl, refl, λ b. refl))
    | inr ((a, pool), h) ↦
        subst (Outcome false make len time o)
          (sym (send_made-block own make len time o a pool h (e (o.sender.buffers a))))
          (block-Outcome own make len time o a pool v h)
  ]

  requested-Outcome :
      (own : ℕ) (make : Bytes → Bytes) (pending : Bool) (o : Outbox os)
      → IsValid o.sender.queues
      → ((p : Bytes) → packet_source (make p) ≡ own)
      → Outcome pending make 10 0 o
          (if pending then (sdn_error, o) else send_made os own make 10 0 o)
  requested-Outcome own make true o v e = inr (refl, inr (inr refl), refl, λ b. refl)
  requested-Outcome own make false o v e = send_made-Outcome own make 10 0 o v e

  source_lem : (own : ℕ) → own < 65536 → own % 256 + 256 * (own / 256 % 256) ≡ own
  source_lem own h = omega arith

  -- Every function that sends a packet of a route or a flow, on a node whose address has two bytes
  -- and whose queues are valid, either puts the packet it made into the send queue, behind what is in
  -- it, in a block that was free, with the next sequence number; or returns an error, with the queue
  -- and the blocks in use as they were. The error means that there was no block, or no room in the
  -- queue, or that the same request is pending.
  pub sends-Outcome :
      (own controller_flow dest key next_hop action : ℕ) (pending : Bool) (o : Outbox os)
      → own < 65536
      → IsValid o.sender.queues
      → Outcome false
          (make_setup 0 own dest key next_hop action)
          13
          0
          o
          (sdn_send_control_flow_setup os own dest key next_hop action o)
        × Outcome false
            (make_setup 1 own dest key next_hop action)
            13
            0
            o
            (sdn_send_data_flow_setup os own dest key next_hop action o)
        × Outcome pending
            (make_request 2 own controller_flow key)
            10
            0
            o
            (sdn_send_control_flow_request os own controller_flow pending key o)
        × Outcome pending
            (make_request 3 own controller_flow key)
            10
            0
            o
            (sdn_send_data_flow_request os own controller_flow pending key o)
        × Outcome false
            (make_request 14 own controller_flow key)
            10
            0
            o
            (sdn_send_register_flowid os own controller_flow key o)
        × Outcome false
            (make_setup_ack 0 own controller_flow dest key next_hop action)
            21
            0
            o
            (sdn_send_control_flow_setup_ack os own controller_flow dest key next_hop action o)
        × Outcome false
            (make_setup_ack 1 own controller_flow dest key next_hop action)
            21
            0
            o
            (sdn_send_data_flow_setup_ack os own controller_flow dest key next_hop action o)
  unfolding sdn_send_control_flow_setup sdn_send_data_flow_setup sdn_send_control_flow_request
      sdn_send_data_flow_request sdn_send_register_flowid sdn_send_control_flow_setup_ack
      sdn_send_data_flow_setup_ack make_setup make_request make_setup_ack make_header
  sends-Outcome own controller_flow dest key next_hop action pending o b v = (
    send_made-Outcome own (make_setup 0 own dest key next_hop action) 13 0 o v
        (λ p. source_lem own b),
    send_made-Outcome own (make_setup 1 own dest key next_hop action) 13 0 o v
        (λ p. source_lem own b),
    requested-Outcome own (make_request 2 own controller_flow key) pending o v
        (λ p. source_lem own b),
    requested-Outcome own (make_request 3 own controller_flow key) pending o v
        (λ p. source_lem own b),
    send_made-Outcome own (make_request 14 own controller_flow key) 10 0 o v
        (λ p. source_lem own b),
    send_made-Outcome own (make_setup_ack 0 own controller_flow dest key next_hop action) 21 0 o v
        (λ p. source_lem own b),
    send_made-Outcome own (make_setup_ack 1 own controller_flow dest key next_hop action) 21 0 o v
        (λ p. source_lem own b),
  )
