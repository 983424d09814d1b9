-- ===== src/Receive.antt =====
-- contiki-sdn/sdn-receive.c on an enabled node: a packet that the network stack hands over enters the
-- receive queue, unless it is a duplicate or has no hop left. The code copies it without a look at its
-- length, so a buffer takes a packet of any length.
pub mod Numbers
pub mod Accepted
use idit_sdn.Base.{ℕ, zero, suc, ◌-◌, Bool, true, false, not, none, some, List, [], ◌∷◌}
use idit_sdn.Base.{set, get_or, ◌==◌, if◌then◌else◌}
use idit_sdn.Queue.{sdn_success, dec8, sdn_recv_queue_empty, sdn_recv_queue_enqueue}
use idit_sdn.Contiki.{Contiki}
use idit_sdn.Packet.{Bytes, packet_source, set_byte}
use idit_sdn.Keep.{Sender, sdn_packetbuf_pool_get, sdn_packetbuf_pool_put, copy_packet, put_buffer}

-- `struct seqno`
pub record Seqno : Type 0 where
  pub sender : ℕ
  pub seqno : ℕ

-- The loop of `sdn_seqno_is_duplicate`: the first element of the sender decides.
unfoldable pub is_last_of : ℕ → ℕ → List Seqno → Bool
is_last_of source n [] = false
is_last_of source n (x ∷ xs) =
    let rest = is_last_of source n xs in if source == x.sender then n == x.seqno else rest

unfoldable pub sdn_seqno_is_duplicate : ℕ → Bytes → List Seqno → Bool
sdn_seqno_is_duplicate own p seqnos =
    if packet_source p == own then true else is_last_of (packet_source p) (p 3) seqnos

-- The first loop of `sdn_seqno_register`: the index behind the element of the sender, or behind the
-- last one.
unfoldable pub behind_sender : ℕ → List Seqno → ℕ
behind_sender source [] = 0
behind_sender source (x ∷ xs) =
    let rest = behind_sender source xs in if source == x.sender then 1 else suc rest

-- Its second loop, from an index down to 1.
unfoldable pub shift_from : ℕ → List Seqno → List Seqno
shift_from zero seqnos = seqnos
shift_from (suc j) seqnos =
    shift_from j (set seqnos (suc j) (get_or seqnos j (record { sender = 0; seqno = 0 })))

unfoldable pub sdn_seqno_register : Bytes → List Seqno → List Seqno
sdn_seqno_register p seqnos =
    set (shift_from (behind_sender (packet_source p) seqnos - 1) seqnos) 0
      (record { sender = packet_source p; seqno = p 3 })

-- The numbers that were received, the buffers and the queues, and how many events
-- `SDN_EVENT_NEW_PACKET` were posted to the core process.
pub record Inbox (os : Contiki) : Type 0 where
  pub received_seqnos : List Seqno
  pub node : Sender os
  pub posted : ℕ

module _ (os : Contiki) where
  -- `now` is what `clock_time()` returns.
  unfoldable pub sdn_receive : ℕ → ℕ → Bytes → ℕ → Inbox os → Inbox os
  sdn_receive now own p len b =
      if sdn_seqno_is_duplicate own p b.received_seqnos
      then b
      else elim (sdn_packetbuf_pool_get os b.node) as (λ _. Inbox os) [
        | none ↦ b
        | some (a, s) ↦
            let copied = copy_packet len p (s.buffers a) in
            let kept = record s { buffers = put_buffer a copied s.buffers } in
            let passed = set_byte 2 (dec8 (copied 2)) copied in
            let u = record s { buffers = put_buffer a passed s.buffers } in
            let r = sdn_recv_queue_enqueue now a len u.queues in
            if copied 2 == 0
            then record b { node = sdn_packetbuf_pool_put os a kept }
            else if not (r.0 == sdn_success)
            then record b { node = sdn_packetbuf_pool_put os a u }
            else record {
              received_seqnos = sdn_seqno_register passed b.received_seqnos;
              node = record u { queues = r.1 };
              posted = if sdn_recv_queue_empty u.queues then suc b.posted else b.posted;
            }
      ]
