-- ===== src/Keep.antt =====
-- sdn-common/sdn-unknown-route.c and sdn-common/sdn-packetbuf.c, on an enabled node: the packets that
-- are kept for want of a route, and their way into the send queue when the route comes; and the
-- start of the sending, `sdn_send_down_once` of contiki-sdn/sdn-send.c.
pub mod Release
pub mod Solved
pub mod Solve
pub mod Store
use idit_sdn.Base.{ℕ, ◌+◌, Bool, not, ◌&&◌, Option, none, some, List, [], ◌∷◌}
use idit_sdn.Base.{◌==◌, ltb, if◌then◌else◌, map, replicate}
use idit_sdn.Queue.{Queues, sdn_success, sdn_send_queue_enqueue, sdn_send_queue_empty}
use idit_sdn.Contiki.{Contiki}
use idit_sdn.FlowTable.{Entry}
use idit_sdn.Packet.{Bytes, packet_flow, packet_addr, kind_of, routed_by_flowid, routed_by_addr}

-- `SDN_SEND_IDLE` and `SDN_SEND_BUSY`
abbrev pub send_idle : ℕ
send_idle = 0

abbrev pub send_busy : ℕ
send_busy = 4

-- The elements of `keep_array`, `len_array` and `time_array` at one index.
pub record Kept : Type 0 where
  pub packet : Option ℕ
  pub len : ℕ
  pub time : ℕ

-- The packet buffers, by their address, the send queue and `sdn_send_status`, and how many events
-- `SDN_EVENT_NEW_PACKET` were posted to the process that sends.
pub record Sender (os : Contiki) : Type 0 where
  pub pool : os.Pool
  pub buffers : ℕ → Bytes
  pub queues : Queues
  pub send_status : ℕ
  pub posted : ℕ

-- `memcpy` of a packet to a buffer.
abbrev pub copy_packet : ℕ → Bytes → Bytes → Bytes
copy_packet len p old i = if ltb i len then p i else old i

abbrev pub put_buffer : ℕ → Bytes → (ℕ → Bytes) → ℕ → Bytes
put_buffer a p m b = if b == a then p else m b

-- Is the packet one that waits for a route of the flow, or to the destination?
abbrev pub awaits_flow : ℕ → Bytes → Bool
awaits_flow flowid p = routed_by_flowid (kind_of (p 0)) && flowid == packet_flow p

abbrev pub awaits_dest : ℕ → Bytes → Bool
awaits_dest dest_addr p = routed_by_addr (kind_of (p 0)) && dest_addr == packet_addr p

module _ (os : Contiki) where
  unfoldable pub sdn_packetbuf_pool_get : Sender os → Option (ℕ × Sender os)
  sdn_packetbuf_pool_get s = elim (os.memb_alloc s.pool) as (λ _. Option (ℕ × Sender os)) [
    | none ↦ none
    | some (a, p) ↦ some (a, record s { pool = p })
  ]

  unfoldable pub sdn_packetbuf_pool_put : ℕ → Sender os → Sender os
  sdn_packetbuf_pool_put a s = record s { pool = os.memb_free a s.pool }

  unfoldable pub sdn_send_down_once : Sender os → Sender os
  sdn_send_down_once s =
      if s.send_status == send_idle && not (sdn_send_queue_empty s.queues)
      then record s { send_status = send_busy; posted = s.posted + 1 }
      else s

  -- The loop of `store_packet`: the first free place is tried, and no other.
  unfoldable pub store_packet : Bytes → ℕ → ℕ → List Kept → Sender os → List Kept × Sender os
  store_packet p len time [] s = ([], s)
  store_packet p len time (k ∷ ks) s = elim k.packet as (λ _. List Kept × Sender os) [
    | some a ↦ let rest = store_packet p len time ks s in (k ∷ rest.0, rest.1)
    | none ↦ elim (sdn_packetbuf_pool_get s) as (λ _. List Kept × Sender os) [
      | none ↦ (k ∷ ks, s)
      | some (a, u) ↦ (
        record { packet = some a; len = len; time = time } ∷ ks,
        record u { buffers = put_buffer a (copy_packet len p (u.buffers a)) u.buffers },
      )
    ]
  ]

  -- A kept packet goes into the send queue, or its buffer back to the pool where that is full.
  unfoldable pub release : ℕ → Kept → Sender os → Sender os
  release a k s =
      let r = sdn_send_queue_enqueue a k.len k.time s.queues in
      if r.0 == sdn_success
      then sdn_send_down_once (record s { queues = r.1 })
      else sdn_packetbuf_pool_put a s

  -- The loop of the two functions that solve unknown routes, over the array from some index on.
  unfoldable pub solve_from : (Bytes → Bool) → List Kept → Sender os → List Kept × Sender os
  solve_from awaits [] s = ([], s)
  solve_from awaits (k ∷ ks) s = elim k.packet as (λ _. List Kept × Sender os) [
    | none ↦ let rest = solve_from awaits ks s in (k ∷ rest.0, rest.1)
    | some a ↦
        let hit = awaits (s.buffers a) in
        let rest = solve_from awaits ks (if hit then release a k s else s) in
        ((if hit then record k { packet = none } else k) ∷ rest.0, rest.1)
  ]

  unfoldable pub sdn_solve_unknown_flow : Entry → List Kept × Sender os → List Kept × Sender os
  sdn_solve_unknown_flow dfe (ks, s) = solve_from (awaits_flow dfe.key) ks s

  unfoldable pub sdn_solve_unknown_dest : Entry → List Kept × Sender os → List Kept × Sender os
  sdn_solve_unknown_dest cfe (ks, s) = solve_from (awaits_dest cfe.key) ks s
