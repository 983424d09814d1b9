-- ===== src/Keep/Store.antt =====
-- A packet is kept, and is sent when its route comes.
use idit_sdn.Base.{ℕ, zero, suc, ◌+◌, ◌≤◌, ◌<◌, ◌≡◌, refl, sym, ap, ◌∙◌, subst}
use idit_sdn.Base.{inl, inr, Bool, true, false, ◌||◌, none, some}
use idit_sdn.Base.{List, [], ◌∷◌, ◌++◌, map, arith, ltb}
use idit_sdn.Base.{if◌then◌else◌, Bool-cases, Option-cases, length}
use idit_sdn.Base.{==-self}
use idit_sdn.Base.{any, ap₂}
use idit_sdn.Queue.Invariant.{IsValid}
use idit_sdn.Queue.Fifo.{sent}
use idit_sdn.Contiki.{Contiki}
use idit_sdn.FlowTable.{Entry}
use idit_sdn.Packet.{Bytes, bytes}
use idit_sdn.Keep.{Kept, Sender, store_packet, sdn_solve_unknown_flow, awaits_flow, copy_packet}
use idit_sdn.Keep.{put_buffer, sdn_packetbuf_pool_get}
use idit_sdn.Keep.Release.{room}
use idit_sdn.Keep.Solve.{solve_unknown_lem}
use idit_sdn.Keep.Solved.{take, solved, holds, is_hit, left}

abbrev pub is_free : Kept → Bool
is_free k = elim k.packet as (λ _. Bool) [ none ↦ true | some a ↦ false ]

-- The array with the packet at its first free place.
unfoldable fill : Kept → List Kept → List Kept
fill new [] = []
fill new (k ∷ ks) = if is_free k then new ∷ ks else k ∷ fill new ks

take-all {ℓ} : {A : Type ℓ} (n : ℕ) (xs : List A) → length xs ≤ n → take n xs ≡ xs
unfolding take
take-all zero [] h = refl
take-all zero (x ∷ xs) h = absurd (omega arith)
take-all (suc n) [] h = refl
take-all (suc n) (x ∷ xs) h = ap (λ l. x ∷ l) (take-all n xs (omega arith))

any-append {ℓ} :
    {A : Type ℓ} (p : A → Bool) (xs ys : List A) → any p (xs ++ ys) ≡ (any p xs || any p ys)
any-append p [] ys = refl
any-append p (x ∷ xs) ys = ground (arith, any-append p xs ys, Bool-cases (p x))

solved-fill :
    (awaits : Bytes → Bool) (buffers : ℕ → Bytes) (a len time : ℕ) (ks : List Kept)
    → awaits (buffers a) ≡ true
    → any is_free ks ≡ true
    → any
        (holds a)
        (solved awaits buffers (fill (record { packet = some a; len = len; time = time }) ks))
      ≡ true
unfolding solved fill
solved-fill awaits buffers a len time [] h f = ground arith
solved-fill awaits buffers a len time (k ∷ ks) h f = elim (Bool-cases (is_free k)) [
  | inl e ↦ ground (arith, e, h, ==-self a)
  | inr e ↦ ground (
    arith,
    e,
    solved-fill awaits buffers a len time ks h (ground (arith, f, e)),
    Bool-cases (is_hit awaits buffers k),
  )
]

lt→ltb : (a b : ℕ) → a < b → ltb a b ≡ true
lt→ltb a b h = ground arith

bytes-copy :
    (len : ℕ) (p old : Bytes) (i n : ℕ)
    → i + n ≤ len
    → bytes i n (copy_packet len p old) ≡ bytes i n p
unfolding bytes
bytes-copy len p old i zero h = refl
bytes-copy len p old i (suc n) h =
    ap₂ (λ x xs. x ∷ xs) (ground arith) (bytes-copy len p old (i + 1) n (omega arith))

awaits-copy :
    (len : ℕ) (p old : Bytes) (flowid : ℕ)
    → 8 ≤ len
    → awaits_flow flowid (copy_packet len p old) ≡ awaits_flow flowid p
awaits-copy len p old flowid h =
    rw (lt→ltb 0 len (omega arith), lt→ltb 6 len (omega arith), lt→ltb 7 len (omega arith)) refl

module _ (os : Contiki) where
  -- The state after a packet is kept in a block.
  abbrev kept_in : Bytes → ℕ → ℕ → os.Pool → Sender os → Sender os
  kept_in p len a pool s = record s {
    pool = pool;
    buffers = put_buffer a (copy_packet len p (s.buffers a)) s.buffers;
  }

  store_packet_lem :
      (p : Bytes) (len time a : ℕ) (pool : os.Pool) (ks : List Kept) (s : Sender os)
      → any is_free ks ≡ true
      → os.memb_alloc s.pool ≡ some (a, pool)
      → store_packet os p len time ks s
        ≡ (fill (record { packet = some a; len = len; time = time }) ks, kept_in p len a pool s)
  unfolding store_packet fill sdn_packetbuf_pool_get
  store_packet_lem p len time a pool [] s f h = ground (arith, f)
  store_packet_lem p len time a pool (k ∷ ks) s f h = elim (Option-cases k.packet) [
    | inl e ↦ ground (arith, e, h)
    | inr (b, e) ↦
        ground (arith, e, store_packet_lem p len time a pool ks s (ground (arith, f, e)) h)
  ]

  -- What the solved route makes of the array and the state that the packet was kept in.
  abbrev Arrives : Bytes → ℕ → ℕ → Entry → List Kept × Sender os → Type 0
  Arrives p len a e stored =
      let r = sdn_solve_unknown_flow os e stored in
      length (solved (awaits_flow e.key) stored.1.buffers stored.0) ≤ room os stored.1
      → (any (holds a) (sent r.1.queues) ≡ true)
        × (bytes 0 len (r.1.buffers a) ≡ bytes 0 len p)
        × (r.0 ≡ map (left (awaits_flow e.key) stored.1.buffers) stored.0)

  arrives :
      (p : Bytes) (len time a : ℕ) (pool : os.Pool) (e : Entry) (ks : List Kept) (s : Sender os)
      → IsValid s.queues
      → 8 ≤ len
      → awaits_flow e.key p ≡ true
      → any is_free ks ≡ true
      → Arrives p len a e
          (fill (record { packet = some a; len = len; time = time }) ks, kept_in p len a pool s)
  arrives p len time a pool e ks s v long waits place fits =
      let u = kept_in p len a pool s in
      let filled = fill (record { packet = some a; len = len; time = time }) ks in
      let here : u.buffers a ≡ copy_packet len p (s.buffers a) = rw (==-self a) refl in
      let i = (solve_unknown_lem os e filled u v).0 in
      (
        ap (any (holds a)) (
              i.sent_as
              ∙ ap (λ l. sent s.queues ++ l)
                  (take-all (room os u) (solved (awaits_flow e.key) u.buffers filled) fits))
            ∙ (any-append (holds a) (sent s.queues) (solved (awaits_flow e.key) u.buffers filled)
                ∙ ground (
                  arith,
                  Bool-cases (any (holds a) (sent s.queues)),
                  solved-fill (awaits_flow e.key) u.buffers a len time ks
                      (ap (awaits_flow e.key) here
                        ∙ (awaits-copy len p (s.buffers a) e.key long ∙ waits))
                      place,
                )),
        ap (bytes 0 len) (ap (λ b. b a) i.buffers_same ∙ here)
            ∙ bytes-copy len p (s.buffers a) 0 len (omega arith),
        i.kept_as,
      )

  -- A packet that waits for the route of a flow, of at least eight bytes, is kept where the array has
  -- a place and the pool a block. When the route of the flow comes, and the queues are valid and have
  -- room for every kept packet of the flow, its block is in the send queue, with the bytes of the
  -- packet, and the other packets of the flow have left the array as well.
  pub keep-then-solve :
      (p : Bytes) (len time a : ℕ) (pool : os.Pool) (e : Entry) (ks : List Kept) (s : Sender os)
      → IsValid s.queues
      → 8 ≤ len
      → awaits_flow e.key p ≡ true
      → any is_free ks ≡ true
      → os.memb_alloc s.pool ≡ some (a, pool)
      → length (
          solved
            (awaits_flow e.key)
            (store_packet os p len time ks s).1.buffers
            (store_packet os p len time ks s).0)
        ≤ room os (store_packet os p len time ks s).1
      → let stored = store_packet os p len time ks s in
        let r = sdn_solve_unknown_flow os e stored in
        (any (holds a) (sent r.1.queues) ≡ true)
        × (bytes 0 len (r.1.buffers a) ≡ bytes 0 len p)
        × (r.0 ≡ map (left (awaits_flow e.key) stored.1.buffers) stored.0)
  keep-then-solve p len time a pool e ks s v long waits place block =
      subst (Arrives p len a e) (sym (store_packet_lem p len time a pool ks s place block))
        (arrives p len time a pool e ks s v long waits place)
