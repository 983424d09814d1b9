-- ===== src/Keep/Solve.antt =====
-- What becomes of the kept packets when a route comes.
use idit_sdn.Base.{ℕ, ◌-◌, ◌≡◌, refl, sym, ap, ◌∙◌, subst}
use idit_sdn.Base.{inl, inr, Bool, true, false, not, ◌&&◌, none, some}
use idit_sdn.Base.{List, [], ◌∷◌, ◌++◌, map, append-nil, append_assoc, arith, ◌==◌}
use idit_sdn.Base.{Bool-cases, Option-cases}
use idit_sdn.Base.{any, ap₂}
use idit_sdn.Queue.Invariant.{IsValid}
use idit_sdn.Queue.Fifo.{sent}
use idit_sdn.Queue.Fifo.{Entry as Queued}
use idit_sdn.Contiki.{Contiki}
use idit_sdn.Packet.{Bytes}
use idit_sdn.FlowTable.{Entry}
use idit_sdn.Keep.{sdn_solve_unknown_flow, sdn_solve_unknown_dest, awaits_flow, awaits_dest}
use idit_sdn.Keep.Release.{room, IsReleased, release-IsReleased}
use idit_sdn.Keep.{Kept, Sender, release, solve_from}
use idit_sdn.Keep.Solved.{take, drop, is_hit, solved}
use idit_sdn.Keep.Solved.{left, holds, take-nil, drop-nil}
use idit_sdn.Keep.Solved.{take-pos, drop-pos, left-miss, solved-miss}
use idit_sdn.Keep.Solved.{left-hit, solved-hit}
use idit_sdn.Keep.Solved.{freed_too}

module _ (os : Contiki) where
  -- The array, the queue and the pool after the packets were solved.
  pub record IsSolved (awaits : Bytes → Bool) (ks : List Kept) (s : Sender os)
      (r : List Kept × Sender os) : Type 0 where
    pub valid : IsValid r.1.queues
    pub buffers_same : r.1.buffers ≡ s.buffers
    pub kept_as : r.0 ≡ map (left awaits s.buffers) ks
    pub sent_as : sent r.1.queues ≡ sent s.queues ++ take (room os s) (solved awaits s.buffers ks)
    pub freed :
        (b : ℕ)
        → os.in_use b r.1.pool ≡ (
            not (any (holds b) (drop (room os s) (solved awaits s.buffers ks)))
            && os.in_use b s.pool)

  solve-miss :
      (awaits : Bytes → Bool) (k : Kept) (ks : List Kept) (s : Sender os)
      → is_hit awaits s.buffers k ≡ false
      → let rest = solve_from os awaits ks s in
        solve_from os awaits (k ∷ ks) s ≡ (k ∷ rest.0, rest.1)
  unfolding solve_from
  solve-miss awaits k ks s h = ground (arith, h, Option-cases k.packet)

  solve-hit :
      (awaits : Bytes → Bool) (k : Kept) (ks : List Kept) (s : Sender os) (a : ℕ)
      → k.packet ≡ some a
      → awaits (s.buffers a) ≡ true
      → let rest = solve_from os awaits ks (release os a k s) in
        solve_from os awaits (k ∷ ks) s ≡ (record k { packet = none } ∷ rest.0, rest.1)
  unfolding solve_from
  solve-hit awaits k ks s a e h = ground (arith, e, h)

  miss-IsSolved :
      (awaits : Bytes → Bool) (k : Kept) (ks : List Kept) (s : Sender os)
      (r : List Kept × Sender os)
      → is_hit awaits s.buffers k ≡ false
      → IsSolved awaits ks s r
      → IsSolved awaits (k ∷ ks) s (k ∷ r.0, r.1)
  miss-IsSolved awaits k ks s r h i =
      let same = sym (solved-miss awaits s.buffers k ks h) in
      record {
        valid = i.valid;
        buffers_same = i.buffers_same;
        kept_as = ap₂ ◌∷◌ (sym (left-miss awaits s.buffers k ks h)) i.kept_as;
        sent_as = i.sent_as ∙ ap (λ m. sent s.queues ++ take (room os s) m) same;
        freed = λ b.
            i.freed b
            ∙ ap (λ m. not (any (holds b) (drop (room os s) m)) && os.in_use b s.pool) same;
      }

  module _ (awaits : Bytes → Bool) (k : Kept) (ks : List Kept) (s u : Sender os) (a : ℕ)
      (r : List Kept × Sender os) where
    abbrev rest_solved : List Queued
    rest_solved = solved awaits s.buffers ks

    hit-sent :
        IsReleased os (some a, k.len, k.time) a s u
        → sent r.1.queues ≡ sent u.queues ++ take (room os u) rest_solved
        → sent r.1.queues
          ≡ sent s.queues ++ take (room os s) ((some a, k.len, k.time) ∷ rest_solved)
    unfolding take
    hit-sent rel e = elim rel.outcome [
      | inl (free, less, q, p) ↦
          e
          ∙ (ap₂ (λ x y. x ++ y) q (ap (λ n. take n rest_solved) less)
              ∙ (append_assoc (sent s.queues) ((some a, k.len, k.time) ∷ [])
                    (take (room os s - 1) rest_solved)
                  ∙ ap (λ x. sent s.queues ++ x)
                      (sym (take-pos (room os s) (some a, k.len, k.time) rest_solved free))))
      | inr (full, none_left, q, p) ↦
          e
          ∙ (ap₂ (λ x y. x ++ y) q (ap (λ n. take n rest_solved) none_left)
              ∙ ap (λ n. sent s.queues ++ take n ((some a, k.len, k.time) ∷ rest_solved))
                  (sym full))
    ]

    hit-freed :
        IsReleased os (some a, k.len, k.time) a s u
        → ((b : ℕ)
            → os.in_use b r.1.pool
              ≡ (not (any (holds b) (drop (room os u) rest_solved)) && os.in_use b u.pool))
        → (b : ℕ)
        → os.in_use b r.1.pool ≡ (
            not (any (holds b) (drop (room os s) ((some a, k.len, k.time) ∷ rest_solved)))
            && os.in_use b s.pool)
    unfolding drop
    hit-freed rel e b = elim rel.outcome [
      | inl (free, less, q, p) ↦
          e b
          ∙ (ap₂ (λ n pool. not (any (holds b) (drop n rest_solved)) && os.in_use b pool) less p
              ∙ ap (λ l. not (any (holds b) l) && os.in_use b s.pool)
                  (sym (drop-pos (room os s) (some a, k.len, k.time) rest_solved free)))
      | inr (full, none_left, q, p) ↦
          e b
          ∙ (ap₂ (λ n pool. not (any (holds b) (drop n rest_solved)) && os.in_use b pool) none_left
                p
              ∙ (freed_too (any (holds b) rest_solved) (b == a) (os.in_use b s.pool)
                    (os.in_use b (os.memb_free a s.pool)) (os.memb_free_lem s.pool a b)
                  ∙ ap
                      (λ n.
                        not (any (holds b) (drop n ((some a, k.len, k.time) ∷ rest_solved)))
                        && os.in_use b s.pool)
                      (sym full)))
    ]

    hit-IsSolved :
        k.packet ≡ some a
        → awaits (s.buffers a) ≡ true
        → IsReleased os (some a, k.len, k.time) a s u
        → IsSolved awaits ks u r
        → IsSolved awaits (k ∷ ks) s (record k { packet = none } ∷ r.0, r.1)
    hit-IsSolved e h rel i =
        let same = sym (solved-hit awaits s.buffers k ks a e h) in
        record {
          valid = i.valid;
          buffers_same = i.buffers_same ∙ rel.buffers_same;
          kept_as =
              ap₂ ◌∷◌ (sym (left-hit awaits s.buffers k ks a e h))
                (i.kept_as ∙ ap (λ m. map (left awaits m) ks) rel.buffers_same);
          sent_as =
              hit-sent rel (
                i.sent_as
                ∙ ap (λ m. sent u.queues ++ take (room os u) (solved awaits m ks)) rel.buffers_same)
              ∙ ap (λ m. sent s.queues ++ take (room os s) m) same;
          freed = λ b.
              hit-freed rel
                (λ c.
                  i.freed c
                  ∙ ap
                      (λ m.
                        not (any (holds c) (drop (room os u) (solved awaits m ks)))
                        && os.in_use c u.pool)
                      rel.buffers_same)
                b
              ∙ ap (λ m. not (any (holds b) (drop (room os s) m)) && os.in_use b s.pool) same;
        }

  pub solve_from-IsSolved :
      (awaits : Bytes → Bool) (ks : List Kept) (s : Sender os)
      → IsValid s.queues
      → IsSolved awaits ks s (solve_from os awaits ks s)
  unfolding solve_from solved
  solve_from-IsSolved awaits [] s v = record {
    valid = v;
    buffers_same = refl;
    kept_as = refl;
    sent_as =
        sym (append-nil (sent s.queues))
        ∙ ap (λ l. sent s.queues ++ l) (sym (take-nil (room os s)));
    freed = λ b. rw (drop-nil (room os s)) refl;
  }
  solve_from-IsSolved awaits (k ∷ ks) s v = elim (Option-cases k.packet) [
    | inl e ↦ subst (IsSolved awaits (k ∷ ks) s) (sym (solve-miss awaits k ks s (rw e refl))) (
        miss-IsSolved awaits k ks s (solve_from os awaits ks s) (rw e refl)
          (solve_from-IsSolved awaits ks s v))
    | inr (a, e) ↦ elim (Bool-cases (awaits (s.buffers a))) [
      | inl h ↦ subst (IsSolved awaits (k ∷ ks) s) (sym (solve-hit awaits k ks s a e h)) (
          hit-IsSolved awaits k ks s (release os a k s) a
            (solve_from os awaits ks (release os a k s)) e h (release-IsReleased os a k s v)
            (solve_from-IsSolved awaits ks (release os a k s)
              (release-IsReleased os a k s v).valid))
      | inr h ↦
          subst (IsSolved awaits (k ∷ ks) s) (sym (solve-miss awaits k ks s (ground (arith, e, h))))
            (miss-IsSolved awaits k ks s (solve_from os awaits ks s) (ground (arith, e, h))
              (solve_from-IsSolved awaits ks s v))
    ]
  ]

  -- When a route comes, for a flow or to a destination, and the queues are valid, the packets that
  -- wait for it leave the array, and all others stay where they are. In the order of the array, as
  -- many of them as there is room for enter the send queue behind what is in it, with their lengths
  -- and times; exactly the buffers of the others are freed. The queues stay valid, and no packet
  -- changes.
  pub solve_unknown_lem :
      (e : Entry) (ks : List Kept) (s : Sender os)
      → IsValid s.queues
      → IsSolved (awaits_flow e.key) ks s (sdn_solve_unknown_flow os e (ks, s))
        × IsSolved (awaits_dest e.key) ks s (sdn_solve_unknown_dest os e (ks, s))
  unfolding sdn_solve_unknown_flow sdn_solve_unknown_dest
  solve_unknown_lem e ks s v = (
    solve_from-IsSolved (awaits_flow e.key) ks s v,
    solve_from-IsSolved (awaits_dest e.key) ks s v,
  )
