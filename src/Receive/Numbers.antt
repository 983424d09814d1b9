-- ===== src/Receive/Numbers.antt =====
-- What `sdn_seqno_register` makes of the numbers of the packets received.
use idit_sdn.Base.{ℕ, zero, suc, ◌-◌, ◌<◌, ◌≤◌, ◌≡◌, refl, ap, ◌∙◌, inl, inr}
use idit_sdn.Base.{List, [], ◌∷◌, arith}
use idit_sdn.Base.{set, get_or, length, length-set, ◌==◌, if◌then◌else◌, Bool-cases}
use idit_sdn.Packet.{Bytes, packet_source}
use idit_sdn.Receive.{Seqno, behind_sender, shift_from}
use idit_sdn.Receive.{sdn_seqno_register}

-- The numbers without that of the sender, or without the last one where there is none of it.
unfoldable pub forgotten : ℕ → List Seqno → List Seqno
forgotten source [] = []
forgotten source (x ∷ []) = []
forgotten source (x ∷ y ∷ xs) =
    let rest = forgotten source (y ∷ xs) in if source == x.sender then y ∷ xs else x ∷ rest

unfoldable without_at : ℕ → List Seqno → List Seqno
without_at j [] = []
without_at zero (x ∷ xs) = xs
without_at (suc j) (x ∷ xs) = x ∷ without_at j xs

without_at-set :
    (j : ℕ) (xs : List Seqno) (d : Seqno)
    → suc j < length xs
    → without_at j (set xs (suc j) (get_or xs j d)) ≡ without_at (suc j) xs
unfolding without_at
without_at-set j [] d h = absurd (omega arith)
without_at-set zero (x ∷ []) d h = absurd (omega arith)
without_at-set zero (x ∷ y ∷ xs) d h = refl
without_at-set (suc j) (x ∷ xs) d h = ap (λ l. x ∷ l) (without_at-set j xs d (omega arith))

set-shift_from :
    (j : ℕ) (xs : List Seqno) (new : Seqno)
    → j < length xs
    → set (shift_from j xs) 0 new ≡ new ∷ without_at j xs
unfolding shift_from without_at
set-shift_from zero [] new h = absurd (omega arith)
set-shift_from zero (x ∷ xs) new h = refl
set-shift_from (suc j) xs new h =
    let v = get_or xs j (record { sender = 0; seqno = 0 }) in
    set-shift_from j (set xs (suc j) v) new (omega (arith, length-set xs (suc j) v, h))
    ∙ ap (λ l. new ∷ l) (without_at-set j xs (record { sender = 0; seqno = 0 }) h)

behind-pos : (source : ℕ) (x : Seqno) (xs : List Seqno) → 0 < behind_sender source (x ∷ xs)
unfolding behind_sender
behind-pos source x xs = ground (arith, Bool-cases (source == x.sender))

behind-length : (source : ℕ) (xs : List Seqno) → behind_sender source xs ≤ length xs
unfolding behind_sender
behind-length source [] = omega arith
behind-length source (x ∷ xs) =
    ground (arith, behind-length source xs, Bool-cases (source == x.sender))

without_at-suc :
    (b : ℕ) (x : Seqno) (xs : List Seqno)
    → 0 < b
    → without_at b (x ∷ xs) ≡ x ∷ without_at (b - 1) xs
unfolding without_at
without_at-suc zero x xs h = absurd (omega arith)
without_at-suc (suc b) x xs h = ap (λ k. x ∷ without_at k xs) (omega arith)

without_at-forgotten :
    (source : ℕ) (x : Seqno) (xs : List Seqno)
    → without_at (behind_sender source (x ∷ xs) - 1) (x ∷ xs) ≡ forgotten source (x ∷ xs)
unfolding behind_sender forgotten without_at
without_at-forgotten source x [] = ground (arith, Bool-cases (source == x.sender))
without_at-forgotten source x (y ∷ xs) =
    let b = behind_sender source (y ∷ xs) in
    elim (Bool-cases (source == x.sender)) [
      | inl h ↦ rw h refl
      | inr h ↦ rw h (
          ap (λ k. without_at k (x ∷ y ∷ xs)) {x = suc b - 1} {y = b} (omega arith)
          ∙ (without_at-suc b x (y ∷ xs) (behind-pos source y xs)
              ∙ ap (λ l. x ∷ l) (without_at-forgotten source y xs)))
    ]

-- The two loops, and the write of the first place.
pub register_lem :
    (p : Bytes) (xs : List Seqno)
    → 0 < length xs
    → sdn_seqno_register p xs
      ≡ record { sender = packet_source p; seqno = p 3 } ∷ forgotten (packet_source p) xs
unfolding sdn_seqno_register
register_lem p [] h = absurd (omega arith)
register_lem p (x ∷ xs) h =
    let s = packet_source p in
    let new : Seqno = record { sender = s; seqno = p 3 } in
    set-shift_from (behind_sender s (x ∷ xs) - 1) (x ∷ xs) new
      (omega (arith, behind-length s (x ∷ xs), behind-pos s x xs))
    ∙ ap (λ l. new ∷ l) (without_at-forgotten s x xs)
