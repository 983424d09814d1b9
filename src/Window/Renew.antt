-- ===== src/Window/Renew.antt =====
-- A slot that is renewed, and a packet that is put in a free slot.
use idit_sdn.Base.{ℕ, zero, suc, ◌+◌, ◌≤◌, ◌<◌, ◌≡◌, refl, sym, ap, ◌∙◌, subst}
use idit_sdn.Base.{inl, inr, Bool, true, false, not, ◌&&◌, ◌||◌}
use idit_sdn.Base.{List, [], ◌∷◌, map, arith, ltb, ◌==◌}
use idit_sdn.Base.{if◌then◌else◌, Bool-cases, length, length-set, ==→eq}
use idit_sdn.Base.{==-self, set}
use idit_sdn.Base.{any, all, ap₂}
use idit_sdn.Packet.{Bytes, field}
use idit_sdn.Keep.{copy_packet}
use idit_sdn.Window.{Waiting, Window, is_live, is_request, first_free, is_same, renew}
use idit_sdn.Window.{neighbor_report}
use idit_sdn.Window.Invariant.{
  IsWindow, same_key, key_of, clear, filled, timed, filled-set, timers-set,
}
use idit_sdn.Window.Invariant.{and_true-left}
use idit_sdn.Window.Invariant.{and_true-right}
use idit_sdn.Window.Invariant.{clear-set, first_free-filled}

ltb-copy : (len : ℕ) (p old : Bytes) (i : ℕ) → i < len → copy_packet len p old i ≡ p i
ltb-copy len p old i h = ground (arith, h)

pub lt→ltb : (a b : ℕ) → a < b → ltb a b ≡ true
lt→ltb a b h = ground arith

or_true : (a b : Bool) → b ≡ true → (a || b) ≡ true
or_true a b h = ground arith

-- The test of the loops is the one of the invariant.
is_same_lem : (p : Bytes) (x : Waiting) → is_same p x ≡ (same_key p x && is_live x)
is_same_lem p x = elim (Bool-cases (p 0 == 4)) [
  | inl h ↦ elim (Bool-cases (x.packet 0 == 4)) [
    | inl k ↦ rw (==→eq (p 0) 4 h, ==→eq (x.packet 0) 4 k) refl
    | inr k ↦ rw (==→eq (p 0) 4 h, k) refl
  ]
  | inr h ↦ elim (Bool-cases (x.packet 0 == p 0)) [
    | inl k ↦ rw (==→eq (x.packet 0) (p 0) k, h) refl
    | inr k ↦ rw (h, k) refl
  ]
]

-- The copy of a packet with ten bytes has its key.
same_key-copy :
    (len : ℕ) (p old : Bytes) (x : Waiting)
    → 10 ≤ len
    → same_key (copy_packet len p old) x ≡ same_key p x
same_key-copy len p old x h =
    rw
      (
        ltb-copy len p old 0 (omega arith),
        ltb-copy len p old 8 (omega arith),
        ltb-copy len p old 9 (omega arith),
      )
      refl

-- A renewed slot has the key, the life and the timer that it had.
module _ (p : Bytes) (len : ℕ) (long : 10 ≤ len) where
  live_of : (x : Waiting) → is_same p x ≡ true → is_live x ≡ true
  live_of x h =
      and_true-right
        (if p 0 == neighbor_report
          then x.packet 0 == neighbor_report
          else is_request (p 0) (field p 8) x)
        (is_live x) h

  report_of : (x : Waiting) → p 0 ≡ 4 → is_same p x ≡ true → x.packet 0 ≡ 4
  report_of x e h = ==→eq (x.packet 0) 4 (
      and_true-left (x.packet 0 == 4) (is_live x) (
        subst
          (λ n.
            ((if n == 4 then x.packet 0 == 4 else is_request n (field p 8) x) && is_live x) ≡ true)
          e h))

  renew-same :
      (x : Waiting) (q : Bytes)
      → (same_key q (renew p len x) ≡ same_key q x)
        × (key_of (renew p len x).packet ≡ key_of x.packet)
        × ((renew p len x).packet 0 ≡ x.packet 0)
        × (is_live (renew p len x) ≡ is_live x)
        × ((renew p len x).armed ≡ x.armed)
  renew-same x q = elim (Bool-cases (p 0 == neighbor_report && is_same p x)) [
    | inl h ↦
        let e = ==→eq (p 0) 4 (and_true-left (p 0 == neighbor_report) (is_same p x) h) in
        let same = and_true-right (p 0 == neighbor_report) (is_same p x) h in
        let l = live_of x same in
        let y = report_of x e same in
        rw (h, ltb-copy len p x.packet 0 (omega arith), e, y, l, lt→ltb 0 len (omega arith))
          (refl, refl, refl, refl, refl)
    | inr h ↦ rw h (refl, refl, refl, refl, refl)
  ]

  length-renew : (xs : List Waiting) → length (map (renew p len) xs) ≡ length xs
  length-renew [] = refl
  length-renew (x ∷ xs) = ap suc (length-renew xs)

  filled-renew : (c : ℕ) (xs : List Waiting) → filled c (map (renew p len) xs) ≡ filled c xs
  unfolding filled
  filled-renew zero xs = refl
  filled-renew (suc c) [] = refl
  filled-renew (suc c) (x ∷ xs) = ap₂ (λ a b. a && b) (renew-same x p).3 (filled-renew c xs)

  timers-renew : (xs : List Waiting) → all timed (map (renew p len) xs) ≡ all timed xs
  timers-renew [] = refl
  timers-renew (x ∷ xs) =
      ap₂ (λ a b. a && b)
        (ap₂ (λ l t. if l then t else not t) (renew-same x p).3 (renew-same x p).4)
        (timers-renew xs)

  pub any-renew :
      (q : Bytes) (xs : List Waiting)
      → any (λ y. same_key q y && is_live y) (map (renew p len) xs)
        ≡ any (λ y. same_key q y && is_live y) xs
  any-renew q [] = refl
  any-renew q (x ∷ xs) =
      ap₂ (λ a b. a || b) (ap₂ (λ a b. a && b) (renew-same x q).0 (renew-same x q).3)
        (any-renew q xs)

  any-key :
      (x : Waiting) (xs : List Waiting)
      → any (λ y. same_key (renew p len x).packet y && is_live y) xs
        ≡ any (λ y. same_key x.packet y && is_live y) xs
  any-key x [] = refl
  any-key x (y ∷ ys) =
      ap₂ (λ a b. a || b)
        (ap (λ b. b && is_live y)
          (ap₂ (λ m n. y.packet 0 == m && key_of y.packet == n) (renew-same x p).2
            (renew-same x p).1))
        (any-key x ys)

  clear-renew : (xs : List Waiting) → clear (map (renew p len) xs) ≡ clear xs
  unfolding clear
  clear-renew [] = refl
  clear-renew (x ∷ xs) =
      ap₂ (λ a b. not a && b) (any-key x (map (renew p len) xs) ∙ any-renew x.packet xs)
        (clear-renew xs)

  pub renew-IsWindow :
      (w : Window) → IsWindow w → IsWindow (record w { slots = map (renew p len) w.slots })
  renew-IsWindow w v = record {
    size = length-renew w.slots ∙ v.size;
    below = filled-renew w.count w.slots ∙ v.below;
    timers = timers-renew w.slots ∙ v.timers;
    apart = clear-renew w.slots ∙ v.apart;
  }

  pub any-is_same :
      (xs : List Waiting) → any (is_same p) xs ≡ any (λ y. same_key p y && is_live y) xs
  any-is_same [] = refl
  any-is_same (x ∷ xs) = ap₂ (λ a b. a || b) (is_same_lem p x) (any-is_same xs)

  any-copy :
      (old : Bytes) (xs : List Waiting)
      → any (λ y. same_key (copy_packet len p old) y && is_live y) xs
        ≡ any (λ y. same_key p y && is_live y) xs
  any-copy old [] = refl
  any-copy old (x ∷ xs) =
      ap₂ (λ a b. a || b) (ap (λ b. b && is_live x) (same_key-copy len p old x long))
        (any-copy old xs)

  -- The slot that a packet is copied to.
  abbrev pub copied : Bytes → Waiting
  copied old = record { packet = copy_packet len p old; len = len; armed = true }

  pub store-IsWindow :
      (old : Bytes) (w : Window)
      → IsWindow w
      → any (is_same p) w.slots ≡ false
      → first_free w.count w.slots < 4
      → IsWindow (record {
        slots = set w.slots (first_free w.count w.slots) (copied old);
        count = first_free w.count w.slots + 1;
      })
  store-IsWindow old w v n b =
      let i = first_free w.count w.slots in
      let f = first_free-filled w.count w.slots v.below in
      record {
        size = length-set w.slots i (copied old) ∙ v.size;
        below =
            filled-set i (copied old) w.slots (omega (arith, v.size, b))
              (lt→ltb 0 len (omega arith)) f;
        timers = timers-set i (copied old) w.slots (rw (lt→ltb 0 len (omega arith)) refl) v.timers;
        apart =
            clear-set i (copied old) w.slots f
              (any-copy old w.slots ∙ (sym (any-is_same w.slots) ∙ n)) v.apart;
      }

  pub any-set_self :
      (i : ℕ) (old : Bytes) (xs : List Waiting)
      → i < length xs
      → any (λ y. same_key p y && is_live y) (set xs i (copied old)) ≡ true
  any-set_self i old [] b = absurd (omega arith)
  any-set_self zero old (x ∷ xs) b =
      rw
        (
          ltb-copy len p old 0 (omega arith),
          ltb-copy len p old 8 (omega arith),
          ltb-copy len p old 9 (omega arith),
          ==-self (p 0),
          ==-self (key_of p),
          lt→ltb 0 len (omega arith),
        )
        refl
  any-set_self (suc i) old (x ∷ xs) b =
      or_true (same_key p x && is_live x)
        (any (λ y. same_key p y && is_live y) (set xs i (copied old)))
        (any-set_self i old xs (omega arith))
