-- ===== src/Keep/Solved.antt =====
-- What the kept packets that wait for a route should become.
use idit_sdn.Base.{ℕ, zero, suc, ◌-◌, ◌<◌, ◌≡◌, refl, ap}
use idit_sdn.Base.{Bool, true, false, not, ◌&&◌, ◌||◌, none, some}
use idit_sdn.Base.{List, [], ◌∷◌, arith, ◌==◌}
use idit_sdn.Base.{if◌then◌else◌, Bool-cases}
use idit_sdn.Queue.Fifo.{Entry as Queued}
use idit_sdn.Packet.{Bytes}
use idit_sdn.Keep.{Kept}

unfoldable pub take {ℓ} : {A : Type ℓ} → ℕ → List A → List A
take zero xs = []
take (suc n) [] = []
take (suc n) (x ∷ xs) = x ∷ take n xs

unfoldable pub drop {ℓ} : {A : Type ℓ} → ℕ → List A → List A
drop zero xs = xs
drop (suc n) [] = []
drop (suc n) (x ∷ xs) = drop n xs

-- Does the packet wait for the route that came?
abbrev pub is_hit : (Bytes → Bool) → (ℕ → Bytes) → Kept → Bool
is_hit awaits buffers k = elim k.packet as (λ _. Bool) [
  | none ↦ false
  | some a ↦ awaits (buffers a)
]

-- The entries of the send queue that the packets become, in the order of the array.
unfoldable pub solved : (Bytes → Bool) → (ℕ → Bytes) → List Kept → List Queued
solved awaits buffers [] = []
solved awaits buffers (k ∷ ks) =
    if is_hit awaits buffers k
    then (k.packet, k.len, k.time) ∷ solved awaits buffers ks
    else solved awaits buffers ks

-- A place of the array without the packet, if it was solved.
abbrev pub left : (Bytes → Bool) → (ℕ → Bytes) → Kept → Kept
left awaits buffers k = if is_hit awaits buffers k then record k { packet = none } else k

-- Is the packet the one at the address?
abbrev pub holds : ℕ → Queued → Bool
holds b q = elim q.0 as (λ _. Bool) [ none ↦ false | some a ↦ b == a ]

pub take-nil {ℓ} : {A : Type ℓ} (n : ℕ) → take {A = A} n [] ≡ []
unfolding take
take-nil zero = refl
take-nil (suc n) = refl

pub drop-nil {ℓ} : {A : Type ℓ} (n : ℕ) → drop {A = A} n [] ≡ []
unfolding drop
drop-nil zero = refl
drop-nil (suc n) = refl

pub take-pos {ℓ} :
    {A : Type ℓ} (n : ℕ) (x : A) (xs : List A) → 0 < n → take n (x ∷ xs) ≡ x ∷ take (n - 1) xs
unfolding take
take-pos zero x xs h = absurd (omega arith)
take-pos (suc n) x xs h = ap (λ m. x ∷ take m xs) (omega arith)

pub drop-pos {ℓ} :
    {A : Type ℓ} (n : ℕ) (x : A) (xs : List A) → 0 < n → drop n (x ∷ xs) ≡ drop (n - 1) xs
unfolding drop
drop-pos zero x xs h = absurd (omega arith)
drop-pos (suc n) x xs h = ap (λ m. drop m xs) (omega arith)

module _ (awaits : Bytes → Bool) (buffers : ℕ → Bytes) (k : Kept) (ks : List Kept) where
  pub left-miss : is_hit awaits buffers k ≡ false → left awaits buffers k ≡ k
  left-miss h = ground (arith, h)

  pub solved-miss :
      is_hit awaits buffers k ≡ false → solved awaits buffers (k ∷ ks) ≡ solved awaits buffers ks
  unfolding solved
  solved-miss h = ground (arith, h)

  pub left-hit :
      (a : ℕ)
      → k.packet ≡ some a
      → awaits (buffers a) ≡ true
      → left awaits buffers k ≡ record k { packet = none }
  left-hit a e h = ground (arith, e, h)

  pub solved-hit :
      (a : ℕ)
      → k.packet ≡ some a
      → awaits (buffers a) ≡ true
      → solved awaits buffers (k ∷ ks) ≡ (some a, k.len, k.time) ∷ solved awaits buffers ks
  unfolding solved
  solved-hit a e h = ground (arith, e, h)

pub freed_too : (x y z w : Bool) → w ≡ (not y && z) → (not x && w) ≡ (not (y || x) && z)
freed_too x y z w h = ground (arith, Bool-cases x, Bool-cases y)
