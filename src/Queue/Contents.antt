-- ===== src/Queue/Contents.antt =====
-- What a ring of slots holds: the slots from the head on, oldest first.
use idit_sdn.Base.{ℕ, zero, suc, ◌+◌, ◌≤◌, ◌<◌, ◌≡◌, refl, ap, ap₂, ◌∙◌, ◌≢◌, ◌⊎◌, inl, inr}
use idit_sdn.Base.{List, [], ◌∷◌, ◌++◌, length, get_or, set, get_or-set_self, get_or-set_ne, arith}
use idit_sdn.Queue.{advance}

module _ {ℓ} {A : Type ℓ} (d : A) where
  -- The `n` slots from index `h` on, round the end of the array.
  abbrev pub contents : List A → ℕ → ℕ → ℕ → List A
  contents slots max_size h zero = []
  contents slots max_size h (suc n) =
      get_or slots h d ∷ contents slots max_size (advance max_size h) n

-- Below a maximum that a `uint8_t` holds the next index is the successor, or 0 at the end.
pub advance-cases :
    (m h : ℕ)
    → h < m
    → m ≤ 255
    → ((advance m h ≡ h + 1) × (h + 1 < m)) ⊎ ((advance m h ≡ 0) × (h + 1 ≡ m))
unfolding advance
advance-cases m h lt le = ground arith

-- The index that comes `n` slots after `h`.
abbrev pub IsAfter : ℕ → ℕ → ℕ → ℕ → Type 0
IsAfter m h n i = (i ≡ h + n) ⊎ (i + m ≡ h + n)

pub IsAfter-advance :
    (m h n i : ℕ) → h < m → m ≤ 255 → i < m → IsAfter m h (suc n) i → IsAfter m (advance m h) n i
IsAfter-advance m h n i lt le hi a = elim (advance-cases m h lt le) [
  | inl c ↦ omega arith
  | inr c ↦ omega arith
]

pub advance-lt : (m h : ℕ) → h < m → m ≤ 255 → advance m h < m
advance-lt m h lt le = elim (advance-cases m h lt le) [ inl c ↦ omega arith | inr c ↦ omega arith ]

module _ {ℓ} {A : Type ℓ} (d : A) where
  pub length-contents : (slots : List A) (m h n : ℕ) → length (contents d slots m h n) ≡ n
  length-contents slots m h zero = refl
  length-contents slots m h (suc n) = ap suc (length-contents slots m (advance m h) n)

  -- A write just past the contents, round the end, extends them by one slot.
  pub contents-set :
      (slots : List A) (m h n i : ℕ) (v : A)
      → h < m
      → n < m
      → m ≤ 255
      → m ≤ length slots
      → i < m
      → IsAfter m h n i
      → contents d (set slots i v) m h (suc n) ≡ contents d slots m h n ++ (v ∷ [])
  contents-set slots m h zero i v hh hn hm hl hi a =
      let e : h ≡ i = omega arith in
      ap (λ x. x ∷ [])
        (ap (λ k. get_or (set slots i v) k d) e ∙ get_or-set_self slots i v d (omega arith))
  contents-set slots m h (suc n) i v hh hn hm hl hi a = ap₂ ◌∷◌ (get_or-set_ne slots i h v d ne) (
      contents-set slots m (advance m h) n i v (advance-lt m h hh hm) (omega arith) hm hl hi
        (IsAfter-advance m h n i hh hm hi a))
    where
      ne : i ≢ h
      ne = omega arith
