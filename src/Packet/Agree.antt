-- ===== src/Packet/Agree.antt =====
-- Packets that have the same bytes up to a length, and what is read and written below it.
use idit_sdn.Base.{ℕ, zero, suc, ◌+◌, ◌≤◌, ◌<◌, ◌≡◌, refl}
use idit_sdn.Base.{ap₂}
use idit_sdn.Base.{◌∷◌, arith}
use idit_sdn.Packet.{Bytes, field, set_byte, copy_addr, bytes}

-- The packets have the same bytes below the length.
unfoldable pub Agree : ℕ → Bytes → Bytes → Type 0
Agree n p q = (i : ℕ) → i < n → p i ≡ q i

module _ (n : ℕ) (p q : Bytes) where
  pub Agree-at : Agree n p q → (i : ℕ) → i < n → p i ≡ q i
  unfolding Agree
  Agree-at same i h = same i h

  pub field-Agree : Agree n p q → (i : ℕ) → i + 1 < n → field p i ≡ field q i
  unfolding Agree
  field-Agree same i h = ground (arith, same i (omega arith), same (i + 1) h)

  pub set_byte-Agree : Agree n p q → (i v : ℕ) → Agree n (set_byte i v p) (set_byte i v q)
  unfolding Agree
  set_byte-Agree same i v j h = ground (arith, same j h)

pub copy_addr-Agree :
    (n : ℕ) (p q : Bytes)
    → Agree n p q
    → (to from : ℕ) → from + 1 < n
    → Agree n (copy_addr to from p) (copy_addr to from q)
unfolding Agree
copy_addr-Agree n p q same to from h j k =
    ground (arith, same j k, same from (omega arith), same (from + 1) h)

pub bytes-Agree :
    (n : ℕ) (p q : Bytes) → Agree n p q → (i m : ℕ) → i + m ≤ n → bytes i m p ≡ bytes i m q
unfolding bytes
bytes-Agree n p q same i zero h = refl
bytes-Agree n p q same i (suc m) h =
    ap₂ (λ x xs. x ∷ xs) (Agree-at n p q same i (omega arith))
      (bytes-Agree n p q same (i + 1) m (omega arith))
