-- ===== src/FlowTable/Count.antt =====
-- How often an address is in a list of addresses, and a key in a table.
use idit_sdn.Base.{ℕ, suc, ◌+◌, ◌-◌, ◌≤◌, ◌<◌, ◌≡◌, refl, sym, subst}
use idit_sdn.Base.{◌≢◌, inl, inr, none, some}
use idit_sdn.Base.{List, [], ◌∷◌, ◌++◌, arith, ◌==◌}
use idit_sdn.Base.{if◌then◌else◌, Bool-cases, ℕ-cases}
use idit_sdn.Base.{==-self}
use idit_sdn.Contiki.{without}
use idit_sdn.FlowTable.{Memory, find_entry}

unfoldable pub count : ℕ → List ℕ → ℕ
count a [] = 0
count a (b ∷ bs) = if b == a then suc (count a bs) else count a bs

-- How many of the addresses hold an entry of the key.
unfoldable pub uses : ℕ → Memory → List ℕ → ℕ
uses k m [] = 0
uses k m (b ∷ bs) = if (m b).key == k then suc (uses k m bs) else uses k m bs

pub count-append : (a : ℕ) (l r : List ℕ) → count a (l ++ r) ≡ count a l + count a r
unfolding count
count-append a [] r = omega arith
count-append a (b ∷ l) r = ground (arith, count-append a l r)

count_one : (a : ℕ) → count a (a ∷ []) ≡ 1
unfolding count
count_one a = ground (arith, ==-self a)

count_other : (a b : ℕ) → b ≢ a → count b (a ∷ []) ≡ 0
unfolding count
count_other a b n = ground (arith)

pub count-without_self : (a : ℕ) (l : List ℕ) → count a (without a l) ≡ count a l - 1
unfolding count
count-without_self a [] = refl
count-without_self a (b ∷ l) = ground (arith, count-without_self a l)

pub count-without_ne : (a b : ℕ) (l : List ℕ) → a ≢ b → count b (without a l) ≡ count b l
unfolding count
count-without_ne a b [] ne = refl
count-without_ne a b (c ∷ l) ne = ground (arith, count-without_ne a b l ne)

pub uses-append : (k : ℕ) (m : Memory) (l r : List ℕ) → uses k m (l ++ r) ≡ uses k m l + uses k m r
unfolding uses
uses-append k m [] r = omega arith
uses-append k m (b ∷ l) r = ground (arith, uses-append k m l r)

uses_one : (k a : ℕ) (m : Memory) → uses k m (a ∷ []) ≡ (if (m a).key == k then 1 else 0)
unfolding uses
uses_one k a m = ground arith

-- Only the keys at the addresses of the list matter.
pub uses-same :
    (k : ℕ) (m m' : Memory) (l : List ℕ)
    → ((b : ℕ) → 0 < count b l → (m b).key ≡ (m' b).key)
    → uses k m l ≡ uses k m' l
unfolding uses count
uses-same k m m' [] same = refl
uses-same k m m' (b ∷ l) same =
    let tail = uses-same k m m' l (λ c h. same c (ground arith)) in
    ground (arith, tail, same b (ground arith))

-- An address without its key takes its uses away.
pub uses-without :
    (k a : ℕ) (m : Memory) (l : List ℕ)
    → 0 < count a l
    → uses k m l ≡ (if (m a).key == k then suc (uses k m (without a l)) else uses k m (without a l))
unfolding uses count
uses-without k a m [] h = absurd (omega arith)
uses-without k a m (b ∷ l) h = elim (ℕ-cases b a) [
  | inl e ↦
      subst
        (λ c. (if (m b).key == k then suc (uses k m l) else uses k m l) ≡ (
          if (m c).key == k
          then suc (uses k m (without c (b ∷ l)))
          else uses k m (without c (b ∷ l))))
        e (ground arith)
  | inr ne ↦ ground (arith, uses-without k a m l (ground arith))
]

pub without-absent : (a : ℕ) (l : List ℕ) → count a l ≡ 0 → without a l ≡ l
unfolding count
without-absent a [] h = refl
without-absent a (b ∷ l) h = ground (arith, without-absent a l (ground arith))

-- What the search for a key gives.
pub find_entry-some :
    (k a : ℕ) (m : Memory) (l : List ℕ)
    → find_entry k m l ≡ some a
    → ((m a).key ≡ k) × (0 < count a l)
unfolding find_entry count
find_entry-some k a m [] h = ground arith
find_entry-some k a m (b ∷ l) h = elim (Bool-cases ((m b).key == k)) [
  | inl e ↦ ground arith
  | inr ne ↦ ground (arith, find_entry-some k a m l (ground arith))
]

pub find_entry-none : (k : ℕ) (m : Memory) (l : List ℕ) → find_entry k m l ≡ none → uses k m l ≡ 0
unfolding find_entry uses
find_entry-none k m [] h = refl
find_entry-none k m (b ∷ l) h = ground (arith, find_entry-none k m l)

pub find_entry-unused : (k : ℕ) (m : Memory) (l : List ℕ) → uses k m l ≡ 0 → find_entry k m l ≡ none
unfolding find_entry uses
find_entry-unused k m [] h = refl
find_entry-unused k m (b ∷ l) h = ground (arith, find_entry-unused k m l)

pub uses-without_le : (k a : ℕ) (m : Memory) (l : List ℕ) → uses k m (without a l) ≤ uses k m l
unfolding uses
uses-without_le k a m [] = omega arith
uses-without_le k a m (b ∷ l) = ground (arith, uses-without_le k a m l)

-- An address moved to the end of the list.
pub count-moved :
    (a b : ℕ) (l : List ℕ)
    → count b (without a l ++ (a ∷ [])) ≡ (if b == a then suc (count a l - 1) else count b l)
count-moved a b l = elim (ℕ-cases b a) [
  | inl e ↦
      subst
        (λ c.
          count c (without a l ++ (a ∷ [])) ≡ (if c == a then suc (count a l - 1) else count c l))
        (sym e)
        (ground (
          arith,
          count-append a (without a l) (a ∷ []),
          count-without_self a l,
          ==-self a,
          count_one a,
        ))
  | inr n ↦ ground (
    arith,
    count-append b (without a l) (a ∷ []),
    count-without_ne a b l (λ q. n (sym q)),
    count_other a b n,
  )
]

pub uses-moved :
    (k a : ℕ) (m : Memory) (l : List ℕ)
    → uses k m (without a l ++ (a ∷ []))
      ≡ uses k m (without a l) + (if (m a).key == k then 1 else 0)
uses-moved k a m l = ground (arith, uses-append k m (without a l) (a ∷ []), uses_one k a m)
