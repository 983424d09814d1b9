-- ===== src/FlowTable/Place.antt =====
-- The steps of an insertion in a flow table: the memory written, the list and the ages.
use idit_sdn.Base.{ℕ, ◌≤◌, ◌<◌, ◌≡◌, refl, sym, subst}
use idit_sdn.Base.{◌≢◌, inl, inr, some}
use idit_sdn.Base.{List, [], ◌∷◌, ◌++◌, arith, ltb}
use idit_sdn.Base.{if◌then◌else◌, ℕ-cases}
use idit_sdn.Base.{ne→==, ==-self}
use idit_sdn.Contiki.{without}
use idit_sdn.FlowTable.{Entry, Memory, put, older, age_all, find_entry}
use idit_sdn.FlowTable.Count.{count, uses}

-- Every entry of the list is aged once, where no address is twice in the list.
pub age_all_lem :
    (l : List ℕ) (m : Memory) (b : ℕ)
    → ((a : ℕ) → count a l ≤ 1)
    → age_all l m b ≡ (if ltb 0 (count b l) then older (m b) else m b)
unfolding age_all count
age_all_lem [] m b once = refl
age_all_lem (a ∷ l) m b once =
    let tail = age_all_lem l (put a (older (m a)) m) b (λ c. ground (arith, once c)) in
    elim (ℕ-cases b a) [
      | inl e ↦
          subst
            (λ c.
              age_all l (put a (older (m a)) m) c
              ≡ (if ltb 0 (count c (a ∷ l)) then older (m c) else m c))
            (sym e)
            (ground (
              arith,
              once a,
              age_all_lem l (put a (older (m a)) m) a (λ c. ground (arith, once c)),
              ==-self a,
            ))
      | inr ne ↦ ground (arith, tail)
    ]

pub age_all-key : (l : List ℕ) (m : Memory) (b : ℕ) → (age_all l m b).key ≡ (m b).key
unfolding age_all
age_all-key [] m b = refl
age_all-key (a ∷ l) m b = ground (arith, age_all-key l (put a (older (m a)) m) b)

-- An entry of another key does not matter to the search.
pub find_entry-put :
    (k a : ℕ) (e : Entry) (m : Memory) (l : List ℕ)
    → k ≢ e.key
    → (0 < count a l → (m a).key ≢ k)
    → find_entry k (put a e m) (l ++ (a ∷ [])) ≡ find_entry k m l
unfolding find_entry count
find_entry-put k a e m [] ne old = ground (arith, ==-self a)
find_entry-put k a e m (b ∷ l) ne old =
    let tail = find_entry-put k a e m l ne (λ h. old (ground arith)) in
    elim (ℕ-cases b a) [
      | inl q ↦
          subst (λ c. find_entry k (put a e m) (c ∷ (l ++ (a ∷ []))) ≡ find_entry k m (c ∷ l))
            (sym q) (ground (arith, tail, old (ground arith), ==-self a))
      | inr n ↦ ground (arith, tail)
    ]

pub find_entry-placed_ne :
    (k a : ℕ) (e : Entry) (m : Memory) (l : List ℕ)
    → k ≢ e.key
    → (0 < count a l → (m a).key ≢ k)
    → find_entry k (put a e m) (without a l ++ (a ∷ [])) ≡ find_entry k m l
unfolding find_entry count
find_entry-placed_ne k a e m [] ne old = ground (arith, ==-self a)
find_entry-placed_ne k a e m (b ∷ l) ne old =
    let tail = find_entry-placed_ne k a e m l ne (λ h. old (ground arith)) in
    let rest = find_entry-put k a e m l ne (λ h. old (ground arith)) in
    elim (ℕ-cases b a) [
      | inl q ↦
          subst
            (λ c. find_entry k (put a e m) (without a (c ∷ l) ++ (a ∷ [])) ≡ find_entry k m (c ∷ l))
            (sym q) (ground (arith, rest, old (ground arith), ==-self a))
      | inr n ↦ ground (arith, tail)
    ]

-- The entry is found under its key, where the list has no other of it.
pub find_entry-placed :
    (a : ℕ) (e : Entry) (m : Memory) (l : List ℕ)
    → uses e.key (put a e m) l ≡ 0
    → find_entry e.key (put a e m) (l ++ (a ∷ [])) ≡ some a
unfolding find_entry uses
find_entry-placed a e m [] h = ground (arith, ==-self a, ==-self e.key)
find_entry-placed a e m (b ∷ l) h = ground (arith, find_entry-placed a e m l (ground arith))

-- Ages do not matter to the search.
pub find_entry-same :
    (k : ℕ) (m m' : Memory) (l : List ℕ)
    → ((b : ℕ) → (m b).key ≡ (m' b).key)
    → find_entry k m l ≡ find_entry k m' l
unfolding find_entry
find_entry-same k m m' [] same = refl
find_entry-same k m m' (b ∷ l) same = ground (arith, find_entry-same k m m' l same, same b)

-- A removed entry does not matter to the search for another key.
pub find_entry-without :
    (k a : ℕ) (m : Memory) (l : List ℕ)
    → (m a).key ≢ k
    → find_entry k m (without a l) ≡ find_entry k m l
unfolding find_entry
find_entry-without k a m [] ne = refl
find_entry-without k a m (b ∷ l) ne = elim (ℕ-cases b a) [
  | inl q ↦
      subst (λ c. find_entry k m (without a (c ∷ l)) ≡ find_entry k m (c ∷ l)) (sym q)
        (ground (arith, ==-self a, ne→== (m a).key k ne))
  | inr n ↦ ground (arith, ne→== b a n, find_entry-without k a m l ne)
]

-- Only the keys at the addresses of the list matter to the search.
pub find_entry-agree :
    (k : ℕ) (m m' : Memory) (l : List ℕ)
    → ((b : ℕ) → 0 < count b l → (m b).key ≡ (m' b).key)
    → find_entry k m l ≡ find_entry k m' l
unfolding find_entry count
find_entry-agree k m m' [] same = refl
find_entry-agree k m m' (b ∷ l) same = ground (
  arith,
  find_entry-agree k m m' l (λ c h. same c (ground arith)),
  same b (ground (arith, ==-self b)),
)
