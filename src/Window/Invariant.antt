-- ===== src/Window/Invariant.antt =====
-- The invariant of the window: every slot below the count waits, the timers of exactly the waiting
-- slots run, and no request that waits has a slot with the same request before it.
use idit_sdn.Base.{ℕ, zero, suc, ◌+◌, ◌≤◌, ◌<◌, ◌≡◌, refl, ap, ◌∙◌}
use idit_sdn.Base.{inl, inr, Bool, true, false, not, ◌&&◌, ◌||◌}
use idit_sdn.Base.{List, [], ◌∷◌, arith, ltb, ◌==◌}
use idit_sdn.Base.{if◌then◌else◌, Bool-cases, Option-cases, length}
use idit_sdn.Base.{get_or, set}
use idit_sdn.Base.{any, all, ap₂}
use idit_sdn.Packet.{Bytes, field}
use idit_sdn.Window.{Waiting, Window, is_live, no_slot, first_free}
use idit_sdn.Window.{neighbor_report, sld_remove_element, remove_first, first_index}
use idit_sdn.Window.{max_window}

pub or_false-left : (a b : Bool) → (a || b) ≡ false → a ≡ false
or_false-left a b h = ground arith

pub or_false-right : (a b : Bool) → (a || b) ≡ false → b ≡ false
or_false-right a b h = ground arith

pub or_false : (a b : Bool) → a ≡ false → b ≡ false → (a || b) ≡ false
or_false a b h k = ground arith

pub and_true-left : (a b : Bool) → (a && b) ≡ true → a ≡ true
and_true-left a b h = ground arith

pub and_true-right : (a b : Bool) → (a && b) ≡ true → b ≡ true
and_true-right a b h = ground arith

pub and_true : (a b : Bool) → a ≡ true → b ≡ true → (a && b) ≡ true
and_true a b h k = ground arith

and_false : (a b : Bool) → (a && b) ≡ false → b ≡ true → a ≡ false
and_false a b h k = ground arith

pub not-true : (a : Bool) → not a ≡ true → a ≡ false
not-true a h = ground arith

zero_below : (c : ℕ) → ltb 0 (suc c) ≡ true
zero_below c = ground arith

-- What the search for a slot compares: the type, and the flow or the address of a request.
abbrev pub key_of : Bytes → ℕ
key_of p = if p 0 == neighbor_report then 0 else field p 8

abbrev pub same_key : Bytes → Waiting → Bool
same_key p x = x.packet 0 == p 0 && key_of x.packet == key_of p

-- No slot that waits has a slot with the same key before it.
unfoldable pub clear : List Waiting → Bool
clear [] = true
clear (x ∷ xs) = not (any (λ y. same_key x.packet y && is_live y) xs) && clear xs

-- Do the first slots wait?
unfoldable pub filled : ℕ → List Waiting → Bool
filled zero xs = true
filled (suc c) [] = false
filled (suc c) (x ∷ xs) = is_live x && filled c xs

abbrev pub timed : Waiting → Bool
timed x = if is_live x then x.armed else not x.armed

pub record IsWindow (w : Window) : Type 0 where
  pub size : length w.slots ≡ 4
  pub below : filled w.count w.slots ≡ true
  pub timers : all timed w.slots ≡ true
  pub apart : clear w.slots ≡ true

-- A slot that is emptied.
abbrev pub emptied : Waiting → Waiting
emptied x = record x { len = 0; armed = false }

unfoldable pub empty_at : ℕ → List Waiting → List Waiting
empty_at i [] = []
empty_at zero (x ∷ xs) = emptied x ∷ xs
empty_at (suc i) (x ∷ xs) = x ∷ empty_at i xs

pub set-emptied :
    (i : ℕ) (xs : List Waiting)
    → set xs i (record (get_or xs i no_slot) { len = 0; armed = false }) ≡ empty_at i xs
unfolding empty_at
set-emptied i [] = refl
set-emptied zero (x ∷ xs) = refl
set-emptied (suc i) (x ∷ xs) = ap (λ l. x ∷ l) (set-emptied i xs)

length-empty_at : (i : ℕ) (xs : List Waiting) → length (empty_at i xs) ≡ length xs
unfolding empty_at
length-empty_at i [] = refl
length-empty_at zero (x ∷ xs) = refl
length-empty_at (suc i) (x ∷ xs) = ap suc (length-empty_at i xs)

filled-empty_at :
    (i c : ℕ) (xs : List Waiting)
    → filled c xs ≡ true
    → filled (if ltb i c then i else c) (empty_at i xs) ≡ true
unfolding filled empty_at
filled-empty_at i zero xs h = ground arith
filled-empty_at i (suc c) [] h = ground arith
filled-empty_at zero (suc c) (x ∷ xs) h =
    ap (λ b. filled (if b then 0 else suc c) (emptied x ∷ xs)) (zero_below c)
filled-empty_at (suc i) (suc c) (x ∷ xs) h =
    ground (arith, filled-empty_at i c xs (ground (arith, h)), Bool-cases (ltb i c))

timers-empty_at :
    (i : ℕ) (xs : List Waiting) → all timed xs ≡ true → all timed (empty_at i xs) ≡ true
unfolding empty_at
timers-empty_at i [] h = refl
timers-empty_at zero (x ∷ xs) h = ground arith
timers-empty_at (suc i) (x ∷ xs) h = ground (arith, timers-empty_at i xs (ground (arith, h)))

none-empty_at :
    (p : Bytes) (i : ℕ) (xs : List Waiting)
    → any (λ y. same_key p y && is_live y) xs ≡ false
    → any (λ y. same_key p y && is_live y) (empty_at i xs) ≡ false
unfolding empty_at
none-empty_at p i [] h = refl
none-empty_at p zero (x ∷ xs) h = ground (arith, Bool-cases (same_key p x))
none-empty_at p (suc i) (x ∷ xs) h = ground (arith, none-empty_at p i xs (ground (arith, h)))

clear-empty_at : (i : ℕ) (xs : List Waiting) → clear xs ≡ true → clear (empty_at i xs) ≡ true
unfolding clear empty_at
clear-empty_at i [] h = refl
clear-empty_at zero (x ∷ xs) h = ground (arith, h)
clear-empty_at (suc i) (x ∷ xs) h = ground (
  arith,
  none-empty_at x.packet i xs (ground (arith, h)),
  clear-empty_at i xs (ground (arith, h)),
)

empty-IsWindow :
    (i c : ℕ) (w : Window)
    → c ≡ (if ltb i w.count then i else w.count)
    → IsWindow w
    → IsWindow (record { slots = empty_at i w.slots; count = c })
empty-IsWindow i c w e v = record {
  size = length-empty_at i w.slots ∙ v.size;
  below = ap (λ n. filled n (empty_at i w.slots)) e ∙ filled-empty_at i w.count w.slots v.below;
  timers = timers-empty_at i w.slots v.timers;
  apart = clear-empty_at i w.slots v.apart;
}

pub remove_element-IsWindow :
    (i : ℕ) (w : Window) → IsWindow w → IsWindow (sld_remove_element i w).1
unfolding sld_remove_element
remove_element-IsWindow i w v = elim (Bool-cases (ltb i max_window)) [
  | inl h ↦
      rw (h, set-emptied i w.slots)
        (empty-IsWindow i (if ltb i w.count then i else w.count) w refl v)
  | inr h ↦ rw h v
]

pub remove_first-IsWindow :
    (test : Waiting → Bool) (w : Window) → IsWindow w → IsWindow (remove_first test w).1
unfolding remove_first
remove_first-IsWindow test w v = elim (Option-cases (first_index test w.slots)) [
  | inl h ↦ rw (h, remove_first) v
  | inr (i, h) ↦ rw (h, remove_first) (remove_element-IsWindow i w v)
]

-- The search for a free slot.
pub first_free-filled :
    (c : ℕ) (xs : List Waiting) → filled c xs ≡ true → filled (first_free c xs) xs ≡ true
unfolding filled first_free
first_free-filled zero [] h = refl
first_free-filled (suc c) [] h = absurd (ground arith)
first_free-filled zero (x ∷ xs) h =
    ground (arith, first_free-filled zero xs refl, Bool-cases (is_live x))
first_free-filled (suc c) (x ∷ xs) h = ground (arith, first_free-filled c xs (ground (arith, h)))

pub first_free-length :
    (c : ℕ) (xs : List Waiting) → filled c xs ≡ true → first_free c xs ≤ length xs
unfolding filled first_free
first_free-length zero [] h = omega arith
first_free-length (suc c) [] h = absurd (ground arith)
first_free-length zero (x ∷ xs) h = ground (arith, first_free-length zero xs refl)
first_free-length (suc c) (x ∷ xs) h = ground (arith, first_free-length c xs (ground (arith, h)))

pub all-first_free :
    (c : ℕ) (xs : List Waiting)
    → filled c xs ≡ true
    → (first_free c xs == length xs) ≡ all is_live xs
unfolding filled first_free
all-first_free zero [] h = refl
all-first_free (suc c) [] h = absurd (ground arith)
all-first_free zero (x ∷ xs) h = ground (arith, all-first_free zero xs refl)
all-first_free (suc c) (x ∷ xs) h = ground (arith, all-first_free c xs (ground (arith, h)))

==-sym : (a b : ℕ) → (a == b) ≡ (b == a)
==-sym a b = ground arith

pub same_key-sym :
    (x new : Waiting) (live : Bool)
    → (same_key new.packet x && live) ≡ false
    → live ≡ true
    → same_key x.packet new ≡ false
same_key-sym x new live h l =
    ap₂ (λ a b. a && b) (==-sym (new.packet 0) (x.packet 0))
      (==-sym (key_of new.packet) (key_of x.packet))
    ∙ and_false (same_key new.packet x) live h l

-- A packet is put behind slots that all wait, none with its key.
pub filled-set :
    (i : ℕ) (new : Waiting) (xs : List Waiting)
    → i < length xs
    → is_live new ≡ true
    → filled i xs ≡ true
    → filled (i + 1) (set xs i new) ≡ true
unfolding filled
filled-set i new [] b l h = absurd (omega arith)
filled-set zero new (x ∷ xs) b l h = ground arith
filled-set (suc i) new (x ∷ xs) b l h =
    ground (arith, filled-set i new xs (omega arith) l (ground (arith, h)))

pub timers-set :
    (i : ℕ) (new : Waiting) (xs : List Waiting)
    → timed new ≡ true
    → all timed xs ≡ true
    → all timed (set xs i new) ≡ true
timers-set i new [] t h = refl
timers-set zero new (x ∷ xs) t h = ground (arith, t, h)
timers-set (suc i) new (x ∷ xs) t h = ground (arith, timers-set i new xs t (ground (arith, h)))

any-set :
    (p : Bytes) (i : ℕ) (new : Waiting) (xs : List Waiting)
    → same_key p new ≡ false
    → any (λ y. same_key p y && is_live y) xs ≡ false
    → any (λ y. same_key p y && is_live y) (set xs i new) ≡ false
any-set p i new [] n h = refl
any-set p zero new (x ∷ xs) n h =
    rw n (or_false-right (same_key p x && is_live x) (any (λ y. same_key p y && is_live y) xs) h)
any-set p (suc i) new (x ∷ xs) n h =
    let l = or_false-left (same_key p x && is_live x) (any (λ y. same_key p y && is_live y) xs) h in
    let r =
      or_false-right (same_key p x && is_live x) (any (λ y. same_key p y && is_live y) xs) h in
    or_false (same_key p x && is_live x) (any (λ y. same_key p y && is_live y) (set xs i new)) l
      (any-set p i new xs n r)

pub clear-set :
    (i : ℕ) (new : Waiting) (xs : List Waiting)
    → filled i xs ≡ true
    → any (λ y. same_key new.packet y && is_live y) xs ≡ false
    → clear xs ≡ true
    → clear (set xs i new) ≡ true
unfolding clear filled
clear-set i new [] f n h = refl
clear-set zero new (x ∷ xs) f n h =
    let behind = any (λ y. same_key new.packet y && is_live y) xs in
    and_true (not behind) (clear xs)
      (ap not (or_false-right (same_key new.packet x && is_live x) behind n))
      (and_true-right (not (any (λ y. same_key x.packet y && is_live y) xs)) (clear xs) h)
clear-set (suc i) new (x ∷ xs) f n h =
    let own = any (λ y. same_key x.packet y && is_live y) xs in
    let behind = any (λ y. same_key new.packet y && is_live y) xs in
    let live = and_true-left (is_live x) (filled i xs) f in
    let other = or_false-left (same_key new.packet x && is_live x) behind n in
    and_true (not (any (λ y. same_key x.packet y && is_live y) (set xs i new)))
      (clear (set xs i new))
      (ap not (
        any-set x.packet i new xs (same_key-sym x new (is_live x) other live)
          (not-true own (and_true-left (not own) (clear xs) h))))
      (clear-set i new xs (and_true-right (is_live x) (filled i xs) f)
        (or_false-right (same_key new.packet x && is_live x) behind n)
        (and_true-right (not own) (clear xs) h))
