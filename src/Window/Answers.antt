-- ===== src/Window/Answers.antt =====
-- A request that is answered leaves the window, and no other; and the invariant under any calls.
use idit_sdn.Base.{ℕ, suc, ◌<◌, ◌≡◌, refl, sym, ap, ◌∙◌}
use idit_sdn.Base.{◌⊎◌, inl, inr, Bool, true, false, not, ◌&&◌, ◌||◌, none, some}
use idit_sdn.Base.{List, [], ◌∷◌, arith, ◌==◌}
use idit_sdn.Base.{if◌then◌else◌, Bool-cases, ℕ-cases, length, ==→eq}
use idit_sdn.Base.{ne→==, ==-self}
use idit_sdn.Base.{any}
use idit_sdn.Packet.{field}
use idit_sdn.Window.{Waiting, Window, is_live, is_request}
use idit_sdn.Window.{sld_remove_element, remove_first, first_index, sld_rcv_flow_req}
use idit_sdn.Window.{sld_rcv_addr_req, data_flow_request}
use idit_sdn.Window.{control_flow_request, has_data_flow_request_retransmission}
use idit_sdn.Window.{has_control_flow_request_retransmission}
use idit_sdn.Window.Invariant.{
  IsWindow, same_key, clear, empty_at, set-emptied, remove_first-IsWindow,
}
use idit_sdn.Window.Invariant.{
  or_false, or_false-left, or_false-right, and_true-left, and_true-right,
}
use idit_sdn.Window.Invariant.{not-true}
use idit_sdn.Window.Renew.{lt→ltb}

-- The slots with the first that passes the test emptied.
abbrev emptied_first : (Waiting → Bool) → List Waiting → List Waiting
emptied_first test [] = []
emptied_first test (x ∷ xs) =
    if test x then record x { len = 0; armed = false } ∷ xs else x ∷ emptied_first test xs

module _ (test : Waiting → Bool) (x : Waiting) (xs : List Waiting) where
  first_index-hit : test x ≡ true → first_index test (x ∷ xs) ≡ some 0
  unfolding first_index
  first_index-hit h = rw (h, first_index) refl

  first_index-none : test x ≡ false → first_index test xs ≡ none → first_index test (x ∷ xs) ≡ none
  unfolding first_index
  first_index-none h e = rw (first_index, h, e) refl

  first_index-some :
      (i : ℕ)
      → test x ≡ false
      → first_index test xs ≡ some i
      → first_index test (x ∷ xs) ≡ some (suc i)
  unfolding first_index
  first_index-some i h e = rw (first_index, h, e) refl

-- What the search finds, and the list with that slot emptied.
first_index-emptied :
    (test : Waiting → Bool) (xs : List Waiting)
    → ((first_index test xs ≡ none) × (emptied_first test xs ≡ xs))
      ⊎ ((i : ℕ) × (first_index test xs ≡ some i)
          × (emptied_first test xs ≡ empty_at i xs)
          × (i < length xs))
unfolding first_index empty_at
first_index-emptied test [] = inl (refl, refl)
first_index-emptied test (x ∷ xs) = elim (Bool-cases (test x)) [
  | inl h ↦ inr (0, first_index-hit test x xs h, rw h refl, omega arith)
  | inr h ↦ elim (first_index-emptied test xs) [
    | inl (e, same) ↦ inl (first_index-none test x xs h e, rw (h, same) refl)
    | inr (i, e, same, b) ↦
        inr (suc i, first_index-some test x xs i h e, rw (h, same) refl, omega arith)
  ]
]

remove_first-some :
    (test : Waiting → Bool) (w : Window) (i : ℕ)
    → first_index test w.slots ≡ some i
    → i < 4
    → (remove_first test w).1.slots ≡ empty_at i w.slots
unfolding remove_first sld_remove_element
remove_first-some test w i e b = rw (remove_first, e, lt→ltb i 4 b) (set-emptied i w.slots)

remove_first-none :
    (test : Waiting → Bool) (w : Window)
    → first_index test w.slots ≡ none
    → (remove_first test w).1.slots ≡ w.slots
unfolding remove_first
remove_first-none test w e = rw (remove_first, e) refl

remove_first-slots :
    (test : Waiting → Bool) (w : Window)
    → length w.slots ≡ 4
    → (remove_first test w).1.slots ≡ emptied_first test w.slots
remove_first-slots test w size = elim (first_index-emptied test w.slots) [
  | inl (e, same) ↦ remove_first-none test w e ∙ sym same
  | inr (i, e, same, b) ↦ remove_first-some test w i e (omega (arith, size, b)) ∙ sym same
]

dead_lem : (b c : Bool) → (b && false || c) ≡ c
dead_lem b c = ground (arith, Bool-cases b)

and_of : (r s l : Bool) → ((r ≡ true) → s ≡ true) → (s && l) ≡ false → (r && l) ≡ false
and_of false s l f h = refl
and_of true s l f h = ap (λ b. b && l) (sym (f refl)) ∙ h

and_none : (r : Bool) → (r && false) ≡ false
and_none r = ground (arith, Bool-cases r)

and_left_false : (r l : Bool) → r ≡ false → (r && l) ≡ false
and_left_false r l h = rw h refl

if_true : {A : Type 0} (x y : A) (b : Bool) → b ≡ true → (if b then x else y) ≡ x
if_true x y b h = rw h refl

if_false : {A : Type 0} (x y : A) (b : Bool) → b ≡ false → (if b then x else y) ≡ y
if_false x y b h = rw h refl

-- Another test finds what it found, where no slot passes both.
other_lem :
    (test other : Waiting → Bool) (xs : List Waiting)
    → ((x : Waiting) → test x ≡ true → other x ≡ false)
    → any (λ x. other x && is_live x) (emptied_first test xs) ≡ any (λ x. other x && is_live x) xs
other_lem test other [] d = refl
other_lem test other (x ∷ xs) d = elim (Bool-cases (test x)) [
  | inl h ↦
      rw (h, d x h)
        (dead_lem (other (record x { len = 0; armed = false }))
          (any (λ y. other y && is_live y) xs))
  | inr h ↦ rw h (ap (λ b. other x && is_live x || b) (other_lem test other xs d))
]

-- A request, of another type than the neighbour report, is not found again.
request_key :
    (type key : ℕ) (x y : Waiting)
    → (type == 4) ≡ false
    → is_request type key x ≡ true
    → is_request type key y ≡ true
    → same_key x.packet y ≡ true
request_key type key x y n h k =
    let ex =
      ==→eq (x.packet 0) type (and_true-left (x.packet 0 == type) (field x.packet 8 == key) h) in
    let ey =
      ==→eq (y.packet 0) type (and_true-left (y.packet 0 == type) (field y.packet 8 == key) k) in
    let fx =
      ==→eq (field x.packet 8) key
        (and_true-right (x.packet 0 == type) (field x.packet 8 == key) h) in
    let fy =
      ==→eq (field y.packet 8) key
        (and_true-right (y.packet 0 == type) (field y.packet 8 == key) k) in
    rw (ex, ey, n, fx, fy, ==-self type, ==-self key) refl

behind_lem :
    (type key : ℕ) (x : Waiting) (xs : List Waiting)
    → (type == 4) ≡ false
    → is_request type key x ≡ true
    → any (λ y. same_key x.packet y && is_live y) xs ≡ false
    → any (λ y. is_request type key y && is_live y) xs ≡ false
behind_lem type key x [] n h a = refl
behind_lem type key x (y ∷ ys) n h a =
    let behind = any (λ z. same_key x.packet z && is_live z) ys in
    or_false (is_request type key y && is_live y) (any (λ z. is_request type key z && is_live z) ys)
      (and_of (is_request type key y) (same_key x.packet y) (is_live y)
        (request_key type key x y n h) (or_false-left (same_key x.packet y && is_live y) behind a))
      (behind_lem type key x ys n h (or_false-right (same_key x.packet y && is_live y) behind a))

answered_lem :
    (type key : ℕ) (xs : List Waiting)
    → (type == 4) ≡ false
    → clear xs ≡ true
    → any (λ y. is_request type key y && is_live y) (emptied_first (is_request type key) xs) ≡ false
unfolding clear
answered_lem type key [] n c = refl
answered_lem type key (x ∷ xs) n c = elim (Bool-cases (is_request type key x)) [
  | inl h ↦
      let own = any (λ y. same_key x.packet y && is_live y) xs in
      ap (any (λ y. is_request type key y && is_live y)) (if_true _ _ (is_request type key x) h)
      ∙ (dead_lem (is_request type key x) (any (λ y. is_request type key y && is_live y) xs)
          ∙ behind_lem type key x xs n h (not-true own (and_true-left (not own) (clear xs) c)))
  | inr h ↦
      ap (any (λ y. is_request type key y && is_live y)) (if_false _ _ (is_request type key x) h)
      ∙ or_false (is_request type key x && is_live x)
          (any (λ y. is_request type key y && is_live y) (emptied_first (is_request type key) xs))
          (and_left_false (is_request type key x) (is_live x) h)
          (answered_lem type key xs n
            (and_true-right (not (any (λ y. same_key x.packet y && is_live y) xs)) (clear xs) c))
]

-- Is a request of the type with the key waiting?
abbrev waits : ℕ → ℕ → List Waiting → Bool
waits type key xs = any (λ x. is_request type key x && is_live x) xs

same_type :
    (type key g : ℕ) (xs : List Waiting)
    → (type == 4) ≡ false
    → clear xs ≡ true
    → waits type g (emptied_first (is_request type key) xs) ≡ (not (g == key) && waits type g xs)
same_type type key g xs n c = elim (ℕ-cases g key) [
  | inl e ↦ rw (e, ==-self key) (answered_lem type key xs n c)
  | inr d ↦ rw (ne→== g key d) (
      other_lem (is_request type key) (is_request type g) xs (λ x h.
        rw
          (
            ==→eq (field x.packet 8) key
                (and_true-right (x.packet 0 == type) (field x.packet 8 == key) h),
            ne→== key g (λ q. d (sym q)),
          )
          (and_none (x.packet 0 == type))))
]

other_type :
    (type type' key g : ℕ) (xs : List Waiting)
    → (type == type') ≡ false
    → waits type' g (emptied_first (is_request type key) xs) ≡ waits type' g xs
other_type type type' key g xs n = other_lem (is_request type key) (is_request type' g) xs (λ x h.
    rw (==→eq (x.packet 0) type (and_true-left (x.packet 0 == type) (field x.packet 8 == key) h), n)
      refl)

-- When a flow, or a route, that was asked for comes, then in a window that meets the invariant its
-- request does not wait any more, and every other request waits if it did; the invariant is kept.
-- The slots that were emptied before, which the search does not leave out, do not matter.
pub rcv_req_lem :
    (flow addr g a : ℕ) (w : Window)
    → IsWindow w
    → IsWindow (sld_rcv_flow_req flow w).1
      × (has_data_flow_request_retransmission g (sld_rcv_flow_req flow w).1
          ≡ (not (g == flow) && has_data_flow_request_retransmission g w))
      × (has_control_flow_request_retransmission a (sld_rcv_flow_req flow w).1
          ≡ has_control_flow_request_retransmission a w)
      × IsWindow (sld_rcv_addr_req addr w).1
      × (has_control_flow_request_retransmission a (sld_rcv_addr_req addr w).1
          ≡ (not (a == addr) && has_control_flow_request_retransmission a w))
      × (has_data_flow_request_retransmission g (sld_rcv_addr_req addr w).1
          ≡ has_data_flow_request_retransmission g w)
unfolding sld_rcv_flow_req sld_rcv_addr_req has_data_flow_request_retransmission
    has_control_flow_request_retransmission
rcv_req_lem flow addr g a w v =
    let flows = remove_first-slots (is_request data_flow_request flow) w v.size in
    let routes = remove_first-slots (is_request control_flow_request addr) w v.size in
    (
      remove_first-IsWindow (is_request data_flow_request flow) w v,
      ap (waits data_flow_request g) flows
          ∙ same_type data_flow_request flow g w.slots refl v.apart,
      ap (waits control_flow_request a) flows
          ∙ other_type data_flow_request control_flow_request flow a w.slots refl,
      remove_first-IsWindow (is_request control_flow_request addr) w v,
      ap (waits control_flow_request a) routes
          ∙ same_type control_flow_request addr a w.slots refl v.apart,
      ap (waits data_flow_request g) routes
          ∙ other_type control_flow_request data_flow_request addr g w.slots refl,
    )
