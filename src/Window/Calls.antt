-- ===== src/Window/Calls.antt =====
-- The invariant of the window under any calls, from its initialisation on.
use idit_sdn.Base.{ℕ, suc, ◌≡◌, refl, sym, ap, ◌∙◌, subst}
use idit_sdn.Base.{inl, inr, Bool, true, false, not, ◌&&◌}
use idit_sdn.Base.{List, [], ◌∷◌, map, arith, leb, ◌==◌}
use idit_sdn.Base.{Bool-cases, length}
use idit_sdn.Base.{any, all}
use idit_sdn.Packet.{Bytes}
use idit_sdn.Window.{
  Waiting, Window, is_live, is_reliable, window_init, sld_await_ack, sld_f, no_slot,
}
use idit_sdn.Window.Expiry.{f-IsWindow}
use idit_sdn.Base.{get_or, if◌then◌else◌}
use idit_sdn.Contiki.{Contiki}
use idit_sdn.Send.{Outbox}
use idit_sdn.Window.{sld_rcv_flow_req, sld_rcv_addr_req, sld_rcv_ack, sld_purge}
use idit_sdn.Window.Invariant.{IsWindow, timed, clear, filled, remove_first-IsWindow, and_true-left}
use idit_sdn.Window.{is_request, data_flow_request, control_flow_request}
use idit_sdn.Window.Invariant.{or_false, and_true-right, same_key, and_true}
use idit_sdn.Window.Requests.{await_ack_lem, await-other}

-- A call of the window's functions: the first is of a packet that this node sent, with its length,
-- and the last is the timer of a slot, which calls `sld_f` if it runs.
pub data Call : Type 0 where
  await_ack : Bytes → ℕ → Call
  rcv_ack : ℕ → ℕ → Call
  purge : ℕ → Call
  rcv_flow_req : ℕ → Call
  rcv_addr_req : ℕ → Call
  expire : ℕ → Call

-- Has the packet of the call, if there is one, a flow or an address?
abbrev pub is_long : Call → Bool
is_long (await_ack p len) = leb 10 len
is_long (rcv_ack t n) = true
is_long (purge t) = true
is_long (rcv_flow_req f) = true
is_long (rcv_addr_req a) = true
is_long (expire i) = true

module _ (os : Contiki) where
  unfoldable pub call : ℕ → Call → Window × Outbox os → Window × Outbox os
  call own (await_ack p len) (w, o) = ((sld_await_ack own p len w).1, o)
  call own (rcv_ack t n) (w, o) = ((sld_rcv_ack t n w).1, o)
  call own (purge t) (w, o) = ((sld_purge t w).1, o)
  call own (rcv_flow_req f) (w, o) = ((sld_rcv_flow_req f w).1, o)
  call own (rcv_addr_req a) (w, o) = ((sld_rcv_addr_req a w).1, o)
  call own (expire i) (w, o) =
      if (get_or w.slots i no_slot).armed then sld_f os own i (w, o) else (w, o)

  unfoldable pub calls : ℕ → List Call → Window × Outbox os → Window × Outbox os
  calls own [] s = s
  calls own (c ∷ cs) s = calls own cs (call own c s)

  call-IsWindow :
      (own : ℕ) (c : Call) (w : Window) (o : Outbox os)
      → is_long c ≡ true
      → IsWindow w
      → IsWindow (call own c (w, o)).0
  unfolding call sld_rcv_ack sld_purge sld_rcv_flow_req sld_rcv_addr_req
  call-IsWindow own (await_ack p len) w o h v = elim (Bool-cases (is_reliable own p)) [
    | inl r ↦ (await_ack_lem own p len w (ground (arith, h)) r v).0
    | inr r ↦
        subst (λ (x : ℕ × Window). IsWindow x.1)
          (sym (await-other p len (ground (arith, h)) own w r)) v
  ]
  call-IsWindow own (rcv_ack t n) w o h v =
      remove_first-IsWindow (λ x. x.packet 0 == t && x.packet 3 == n) w v
  call-IsWindow own (purge t) w o h v = remove_first-IsWindow (λ x. x.packet 0 == t) w v
  call-IsWindow own (rcv_flow_req f) w o h v =
      remove_first-IsWindow (is_request data_flow_request f) w v
  call-IsWindow own (rcv_addr_req a) w o h v =
      remove_first-IsWindow (is_request control_flow_request a) w v
  call-IsWindow own (expire i) w o h v = elim (Bool-cases (get_or w.slots i no_slot).armed) [
    | inl r ↦ rw (call, r) (f-IsWindow os own i w o r v)
    | inr r ↦ rw (call, r) v
  ]

and_none : (r : Bool) → (r && false) ≡ false
and_none r = ground (arith, Bool-cases r)

-- The emptied window.
none_live :
    (p : Bytes) (xs : List Waiting)
    → any (λ y. same_key p y && is_live y) (map (λ (x : Waiting). record x { len = 0 }) xs) ≡ false
none_live p [] = refl
none_live p (x ∷ xs) =
    or_false (same_key p (record x { len = 0 }) && false)
      (any (λ y. same_key p y && is_live y) (map (λ (y : Waiting). record y { len = 0 }) xs))
      (and_none (same_key p (record x { len = 0 }))) (none_live p xs)

clear-init : (xs : List Waiting) → clear (map (λ (x : Waiting). record x { len = 0 }) xs) ≡ true
unfolding clear
clear-init [] = refl
clear-init (x ∷ xs) = rw (none_live x.packet xs) (clear-init xs)

timers-init :
    (xs : List Waiting)
    → all (λ x. not x.armed) xs ≡ true
    → all timed (map (λ (x : Waiting). record x { len = 0 }) xs) ≡ true
timers-init [] h = refl
timers-init (x ∷ xs) h =
    and_true (not x.armed) (all timed (map (λ (y : Waiting). record y { len = 0 }) xs))
      (and_true-left (not x.armed) (all (λ y. not y.armed) xs) h)
      (timers-init xs (and_true-right (not x.armed) (all (λ y. not y.armed) xs) h))

length-init :
    (xs : List Waiting) → length (map (λ (x : Waiting). record x { len = 0 }) xs) ≡ length xs
length-init [] = refl
length-init (x ∷ xs) = ap suc (length-init xs)

init-IsWindow :
    (w : Window)
    → length w.slots ≡ 4
    → all (λ x. not x.armed) w.slots ≡ true
    → IsWindow (window_init w)
unfolding window_init filled
init-IsWindow w size idle = record {
  size = length-init w.slots ∙ size;
  below = refl;
  timers = timers-init w.slots idle;
  apart = clear-init w.slots;
}

module _ (os : Contiki) where
  any_calls :
      (own : ℕ) (cs : List Call) (s : Window × Outbox os)
      → all is_long cs ≡ true
      → IsWindow s.0
      → IsWindow (calls os own cs s).0
  unfolding calls
  any_calls own [] s h v = v
  any_calls own (c ∷ cs) s h v =
      any_calls own cs (call os own c s) (and_true-right (is_long c) (all is_long cs) h)
        (call-IsWindow os own c s.0 s.1 (and_true-left (is_long c) (all is_long cs) h) v)

  -- From the initialisation of a window of four slots whose timers do not run, any sequence of
  -- packets that are sent, acknowledgements, purges, answered requests and timers that run out, in
  -- any order and with any memory for the packets that are sent again, where the sent packets have
  -- ten bytes or more, keeps the invariant of the window: every slot below the count waits, exactly
  -- the timers of the waiting slots run, and no slot, emptied ones included, has a waiting slot with
  -- the same request behind it.
  pub calls-IsWindow :
      (own : ℕ) (cs : List Call) (w : Window) (o : Outbox os)
      → length w.slots ≡ 4
      → all (λ x. not x.armed) w.slots ≡ true
      → all is_long cs ≡ true
      → IsWindow (calls os own cs (window_init w, o)).0
  calls-IsWindow own cs w o size idle long =
      any_calls own cs (window_init w, o) long (init-IsWindow w size idle)
