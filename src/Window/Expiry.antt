-- ===== src/Window/Expiry.antt =====
-- The invariant of the window when the timer of a slot runs out (`sld_f`).
use idit_sdn.Base.{ℕ, zero, suc, ◌<◌, ◌≡◌, refl, sym, ap, ◌∙◌, subst}
use idit_sdn.Base.{inl, inr, true, false, not, ◌&&◌}
use idit_sdn.Base.{List, [], ◌∷◌, arith, ltb, if◌then◌else◌, Bool-cases, Option-cases, length}
use idit_sdn.Base.{set, get_or, any, length-set, ◌==◌}
use idit_sdn.Contiki.{Contiki}
use idit_sdn.Packet.{Bytes, packet_source}
use idit_sdn.Keep.{send_idle, sdn_packetbuf_pool_get}
use idit_sdn.Send.{Outbox, alloc_and_enqueue}
use idit_sdn.Window.{Waiting, Window, is_live, no_slot, sld_f, sld_remove_element, full_window}
use idit_sdn.Window.Invariant.{IsWindow, clear, filled, emptied, same_key, timers-set}
use idit_sdn.Window.Renew.{lt→ltb}

armed-below : (i : ℕ) (xs : List Waiting) → (get_or xs i no_slot).armed ≡ true → i < length xs
armed-below i [] h = absurd (ground (arith, h))
armed-below zero (x ∷ xs) h = omega arith
armed-below (suc i) (x ∷ xs) h = omega (arith, armed-below i xs h)

-- The timer of a slot is set again while its packet stays.
set-armed :
    (i : ℕ) (xs : List Waiting)
    → (get_or xs i no_slot).armed ≡ true
    → set xs i (record (get_or xs i no_slot) { armed = true }) ≡ xs
set-armed i [] h = refl
set-armed zero (x ∷ xs) h = ap (λ b. (record x { armed = b }) ∷ xs) (sym h)
set-armed (suc i) (x ∷ xs) h = ap (λ l. x ∷ l) (set-armed i xs h)

-- A slot that is written and then emptied.
set-twice :
    (i : ℕ) (x : Waiting) (xs : List Waiting)
    → set (set xs i x) i (record (get_or (set xs i x) i no_slot) { len = 0; armed = false })
      ≡ set xs i (emptied x)
set-twice i x [] = refl
set-twice zero x (y ∷ xs) = refl
set-twice (suc i) x (y ∷ xs) = ap (λ l. y ∷ l) (set-twice i x xs)

filled-vacate :
    (i c : ℕ) (x : Waiting) (xs : List Waiting)
    → filled c xs ≡ true
    → filled (if ltb i c then i else c) (set xs i x) ≡ true
unfolding filled
filled-vacate i zero x xs h = ground arith
filled-vacate i (suc c) x [] h = absurd (ground arith)
filled-vacate zero (suc c) x (y ∷ xs) h = ground arith
filled-vacate (suc i) (suc c) x (y ∷ xs) h =
    ground (arith, filled-vacate i c x xs (ground (arith, h)), Bool-cases (ltb i c))

none-vacate :
    (p : Bytes) (i : ℕ) (x : Waiting) (xs : List Waiting)
    → any (λ y. same_key p y && is_live y) xs ≡ false
    → any (λ y. same_key p y && is_live y) (set xs i (emptied x)) ≡ false
none-vacate p i x [] h = refl
none-vacate p zero x (y ∷ xs) h = ground (arith, Bool-cases (same_key p x))
none-vacate p (suc i) x (y ∷ xs) h = ground (arith, none-vacate p i x xs (ground (arith, h)))

-- A slot is emptied whose packet has a key that the slot had before.
clear-vacate :
    (i : ℕ) (x : Waiting) (xs : List Waiting)
    → ((y : Waiting) → same_key x.packet y ≡ same_key (get_or xs i no_slot).packet y)
    → clear xs ≡ true
    → clear (set xs i (emptied x)) ≡ true
unfolding clear
clear-vacate i x [] key h = refl
clear-vacate zero x (y ∷ xs) key h = any-same xs ∙ h
  where
    any-same :
        (l : List Waiting)
        → (not (any (λ z. same_key x.packet z && is_live z) l) && clear xs)
          ≡ (not (any (λ z. same_key y.packet z && is_live z) l) && clear xs)
    any-same [] = refl
    any-same (z ∷ l) = ground (arith, key z, any-same l, Bool-cases (clear xs))
clear-vacate (suc i) x (y ∷ xs) key h = ground (
  arith,
  none-vacate y.packet i x xs (ground (arith, h)),
  clear-vacate i x xs key (ground (arith, h)),
)

module _ (i : ℕ) (x : Waiting) (w : Window) where
  vacate-IsWindow :
      ((y : Waiting) → same_key x.packet y ≡ same_key (get_or w.slots i no_slot).packet y)
      → i < 4
      → IsWindow w
      → IsWindow (sld_remove_element i (record w { slots = set w.slots i x })).1
  unfolding sld_remove_element
  vacate-IsWindow key b v =
      let window : IsWindow (record {
        slots = set w.slots i (emptied x);
        count = if ltb i w.count then i else w.count;
      }) =
        record {
          size = length-set w.slots i (emptied x) ∙ v.size;
          below = filled-vacate i w.count (emptied x) w.slots v.below;
          timers = timers-set i (emptied x) w.slots refl v.timers;
          apart = clear-vacate i x w.slots key v.apart;
        } in
      rw (sld_remove_element, lt→ltb i 4 b, set-twice i x w.slots) window

module _ (os : Contiki) where
  -- The number in a packet is not in its key.
  resent-key :
      (own : ℕ) (p : Bytes) (len time : ℕ) (o : Outbox os) (y : Waiting)
      → same_key (alloc_and_enqueue os own p len time o).0 y ≡ same_key p y
  unfolding alloc_and_enqueue
  resent-key own p len time o y = elim (Option-cases (sdn_packetbuf_pool_get os o.sender)) [
    | inl h ↦ rw (alloc_and_enqueue, h) refl
    | inr (r, h) ↦ elim (Bool-cases (packet_source p == own)) [
      | inl e ↦ rw (alloc_and_enqueue, h, e) refl
      | inr e ↦ rw (alloc_and_enqueue, h, e) refl
    ]
  ]

  -- The timer of a slot runs out: with a buffer the slot is emptied, without one it stays.
  pub f-IsWindow :
      (own i : ℕ) (w : Window) (o : Outbox os)
      → (get_or w.slots i no_slot).armed ≡ true
      → IsWindow w
      → IsWindow (sld_f os own i (w, o)).0
  unfolding sld_f
  f-IsWindow own i w o h v =
      let x = get_or w.slots i no_slot in
      let awake =
        if o.sender.send_status == full_window
        then record o { sender = record o.sender { send_status = send_idle } }
        else o in
      let r = alloc_and_enqueue os own x.packet x.len 0 awake in
      elim (Option-cases (os.memb_alloc o.sender.pool)) [
        | inl e ↦
            rw (sld_f, e)
              (subst (λ l. IsWindow (record w { slots = l })) (sym (set-armed i w.slots h)) v)
        | inr (u, e) ↦
            rw (sld_f, e)
              (vacate-IsWindow i (record x { packet = r.0; armed = false }) w
                (resent-key own x.packet x.len 0 awake)
                (omega (arith, armed-below i w.slots h, v.size)) v)
      ]
