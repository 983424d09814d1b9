-- ===== src/Window/Requests.antt =====
-- A packet that is sent comes into the window.
use idit_sdn.Base.{ℕ, ◌+◌, ◌≤◌, ◌<◌, ◌≡◌, refl, sym, ap, ◌∙◌, subst}
use idit_sdn.Base.{inl, inr, true, false, not, ◌||◌}
use idit_sdn.Base.{map, arith, ◌==◌}
use idit_sdn.Base.{if◌then◌else◌, Bool-cases, ==→ne}
use idit_sdn.Base.{get_or, set}
use idit_sdn.Base.{any, all}
use idit_sdn.Queue.{sdn_success, sdn_error}
use idit_sdn.Packet.{Bytes}
use idit_sdn.Window.{Window, is_live, no_slot, first_free, is_same, renew}
use idit_sdn.Window.{sld_await_ack}
use idit_sdn.Window.{is_reliable, max_window}
use idit_sdn.Window.Invariant.{IsWindow}
use idit_sdn.Window.Invariant.{first_free-filled, first_free-length, all-first_free}
use idit_sdn.Window.Renew.{renew-IsWindow, any-is_same, any-renew}
use idit_sdn.Window.Renew.{any-set_self, store-IsWindow, copied}

module _ (p : Bytes) (len : ℕ) (long : 10 ≤ len) where
  -- What the call of a packet that is kept comes to: the waiting one is renewed, the window is full,
  -- or the packet is put in the first free slot.
  module _ (own : ℕ) (w : Window) where
    abbrev free : ℕ
    free = first_free w.count w.slots

    await-renewed :
        is_reliable own p ≡ true
        → any (is_same p) w.slots ≡ true
        → sld_await_ack own p len w ≡ (sdn_success, record w { slots = map (renew p len) w.slots })
    unfolding sld_await_ack
    await-renewed r h = rw (r, h) refl

    await-full :
        is_reliable own p ≡ true
        → any (is_same p) w.slots ≡ false
        → (free == max_window) ≡ true
        → sld_await_ack own p len w ≡ (sdn_error, record w { count = free })
    unfolding sld_await_ack
    await-full r h f = rw (r, h, f) refl

    await-stored :
        is_reliable own p ≡ true
        → any (is_same p) w.slots ≡ false
        → (free == max_window) ≡ false
        → sld_await_ack own p len w ≡ (
          sdn_success,
          record {
            slots = set w.slots free (copied p len long (get_or w.slots free no_slot).packet);
            count = free + 1;
          },
        )
    unfolding sld_await_ack
    await-stored r h f = rw (r, h, f) refl

    pub await-other : is_reliable own p ≡ false → sld_await_ack own p len w ≡ (sdn_success, w)
    unfolding sld_await_ack
    await-other r = rw r refl

    free-below : IsWindow w → (free == max_window) ≡ false → free < 4
    free-below v f =
        let l = first_free-length w.count w.slots v.below in
        omega (arith, v.size, l, ==→ne free 4 f)

    all-free : IsWindow w → all is_live w.slots ≡ (free == max_window)
    all-free v = sym (all-first_free w.count w.slots v.below) ∙ ap (λ n. free == n) v.size

    full-IsWindow : IsWindow w → (free == max_window) ≡ true → IsWindow (record w { count = free })
    full-IsWindow v f = record {
      size = v.size;
      below = first_free-filled w.count w.slots v.below;
      timers = v.timers;
      apart = v.apart;
    }

    -- The window after the call, its result, and whether the packet waits.
    abbrev pub Awaited : ℕ × Window → Type 0
    Awaited r =
        IsWindow r.1
        × (r.0 ≡ (
            if any (is_same p) w.slots || not (all is_live w.slots)
            then sdn_success
            else sdn_error))
        × (any (is_same p) r.1.slots ≡ (any (is_same p) w.slots || not (all is_live w.slots)))

    renewed-Awaited :
        IsWindow w
        → any (is_same p) w.slots ≡ true
        → Awaited (sdn_success, record w { slots = map (renew p len) w.slots })
    renewed-Awaited v h = (
      renew-IsWindow p len long w v,
      rw h refl,
      any-is_same p len long (map (renew p len) w.slots)
          ∙ (any-renew p len long p w.slots ∙ (sym (any-is_same p len long w.slots) ∙ rw h refl)),
    )

    full-Awaited :
        IsWindow w
        → any (is_same p) w.slots ≡ false
        → (free == max_window) ≡ true
        → Awaited (sdn_error, record w { count = free })
    full-Awaited v h f = (full-IsWindow v f, rw (h, all-free v, f) refl, rw (h, all-free v, f) refl)

    stored-Awaited :
        IsWindow w
        → any (is_same p) w.slots ≡ false
        → (free == max_window) ≡ false
        → (old : Bytes)
        → Awaited (
          sdn_success,
          record { slots = set w.slots free (copied p len long old); count = free + 1 },
        )
    stored-Awaited v h f old = (
      store-IsWindow p len long old w v h (free-below v f),
      rw (h, all-free v, f) refl,
      any-is_same p len long (set w.slots free (copied p len long old))
          ∙ (any-set_self p len long free old w.slots (omega (arith, v.size, free-below v f))
              ∙ rw (h, all-free v, f) refl),
    )

-- A packet of at least ten bytes that is kept until it is acknowledged comes into a window that meets
-- the invariant, which it keeps: the call is a success, and the packet or one with the same request
-- waits, exactly if one did before or the window had a free slot.
pub await_ack_lem :
    (own : ℕ) (p : Bytes) (len : ℕ) (w : Window)
    → 10 ≤ len
    → is_reliable own p ≡ true
    → IsWindow w
    → IsWindow (sld_await_ack own p len w).1
      × ((sld_await_ack own p len w).0 ≡ (
          if any (is_same p) w.slots || not (all is_live w.slots) then sdn_success else sdn_error))
      × (any (is_same p) (sld_await_ack own p len w).1.slots
          ≡ (any (is_same p) w.slots || not (all is_live w.slots)))
await_ack_lem own p len w long r v = elim (Bool-cases (any (is_same p) w.slots)) [
  | inl h ↦
      subst (Awaited p len long own w) (sym (await-renewed p len long own w r h))
        (renewed-Awaited p len long own w v h)
  | inr h ↦ elim (Bool-cases (first_free w.count w.slots == max_window)) [
    | inl f ↦
        subst (Awaited p len long own w) (sym (await-full p len long own w r h f))
          (full-Awaited p len long own w v h f)
    | inr f ↦ subst (Awaited p len long own w) (sym (await-stored p len long own w r h f)) (
        stored-Awaited p len long own w v h f
          (get_or w.slots (first_free w.count w.slots) no_slot).packet)
  ]
]
