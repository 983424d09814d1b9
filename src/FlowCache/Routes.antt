-- ===== src/FlowCache/Routes.antt =====
-- Adding, confirming and finding routes in the tables of sdn-flow-table-cache.c.
use idit_sdn.Base.{ℕ, ◌≡◌, Bool, true, not, Option, none, some}
use idit_sdn.Base.{List, [], ◌∷◌, ◌++◌, ◌==◌, ◌&&◌, ◌||◌, if◌then◌else◌, find?, arith}
use idit_sdn.Base.{inl, inr, Option-cases}
use mathlib.Core.Option
use idit_sdn.Chain.{Node, Chain, find_node, update_first}
use idit_sdn.Chain.Laws.{IsChain, append_lem, appended, appended-IsChain, update-IsChain}
use idit_sdn.FlowCache.{Route, has_key, own_online, table_new, table_refresh, table_add, table_find}
use idit_sdn.FlowCache.{table_set_online, sdn_retransmit_time_s}
use idit_sdn.Base.{◌∙◌, refl, ==-self}

-- The route that a search returns, without its address
abbrev pub route_at : ℕ → ℕ → Chain Route → Option Route
route_at source key t = Option.map (λ n. n.item) (table_find source key t)

module _ {ℓ} {A : Type ℓ} where
  find-append :
      (p : A → Bool) (ns : List (Node A)) (n : Node A)
      → find? (λ m. p m.item) (ns ++ (n ∷ [])) ≡ elim (find? (λ m. p m.item) ns) [
        | some m ↦ some m
        | none ↦ if p n.item then some n else none
      ]
  find-append p [] n = ground arith
  find-append p (m ∷ ns) n = ground (arith, find-append p ns n)

-- A write that keeps the key shows in the search for this key alone.
find-update :
    (source key s k : ℕ) (f : Route → Route) (ns : List (Node Route))
    → ((r : Route) → (f r).source ≡ r.source)
    → ((r : Route) → (f r).key ≡ r.key)
    → Option.map
        (λ n. n.item)
        (find? (λ n. has_key s k n.item) (update_first (has_key source key) f ns))
      ≡ (if (source == s) && (key == k)
          then Option.map f (Option.map (λ n. n.item) (find? (λ n. has_key s k n.item) ns))
          else Option.map (λ n. n.item) (find? (λ n. has_key s k n.item) ns))
unfolding update_first
find-update source key s k f [] hs hk = ground arith
find-update source key s k f (n ∷ ns) hs hk =
    ground (arith, hs n.item, hk n.item, find-update source key s k f ns hs hk)

pub found-has_key :
    (s k : ℕ) (t : Chain Route) (r : Route) → route_at s k t ≡ some r → (r.source ≡ s) × (r.key ≡ k)
unfolding table_find
found-has_key s k t r h = go t.nodes h
  where
    go :
        (ns : List (Node Route))
        → Option.map (λ n. n.item) (find? (λ n. has_key s k n.item) ns) ≡ some r
        → (r.source ≡ s) × (r.key ≡ k)
    go [] e = absurd (ground (arith, e))
    go (n ∷ ns) e = ground (arith, go ns)

module _ (own : ℕ) (reliable : Bool) (source key next_hop action weight hops : ℕ) where
  -- The route for the key after an add, by the route before.
  abbrev pub added : Option Route → Route
  added none = own_online own (table_new reliable source key next_hop action weight hops)
  added (some r) = own_online own (table_refresh reliable next_hop action weight hops r)

  new_key : (s k : ℕ) → has_key s k (added none) ≡ (source == s) && (key == k)
  unfolding table_new
  new_key s k = ground arith

  refresh_source :
      (r : Route)
      → (own_online own (table_refresh reliable next_hop action weight hops r)).source ≡ r.source
  unfolding table_refresh
  refresh_source r = ground arith

  refresh_key :
      (r : Route)
      → (own_online own (table_refresh reliable next_hop action weight hops r)).key ≡ r.key
  unfolding table_refresh
  refresh_key r = ground arith

  -- An add on a chain, by the writes of the code.
  pub table_add-found :
      (t : Chain Route)
      → IsChain t
      → (a : ℕ) × (t' : Chain Route) × (table_add own reliable source key next_hop action weight
            hops t
          ≡ some (a, t'))
        × IsChain t'
        × ((s k : ℕ)
            → route_at s k t' ≡ (
                if (source == s) && (key == k)
                then some (added (route_at source key t))
                else route_at s k t))
  unfolding table_add table_find
  table_add-found t i = elim (Option-cases (find_node (has_key source key) t)) [
    | inl e ↦ (
      t.next_addr,
      appended (added none) t,
      ground (arith, e, append_lem (added none) t i),
      appended-IsChain (added none) i,
      λ s k. ground (
        arith,
        e,
        new_key s k,
        find-append (has_key s k) t.nodes (record { addr = t.next_addr; item = added none }),
      ),
    )
    | inr (n, e) ↦ (
      n.addr,
      record t {
        nodes =
            update_first (has_key source key)
              (λ r. own_online own (table_refresh reliable next_hop action weight hops r)) t.nodes;
      },
      ground (arith, e),
      update-IsChain (has_key source key)
          (λ r. own_online own (table_refresh reliable next_hop action weight hops r)) i,
      λ s k. ground (
        arith,
        e,
        find-update source key s k
            (λ r. own_online own (table_refresh reliable next_hop action weight hops r)) t.nodes
            refresh_source refresh_key,
      ),
    )
  ]

  -- A field of the route before, if that has the same next hop and action, or a new value.
  abbrev pub kept {ℓ} : {B : Type ℓ} → Option Route → (Route → B) → B → B
  kept none f new = new
  kept (some o) f new = if (next_hop == o.next_hop) && (action == o.action) then f o else new

  -- What an add writes.
  pub added_lem :
      (old : Option Route)
      → let r = added old in
        (r.next_hop ≡ next_hop)
        × (r.action ≡ action)
        × (r.route_weight ≡ weight)
        × (r.hops ≡ hops)
        × (r.online ≡ (r.source == own) || kept old (λ o. o.online) (not reliable))
        × (r.changed ≡ kept old (λ o. o.changed) true)
        × (r.countdown
            ≡ kept old (λ o. o.countdown) (if reliable then sdn_retransmit_time_s else 0))
  unfolding table_new table_refresh
  added_lem none = ground arith
  added_lem (some r) = ground arith

  pub added-key :
      (t : Chain Route)
      → let r = added (route_at source key t) in (r.source ≡ source) × (r.key ≡ key)
  unfolding table_new table_refresh
  added-key t = elim (Option-cases (route_at source key t)) [
    | inl e ↦ ground (arith, e)
    | inr (r, e) ↦ ground (arith, e, found-has_key source key t r e)
  ]

  -- On a chain an add succeeds and leaves a chain. A search for its key then finds a route with the
  -- given source, key, next hop, action, weight and length. That route counts as confirmed if the
  -- source is the controller's own node; else, as its mark of a change and its count-down, as it did
  -- if the next hop and the action were the same before, and anew if not: confirmed only if no
  -- acknowledgements are used, changed, and with the full count-down only if they are. A search for
  -- any other key finds what it found before.
  pub table_add_lem :
      (t : Chain Route)
      → IsChain t
      → (a : ℕ) × (t' : Chain Route) × (r : Route) × (table_add own reliable source key next_hop
            action weight hops t
          ≡ some (a, t'))
        × IsChain t'
        × (route_at source key t' ≡ some r)
        × ((r.source ≡ source) × (r.key ≡ key))
        × ((r.next_hop ≡ next_hop)
            × (r.action ≡ action)
            × (r.route_weight ≡ weight)
            × (r.hops ≡ hops)
            × (r.online
                ≡ (r.source == own) || kept (route_at source key t) (λ o. o.online) (not reliable))
            × (r.changed ≡ kept (route_at source key t) (λ o. o.changed) true)
            × (r.countdown
                ≡ kept
                    (route_at source key t)
                    (λ o. o.countdown)
                    (if reliable then sdn_retransmit_time_s else 0)))
        × ((s k : ℕ)
            → route_at s k t' ≡ (if (source == s) && (key == k) then some r else route_at s k t))
  table_add_lem t i =
      let (a, t', run, chain, found) = table_add-found t i in
      let old = route_at source key t in
      (
        a,
        t',
        added old,
        run,
        chain,
        found source key ∙ rw (==-self source, ==-self key) refl,
        added-key t,
        added_lem old,
        found,
      )

-- An acknowledgement confirms the route for its key if that has the acknowledged next hop and
-- action, and changes nothing else that a search can find.
pub set_online_lem :
    (source key next_hop action s k : ℕ) (t : Chain Route)
    → IsChain t
    → IsChain (table_set_online source key next_hop action t)
      × (route_at s k (table_set_online source key next_hop action t)
          ≡ Option.map
              (λ r.
                if ((source == s) && (key == k))
                  && ((r.next_hop == next_hop) && (r.action == action))
                then record r { online = true }
                else r)
              (route_at s k t))
unfolding table_set_online table_find
set_online_lem source key next_hop action s k t i =
    let f : Route → Route =
      λ r. if r.next_hop == next_hop && r.action == action then record r { online = true } else r in
    (
      update-IsChain (has_key source key) f i,
      ground (arith, find-update source key s k f t.nodes (λ r. ground arith) (λ r. ground arith)),
    )
