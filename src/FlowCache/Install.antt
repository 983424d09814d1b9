-- ===== src/FlowCache/Install.antt =====
-- The loop of `configure_flow_id_route` in controller-server/sdn-process-packets-controller.c: a
-- route, from the target on, becomes entries of the cache, one for each node behind the target.
use idit_sdn.Base.{ℕ, ◌≡◌, refl, Bool, true, false, not, Option, none, some}
use idit_sdn.Base.{List, [], ◌∷◌, any, ◌==◌, ◌&&◌, if◌then◌else◌, arith, ==→eq}
use idit_sdn.Base.{ap, ◌∙◌, ◌⊎◌, inl, inr, Bool-cases, ==-self}
use mathlib.Core.Option
use idit_sdn.Chain.{Chain}
use idit_sdn.Chain.Laws.{IsChain}
use idit_sdn.Dijkstra.{Hop}
use idit_sdn.FlowCache.{Route, table_add}
use idit_sdn.FlowCache.Routes.{route_at, added, table_add-found, added_lem, added-key}

-- What a route says of where packets go.
abbrev pub way : Route → ℕ × ℕ × ℕ × ℕ × ℕ × ℕ
way r = (r.source, r.key, r.next_hop, r.action, r.route_weight, r.hops)

module _ (own : ℕ) (reliable : Bool) (key : ℕ) where
  -- `previous` is the node before the rest of the route. SDN_ACTION_FORWARD is 2.
  unfoldable pub configure_loop : ℕ → List Hop → Chain Route → Option (Chain Route)
  configure_loop previous [] t = some t
  configure_loop previous (h ∷ hs) t =
      elim (table_add own reliable h.vertice_id key previous 2 h.route_weight h.hops t) [
        | none ↦ none
        | some (_, t') ↦ configure_loop h.vertice_id hs t'
      ]

  unfoldable pub configure_route : List Hop → Chain Route → Option (Chain Route)
  unfolding configure_loop
  configure_route [] t = some t
  configure_route (h ∷ hs) t = configure_loop h.vertice_id hs t

abbrev pub is_on : ℕ → List Hop → Bool
is_on s hs = any (λ h. h.vertice_id == s) hs

-- No node stands twice on the route.
abbrev pub is_path : List Hop → Bool
is_path [] = true
is_path (h ∷ hs) = not (is_on h.vertice_id hs) && is_path hs

-- The entry of the route for a node, and the node that stands before it
abbrev pub entry_for : ℕ → ℕ → List Hop → Option (ℕ × Hop)
entry_for s previous [] = none
entry_for s previous (h ∷ hs) =
    if h.vertice_id == s then some (previous, h) else entry_for s h.vertice_id hs

pub entry_for-absent :
    (s previous : ℕ) (hs : List Hop) → is_on s hs ≡ false → entry_for s previous hs ≡ none
entry_for-absent s previous [] h = refl
entry_for-absent s previous (x ∷ hs) h = ground (arith, entry_for-absent s x.vertice_id hs)

module _ (own : ℕ) (reliable : Bool) (key : ℕ) where
  -- The cache after the route was stored, for a search: the nodes of the route have new entries.
  abbrev pub configured : ℕ → List Hop → Chain Route → ℕ → ℕ → Option Route
  configured previous hs t s k =
      if key == k
      then (elim (entry_for s previous hs) as (λ _. Option Route) [
        | none ↦ route_at s k t
        | some (before, h) ↦
            some (added own reliable s key before 2 h.route_weight h.hops (route_at s key t))
      ])
      else route_at s k t

  configure_loop_lem :
      (previous : ℕ) (hs : List Hop) (t : Chain Route)
      → IsChain t
      → is_path hs ≡ true
      → (t' : Chain Route) × (configure_loop own reliable key previous hs t ≡ some t')
        × IsChain t'
        × ((s k : ℕ) → route_at s k t' ≡ configured previous hs t s k)
  unfolding configure_loop
  configure_loop_lem previous [] t i p = (t, refl, i, λ s k. ground arith)
  configure_loop_lem previous (h ∷ hs) t i p =
      let (_, t1, run, i1, found1) =
        table_add-found own reliable h.vertice_id key previous 2 h.route_weight h.hops t i in
      let (t', rest, i', found) = configure_loop_lem h.vertice_id hs t1 i1 (ground arith) in
      (
        t',
        ground (arith, run, rest),
        i',
        λ s k. ground (
          arith,
          found s k,
          found1 s k,
          found1 s key,
          entry_for-absent s h.vertice_id hs,
          ==→eq h.vertice_id s,
        ),
      )

  -- The route stored, by the writes of the code.
  pub configure_route-configured :
      (target : Hop) (hs : List Hop) (t : Chain Route)
      → IsChain t
      → is_path hs ≡ true
      → (t' : Chain Route) × (configure_route own reliable key (target ∷ hs) t ≡ some t')
        × IsChain t'
        × ((s k : ℕ) → route_at s k t' ≡ configured target.vertice_id hs t s k)
  unfolding configure_route
  configure_route-configured target hs t i p = configure_loop_lem target.vertice_id hs t i p

  configured-way :
      (previous : ℕ) (hs : List Hop) (t : Chain Route) (s : ℕ) (o : Option (ℕ × Hop))
      → entry_for s previous hs ≡ o
      → Option.map way (configured previous hs t s key)
        ≡ (elim o as (λ _. Option (ℕ × ℕ × ℕ × ℕ × ℕ × ℕ)) [
          | none ↦ Option.map way (route_at s key t)
          | some (before, h) ↦ some (s, key, before, 2, h.route_weight, h.hops)
        ])
  configured-way previous hs t s none e = rw (==-self key, e) refl
  configured-way previous hs t s (some (before, h)) e =
      let old = route_at s key t in
      let (from, keyed) = added-key own reliable s key before 2 h.route_weight h.hops t in
      let (next, action, weight, hops, _, _, _) =
        added_lem own reliable s key before 2 h.route_weight h.hops old in
      rw (==-self key, e) (ap some (λ i. (from i, keyed i, next i, action i, weight i, hops i)))

  configured-other :
      (previous : ℕ) (hs : List Hop) (t : Chain Route) (s k : ℕ)
      → ((key == k) && is_on s hs) ≡ false
      → configured previous hs t s k ≡ route_at s k t
  configured-other previous hs t s k h = elim (Bool-cases (key == k)) [
    | inl e ↦ rw (e, entry_for-absent s previous hs (ground (arith, h, e))) refl
    | inr e ↦ rw e refl
  ]

  -- A route without a node twice is stored in a chain, and leaves a chain. A search for a node
  -- behind the target and the key finds an entry of this node and key that forwards to the node
  -- before it on the route, with the weight and the hops of the route; every other search finds what
  -- it found before.
  pub configure_route_lem :
      (target : Hop) (hs : List Hop) (t : Chain Route)
      → IsChain t
      → is_path hs ≡ true
      → (t' : Chain Route) × (configure_route own reliable key (target ∷ hs) t ≡ some t')
        × IsChain t'
        × ((s : ℕ)
            → Option.map way (route_at s key t')
              ≡ (elim (entry_for s target.vertice_id hs) as (λ _. Option (ℕ × ℕ × ℕ × ℕ × ℕ × ℕ)) [
                | none ↦ Option.map way (route_at s key t)
                | some (before, h) ↦ some (s, key, before, 2, h.route_weight, h.hops)
              ]))
        × ((s k : ℕ) → (((key == k) && is_on s hs) ≡ true) ⊎ (route_at s k t' ≡ route_at s k t))
  configure_route_lem target hs t i p =
      let (t', run, chain, found) = configure_route-configured target hs t i p in
      (
        t',
        run,
        chain,
        λ s.
            ap (Option.map way) (found s key)
            ∙ configured-way target.vertice_id hs t s (entry_for s target.vertice_id hs) refl,
        λ s k. elim (Bool-cases ((key == k) && is_on s hs)) [
          | inl h ↦ inl h
          | inr h ↦ inr (found s k ∙ configured-other target.vertice_id hs t s k h)
        ],
      )
