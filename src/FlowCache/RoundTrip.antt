-- ===== src/FlowCache/RoundTrip.antt =====
-- A route that `configure_flow_id_route` stores in the cache is the one that
-- `get_current_route_from_flowid` reads back.
use idit_sdn.Base.{ℕ, zero, suc, ◌<◌, ◌≡◌, refl, ◌∙◌, sym, ap, ap₂, subst, Bool, true}
use idit_sdn.Base.{none, some, List, [], ◌∷◌, map, ltb, ◌&&◌}
use idit_sdn.Base.{arith, ==→eq}
use idit_sdn.Chain.{Chain}
use idit_sdn.Chain.Laws.{IsChain}
use idit_sdn.Dijkstra.{Hop}
use idit_sdn.Dijkstra.Check.Found.{source_first}
use idit_sdn.FlowCache.{Route}
use idit_sdn.FlowCache.Routes.{route_at, added, added_lem, added-key}
use idit_sdn.FlowCache.Current.{is_forward, hop_of, last_hop, current_loop, get_current_route}
use idit_sdn.FlowCache.Current.{Follows, no_entry, no_forward, forward}
use idit_sdn.FlowCache.Install.{configure_route, configure_route-configured, configured}
use idit_sdn.FlowCache.Install.{entry_for}
use idit_sdn.FlowCache.Install.{entry_for-absent, is_path}

-- The loop returns the list along which the entries lead.
Follows-current_loop :
    (fuel key : ℕ) (t : Chain Route) (r : Route) (l : List Hop)
    → Follows key t r l
    → r.hops < fuel
    → current_loop fuel key t r ≡ some l
unfolding current_loop
Follows-current_loop zero key t r l f h = absurd (omega arith)
Follows-current_loop (suc fuel) key t _ _ (no_entry r e) h = ground (arith, e)
Follows-current_loop (suc fuel) key t _ _ (no_forward r r' e d n) h = ground (arith, e)
Follows-current_loop (suc fuel) key t _ _ (forward r r' x xs e d n f) h =
    ground (arith, e, Follows-current_loop fuel key t r' (x ∷ xs) f)

-- The hops grow along a route.
abbrev pub is_rising : ℕ → List Hop → Bool
is_rising n [] = true
is_rising n (h ∷ hs) = ltb n h.hops && is_rising h.hops hs

-- Each node of a route has an entry that forwards to the node before it.
data Stored (key : ℕ) (t : Chain Route) : ℕ → List Hop → Type 0 where
  stored_none : (previous : ℕ) → Stored key t previous []
  stored_more :
      (previous : ℕ) (h : Hop) (hs : List Hop) (r : Route)
      → route_at h.vertice_id key t ≡ some r
      → r.source ≡ h.vertice_id
      → r.next_hop ≡ previous
      → r.hops ≡ h.hops
      → r.key ≡ key
      → is_forward r ≡ true
      → Stored key t h.vertice_id hs
      → Stored key t previous (h ∷ hs)

module _ (own : ℕ) (reliable : Bool) (key : ℕ) (t t' : Chain Route) where
  stored :
      (previous : ℕ) (hs : List Hop)
      → is_path hs ≡ true
      → ((s before : ℕ) (h : Hop)
          → entry_for s previous hs ≡ some (before, h)
          → route_at s key t'
            ≡ some (added own reliable s key before 2 h.route_weight h.hops (route_at s key t)))
      → Stored key t' previous hs
  stored previous [] p at = stored_none previous
  stored previous (h ∷ hs) p at =
      let id = h.vertice_id in
      let old = route_at id key t in
      let (from, keyed) = added-key own reliable id key previous 2 h.route_weight h.hops t in
      let (next, action, _, hops, _, _, _) =
        added_lem own reliable id key previous 2 h.route_weight h.hops old in
      stored_more previous h hs (added own reliable id key previous 2 h.route_weight h.hops old)
        (at id previous h (ground arith)) from next hops keyed (ground (arith, action))
        (stored id hs (ground arith) (λ s before x e.
          at s before x (ground (arith, e, ==→eq id s, entry_for-absent id id hs))))

abbrev pub ids_of : List Hop → List ℕ
ids_of l = map (λ h. h.vertice_id) l

abbrev pub last_id : ℕ → List Hop → ℕ
last_id id [] = id
last_id id (h ∷ hs) = last_id h.vertice_id hs

-- From a node with its list on, along the rest of the route
Stored-Follows :
    (key : ℕ) (t : Chain Route) (h : Hop) (hs : List Hop) (r : Route) (x : Hop) (xs : List Hop)
    → route_at h.vertice_id key t ≡ some r
    → r.hops ≡ h.hops
    → r.key ≡ key
    → is_forward r ≡ true
    → Follows key t r (x ∷ xs)
    → Stored key t h.vertice_id hs
    → is_rising h.hops hs ≡ true
    → (r' : Route) × (l : List Hop) × (route_at (last_id h.vertice_id hs) key t ≡ some r')
      × (r'.key ≡ key)
      × (is_forward r' ≡ true)
      × Follows key t r' l
      × (ids_of l ≡ source_first (ids_of (x ∷ xs)) hs)
Stored-Follows key t h [] r x xs at hops keyed f l s rising = (r, x ∷ xs, at, keyed, f, l, refl)
Stored-Follows key t h (y ∷ hs) r x xs at hops keyed f l
      (stored_more _ _ _ r' at' from next hops' keyed' f' s) rising =
    let way = forward r' r x xs (ap (λ q. route_at q key t) next ∙ at) (ground arith) f l in
    let (q, m, at_q, keyed_q, fq, way_q, ids) =
      Stored-Follows key t y hs r' (hop_of r') (x ∷ xs) at' hops' keyed' f' way s (ground arith) in
    (q, m, at_q, keyed_q, fq, way_q, ids ∙ ap (λ i. source_first (i ∷ ids_of (x ∷ xs)) hs) from)

-- On a chain: a route of two nodes or more, from the target on, where no node stands twice, the hops
-- grow, and the target has no entry for the key, is stored. The source then has an entry for the key,
-- and the current route from there has the ids of the route, from the source on.
pub configure-get_current_route :
    (own : ℕ) (reliable : Bool) (key : ℕ) (target first : Hop) (hs : List Hop) (t : Chain Route)
    → IsChain t
    → is_path (target ∷ first ∷ hs) ≡ true
    → is_rising target.hops (first ∷ hs) ≡ true
    → route_at target.vertice_id key t ≡ none
    → (t' : Chain Route) × (r : Route) × (l : List Hop) × (configure_route own reliable key
          (target ∷ first ∷ hs)
          t
        ≡ some t')
      × (route_at (last_id first.vertice_id hs) key t' ≡ some r)
      × (get_current_route t' r ≡ some l)
      × (ids_of l ≡ source_first [] (target ∷ first ∷ hs))
unfolding get_current_route
configure-get_current_route own reliable key target first hs t i path rising empty =
    let (t', run, _, found) =
      configure_route-configured own reliable key target (first ∷ hs) t i (ground arith) in
    go t' run found (
      stored own reliable key t t' target.vertice_id (first ∷ hs) (ground arith)
        (λ s before h e. ground (arith, found s key, e)))
  where
    go :
        (t' : Chain Route)
        → configure_route own reliable key (target ∷ first ∷ hs) t ≡ some t'
        → ((s k : ℕ)
            → route_at s k t' ≡ configured own reliable key target.vertice_id (first ∷ hs) t s k)
        → Stored key t' target.vertice_id (first ∷ hs)
        → (t' : Chain Route) × (r : Route) × (l : List Hop) × (configure_route own reliable key
              (target ∷ first ∷ hs)
              t
            ≡ some t')
          × (route_at (last_id first.vertice_id hs) key t' ≡ some r)
          × (get_current_route t' r ≡ some l)
          × (ids_of l ≡ source_first [] (target ∷ first ∷ hs))
    go t' run found (stored_more _ _ _ r at from next hops keyed f s) =
        let none_left : route_at r.next_hop key t' ≡ none =
          ap (λ q. route_at q key t') next
          ∙ ground (
            arith,
            found target.vertice_id key,
            entry_for-absent target.vertice_id target.vertice_id (first ∷ hs),
            empty,
          ) in
        let (r', l, at', keyed', f', way, ids) =
          Stored-Follows key t' first hs r (hop_of r) (last_hop r.next_hop ∷ []) at hops keyed f
            (no_entry r none_left) s (ground arith) in
        (
          t',
          r',
          l,
          run,
          at',
          ground (
            arith,
            f',
            keyed',
            Follows-current_loop (suc r'.hops) r'.key t' r' l
                (subst (λ k. Follows k t' r' l) (sym keyed') way) (omega arith),
          ),
          ids ∙ ap₂ (λ a b. source_first (a ∷ b ∷ []) hs) from next,
        )
