-- ===== src/FlowCache/Current.antt =====
-- `get_current_route_from_flowid` and `get_current_route_from_address` of
-- controller-server/sdn-process-packets-controller.c: the route that the entries of the cache spell,
-- from one node to the next.
use idit_sdn.Base.{ℕ, zero, suc, ◌<◌, ◌≤◌, ◌≡◌, Bool, true, false}
use idit_sdn.Base.{Option, none, some, List, [], ◌∷◌, leb, ◌==◌, inl, inr, arith}
use idit_sdn.Base.{Option-cases, Bool-cases, if◌then◌else◌}
use idit_sdn.Chain.{Chain}
use idit_sdn.Dijkstra.{Hop}
use idit_sdn.FlowCache.{Route}
use idit_sdn.FlowCache.Routes.{route_at}

abbrev pub is_forward : Route → Bool
is_forward r = r.action == 2

abbrev pub hop_of : Route → Hop
hop_of r = record {
  vertice_id = r.source;
  route_weight = r.route_weight;
  hops = r.hops;
  keep_route_cache = 0;
}

-- The entry behind the loop, for the last `next_hop`
abbrev pub last_hop : ℕ → Hop
last_hop target = record { vertice_id = target; route_weight = 0; hops = 0; keep_route_cache = 0 }

-- The loop at an entry that forwards. NULL is the empty list; `none` is a loop that has not ended.
unfoldable pub current_loop : ℕ → ℕ → Chain Route → Route → Option (List Hop)
current_loop zero key t r = none
current_loop (suc fuel) key t r =
    let longer : Route → Option (List Hop) = λ r'. current_loop fuel key t r' in
    elim (route_at r.next_hop key t) [
      | none ↦ some (hop_of r ∷ last_hop r.next_hop ∷ [])
      | some r' ↦
          if leb r.hops r'.hops
          then some []
          else if is_forward r'
          then elim (longer r') as (λ _. Option (List Hop)) [
            | none ↦ none
            | some [] ↦ some []
            | some (h ∷ hs) ↦ some (hop_of r ∷ h ∷ hs)
          ]
          else some (hop_of r ∷ last_hop r.next_hop ∷ [])
    ]

-- One round for each hop of the first entry, and one more
unfoldable pub get_current_route : Chain Route → Route → Option (List Hop)
unfolding current_loop
get_current_route t r = if is_forward r then current_loop (suc r.hops) r.key t r else some []

-- The entries of the cache lead from `r` along the list, with fewer hops at each, to a node that
-- does not forward.
pub data Follows (key : ℕ) (t : Chain Route) : Route → List Hop → Type 0 where
  no_entry :
      (r : Route)
      → route_at r.next_hop key t ≡ none
      → Follows key t r (hop_of r ∷ last_hop r.next_hop ∷ [])
  no_forward :
      (r r' : Route)
      → route_at r.next_hop key t ≡ some r'
      → r'.hops < r.hops
      → is_forward r' ≡ false
      → Follows key t r (hop_of r ∷ last_hop r.next_hop ∷ [])
  forward :
      (r r' : Route) (h : Hop) (hs : List Hop)
      → route_at r.next_hop key t ≡ some r'
      → r'.hops < r.hops
      → is_forward r' ≡ true
      → Follows key t r' (h ∷ hs)
      → Follows key t r (hop_of r ∷ h ∷ hs)

-- The entries lead from `r` to one whose next entry is not nearer to the target.
pub data Strays (key : ℕ) (t : Chain Route) : Route → Type 0 where
  strays_here :
      (r r' : Route) → route_at r.next_hop key t ≡ some r' → r.hops ≤ r'.hops → Strays key t r
  strays_later :
      (r r' : Route)
      → route_at r.next_hop key t ≡ some r'
      → is_forward r' ≡ true
      → Strays key t r'
      → Strays key t r

-- What a list means as the current route of `r`
pub data Current (key : ℕ) (t : Chain Route) (r : Route) : List Hop → Type 0 where
  current : {l : List Hop} → Follows key t r l → Current key t r l
  discarded : Strays key t r → Current key t r []

current_loop_lem :
    (fuel key : ℕ) (t : Chain Route) (r : Route)
    → r.hops < fuel
    → (l : List Hop) × (current_loop fuel key t r ≡ some l) × Current key t r l
unfolding current_loop
current_loop_lem zero key t r h = absurd (omega arith)
current_loop_lem (suc fuel) key t r h = elim (Option-cases (route_at r.next_hop key t)) [
  | inl e ↦ (hop_of r ∷ last_hop r.next_hop ∷ [], ground (arith, e), current (no_entry r e))
  | inr (r', e) ↦ elim (Bool-cases (leb r.hops r'.hops)) [
    | inl b ↦ ([], ground (arith, e, b), discarded (strays_here r r' e (ground arith)))
    | inr b ↦ elim (Bool-cases (is_forward r')) [
      | inr f ↦ (
        hop_of r ∷ last_hop r.next_hop ∷ [],
        ground (arith, e, b, f),
        current (no_forward r r' e (ground arith) f),
      )
      | inl f ↦ extend r' e b f (current_loop_lem fuel key t r' (ground arith))
    ]
  ]
]
  where
    extend :
        (r' : Route)
        → route_at r.next_hop key t ≡ some r'
        → leb r.hops r'.hops ≡ false
        → is_forward r' ≡ true
        → (l : List Hop) × (current_loop fuel key t r' ≡ some l) × Current key t r' l
        → (l : List Hop) × (current_loop (suc fuel) key t r ≡ some l) × Current key t r l
    extend r' e b f ([], run, current c) = elim c [ ]
    extend r' e b f ([], run, discarded s) =
        ([], ground (arith, e, b, f, run), discarded (strays_later r r' e f s))
    extend r' e b f (x ∷ hs, run, current c) = (
      hop_of r ∷ x ∷ hs,
      ground (arith, e, b, f, run),
      current (forward r r' x hs e (ground arith) f c),
    )

-- From an entry that forwards the loop ends after at most as many rounds as the entry has hops, and
-- one. The list is the way along the entries of the cache, with fewer hops at each, or NULL, and
-- NULL only if an entry on the way leads to one that is not nearer to the target.
pub get_current_route_lem :
    (t : Chain Route) (r : Route)
    → is_forward r ≡ true
    → (l : List Hop) × (get_current_route t r ≡ some l) × Current r.key t r l
unfolding get_current_route
get_current_route_lem t r f =
    let (l, run, c) = current_loop_lem (suc r.hops) r.key t r (omega arith) in
    (l, ground (arith, f, run), c)

unfoldable pub get_current_route_from_address : Chain Route → Route → Option (List Hop)
unfolding get_current_route
get_current_route_from_address = get_current_route
