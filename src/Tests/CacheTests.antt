-- ===== src/Tests/CacheTests.antt =====
-- The tables of sdn-flow-table-cache.c at concrete tables.
use idit_sdn.FlowCache.Install.{configure_route, configure_route_lem, way, entry_for, is_on}
use idit_sdn.Base.{Option, ◌⊎◌}
use idit_sdn.FlowCache.RoundTrip.{ids_of, configure-get_current_route}
use idit_sdn.Base.{map, List}
use idit_sdn.FlowCache.Current.{Current, get_current_route, get_current_route_lem, current_loop}
use idit_sdn.Dijkstra.{Hop}
use idit_sdn.Base.{ℕ, ◌≡◌, refl, true, false, some, none, [], ◌∷◌}
use idit_sdn.Base.{◌==◌, ◌&&◌, if◌then◌else◌, any, arith, inr, ◌<◌}
use mathlib.Core.Option
use idit_sdn.Chain.{Node, Chain, remove_all, remove_loop, relink}
use idit_sdn.Base.{not, ◌||◌}
use idit_sdn.FlowCache.{sdn_retransmit_time_s}
use idit_sdn.FlowCache.Routes.{kept}
use idit_sdn.Chain.Laws.{IsChain, has_addr}
use idit_sdn.FlowCache.{Route, route_new, table_add, table_set_online, has_source}
use idit_sdn.FlowCache.{table_remove_source, table_find, FlowTarget}
use idit_sdn.FlowCache.{sdn_flow_id_list_table_remove_target}
use idit_sdn.FlowCache.Routes.{route_at, table_add_lem, set_online_lem}
use idit_sdn.FlowCache.Removal.{remove_source_lem, add-after-remove}
use idit_sdn.FlowCache.Targets.{remove_target_lem}

abbrev route : ℕ → ℕ → Route
route source key = record {
  source = source;
  key = key;
  next_hop = 8;
  action = 2;
  route_weight = 30;
  hops = 3;
  flag = route_new;
  changed = true;
  online = false;
  countdown = 60;
}

abbrev two_routes : Chain Route
two_routes = record {
  nodes = record { addr = 0; item = route 5 1 } ∷ record { addr = 1; item = route 6 1 } ∷ [];
  tail = some 1;
  next_addr = 2;
}

two_routes-bounded : (a : ℕ) → has_addr a two_routes.nodes ≡ true → a < 2
two_routes-bounded a h = ground arith

two_routes-IsChain : IsChain two_routes
two_routes-IsChain = record { distinct = refl; bounded = two_routes-bounded; tail_last = inr refl }

table_add_lem_example :
    let old = route_at 5 1 two_routes in
    (a : ℕ) × (t' : Chain Route) × (r : Route) × (table_add 1 true 5 1 9 2 40 4 two_routes
      ≡ some (a, t'))
    × IsChain t'
    × (route_at 5 1 t' ≡ some r)
    × ((r.source ≡ 5) × (r.key ≡ 1))
    × ((r.next_hop ≡ 9)
        × (r.action ≡ 2)
        × (r.route_weight ≡ 40)
        × (r.hops ≡ 4)
        × (r.online ≡ (r.source == 1) || kept 1 true 5 1 9 2 40 4 old (λ o. o.online) (not true))
        × (r.changed ≡ kept 1 true 5 1 9 2 40 4 old (λ o. o.changed) true)
        × (r.countdown ≡ kept 1 true 5 1 9 2 40 4 old (λ o. o.countdown) sdn_retransmit_time_s))
    × ((s k : ℕ)
        → route_at s k t' ≡ (if (5 == s) && (1 == k) then some r else route_at s k two_routes))
table_add_lem_example = table_add_lem 1 true 5 1 9 2 40 4 two_routes two_routes-IsChain

set_online_lem_example :
    IsChain (table_set_online 5 1 8 2 two_routes)
    × (route_at 5 1 (table_set_online 5 1 8 2 two_routes)
        ≡ Option.map
            (λ r.
              if ((5 == 5) && (1 == 1)) && ((r.next_hop == 8) && (r.action == 2))
              then record r { online = true }
              else r)
            (route_at 5 1 two_routes))
set_online_lem_example = set_online_lem 5 1 8 2 5 1 two_routes two_routes-IsChain

remove_source_lem_example :
    (route_at 6 1 (table_remove_source 6 two_routes).1
      ≡ (if 6 == 6 then none else route_at 6 1 two_routes))
    × ((table_remove_source 6 two_routes).0 ≡ any (λ n. has_source 6 n.item) two_routes.nodes)
remove_source_lem_example = remove_source_lem 6 6 1 two_routes two_routes-IsChain

-- The route of 6 stands last, so the tail pointer dangles once it is taken out.
add-after-remove_example : table_add 1 true 7 1 9 2 40 4 (table_remove_source 6 two_routes).1 ≡ none
unfolding table_remove_source table_find remove_all remove_loop relink
add-after-remove_example =
    add-after-remove 1 true 6 7 1 9 2 40 4 two_routes two_routes-IsChain refl refl refl

abbrev pair : ℕ → ℕ → ℕ → Node FlowTarget
pair a f t = record { addr = a; item = record { flowid = f; target = t } }

abbrev three_targets : Chain FlowTarget
three_targets = record {
  nodes = pair 0 1 20 ∷ pair 1 2 30 ∷ pair 2 3 40 ∷ [];
  tail = some 2;
  next_addr = 3;
}

three_targets-bounded : (a : ℕ) → has_addr a three_targets.nodes ≡ true → a < 3
three_targets-bounded a h = ground arith

three_targets-IsChain : IsChain three_targets
three_targets-IsChain = record {
  distinct = refl;
  bounded = three_targets-bounded;
  tail_last = inr refl;
}

-- The node of target 20 is lost with that of target 30.
remove_target_lem_example :
    ((sdn_flow_id_list_table_remove_target 30 three_targets).0 ≡ true)
    × ((sdn_flow_id_list_table_remove_target 30 three_targets).1.nodes ≡ pair 2 3 40 ∷ [])
remove_target_lem_example =
    remove_target_lem 30 (pair 0 1 20 ∷ []) (pair 2 3 40 ∷ []) (pair 1 2 30) three_targets refl refl
      refl

abbrev step_to : ℕ → ℕ → ℕ → Route
step_to source next_hop hops = record (route source 1) {
  next_hop = next_hop;
  action = 2;
  hops = hops;
}

-- 5 forwards to 6, and 6 to 7, which has no entry; 8 and 9 forward to each other.
abbrev forwarding : Chain Route
forwarding = record {
  nodes =
      record { addr = 0; item = step_to 5 6 2 }
      ∷ record { addr = 1; item = step_to 6 7 1 }
      ∷ record { addr = 2; item = step_to 8 9 2 }
      ∷ record { addr = 3; item = step_to 9 8 2 }
      ∷ [];
  tail = some 3;
  next_addr = 4;
}

get_current_route_lem_example :
    (l : List Hop) × (get_current_route forwarding (step_to 5 6 2) ≡ some l)
    × Current 1 forwarding (step_to 5 6 2) l
get_current_route_lem_example = get_current_route_lem forwarding (step_to 5 6 2) refl

current-ids :
    Option.map (λ l. map (λ h. h.vertice_id) l) (get_current_route forwarding (step_to 5 6 2))
    ≡ some (5 ∷ 6 ∷ 7 ∷ [])
unfolding get_current_route current_loop table_find
current-ids = refl

current-loop : get_current_route forwarding (step_to 8 9 2) ≡ some []
unfolding get_current_route current_loop table_find
current-loop = refl

abbrev a_hop : ℕ → ℕ → ℕ → Hop
a_hop id weight hops = record {
  vertice_id = id;
  route_weight = weight;
  hops = hops;
  keep_route_cache = 0;
}

-- The route from 5 over 6 to 7, in place of another one
configure_route_lem_example :
    let hs = a_hop 6 3 1 ∷ a_hop 5 5 2 ∷ [] in
    (t' : Chain Route) × (configure_route 1 true 1 (a_hop 7 5 0 ∷ hs) two_routes ≡ some t')
    × IsChain t'
    × ((s : ℕ)
        → Option.map way (route_at s 1 t')
          ≡ (elim (entry_for s 7 hs) as (λ _. Option (ℕ × ℕ × ℕ × ℕ × ℕ × ℕ)) [
            | none ↦ Option.map way (route_at s 1 two_routes)
            | some (before, h) ↦ some (s, 1, before, 2, h.route_weight, h.hops)
          ]))
    × ((s k : ℕ) → (((1 == k) && is_on s hs) ≡ true) ⊎ (route_at s k t' ≡ route_at s k two_routes))
configure_route_lem_example =
    configure_route_lem 1 true 1 (a_hop 7 5 0) (a_hop 6 3 1 ∷ a_hop 5 5 2 ∷ []) two_routes
      two_routes-IsChain refl

configure-get_current_route_example :
    (t' : Chain Route) × (r : Route) × (l : List Hop) × (configure_route 1 true 1
        (a_hop 7 5 0 ∷ a_hop 6 3 1 ∷ a_hop 5 5 2 ∷ [])
        two_routes
      ≡ some t')
    × (route_at 5 1 t' ≡ some r)
    × (get_current_route t' r ≡ some l)
    × (ids_of l ≡ 5 ∷ 6 ∷ 7 ∷ [])
unfolding table_find
configure-get_current_route_example =
    configure-get_current_route 1 true 1 (a_hop 7 5 0) (a_hop 6 3 1) (a_hop 5 5 2 ∷ []) two_routes
      two_routes-IsChain refl refl refl
