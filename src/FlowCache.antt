-- ===== src/FlowCache.antt =====
-- controller-server/sdn-flow-table-cache.c: the routes that the controller handed to the nodes, by
-- flow id and by target address, and the list of the flow ids of each target. An address is the
-- number that its bytes spell. The code of the first two tables is the same but for the key, which
-- is the flow id in one and the target in the other.
pub mod Routes
pub mod Removal
pub mod Targets
pub mod Current
pub mod Install
pub mod RoundTrip
use idit_sdn.Base.{ℕ, suc, Bool, true, false, not, Option, none, some, List, [], ◌∷◌}
use idit_sdn.Base.{◌==◌, ◌&&◌, ◌||◌, if◌then◌else◌, find?, any, map}
use mathlib.Core.Option
use idit_sdn.Chain.{Node, Chain, append, find_node, update_first, remove_all}

abbrev pub sdn_retransmit_time_s : ℕ
sdn_retransmit_time_s = 60

-- `enum routing_flags`
pub data RoutingFlag : Type 0 where
  route_static route_new route_updated : RoutingFlag

-- `struct flow_id_table` and `struct flow_address_table` without their links
pub record Route : Type 0 where
  pub source : ℕ
  pub key : ℕ
  pub next_hop : ℕ
  pub action : ℕ
  pub route_weight : ℕ
  pub hops : ℕ
  pub flag : RoutingFlag
  pub changed : Bool
  pub online : Bool
  pub countdown : ℕ

abbrev pub has_key : ℕ → ℕ → Route → Bool
has_key source key r = r.source == source && r.key == key

abbrev pub has_source : ℕ → Route → Bool
has_source source r = r.source == source

-- The routes of the controller's own node need no acknowledgement; `own` is `sdn_node_addr`.
abbrev pub own_online : ℕ → Route → Route
own_online own r = if r.source == own then record r { online = true } else r

-- `reliable` says whether SDN_TX_RELIABILITY is set.
module _ (reliable : Bool) where
  unfoldable pub table_new : ℕ → ℕ → ℕ → ℕ → ℕ → ℕ → Route
  table_new source key next_hop action weight hops = record {
    source = source;
    key = key;
    next_hop = next_hop;
    action = action;
    route_weight = weight;
    hops = hops;
    flag = route_new;
    changed = true;
    online = if reliable then false else true;
    countdown = if reliable then sdn_retransmit_time_s else 0;
  }

  -- The write to a route that is there: all of it if the next hop or the action is another.
  unfoldable pub table_refresh : ℕ → ℕ → ℕ → ℕ → Route → Route
  table_refresh next_hop action weight hops r =
      if not (next_hop == r.next_hop) || not (action == r.action)
      then record r {
        next_hop = next_hop;
        action = action;
        flag = route_updated;
        changed = true;
        online = if reliable then false else true;
        countdown = if reliable then sdn_retransmit_time_s else 0;
        route_weight = weight;
        hops = hops;
      }
      else record r { route_weight = weight; hops = hops }

module _ (own : ℕ) (reliable : Bool) where
  -- The pointer to the route, and the table. There is no result if the tail pointer leads to a node
  -- that was freed.
  unfoldable pub table_add : ℕ → ℕ → ℕ → ℕ → ℕ → ℕ → Chain Route → Option (ℕ × Chain Route)
  unfolding table_new table_refresh
  table_add source key next_hop action weight hops t = elim (find_node (has_key source key) t) [
    | none ↦ append (own_online own (table_new reliable source key next_hop action weight hops)) t
    | some n ↦ some (
      n.addr,
      record t {
        nodes =
            update_first (has_key source key)
              (λ r. own_online own (table_refresh reliable next_hop action weight hops r)) t.nodes;
      },
    )
  ]

unfoldable pub table_find : ℕ → ℕ → Chain Route → Option (Node Route)
table_find source key t = find_node (has_key source key) t

-- An acknowledgement counts only for the route as it is now.
unfoldable pub table_set_online : ℕ → ℕ → ℕ → ℕ → Chain Route → Chain Route
table_set_online source key next_hop action t = record t {
  nodes =
      update_first (has_key source key)
        (λ r.
          if r.next_hop == next_hop && r.action == action then record r { online = true } else r)
        t.nodes;
}

-- The routes of the source are taken out, and the flag says whether there was one.
unfoldable pub table_remove_source : ℕ → Chain Route → Bool × Chain Route
table_remove_source source t = remove_all (has_source source) t

-- The functions of the table by target address, whose code repeats that of the table by flow id.
unfoldable pub sdn_flow_address_table_new : Bool → ℕ → ℕ → ℕ → ℕ → ℕ → ℕ → Route
unfolding table_new
sdn_flow_address_table_new = table_new

unfoldable pub sdn_flow_address_table_add :
    ℕ → Bool → ℕ → ℕ → ℕ → ℕ → ℕ → ℕ → Chain Route → Option (ℕ × Chain Route)
unfolding table_add
sdn_flow_address_table_add = table_add

unfoldable pub sdn_flow_address_table_find : ℕ → ℕ → Chain Route → Option (Node Route)
unfolding table_find
sdn_flow_address_table_find = table_find

unfoldable pub sdn_flow_address_table_set_online : ℕ → ℕ → ℕ → ℕ → Chain Route → Chain Route
unfolding table_set_online
sdn_flow_address_table_set_online = table_set_online

unfoldable pub sdn_flow_address_table_remove_source : ℕ → Chain Route → Bool × Chain Route
unfolding table_remove_source
sdn_flow_address_table_remove_source = table_remove_source

-- `struct flow_id_list_table` without its link
pub record FlowTarget : Type 0 where
  pub flowid : ℕ
  pub target : ℕ

abbrev pub is_flow_target : ℕ → ℕ → FlowTarget → Bool
is_flow_target flowid target f = f.flowid == flowid && f.target == target

abbrev pub has_target : ℕ → FlowTarget → Bool
has_target target f = f.target == target

unfoldable pub sdn_flow_id_list_table_find : ℕ → ℕ → Chain FlowTarget → Option (Node FlowTarget)
sdn_flow_id_list_table_find flowid target t = find_node (is_flow_target flowid target) t

unfoldable pub sdn_flow_id_list_table_add : ℕ → ℕ → Chain FlowTarget → Option (ℕ × Chain FlowTarget)
unfolding sdn_flow_id_list_table_find
sdn_flow_id_list_table_add flowid target t = elim (sdn_flow_id_list_table_find flowid target t) [
  | none ↦ append (record { flowid = flowid; target = target }) t
  | some n ↦ some (n.addr, t)
]

unfoldable pub sdn_flow_id_list_table_has_target : ℕ → Chain FlowTarget → Bool
sdn_flow_id_list_table_has_target target t = any (λ n. has_target target n.item) t.nodes

-- The loop of `sdn_flow_id_list_table_remove_target`: what is left to visit, the nodes from
-- `flow_id_list_table_head` on, and `ret`. `flow_id_list_previous` is never set, so each removal
-- makes the next node the head.
unfoldable pub remove_target_loop :
    ℕ → List (Node FlowTarget) → List (Node FlowTarget) → Bool → Bool × List (Node FlowTarget)
remove_target_loop target [] head ret = (ret, head)
remove_target_loop target (n ∷ ns) head ret =
    remove_target_loop target ns (if has_target target n.item then ns else head)
      (if has_target target n.item then true else ret)

unfoldable pub sdn_flow_id_list_table_remove_target : ℕ → Chain FlowTarget → Bool × Chain FlowTarget
unfolding remove_target_loop
sdn_flow_id_list_table_remove_target target t =
    let (ret, nodes) = remove_target_loop target t.nodes t.nodes false in
    (ret, record t { nodes = nodes })
