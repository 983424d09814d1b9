-- ===== src/FlowTable.antt =====
-- sdn-common/data-flow-table.c and sdn-common/control-flow-table.c: the two flow tables of a node.
-- Both are lists of entries, each from a pool of its own: contiki-sdn/flow-tables-mem.h declares a
-- static pool, and both files include it. A pointer to an entry is its address in the table's pool,
-- the memory gives the fields of the entry at an address.
pub mod Count
pub mod Place
pub mod Insert
pub mod Store
pub mod Removal
pub mod Node
pub mod Calls
pub mod NextHop
use idit_sdn.Base.{ℕ, ◌+◌, ◌%◌, Bool, not, ◌&&◌, Option, none, some, List, [], ◌∷◌}
use idit_sdn.Base.{◌==◌, if◌then◌else◌, find?}
use idit_sdn.Queue.{sdn_success, sdn_error, inc8}
use idit_sdn.Contiki.{Contiki}

-- `SDN_ACTION_RECEIVE`, `SDN_ACTION_FORWARD`, `SDN_ACTION_DROP`
abbrev pub action_receive : ℕ
action_receive = 1

abbrev pub action_forward : ℕ
action_forward = 2

abbrev pub action_drop : ℕ
action_drop = 4

-- `SDN_CONTROLLER_FLOW`
abbrev pub controller_flow_id : ℕ
controller_flow_id = 0

-- `struct data_flow_entry` and `struct control_flow_entry`: `key` is the first's `flowid` and the
-- second's `dest_addr`. The list's `next` is in the list of the table.
pub record Entry : Type 0 where
  pub key : ℕ
  pub next_hop : ℕ
  pub action : ℕ
  pub times_used : ℕ
  pub age : ℕ

abbrev pub Memory : Type 0
Memory = ℕ → Entry

-- A table: its pool, the memory of the pool's blocks, and its list.
pub record Table (os : Contiki) : Type 0 where
  pub pool : os.Pool
  pub entries : Memory
  pub linked : List ℕ

-- Both tables of a node, with the lists `dft` and `cft`.
pub record Tables (os : Contiki) : Type 0 where
  pub dft : Table os
  pub cft : Table os

abbrev pub put : ℕ → Entry → Memory → Memory
put a e m b = if b == a then e else m b

abbrev pub new_entry : ℕ → ℕ → ℕ → Entry
new_entry key next_hop action = record {
  key = key;
  next_hop = next_hop;
  action = action;
  times_used = 0;
  age = 0;
}

-- `d->age ++`
abbrev pub older : Entry → Entry
older e = record e { age = inc8 e.age }

-- The loop that updates the age of the table's entries.
unfoldable pub age_all : List ℕ → Memory → Memory
age_all [] m = m
age_all (a ∷ rest) m = age_all rest (put a (older (m a)) m)

-- The loop of `sdn_dataflow_get` and of `sdn_controlflow_get`.
unfoldable pub find_entry : ℕ → Memory → List ℕ → Option ℕ
find_entry key m linked = find? (λ a. (m a).key == key) linked

-- `own` is `sdn_node_addr`
unfoldable pub data_action : ℕ → ℕ → ℕ → ℕ
data_action own next_hop action =
    if action == action_forward && next_hop == own then action_receive else action

unfoldable pub control_action : ℕ → ℕ → ℕ → ℕ
control_action own next_hop action = if next_hop == own then action_receive else action

module _ (os : Contiki) where
  -- The entry of the key, or a new block: the address to write, if there is one.
  unfoldable pub block_for : ℕ → Table os → Option (ℕ × Table os)
  block_for key t = elim (find_entry key t.entries t.linked) as (λ _. Option (ℕ × Table os)) [
    | some a ↦ some (a, t)
    | none ↦ elim (os.memb_alloc t.pool) as (λ _. Option (ℕ × Table os)) [
      | none ↦ none
      | some (a, p) ↦ some (a, record t { pool = p })
    ]
  ]

  -- The fields are written and the entry is placed at the end of the list.
  unfoldable pub place : ℕ → Entry → Table os → Table os
  place a e t = record t { entries = put a e t.entries; linked = os.list_add t.linked a }

  -- The part of an insertion after the unknown routes are solved.
  unfoldable pub aged : Table os → Table os
  aged t = record t { entries = age_all t.linked t.entries }

  -- An insertion, with `solve` for the call of the module of unknown routes, which is given the
  -- entry and works on the rest of the node.
  unfoldable pub store_entry {ℓ} :
      {W : Type ℓ} → (Entry → W → W) → Entry → Table os → W → ℕ × (Table os × W)
  store_entry {W = W} solve e t w = elim (block_for e.key t) as (λ _. ℕ × (Table os × W)) [
    | none ↦ (sdn_error, (t, w))
    | some (a, u) ↦ (sdn_success, (aged (place a e u), solve e w))
  ]

  module _ {ℓ} {W : Type ℓ} where
    unfoldable pub sdn_dataflow_insert :
        (Entry → W → W) → ℕ → ℕ → ℕ → ℕ → Tables os → W → ℕ × (Tables os × W)
    sdn_dataflow_insert solve own flowid next_hop action t w =
        let e = new_entry flowid next_hop (data_action own next_hop action) in
        let r = store_entry solve e t.dft w in (r.0, (record t { dft = r.1.0 }, r.1.1))

    unfoldable pub sdn_controlflow_insert :
        (Entry → W → W) → ℕ → ℕ → ℕ → ℕ → Tables os → W → ℕ × (Tables os × W)
    sdn_controlflow_insert solve own dest_addr next_hop action t w =
        let e = new_entry dest_addr next_hop (control_action own next_hop action) in
        let r = store_entry solve e t.cft w in (r.0, (record t { cft = r.1.0 }, r.1.1))

    unfoldable pub sdn_controlflow_init : (Entry → W → W) → ℕ → Tables os → W → ℕ × (Tables os × W)
    sdn_controlflow_init solve own t w =
        sdn_controlflow_insert solve own own own action_receive
          (record t { cft = record t.cft { linked = [] } }) w

  unfoldable pub sdn_dataflow_init : Tables os → ℕ × Tables os
  sdn_dataflow_init t = (sdn_success, record t { dft = record t.dft { linked = [] } })

  unfoldable pub sdn_dataflow_get : ℕ → Tables os → Option ℕ
  sdn_dataflow_get flowid t = find_entry flowid t.dft.entries t.dft.linked

  unfoldable pub sdn_controlflow_get : ℕ → Tables os → Option ℕ
  sdn_controlflow_get dest_addr t = find_entry dest_addr t.cft.entries t.cft.linked

  -- Removal by key: the entry leaves the list and its block is freed.
  unfoldable pub remove_entry : ℕ → Table os → ℕ × Table os
  remove_entry key t = elim (find_entry key t.entries t.linked) as (λ _. ℕ × Table os) [
    | none ↦ (sdn_error, t)
    | some a ↦
        (sdn_success, record t { pool = os.memb_free a t.pool; linked = os.list_remove t.linked a })
  ]

  unfoldable pub sdn_dataflow_remove : ℕ → Tables os → ℕ × Tables os
  sdn_dataflow_remove flowid t = let r = remove_entry flowid t.dft in (r.0, record t { dft = r.1 })

  unfoldable pub sdn_controlflow_remove : ℕ → Tables os → ℕ × Tables os
  sdn_controlflow_remove dest_addr t =
      let r = remove_entry dest_addr t.cft in (r.0, record t { cft = r.1 })

  -- The loop of the removals by next hop, which frees blocks and leaves the list as it is.
  unfoldable pub free_matching : (ℕ → Bool) → List ℕ → os.Pool → os.Pool
  free_matching p [] pool = pool
  free_matching p (a ∷ rest) pool = free_matching p rest (if p a then os.memb_free a pool else pool)

  abbrev pub data_goes_to : ℕ → Memory → ℕ → Bool
  data_goes_to next_hop m a = (m a).next_hop == next_hop && not ((m a).key == controller_flow_id)

  abbrev pub control_goes_to : ℕ → Memory → ℕ → Bool
  control_goes_to next_hop m a = (m a).next_hop == next_hop

  unfoldable pub sdn_dataflow_remove_next_hop : ℕ → Tables os → ℕ × Tables os
  sdn_dataflow_remove_next_hop next_hop t = (
    sdn_success,
    record t {
      dft = record t.dft {
        pool = free_matching (data_goes_to next_hop t.dft.entries) t.dft.linked t.dft.pool;
      };
    },
  )

  unfoldable pub sdn_controlflow_remove_next_hop : ℕ → Tables os → ℕ × Tables os
  sdn_controlflow_remove_next_hop next_hop t = (
    sdn_success,
    record t {
      cft = record t.cft {
        pool = free_matching (control_goes_to next_hop t.cft.entries) t.cft.linked t.cft.pool;
      };
    },
  )

  -- The loop of the two functions that clear a table, over the list as it was at its start.
  unfoldable pub clear_from : List ℕ → Table os → Table os
  clear_from [] t = t
  clear_from (a ∷ rest) t =
      clear_from rest
        (record t { pool = os.memb_free a t.pool; linked = os.list_remove t.linked a })

  unfoldable pub sdn_dataflow_clear : Tables os → Tables os
  sdn_dataflow_clear t = record t { dft = clear_from t.dft.linked t.dft }

  unfoldable pub sdn_controlflow_clear : Tables os → Tables os
  sdn_controlflow_clear t = record t { cft = clear_from t.cft.linked t.cft }
