-- ===== src/Tests/FlowTableTests.antt =====
-- The flow tables of a node at concrete states, where each table has a pool of four blocks.
use idit_sdn.Base.{ℕ, ◌≡◌, refl, sym, ap, ◌∙◌, subst}
use idit_sdn.Base.{inl, inr, Bool, false, not, ◌&&◌, ◌||◌, Option, none, some}
use idit_sdn.Base.{List, [], ◌∷◌, ◌++◌, arith, ◌==◌}
use idit_sdn.Base.{if◌then◌else◌, Bool-cases}
use mathlib.Core.Option
use idit_sdn.Queue.{sdn_success}
use idit_sdn.Contiki.{Contiki, without}
use idit_sdn.FlowTable.{Entry, Table, Tables, new_entry, older, find_entry}
use idit_sdn.FlowTable.{sdn_dataflow_insert, sdn_controlflow_insert, sdn_dataflow_get}
use idit_sdn.FlowTable.{sdn_dataflow_remove_next_hop, sdn_controlflow_remove_next_hop}
use idit_sdn.FlowTable.{sdn_controlflow_get, data_goes_to, control_goes_to}
use idit_sdn.FlowTable.Count.{count, uses}
use idit_sdn.FlowTable.Insert.{lookup}
use idit_sdn.FlowTable.Node.{IsSound, insert_lem, data_written, control_written}
use idit_sdn.FlowTable.Calls.{Call, calls, calls-IsSound, init_control, insert_data, insert_control}
use idit_sdn.FlowTable.Calls.{remove_data, call}
use idit_sdn.FlowTable.{sdn_controlflow_init, store_entry, block_for, place, aged, age_all}
use idit_sdn.FlowTable.{free_matching}
use idit_sdn.FlowTable.{remove_entry, sdn_dataflow_remove, control_action, data_action}
use idit_sdn.FlowTable.NextHop.{remove_next_hop_lem}

-- A pool says which of its blocks are in use.
abbrev pub alloc_from : List ℕ → (ℕ → Bool) → Option (ℕ × (ℕ → Bool))
alloc_from [] p = none
alloc_from (a ∷ rest) p = if p a then alloc_from rest p else some (a, λ b. b == a || p b)

pub alloc_from-free :
    (l : List ℕ) (p p' : ℕ → Bool) (a : ℕ) → alloc_from l p ≡ some (a, p') → p a ≡ false
alloc_from-free [] p p' a h = ground arith
alloc_from-free (x ∷ l) p p' a h = elim (Bool-cases (p x)) [
  | inl u ↦ alloc_from-free l p p' a (ground (arith, h, u))
  | inr f ↦ ground (arith, h, f)
]

pub alloc_from_lem :
    (l : List ℕ) (p p' : ℕ → Bool) (a b : ℕ)
    → alloc_from l p ≡ some (a, p')
    → p' b ≡ (b == a || p b)
alloc_from_lem [] p p' a b h = ground arith
alloc_from_lem (x ∷ l) p p' a b h = elim (Bool-cases (p x)) [
  | inl u ↦ alloc_from_lem l p p' a b (ground (arith, h, u))
  | inr f ↦
      let e =
        subst (λ v. (if v then alloc_from l p else some (x, λ c. c == x || p c)) ≡ some (a, p')) f
          h in
      sym (ap (λ o. elim o as (λ _. Bool) [ none ↦ false | some y ↦ y.1 b ]) e)
      ∙ ap (λ y. b == y || p b) (ap (λ o. elim o as (λ _. ℕ) [ none ↦ 0 | some y ↦ y.0 ]) e)
]

-- The operating system with four blocks.
abbrev pub small : Contiki
small = record {
  Pool = ℕ → Bool;
  in_use = λ a p. p a;
  memb_alloc = alloc_from (10 ∷ 11 ∷ 12 ∷ 13 ∷ []);
  memb_free = λ a p b. not (b == a) && p b;
  list_add = λ l a. without a l ++ (a ∷ []);
  list_remove = λ l a. without a l;
  memb_alloc-free = λ p p' a h. alloc_from-free (10 ∷ 11 ∷ 12 ∷ 13 ∷ []) p p' a h;
  memb_alloc_lem = λ p p' a b h. alloc_from_lem (10 ∷ 11 ∷ 12 ∷ 13 ∷ []) p p' a b h;
  memb_free_lem = λ p a b. refl;
  list_remove_lem = λ l a. refl;
  list_add_lem = λ l a. refl;
}

abbrev pub nothing : Entry
nothing = new_entry 0 0 0

abbrev pub no_entries : Table small
no_entries = record { pool = λ a. false; entries = λ a. nothing; linked = [] }

abbrev pub empty : Tables small
empty = record { dft = no_entries; cft = no_entries }

pub empty-IsSound : IsSound small empty
unfolding count uses
empty-IsSound = record {
  data_fit = record { once = λ a. omega arith; keys = λ k. omega arith };
  control_fit = record { once = λ a. omega arith; keys = λ k. omega arith };
}

-- The rest of the node is a list of the entries that unknown routes were solved for.
abbrev pub note : Entry → List ℕ → List ℕ
note e l = e.key ∷ l

abbrev script : List Call
script =
    init_control
    ∷ insert_data 0 7 2
    ∷ insert_data 5 8 2
    ∷ insert_control 9 8 2
    ∷ insert_data 6 8 2
    ∷ insert_data 7 7 2
    ∷ insert_data 8 7 2
    ∷ remove_data 5
    ∷ insert_control 4 3 2
    ∷ insert_data 8 7 2
    ∷ []

-- Node 3 starts, and is given flows and routes until the pool of its data flows is empty.
abbrev pub busy : Tables small × List ℕ
busy = calls small note note 3 script (empty, [])

busy-IsSound : IsSound small busy.0
busy-IsSound = calls-IsSound small note note 3 script (empty, []) empty-IsSound

calls-IsSound_example : IsSound small (calls small note note 3 script (empty, [])).0
calls-IsSound_example = calls-IsSound small note note 3 script (empty, []) empty-IsSound

-- The blocks of the tables after the calls, and the solved keys: the two tables use blocks of the
-- same addresses, each of its own pool, and the insertion for 8, which finds no
-- block at first, takes the one that the removal of 5 frees.
busy_lists :
    (busy.0.dft.linked ≡ 10 ∷ 12 ∷ 13 ∷ 11 ∷ [])
    × (busy.0.cft.linked ≡ 10 ∷ 11 ∷ 12 ∷ [])
    × (busy.1 ≡ 8 ∷ 4 ∷ 7 ∷ 6 ∷ 9 ∷ 5 ∷ 0 ∷ 3 ∷ [])
unfolding calls call sdn_controlflow_init sdn_dataflow_insert sdn_controlflow_insert store_entry
    block_for place aged age_all find_entry remove_entry sdn_dataflow_remove control_action
    data_action
busy_lists = (refl, refl, refl)

-- The route to 9 is changed, and a flow inserted: what is then found for 9 in either table.
insert_lem_example :
    let d = sdn_dataflow_insert small note 3 9 5 2 busy.0 [] in
    let c = sdn_controlflow_insert small note 3 9 5 2 busy.0 [] in
    (lookup small 9 d.1.0.dft ≡ (
      if d.0 == sdn_success
      then (if 9 == 9
          then some (older (data_written small note 3 9 5 2))
          else Option.map older (lookup small 9 busy.0.dft))
      else lookup small 9 busy.0.dft))
    × (lookup small 9 d.1.0.cft ≡ lookup small 9 busy.0.cft)
    × (lookup small 9 c.1.0.cft ≡ (
        if c.0 == sdn_success
        then (if 9 == 9
            then some (older (control_written small note 3 9 5 2))
            else Option.map older (lookup small 9 busy.0.cft))
        else lookup small 9 busy.0.cft))
    × (lookup small 9 c.1.0.dft ≡ lookup small 9 busy.0.dft)
insert_lem_example = insert_lem small note 3 9 5 2 busy.0 [] 9 busy-IsSound

remove_next_hop_lem_example :
    let d = sdn_dataflow_remove_next_hop small 8 busy.0 in
    let c = sdn_controlflow_remove_next_hop small 8 busy.0 in
    ((d.0 ≡ sdn_success) × (c.0 ≡ sdn_success))
    × (sdn_dataflow_get small 9 d.1 ≡ sdn_dataflow_get small 9 busy.0)
    × (sdn_controlflow_get small 9 c.1 ≡ sdn_controlflow_get small 9 busy.0)
    × ((a : ℕ)
        → sdn_dataflow_get small 9 busy.0 ≡ some a
        → small.in_use a d.1.dft.pool ≡ (
            if data_goes_to small 8 busy.0.dft.entries a
            then false
            else small.in_use a busy.0.dft.pool))
    × ((a : ℕ)
        → sdn_controlflow_get small 9 busy.0 ≡ some a
        → small.in_use a c.1.cft.pool ≡ (
            if control_goes_to small 8 busy.0.cft.entries a
            then false
            else small.in_use a busy.0.cft.pool))
remove_next_hop_lem_example = remove_next_hop_lem small 8 9 busy.0

-- The route to 9 goes through 8: after the removal it is found in a block that is free.
dangling :
    let c = sdn_controlflow_remove_next_hop small 8 busy.0 in
    (sdn_controlflow_get small 9 c.1 ≡ some 11) × (c.1.cft.pool 11 ≡ false)
unfolding calls call sdn_controlflow_init sdn_dataflow_insert sdn_controlflow_insert store_entry
    block_for place aged age_all find_entry remove_entry sdn_dataflow_remove control_action
    data_action sdn_controlflow_remove_next_hop free_matching sdn_controlflow_get
dangling = (refl, refl)
