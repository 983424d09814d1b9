-- ===== src/FlowCache/Targets.antt =====
-- The list of flow ids and targets of sdn-flow-table-cache.c.
use idit_sdn.Base.{ℕ, ◌≡◌, refl, Bool, true, false, none, some}
use idit_sdn.Base.{List, [], ◌∷◌, ◌++◌, ◌==◌, ◌&&◌, ◌||◌, if◌then◌else◌, find?, any, arith}
use idit_sdn.Base.{inl, inr, Option-cases}
use idit_sdn.Chain.{Node, Chain, find_node}
use idit_sdn.Chain.Laws.{IsChain, append_lem, appended, appended-IsChain}
use idit_sdn.FlowCache.{FlowTarget, is_flow_target, has_target, remove_target_loop}
use idit_sdn.FlowCache.{sdn_flow_id_list_table_find, sdn_flow_id_list_table_add}
use idit_sdn.FlowCache.{sdn_flow_id_list_table_has_target, sdn_flow_id_list_table_remove_target}

abbrev pub any_target : ℕ → List (Node FlowTarget) → Bool
any_target target ns = any (λ n. has_target target n.item) ns

abbrev pub is_listed : ℕ → ℕ → List (Node FlowTarget) → Bool
is_listed flowid target ns = any (λ n. is_flow_target flowid target n.item) ns

find-listed :
    (flowid target : ℕ) (ns : List (Node FlowTarget))
    → find? (λ n. is_flow_target flowid target n.item) ns ≡ none
    → is_listed flowid target ns ≡ false
find-listed flowid target [] h = refl
find-listed flowid target (n ∷ ns) h = ground (arith, find-listed flowid target ns)

listed-find :
    (flowid target : ℕ) (ns : List (Node FlowTarget))
    → is_listed flowid target ns ≡ false
    → find? (λ n. is_flow_target flowid target n.item) ns ≡ none
listed-find flowid target [] h = refl
listed-find flowid target (n ∷ ns) h = ground (arith, listed-find flowid target ns)

listed-append :
    (flowid target : ℕ) (ns : List (Node FlowTarget)) (n : Node FlowTarget)
    → is_listed flowid target (ns ++ (n ∷ []))
      ≡ is_listed flowid target ns || is_flow_target flowid target n.item
listed-append flowid target [] n = ground arith
listed-append flowid target (m ∷ ns) n = ground (arith, listed-append flowid target ns n)

-- On a chain an add succeeds and leaves a chain, with the pair listed, and every other pair listed
-- if it was.
pub list_add_lem :
    (flowid target : ℕ) (t : Chain FlowTarget)
    → IsChain t
    → (a : ℕ) × (t' : Chain FlowTarget) × (sdn_flow_id_list_table_add flowid target t
        ≡ some (a, t'))
      × IsChain t'
      × ((f g : ℕ)
          → is_listed f g t'.nodes ≡ ((flowid == f) && (target == g)) || is_listed f g t.nodes)
unfolding sdn_flow_id_list_table_add sdn_flow_id_list_table_find
list_add_lem flowid target t i =
    let item : FlowTarget = record { flowid = flowid; target = target } in
    elim (Option-cases (find_node (is_flow_target flowid target) t)) [
      | inl e ↦ (
        t.next_addr,
        appended item t,
        ground (arith, e, append_lem item t i),
        appended-IsChain item i,
        λ f g.
            ground (arith, listed-append f g t.nodes (record { addr = t.next_addr; item = item })),
      )
      | inr (n, e) ↦ (
        n.addr,
        t,
        ground (arith, e),
        i,
        λ f g. ground (arith, e, listed-find flowid target t.nodes),
      )
    ]

loop-absent :
    (target : ℕ) (ns head : List (Node FlowTarget)) (ret : Bool)
    → any_target target ns ≡ false
    → remove_target_loop target ns head ret ≡ (ret, head)
unfolding remove_target_loop
loop-absent target [] head ret h = refl
loop-absent target (n ∷ ns) head ret h = ground (arith, loop-absent target ns head ret)

loop-last :
    (target : ℕ) (front : List (Node FlowTarget)) (n : Node FlowTarget)
    (rest head : List (Node FlowTarget)) (ret : Bool)
    → has_target target n.item ≡ true
    → any_target target rest ≡ false
    → remove_target_loop target (front ++ (n ∷ rest)) head ret ≡ (true, rest)
unfolding remove_target_loop
loop-last target [] n rest head ret t h = ground (arith, loop-absent target rest rest true)
loop-last target (m ∷ front) n rest head ret t h = ground (
  arith,
  loop-last target front n rest (if has_target target m.item then front ++ (n ∷ rest) else head)
      (if has_target target m.item then true else ret),
)

-- `sdn_flow_id_list_table_remove_target` leaves the nodes behind the last one with the target: all
-- that stand before it are lost, whatever their target is.
pub remove_target_lem :
    (target : ℕ) (front rest : List (Node FlowTarget)) (n : Node FlowTarget) (t : Chain FlowTarget)
    → t.nodes ≡ front ++ (n ∷ rest)
    → has_target target n.item ≡ true
    → any_target target rest ≡ false
    → ((sdn_flow_id_list_table_remove_target target t).0 ≡ true)
      × ((sdn_flow_id_list_table_remove_target target t).1.nodes ≡ rest)
unfolding sdn_flow_id_list_table_remove_target
remove_target_lem target front rest n t e h absent =
    ground (arith, e, loop-last target front n rest (front ++ (n ∷ rest)) false h absent)

-- It leaves all nodes if none has the target, and the flag agrees with
-- `sdn_flow_id_list_table_has_target`.
pub remove_absent_lem :
    (target : ℕ) (t : Chain FlowTarget)
    → sdn_flow_id_list_table_has_target target t ≡ false
    → sdn_flow_id_list_table_remove_target target t ≡ (false, t)
unfolding sdn_flow_id_list_table_has_target sdn_flow_id_list_table_remove_target
remove_absent_lem target t h = ground (arith, loop-absent target t.nodes t.nodes false)
