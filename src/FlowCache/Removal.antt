-- ===== src/FlowCache/Removal.antt =====
-- Taking the routes of a source out of the tables of sdn-flow-table-cache.c.
use idit_sdn.Base.{ℕ, ◌≡◌, Bool, true, false, not, none}
use idit_sdn.Base.{List, [], ◌∷◌, ◌==◌, if◌then◌else◌, find?, any, filter, arith}
use idit_sdn.Chain.{Node, Chain}
use idit_sdn.Chain.Laws.{IsChain, last_passes, remove-IsChain, append-after-remove, is_nil}
use idit_sdn.Chain.Laws.{remove_all_lem}
use idit_sdn.Base.{ap, ◌∙◌}
use idit_sdn.FlowCache.{Route, has_key, has_source, own_online, table_new, table_add, table_find}
use idit_sdn.FlowCache.{table_remove_source}
use idit_sdn.FlowCache.Routes.{route_at}

find-filter :
    (source s k : ℕ) (ns : List (Node Route))
    → find? (λ n. has_key s k n.item) (filter (λ n. not (has_source source n.item)) ns)
      ≡ (if source == s then none else find? (λ n. has_key s k n.item) ns)
find-filter source s k [] = ground arith
find-filter source s k (n ∷ ns) = ground (arith, find-filter source s k ns)

-- On a chain, after the routes of a source were taken out a search finds none of them, and every
-- other route as before: the loop relinks the nodes that stay, whichever it takes out, the head
-- included. The flag says whether there was one.
pub remove_source_lem :
    (source s k : ℕ) (t : Chain Route)
    → IsChain t
    → (route_at s k (table_remove_source source t).1
        ≡ (if source == s then none else route_at s k t))
      × ((table_remove_source source t).0 ≡ any (λ n. has_source source n.item) t.nodes)
unfolding table_remove_source table_find
remove_source_lem source s k t i =
    let e = remove_all_lem (has_source source) i in
    (
      ap (λ (r : Bool × Chain Route). route_at s k r.1) e
          ∙ ground (arith, find-filter source s k t.nodes),
      ap (λ (r : Bool × Chain Route). r.0) e,
    )

-- Where the last route of the table is of another source, taking out the routes of a source leaves
-- a chain: the tail pointer still leads to the last node.
pub remove_source-IsChain :
    (source : ℕ) (t : Chain Route)
    → IsChain t
    → last_passes (λ n. not (has_source source n.item)) t.nodes ≡ true
    → IsChain (table_remove_source source t).1
unfolding table_remove_source
remove_source-IsChain source t i h = remove-IsChain (has_source source) i h

-- Where the last route of the table is taken out and another stays, an add of a route that is not
-- in the table writes through the tail pointer to the freed node.
pub add-after-remove :
    (own : ℕ) (reliable : Bool) (removed source key next_hop action weight hops : ℕ)
    (t : Chain Route)
    → IsChain t
    → last_passes (λ n. not (has_source removed n.item)) t.nodes ≡ false
    → is_nil (table_remove_source removed t).1.nodes ≡ false
    → route_at source key (table_remove_source removed t).1 ≡ none
    → table_add own reliable source key next_hop action weight hops
        (table_remove_source removed t).1
      ≡ none
unfolding table_remove_source table_add table_find
add-after-remove own reliable removed source key next_hop action weight hops t i last stays absent =
    ground (
      arith,
      absent,
      append-after-remove (has_source removed)
          (own_online own (table_new reliable source key next_hop action weight hops)) i last stays,
    )
