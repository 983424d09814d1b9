-- ===== src/EdgeRing/Reports.antt =====
-- Which edges of a ring of digraph.c are current, that is, not marked for deletion.
use idit_sdn.Base.{ℕ, ◌≡◌, refl, Bool, true, false, not}
use idit_sdn.Base.{List, [], ◌∷◌, Option, some, none, arith}
use idit_sdn.EdgeRing.{Edge, is_deleted, find_edge, add_edge, mark_all}
use idit_sdn.EdgeRing.{refresh_edge, digraph_new_edge}
use idit_sdn.EdgeRing.Laws.{has_edge, is_simple}
use idit_sdn.EdgeRing.Marked.{unmarked, has-filter}

pub add_edge-current :
    (to etx weight : ℕ) (es : List Edge) → is_deleted (add_edge to etx weight es).0 ≡ false
unfolding add_edge digraph_new_edge refresh_edge
add_edge-current to etx weight es = ground arith

-- An edge that is there and not marked
abbrev pub is_current : Option Edge → Bool
is_current none = false
is_current (some e) = not (is_deleted e)

pub has-unmarked :
    (q : ℕ) (es : List Edge)
    → is_simple es ≡ true
    → has_edge q (unmarked es) ≡ is_current (find_edge q es)
has-unmarked q [] s = refl
has-unmarked q (e ∷ es) s =
    ground (arith, has-unmarked q es, has-filter (λ x. not (is_deleted x)) q es)

pub current-mark_all : (q : ℕ) (es : List Edge) → is_current (find_edge q (mark_all es)) ≡ false
unfolding mark_all
current-mark_all q [] = refl
current-mark_all q (e ∷ es) = ground (arith, current-mark_all q es)
