-- ===== src/EdgeRing/Flag.antt =====
-- What `digraph_del_marked_edges_to_del_from` does and tells its caller.
use idit_sdn.Base.{◌≡◌, refl, true, false, List, [], ◌∷◌, any, arith}
use idit_sdn.EdgeRing.{Edge, is_deleted, del_marked}
use idit_sdn.EdgeRing.Laws.{is_simple}
use idit_sdn.EdgeRing.Marked.{unmarked, visited, del_marked-ring, del_marked-flag}

-- On a simple ring the function takes out exactly the marked edges, in order; the flag that it
-- returns says whether one of the edges behind the header was marked, or the only edge.
pub del_marked_lem :
    (es : List Edge)
    → is_simple es ≡ true
    → ((del_marked es).1 ≡ unmarked es) × ((del_marked es).0 ≡ any is_deleted (visited es))
del_marked_lem es s = (del_marked-ring es s, del_marked-flag es)

unmarked-none : (es : List Edge) → any is_deleted es ≡ false → unmarked es ≡ es
unmarked-none [] h = refl
unmarked-none (e ∷ es) h = ground (arith, unmarked-none es)

-- Where the header of a simple ring of two edges or more is the only marked edge, it is taken out
-- and the flag says that no edge was.
pub header_loss :
    (h e : Edge) (rest : List Edge)
    → is_simple (h ∷ e ∷ rest) ≡ true
    → is_deleted h ≡ true
    → any is_deleted (e ∷ rest) ≡ false
    → del_marked (h ∷ e ∷ rest) ≡ (false, e ∷ rest)
header_loss h e rest s t f = ground (
  arith,
  del_marked-ring (h ∷ e ∷ rest),
  del_marked-flag (h ∷ e ∷ rest),
  unmarked-none (e ∷ rest),
)
