-- ===== src/Tests/EdgeTests.antt =====
-- The rings of edges of digraph.c at concrete rings.
use idit_sdn.Base.{ℕ, ◌≡◌, refl, false, [], ◌∷◌}
use idit_sdn.EdgeRing.{Edge, edge_static, edge_deleted, del_marked}
use idit_sdn.EdgeRing.Flag.{header_loss}

abbrev kept : ℕ → Edge
kept p = record { vertice = p; etx = 10; weight = 20; status = edge_static }

abbrev marked : ℕ → Edge
marked p = record { vertice = p; etx = 10; weight = 20; status = edge_deleted }

header_loss_example : del_marked (marked 1 ∷ kept 2 ∷ kept 3 ∷ []) ≡ (false, kept 2 ∷ kept 3 ∷ [])
header_loss_example = header_loss (marked 1) (kept 2) (kept 3 ∷ []) refl refl refl
