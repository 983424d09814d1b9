-- ===== src/Digraph/Energy.antt =====
-- `digraph_update_energy_vertice` of controller-server/digraph/digraph.c: a new energy of a vertex,
-- and the weights of its edges and of the reverse edges that follow from it.
pub mod Weights
use idit_sdn.Base.{ℕ, Bool, true, false, not, Option, none, some, List, [], ◌∷◌, map, any}
use idit_sdn.Base.{◌==◌, ◌||◌, ◌&&◌, if◌then◌else◌}
use idit_sdn.EdgeRing.{Edge, find_edge, update_edge}
use idit_sdn.Digraph.{Vertice, Digraph, edges_of, energy_of, id_of, set_edges, modify, lower}

unfoldable pub set_energy : ℕ → ℕ → Digraph → Digraph
set_energy p energy g = record g {
  vertices = modify p (λ v. record v { energy = energy }) g.vertices;
}

module _ (get_weight : ℕ → ℕ → ℕ) where
  -- The weight of an edge for the energies of its ends
  abbrev pub weight_for : ℕ → ℕ → Edge → ℕ
  weight_for a b e = get_weight (lower a b) e.etx

  abbrev pub reweigh : ℕ → ℕ → Edge → Edge
  reweigh a b e = record e { weight = weight_for a b e }

  abbrev pub is_outdated : ℕ → ℕ → Edge → Bool
  is_outdated a b e = not (e.weight == weight_for a b e)

  -- The reverse edges, in the ring of the vertex `d`: those to a vertex with the id of `p`.
  abbrev pub reweigh_reverse : ℕ → ℕ → List Vertice → Edge → Edge
  reweigh_reverse p d vs r =
      if id_of r.vertice vs == id_of p vs
      then reweigh (energy_of r.vertice vs) (energy_of d vs) r
      else r

  abbrev pub is_outdated_reverse : ℕ → ℕ → List Vertice → Edge → Bool
  is_outdated_reverse p d vs r =
      (id_of r.vertice vs == id_of p vs) && is_outdated (energy_of r.vertice vs) (energy_of d vs) r

  -- The edge from `p` to `d`, and whether its weight changed
  unfoldable pub update_forward : ℕ → ℕ → Digraph → Bool × Digraph
  update_forward p d g =
      let a = energy_of p g.vertices in
      let b = energy_of d g.vertices in
      (
        elim (find_edge d (edges_of p g.vertices)) as (λ _. Bool) [
          | none ↦ false
          | some e ↦ is_outdated a b e
        ],
        record g { vertices = set_edges p (update_edge d (reweigh a b)) g.vertices },
      )

  unfoldable pub update_reverse : ℕ → ℕ → Digraph → Bool × Digraph
  update_reverse p d g = (
    any (is_outdated_reverse p d g.vertices) (edges_of d g.vertices),
    record g { vertices = set_edges d (map (reweigh_reverse p d g.vertices)) g.vertices },
  )

  -- The body of the loop, at the edge from `p` to `d`; the flag is `changed`.
  unfoldable pub update_edges : ℕ → ℕ → Bool × Digraph → Bool × Digraph
  unfolding update_forward update_reverse
  update_edges p d (changed, g) =
      let (forward, g') = update_forward p d g in
      let (reverse, g'') = update_reverse p d g' in ((changed || forward) || reverse, g'')

  unfoldable pub update_edges_loop : ℕ → List ℕ → Bool × Digraph → Bool × Digraph
  unfolding update_edges
  update_edges_loop p [] s = s
  update_edges_loop p (d ∷ ds) s = update_edges_loop p ds (update_edges p d s)

  unfoldable pub digraph_update_energy_vertice : ℕ → ℕ → Digraph → Bool × Digraph
  unfolding update_edges_loop set_energy
  digraph_update_energy_vertice p energy g =
      if energy_of p g.vertices == energy
      then (false, g)
      else update_edges_loop p (map (λ e. e.vertice) (edges_of p g.vertices))
          (false, set_energy p energy g)
