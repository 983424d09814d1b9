-- ===== src/Digraph/Energy/Weights.antt =====
-- The weights of the edges after `digraph_update_energy_vertice`.
use idit_sdn.Base.{ℕ, ◌≡◌, refl, ◌∙◌, sym, subst, Bool, true, false, none, some}
use idit_sdn.Base.{List, [], ◌∷◌, map, any, ◌==◌, ◌||◌, ◌&&◌, arith}
use idit_sdn.Base.{Bool-cases, Option-cases, inl, inr, ==→eq}
use mathlib.Core.Option
use idit_sdn.EdgeRing.{Edge, find_edge, update_edge}
use idit_sdn.EdgeRing.Laws.{has_edge, is_simple, find-update_edge, find_edge-some}
use idit_sdn.EdgeRing.Laws.{find_edge-has, has-update_edge, simple-update_edge}
use idit_sdn.Digraph.{Vertice, Digraph, edges_of, energy_of, lower}
use idit_sdn.Digraph.Store.{is_live, edges-set_edges, energy-set_edges, live-set_edges}
use idit_sdn.Digraph.Store.{vertice_at-modify, live-modify, distinct-modify}
use idit_sdn.Digraph.Invariant.{IsGraph, set_edges-IsGraph}
use idit_sdn.Digraph.Energy.{set_energy, weight_for, reweigh, reweigh_reverse, update_edges}
use idit_sdn.Digraph.Energy.{update_forward, update_reverse}
use idit_sdn.Digraph.Energy.{update_edges_loop, digraph_update_energy_vertice}

-- A change of edges that keeps where they lead
abbrev KeepsEnd : (Edge → Edge) → Type 0
KeepsEnd f = (e : Edge) → (f e).vertice ≡ e.vertice

find-map :
    (f : Edge → Edge) (q : ℕ) (es : List Edge)
    → KeepsEnd f
    → find_edge q (map f es) ≡ Option.map f (find_edge q es)
find-map f q [] k = refl
find-map f q (e ∷ es) k = ground (arith, k e, find-map f q es k)

has-map :
    (f : Edge → Edge) (q : ℕ) (es : List Edge) → KeepsEnd f → has_edge q (map f es) ≡ has_edge q es
has-map f q [] k = refl
has-map f q (e ∷ es) k = ground (arith, k e, has-map f q es k)

simple-map : (f : Edge → Edge) (es : List Edge) → KeepsEnd f → is_simple (map f es) ≡ is_simple es
simple-map f [] k = refl
simple-map f (e ∷ es) k = ground (arith, k e, has-map f e.vertice es k, simple-map f es k)

edges-set_energy :
    (p energy q : ℕ) (g : Digraph)
    → edges_of q (set_energy p energy g).vertices ≡ edges_of q g.vertices
unfolding set_energy edges_of
edges-set_energy p energy q g =
    ground (arith, vertice_at-modify p q (λ v. record v { energy = energy }) g.vertices (λ v. refl))

energy-set_energy :
    (p energy q : ℕ) (g : Digraph)
    → (q == p) ≡ false
    → energy_of q (set_energy p energy g).vertices ≡ energy_of q g.vertices
unfolding set_energy energy_of
energy-set_energy p energy q g away =
    ground (arith, vertice_at-modify p q (λ v. record v { energy = energy }) g.vertices (λ v. refl))

live-set_energy :
    (p energy q : ℕ) (g : Digraph)
    → is_live q (set_energy p energy g).vertices ≡ is_live q g.vertices
unfolding set_energy
live-set_energy p energy q g = live-modify p q _ g.vertices (λ v. refl)

has-targets : (q : ℕ) (es : List Edge) → any (λ x. x == q) (map (λ e. e.vertice) es) ≡ has_edge q es
has-targets q [] = refl
has-targets q (e ∷ es) = ground (arith, has-targets q es)

set_energy-IsGraph : {g : Digraph} (p energy : ℕ) → IsGraph g → IsGraph (set_energy p energy g)
unfolding set_energy
set_energy-IsGraph {g} p energy i =
    let f : Vertice → Vertice = λ v. record v { energy = energy } in
    record {
      distinct = distinct-modify p f g.vertices (λ v. refl) ∙ i.distinct;
      bounded = λ q h. i.bounded q (ground (arith, live-modify p q f g.vertices (λ v. refl)));
      simple = λ q. ground (arith, edges-set_energy p energy q g, i.simple q);
      closed = λ q t h. ground (
        arith,
        edges-set_energy p energy q g,
        i.closed q t,
        live-modify p t f g.vertices (λ v. refl),
      );
    }

lower-sym : (a b : ℕ) → lower a b ≡ lower b a
lower-sym a b = ground arith

module _ (get_weight : ℕ → ℕ → ℕ) where
  -- The edge from `a` to `q`, if there is one, has the weight of the lower energy of its ends.
  abbrev pub is_weighed : ℕ → ℕ → Digraph → Bool
  is_weighed a q g = elim (find_edge q (edges_of a g.vertices)) [
    | none ↦ true
    | some e ↦ e.weight == weight_for get_weight (energy_of a g.vertices) (energy_of q g.vertices) e
  ]

  forward-weighed :
      (p d a q : ℕ) (g : Digraph)
      → is_live p g.vertices ≡ true
      → is_weighed a q g || ((a == p) && (q == d)) ≡ true
      → is_weighed a q (update_forward get_weight p d g).1 ≡ true
  unfolding update_forward
  forward-weighed p d a q g lp h =
      let f = reweigh get_weight (energy_of p g.vertices) (energy_of d g.vertices) in
      ground (
        arith,
        edges-set_edges p a (update_edge d f) g.vertices lp,
        find-update_edge d q f (edges_of a g.vertices) (λ e. refl),
        energy-set_edges p a (update_edge d f) g.vertices,
        energy-set_edges p q (update_edge d f) g.vertices,
        ==→eq a p,
        ==→eq q d,
      )

  reverse-weighed :
      (p d a q : ℕ) (g : Digraph)
      → is_live d g.vertices ≡ true
      → is_weighed a q g || ((a == d) && (q == p)) ≡ true
      → is_weighed a q (update_reverse get_weight p d g).1 ≡ true
  unfolding update_reverse
  reverse-weighed p d a q g ld h =
      let f = reweigh_reverse get_weight p d g.vertices in
      let keep : KeepsEnd f = λ e. ground arith in
      elim (Option-cases (find_edge q (edges_of a g.vertices))) [
        | inl none_there ↦ ground (
          arith,
          none_there,
          edges-set_edges d a (map f) g.vertices ld,
          find-map f q (edges_of a g.vertices) keep,
        )
        | inr (e, there) ↦ ground (
          arith,
          there,
          edges-set_edges d a (map f) g.vertices ld,
          find-map f q (edges_of a g.vertices) keep,
          energy-set_edges d a (map f) g.vertices,
          energy-set_edges d q (map f) g.vertices,
          find_edge-some q (edges_of a g.vertices) e there,
          lower-sym (energy_of q g.vertices) (energy_of d g.vertices),
          ==→eq a d,
          ==→eq q p,
        )
      ]

  forward-IsGraph :
      (p d : ℕ) {g : Digraph}
      → IsGraph g
      → is_live p g.vertices ≡ true
      → IsGraph (update_forward get_weight p d g).1
  unfolding update_forward
  forward-IsGraph p d {g} i lp =
      let f = reweigh get_weight (energy_of p g.vertices) (energy_of d g.vertices) in
      set_edges-IsGraph p (update_edge d f) i lp (λ es s. simple-update_edge d f es (λ e. refl) ∙ s)
        (λ q h.
          i.closed p q (ground (arith, has-update_edge d q f (edges_of p g.vertices) (λ e. refl))))

  reverse-IsGraph :
      (p d : ℕ) {g : Digraph}
      → IsGraph g
      → is_live d g.vertices ≡ true
      → IsGraph (update_reverse get_weight p d g).1
  unfolding update_reverse
  reverse-IsGraph p d {g} i ld =
      let f = reweigh_reverse get_weight p d g.vertices in
      let keep : KeepsEnd f = λ e. ground arith in
      set_edges-IsGraph d (map f) i ld (λ es s. simple-map f es keep ∙ s)
        (λ q h. i.closed d q (ground (arith, has-map f q (edges_of d g.vertices) keep)))

  forward-live :
      (p d q : ℕ) (g : Digraph)
      → is_live q (update_forward get_weight p d g).1.vertices ≡ is_live q g.vertices
  unfolding update_forward
  forward-live p d q g = live-set_edges p q _ g.vertices

  reverse-live :
      (p d q : ℕ) (g : Digraph)
      → is_live q (update_reverse get_weight p d g).1.vertices ≡ is_live q g.vertices
  unfolding update_reverse
  reverse-live p d q g = live-set_edges d q _ g.vertices

  -- The edge from `a` to `q` is one that the loop has still to visit, or a reverse edge of one.
  abbrev is_pending : ℕ → List ℕ → ℕ → ℕ → Bool
  is_pending p ds a q = ((a == p) && any (λ x. x == q) ds) || ((q == p) && any (λ x. x == a) ds)

  loop-weighed :
      (p : ℕ) (ds : List ℕ) (changed : Bool) {g : Digraph}
      → IsGraph g
      → is_live p g.vertices ≡ true
      → ((d : ℕ) → any (λ x. x == d) ds ≡ true → is_live d g.vertices ≡ true)
      → ((a q : ℕ) → is_weighed a q g || is_pending p ds a q ≡ true)
      → let g' = (update_edges_loop get_weight p ds (changed, g)).1 in
        IsGraph g' × ((a q : ℕ) → is_weighed a q g' ≡ true)
  unfolding update_edges_loop update_edges
  loop-weighed p [] changed i lp live w = (i, λ a q. ground (arith, w a q))
  loop-weighed p (d ∷ ds) changed {g} i lp live w =
      let g1 = (update_forward get_weight p d g).1 in
      let ld1 = forward-live p d d g ∙ live d (ground arith) in
      loop-weighed p ds _ (reverse-IsGraph p d (forward-IsGraph p d i lp) ld1)
        (reverse-live p d p g1 ∙ (forward-live p d p g ∙ lp))
        (λ x h. reverse-live p d x g1 ∙ (forward-live p d x g ∙ live x (ground arith)))
        (λ a q. ground (
          arith,
          w a q,
          forward-weighed p d a q g lp,
          reverse-weighed p d a q g1 ld1,
          ==→eq q d,
          ==→eq a d,
          ==→eq d q,
          ==→eq d a,
        ))

  -- The edges whose weights are not right once the energy was written are those of the loop.
  start-weighed :
      (p energy a q : ℕ) (g : Digraph)
      → (has_edge p (edges_of a g.vertices) ≡ true → has_edge a (edges_of p g.vertices) ≡ true)
      → is_weighed a q g ≡ true
      → is_weighed a q (set_energy p energy g)
          || is_pending p (map (λ e. e.vertice) (edges_of p g.vertices)) a q
        ≡ true
  start-weighed p energy a q g symmetric w = ground (
    arith,
    edges-set_energy p energy a g,
    energy-set_energy p energy a g,
    energy-set_energy p energy q g,
    has-targets q (edges_of p g.vertices),
    has-targets a (edges_of p g.vertices),
    find_edge-has q (edges_of a g.vertices),
    ==→eq a p,
    ==→eq q p,
  )

  -- Where every edge has the weight of the lower energy of its ends, and every edge to the vertex
  -- has one that leads back, the same holds after its energy was updated, and the graph keeps its
  -- invariant.
  pub update_energy_lem :
      (p energy : ℕ) (g : Digraph)
      → IsGraph g
      → is_live p g.vertices ≡ true
      → ((a : ℕ)
          → has_edge p (edges_of a g.vertices) ≡ true
          → has_edge a (edges_of p g.vertices) ≡ true)
      → ((a q : ℕ) → is_weighed a q g ≡ true)
      → let g' = (digraph_update_energy_vertice get_weight p energy g).1 in
        IsGraph g' × ((a q : ℕ) → is_weighed a q g' ≡ true)
  unfolding digraph_update_energy_vertice
  update_energy_lem p energy g i lp symmetric w =
      let g1 = set_energy p energy g in
      let ds = map (λ e. e.vertice) (edges_of p g.vertices) in
      elim (Bool-cases (energy_of p g.vertices == energy)) [
        | inl same ↦
            (subst IsGraph (sym (ground (arith, same))) i, λ a q. ground (arith, same, w a q))
        | inr new ↦
            let (i', w') =
              loop-weighed p ds false (set_energy-IsGraph p energy i)
                (live-set_energy p energy p g ∙ lp)
                (λ d h.
                  live-set_energy p energy d g
                  ∙ i.closed p d (sym (has-targets d (edges_of p g.vertices)) ∙ h))
                (λ a q. start-weighed p energy a q g (symmetric a) (w a q)) in
            (subst IsGraph (sym (ground (arith, new))) i', λ a q. ground (arith, new, w' a q))
      ]
