-- ===== src/Controller/Links.antt =====
-- What one reported neighbour does to the graph: its vertex is found or made, and the edges in both
-- directions are there afterwards.
use idit_sdn.Base.{ℕ, ◌≡◌, refl, ◌∙◌, sym, subst, true, false, ◌==◌, ◌||◌, ◌&&◌}
use idit_sdn.Base.{List, [], ◌∷◌, some, arith, inl, inr, find?}
use idit_sdn.Base.{Option-cases, Bool-cases, ==→eq}
use mathlib.Core.Option
use idit_sdn.EdgeRing.{Edge, add_edge, find_edge}
use idit_sdn.EdgeRing.Laws.{has_edge, has-add_edge, find-add_edge, find_edge-none, find_edge-has}
use idit_sdn.EdgeRing.Reports.{is_current, add_edge-current}
use idit_sdn.Digraph.{Vertice, Digraph, edges_of, energy_of, lower, set_edges, modify}
use idit_sdn.Digraph.{digraph_add_vertice, digraph_find_vertice, digraph_get_vertice}
use idit_sdn.Digraph.{digraph_add_edge, digraph_find_edge}
use idit_sdn.Digraph.Store.{is_live, edges-set_edges, live-set_edges, edges-insert, live-insert}
use idit_sdn.Digraph.Invariant.{IsGraph, add_edge-IsGraph, fresh-dead}
use idit_sdn.Digraph.Vertices.{get_vertice_lem}
use idit_sdn.Controller.{Controller, known_vertice, link_both}
use idit_sdn.Controller.{check_full_graph}

pub find-set_edges :
    (id p : ℕ) (f : List Edge → List Edge) (g : Digraph)
    → digraph_find_vertice id (record g { vertices = set_edges p f g.vertices })
      ≡ digraph_find_vertice id g
unfolding digraph_find_vertice modify
find-set_edges id p f g = go g.vertices
  where
    go :
        (vs : List Vertice)
        → Option.map (λ (v : Vertice). v.ptr) (find? (λ v. v.vertice_id == id) (set_edges p f vs))
          ≡ Option.map (λ (v : Vertice). v.ptr) (find? (λ v. v.vertice_id == id) vs)
    go [] = refl
    go (v ∷ vs) = ground (arith, go vs)

-- The graph and the vertex of `known_vertice` are those of `digraph_get_vertice`.
pub known-get :
    (time msg_type id : ℕ) (c : Controller)
    → ((known_vertice time msg_type id c).2.graph ≡ (digraph_get_vertice id c.graph).1)
      × ((known_vertice time msg_type id c).0 ≡ (digraph_get_vertice id c.graph).0)
unfolding known_vertice check_full_graph digraph_get_vertice digraph_add_vertice
known-get time msg_type id c = (ground arith, ground arith)

-- A search for the id finds the vertex.
pub get-found :
    (id : ℕ) (g : Digraph)
    → digraph_find_vertice id (digraph_get_vertice id g).1 ≡ some (digraph_get_vertice id g).0
get-found id g = ground (arith, get_vertice_lem id id g)

pub get-keeps :
    (id q d : ℕ) (g : Digraph)
    → digraph_find_vertice q g ≡ some d
    → digraph_find_vertice q (digraph_get_vertice id g).1 ≡ some d
unfolding digraph_get_vertice
get-keeps id q d g h = ground (arith, get_vertice_lem id q g)

-- A vertex that is made has no edges, and no edges lead to it.
pub get-edges :
    (id p : ℕ) {g : Digraph}
    → IsGraph g
    → edges_of p (digraph_get_vertice id g).1.vertices ≡ edges_of p g.vertices
unfolding digraph_get_vertice digraph_add_vertice
get-edges id p {g} i = ground (arith, edges-insert p g.next_ptr id g.vertices, fresh-dead i)

pub get-live :
    (id p : ℕ) (g : Digraph)
    → is_live p g.vertices ≡ true
    → is_live p (digraph_get_vertice id g).1.vertices ≡ true
unfolding digraph_get_vertice digraph_add_vertice
get-live id p g h = ground (
  arith,
  live-insert p (record { ptr = g.next_ptr; vertice_id = id; edges = []; energy = 255 }) g.vertices,
)

-- The graph after the edges of a report, `p` the reporter and `d` the neighbour: the edge to the
-- neighbour is there and not marked, the one back is there, and nothing else changes.
pub record Linked (p d : ℕ) (g g' : Digraph) : Type 0 where
  pub graph : IsGraph g'
  pub live : (q : ℕ) → is_live q g.vertices ≡ true → is_live q g'.vertices ≡ true
  pub ids : (id : ℕ) → digraph_find_vertice id g' ≡ digraph_find_vertice id g
  pub current :
      (q : ℕ)
      → is_current (find_edge q (edges_of p g'.vertices))
        ≡ (d == q) || is_current (find_edge q (edges_of p g.vertices))
  pub edges :
      (r q : ℕ)
      → has_edge q (edges_of r g'.vertices)
        ≡ ((r == p) && (q == d)) || (((r == d) && (q == p)) || has_edge q (edges_of r g.vertices))

module _ (get_weight : ℕ → ℕ → ℕ) where
  -- One edge that is added
  has-digraph_add_edge :
      (from to etx r q : ℕ) (g : Digraph)
      → is_live from g.vertices ≡ true
      → has_edge q (edges_of r (digraph_add_edge get_weight from to etx g).1.vertices)
        ≡ ((r == from) && (q == to)) || has_edge q (edges_of r g.vertices)
  unfolding digraph_add_edge
  has-digraph_add_edge from to etx r q g live =
      let w = get_weight (lower (energy_of from g.vertices) (energy_of to g.vertices)) etx in
      ground (
        arith,
        edges-set_edges from r (λ es. (add_edge to etx w es).1) g.vertices live,
        has-add_edge to etx w q (edges_of r g.vertices),
      )

  live-digraph_add_edge :
      (from to etx q : ℕ) (g : Digraph)
      → is_live q (digraph_add_edge get_weight from to etx g).1.vertices ≡ is_live q g.vertices
  unfolding digraph_add_edge
  live-digraph_add_edge from to etx q g = live-set_edges from q _ g.vertices

  find-digraph_add_edge :
      (from to etx id : ℕ) (g : Digraph)
      → digraph_find_vertice id (digraph_add_edge get_weight from to etx g).1
        ≡ digraph_find_vertice id g
  unfolding digraph_add_edge
  find-digraph_add_edge from to etx id g = find-set_edges id from _ g

  current-digraph_add_edge :
      (from to etx p q : ℕ) (g : Digraph)
      → is_live from g.vertices ≡ true
      → is_current (find_edge q (edges_of p (digraph_add_edge get_weight from to etx g).1.vertices))
        ≡ ((from == p) && (to == q)) || is_current (find_edge q (edges_of p g.vertices))
  unfolding digraph_add_edge
  current-digraph_add_edge from to etx p q g live =
      let w = get_weight (lower (energy_of from g.vertices) (energy_of to g.vertices)) etx in
      ground (
        arith,
        edges-set_edges from p (λ es. (add_edge to etx w es).1) g.vertices live,
        find-add_edge to etx w q (edges_of p g.vertices),
        add_edge-current to etx w (edges_of p g.vertices),
      )

  -- Where there is an edge back already
  once-Linked :
      (p d etx : ℕ) {g : Digraph}
      → IsGraph g
      → is_live p g.vertices ≡ true
      → is_live d g.vertices ≡ true
      → has_edge p (edges_of d (digraph_add_edge get_weight p d etx g).1.vertices) ≡ true
      → Linked p d g (digraph_add_edge get_weight p d etx g).1
  once-Linked p d etx {g} i lp ld back = record {
    graph = add_edge-IsGraph get_weight p d etx i lp ld;
    live = λ q h. live-digraph_add_edge p d etx q g ∙ h;
    ids = λ id. find-digraph_add_edge p d etx id g;
    current = λ q. ground (arith, current-digraph_add_edge p d etx p q g lp);
    edges = λ r q. elim (Bool-cases ((r == d) && (q == p))) [
      | inl e ↦
          ground (arith, has-digraph_add_edge p d etx r q g lp, ==→eq r d, ==→eq q p, back_at r q e)
      | inr n ↦ ground (arith, has-digraph_add_edge p d etx r q g lp)
    ];
  }
    where
      back_at :
          (r q : ℕ)
          → (r == d) && (q == p) ≡ true
          → has_edge q (edges_of r (digraph_add_edge get_weight p d etx g).1.vertices) ≡ true
      back_at r q e =
          subst
            (λ x. has_edge x (edges_of r (digraph_add_edge get_weight p d etx g).1.vertices) ≡ true)
            (sym (==→eq q p (ground arith)))
            (subst
              (λ x.
                has_edge p (edges_of x (digraph_add_edge get_weight p d etx g).1.vertices) ≡ true)
              (sym (==→eq r d (ground arith))) back)

  twice-Linked :
      (p d etx : ℕ) {g : Digraph}
      → IsGraph g
      → is_live p g.vertices ≡ true
      → is_live d g.vertices ≡ true
      → (p == d) ≡ false
      → Linked p d g
          (digraph_add_edge get_weight d p etx (digraph_add_edge get_weight p d etx g).1).1
  twice-Linked p d etx {g} i lp ld away =
      let g' = (digraph_add_edge get_weight p d etx g).1 in
      let lp' = live-digraph_add_edge p d etx p g ∙ lp in
      let ld' = live-digraph_add_edge p d etx d g ∙ ld in
      record {
        graph =
            add_edge-IsGraph get_weight d p etx (add_edge-IsGraph get_weight p d etx i lp ld) ld'
              lp';
        live = λ q h. live-digraph_add_edge d p etx q g' ∙ (live-digraph_add_edge p d etx q g ∙ h);
        ids = λ id. find-digraph_add_edge d p etx id g' ∙ find-digraph_add_edge p d etx id g;
        current = λ q. ground (
          arith,
          current-digraph_add_edge d p etx p q g' ld',
          current-digraph_add_edge p d etx p q g lp,
        );
        edges = λ r q.
            ground (
              arith,
              has-digraph_add_edge d p etx r q g' ld',
              has-digraph_add_edge p d etx r q g lp,
            );
      }

  -- The edge to the neighbour and the one back, if a search finds none.
  pub link_both-Linked :
      (p d etx : ℕ) {g : Digraph}
      → IsGraph g
      → is_live p g.vertices ≡ true
      → is_live d g.vertices ≡ true
      → Linked p d g (link_both get_weight p d etx g).1
  unfolding link_both digraph_find_edge
  link_both-Linked p d etx {g} i lp ld =
      let g' = (digraph_add_edge get_weight p d etx g).1 in
      elim (Option-cases (find_edge p (edges_of d g'.vertices))) [
        | inr (e, h) ↦
            subst (Linked p d g) (sym (ground (arith, h))) (
              once-Linked p d etx i lp ld
                (ground (arith, find_edge-has p (edges_of d g'.vertices))))
        | inl h ↦ subst (Linked p d g) (sym (ground (arith, h))) (
            twice-Linked p d etx i lp ld (
              ground (
                arith,
                find_edge-none p (edges_of d g'.vertices),
                has-digraph_add_edge p d etx d p g lp,
                ==→eq p d,
              )))
      ]
