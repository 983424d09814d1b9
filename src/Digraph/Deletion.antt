-- ===== src/Digraph/Deletion.antt =====
-- The deletions of digraph.c keep the invariant, and what they delete.
use idit_sdn.Base.{ℕ, ◌≡◌, refl, ◌∙◌, Bool, true, not, sym}
use idit_sdn.Base.{List, [], ◌∷◌, ◌&&◌, ◌==◌, if◌then◌else◌, filter, length}
use idit_sdn.Base.{arith}
use idit_sdn.EdgeRing.{Edge, del_edge, del_all_loop, del_towards, mark_all, mark_towards}
use idit_sdn.EdgeRing.{del_marked, del_marked_towards, leads_to, is_deleted}
use idit_sdn.EdgeRing.Laws.{has_edge, del_all_loop_lem}
use idit_sdn.EdgeRing.Marked.{without, marked_towards, del_edge-eq-without}
use idit_sdn.EdgeRing.Marked.{del_towards-eq-without, del_marked-ring, del_marked_towards_lem}
use idit_sdn.EdgeRing.Marked.{simple-filter, simple-mark_all, simple-mark_towards}
use idit_sdn.EdgeRing.Marked.{has-mark_all, has-mark_towards}
use idit_sdn.Digraph.{Digraph, edges_of, set_edges, in_all}
use idit_sdn.Digraph.{digraph_del_edge, digraph_del_edges_from}
use idit_sdn.Digraph.{digraph_del_edges_to, digraph_mark_edges_to_del_from}
use idit_sdn.Digraph.{digraph_mark_edges_to_del_towards, digraph_del_marked_edges_to_del_from}
use idit_sdn.Digraph.{digraph_del_marked_edges_to_del_towards, digraph_del_vertice}
use idit_sdn.Digraph.Store.{is_live, edges-set_edges, live-set_edges, edges-in_all}
use idit_sdn.Digraph.Store.{live-in_all, edges-unlink, live-unlink, distinct-unlink}
use idit_sdn.Digraph.Store.{distinct-modify, distinct-in_all}
use idit_sdn.Digraph.Invariant.{IsGraph, set_edges-IsGraph, in_all-IsGraph}

-- A test on edges that fails on all edges to a vertex leaves none.
has-filter_le :
    (p : Edge → Bool) (q : ℕ) (es : List Edge)
    → has_edge q (filter p es) ≡ true
    → has_edge q es ≡ true
has-filter_le p q [] h = h
has-filter_le p q (e ∷ es) h = ground (arith, has-filter_le p q es)

has-without : (p t : ℕ) (es : List Edge) → has_edge t (without p es) ≡ not (p == t) && has_edge t es
has-without p t [] = ground arith
has-without p t (e ∷ es) = ground (arith, has-without p t es)

module _ {g : Digraph} (p : ℕ) (i : IsGraph g) (live : is_live p g.vertices ≡ true) where
  pub del_edge-IsGraph : (to : ℕ) → IsGraph (digraph_del_edge p to g)
  unfolding digraph_del_edge
  del_edge-IsGraph to =
      set_edges-IsGraph p (del_edge to) i live
        (λ es s.
          ground
            (arith, del_edge-eq-without to es s, simple-filter (λ e. not (leads_to to e)) es s))
        (λ q h. i.closed p q (
          has-filter_le (λ e. not (leads_to to e)) q (edges_of p g.vertices)
            (ground (arith, del_edge-eq-without to (edges_of p g.vertices), i.simple p))))

  pub del_edges_from-IsGraph : IsGraph (digraph_del_edges_from p g)
  unfolding digraph_del_edges_from
  del_edges_from-IsGraph =
      set_edges-IsGraph p (λ es. del_all_loop (length es) es) i live
        (λ es s. ground (arith, del_all_loop_lem es))
        (λ q h. ground (arith, del_all_loop_lem (edges_of p g.vertices)))

  pub mark_from-IsGraph : IsGraph (digraph_mark_edges_to_del_from p g)
  unfolding digraph_mark_edges_to_del_from
  mark_from-IsGraph =
      set_edges-IsGraph p mark_all i live (λ es s. simple-mark_all es ∙ s)
        (λ q h. i.closed p q (sym (has-mark_all q (edges_of p g.vertices)) ∙ h))

  -- The deletion of the marked edges of a vertex of the ring keeps the invariant.
  pub del_marked_from-IsGraph : IsGraph (digraph_del_marked_edges_to_del_from p g).1
  unfolding digraph_del_marked_edges_to_del_from
  del_marked_from-IsGraph =
      set_edges-IsGraph p (λ es. (del_marked es).1) i live
        (λ es s. ground (arith, del_marked-ring es s, simple-filter (λ e. not (is_deleted e)) es s))
        (λ q h. i.closed p q (
          has-filter_le (λ e. not (is_deleted e)) q (edges_of p g.vertices)
            (ground (arith, del_marked-ring (edges_of p g.vertices), i.simple p))))

pub del_edges_to-IsGraph : {g : Digraph} (to : ℕ) → IsGraph g → IsGraph (digraph_del_edges_to to g)
unfolding digraph_del_edges_to del_towards
del_edges_to-IsGraph to i =
    in_all-IsGraph (del_towards to) i refl
      (λ es s.
        ground
          (arith, del_towards-eq-without to es s, simple-filter (λ e. not (leads_to to e)) es s))
      (λ q es s h.
        has-filter_le (λ e. not (leads_to to e)) q es
          (ground (arith, del_towards-eq-without to es s)))

pub mark_towards-IsGraph :
    {g : Digraph} (to : ℕ) → IsGraph g → IsGraph (digraph_mark_edges_to_del_towards to g)
unfolding digraph_mark_edges_to_del_towards mark_towards
mark_towards-IsGraph to i =
    in_all-IsGraph (mark_towards to) i refl (λ es s. simple-mark_towards to es ∙ s)
      (λ q es s h. sym (has-mark_towards q to es) ∙ h)

pub del_marked_towards-IsGraph :
    {g : Digraph} (to : ℕ) → IsGraph g → IsGraph (digraph_del_marked_edges_to_del_towards to g).1
unfolding digraph_del_marked_edges_to_del_towards del_marked_towards
del_marked_towards-IsGraph to i =
    in_all-IsGraph (λ es. (del_marked_towards to es).1) i refl
      (λ es s. ground (
        arith,
        del_marked_towards_lem to es s,
        simple-filter (λ e. not (marked_towards to e)) es s,
      ))
      (λ q es s h.
        has-filter_le (λ e. not (marked_towards to e)) q es
          (ground (arith, del_marked_towards_lem to es s)))

-- After `digraph_del_vertice` on a vertex of the ring that vertex has no edges, and every other
-- vertex has its edges but those to the deleted one, in their order.
pub del_vertice-edges :
    {g : Digraph} (p q : ℕ)
    → IsGraph g
    → is_live p g.vertices ≡ true
    → edges_of q (digraph_del_vertice p g).vertices
      ≡ (if p == q then [] else without p (edges_of q g.vertices))
unfolding digraph_del_vertice digraph_del_edges_to digraph_del_edges_from del_towards
del_vertice-edges {g} p q i live = ground (
  arith,
  edges-unlink p q (in_all (del_towards p) (set_edges p (λ es. del_all_loop (length es) es) vs)),
  distinct-in_all (del_towards p) (set_edges p (λ es. del_all_loop (length es) es) vs),
  distinct-modify p (λ v. record v { edges = del_all_loop (length v.edges) v.edges }) vs
      (λ v. refl),
  i.distinct,
  edges-in_all q (del_towards p) (set_edges p (λ es. del_all_loop (length es) es) vs) refl,
  edges-set_edges p q (λ es. del_all_loop (length es) es) vs live,
  del_towards-eq-without p (edges_of q vs) (i.simple q),
)
  where
    open g use {vertices as vs}

pub del_vertice-live :
    {g : Digraph} (p q : ℕ)
    → IsGraph g
    → is_live q (digraph_del_vertice p g).vertices ≡ not (p == q) && is_live q g.vertices
unfolding digraph_del_vertice digraph_del_edges_to digraph_del_edges_from
del_vertice-live {g} p q i = ground (
  arith,
  live-unlink p q (in_all (del_towards p) (set_edges p (λ es. del_all_loop (length es) es) vs)),
  distinct-in_all (del_towards p) (set_edges p (λ es. del_all_loop (length es) es) vs),
  distinct-modify p (λ v. record v { edges = del_all_loop (length v.edges) v.edges }) vs
      (λ v. refl),
  i.distinct,
  live-in_all q (del_towards p) (set_edges p (λ es. del_all_loop (length es) es) vs),
  live-set_edges p q (λ es. del_all_loop (length es) es) vs,
)
  where
    open g use {vertices as vs}

-- The deletion of a vertex of the ring keeps the invariant.
pub del_vertice-IsGraph :
    {g : Digraph} (p : ℕ)
    → IsGraph g
    → is_live p g.vertices ≡ true
    → IsGraph (digraph_del_vertice p g)
unfolding digraph_del_vertice
del_vertice-IsGraph {g} p i live =
    let j = del_edges_to-IsGraph p (del_edges_from-IsGraph p i live) in
    record {
      distinct = distinct-unlink p [] _ refl j.distinct (λ q. refl);
      bounded = λ q h. i.bounded q (ground (arith, del_vertice-live p q i));
      simple = λ q. ground (
        arith,
        del_vertice-edges p q i live,
        simple-filter (λ e. not (leads_to p e)) (edges_of q g.vertices) (i.simple q),
      );
      closed = λ q t h. ground (
        arith,
        del_vertice-edges p q i live,
        del_vertice-live p t i,
        has-without p t (edges_of q g.vertices),
        i.closed q t,
      );
    }
