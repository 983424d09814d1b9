-- ===== src/Digraph/Invariant.antt =====
-- The invariant of digraph.c, kept by every function that changes the graph.
use idit_sdn.Base.{ℕ, ◌<◌, ◌≡◌, refl, ◌∙◌, true, false}
use idit_sdn.Base.{List, [], ◌==◌}
use idit_sdn.Base.{Bool-cases, inl, inr, arith, Option, some, none, ==→eq, subst, sym}
use idit_sdn.EdgeRing.{Edge}
use idit_sdn.EdgeRing.Laws.{has_edge, is_simple, has-add_edge, simple-add_edge}
use idit_sdn.Digraph.{Digraph, edges_of, energy_of, lower, set_edges, in_all}
use idit_sdn.Digraph.{new_vertice}
use idit_sdn.Digraph.{digraph_add_vertice, digraph_find_vertice, digraph_get_vertice}
use idit_sdn.Digraph.{digraph_add_edge}
use idit_sdn.Digraph.Store.{is_live, is_distinct, edges-set_edges, live-set_edges, edges-in_all}
use idit_sdn.Digraph.Store.{live-in_all, live-insert, edges-insert}
use idit_sdn.Digraph.Store.{distinct-modify, distinct-in_all, distinct-insert}

-- The pointers of the ring are distinct and were handed out; the edges of a vertex lead to distinct
-- vertices of the ring.
pub record IsGraph (g : Digraph) : Type 0 where
  pub distinct : is_distinct g.vertices ≡ true
  pub bounded : (p : ℕ) → is_live p g.vertices ≡ true → p < g.next_ptr
  pub simple : (p : ℕ) → is_simple (edges_of p g.vertices) ≡ true
  pub closed : (p q : ℕ) → has_edge q (edges_of p g.vertices) ≡ true → is_live q g.vertices ≡ true

-- A change of the edges that brings no edge to a vertex outside the ring and no second edge to a
-- vertex keeps the invariant, on one vertex
pub set_edges-IsGraph :
    {g : Digraph} (p : ℕ) (f : List Edge → List Edge)
    → IsGraph g
    → is_live p g.vertices ≡ true
    → ((es : List Edge) → is_simple es ≡ true → is_simple (f es) ≡ true)
    → ((q : ℕ) → has_edge q (f (edges_of p g.vertices)) ≡ true → is_live q g.vertices ≡ true)
    → IsGraph (record g { vertices = set_edges p f g.vertices })
set_edges-IsGraph {g} p f i live keep target = record {
  distinct = distinct-modify p (λ v. record v { edges = f v.edges }) vs (λ v. refl) ∙ i.distinct;
  bounded = λ q h. i.bounded q (ground (arith, live-set_edges p q f vs));
  simple = λ q. ground (arith, edges-set_edges p q f vs live, i.simple q, keep (edges_of q vs));
  closed = λ q t h.
      ground
        (arith, edges-set_edges p q f vs live, i.closed q t, live-set_edges p t f vs, target t);
}
  where
    open g use {vertices as vs}

-- and on all.
pub in_all-IsGraph :
    {g : Digraph} (f : List Edge → List Edge)
    → IsGraph g
    → f [] ≡ []
    → ((es : List Edge) → is_simple es ≡ true → is_simple (f es) ≡ true)
    → ((q : ℕ) (es : List Edge)
        → is_simple es ≡ true
        → has_edge q (f es) ≡ true
        → has_edge q es ≡ true)
    → IsGraph (record g { vertices = in_all f g.vertices })
in_all-IsGraph {g} f i nil keep less = record {
  distinct = distinct-in_all f vs ∙ i.distinct;
  bounded = λ q h. i.bounded q (ground (arith, live-in_all q f vs));
  simple = λ q. ground (arith, edges-in_all q f vs nil, i.simple q, keep (edges_of q vs));
  closed = λ q t h. ground (
    arith,
    edges-in_all q f vs nil,
    i.closed q t,
    i.simple q,
    live-in_all t f vs,
    less t (edges_of q vs),
  );
}
  where
    open g use {vertices as vs}

pub fresh-dead : {g : Digraph} → IsGraph g → is_live g.next_ptr g.vertices ≡ false
fresh-dead {g} i = ground (arith, i.bounded g.next_ptr)

-- A new vertex keeps the invariant.
pub add_vertice-IsGraph : {g : Digraph} (id : ℕ) → IsGraph g → IsGraph (digraph_add_vertice id g).1
unfolding digraph_add_vertice
add_vertice-IsGraph {g} id i = record {
  distinct = distinct-insert (new_vertice g.next_ptr id) g.vertices (fresh-dead i) i.distinct;
  bounded =
      λ p h. ground (arith, live-insert p (new_vertice g.next_ptr id) g.vertices, i.bounded p);
  simple = λ p. ground (arith, edges-insert p g.next_ptr id g.vertices (fresh-dead i), i.simple p);
  closed = λ p q h. ground (
    arith,
    edges-insert p g.next_ptr id g.vertices (fresh-dead i),
    i.closed p q,
    live-insert q (new_vertice g.next_ptr id) g.vertices,
  );
}

-- `digraph_get_vertice` keeps the invariant, whether it finds the vertex or makes it.
pub get_vertice-IsGraph : {g : Digraph} (id : ℕ) → IsGraph g → IsGraph (digraph_get_vertice id g).1
unfolding digraph_get_vertice
get_vertice-IsGraph {g} id i = go (digraph_find_vertice id g)
  where
    go :
        (o : Option ℕ)
        → IsGraph (
            let r : ℕ × Digraph = elim o [ some p ↦ (p, g) | none ↦ digraph_add_vertice id g ] in
            r.1)
    go none = add_vertice-IsGraph id i
    go (some p) = i

-- `digraph_add_edge` between two vertices of the ring keeps the invariant.
pub add_edge-IsGraph :
    (get_weight : ℕ → ℕ → ℕ) (from to etx : ℕ) {g : Digraph}
    → IsGraph g
    → is_live from g.vertices ≡ true
    → is_live to g.vertices ≡ true
    → IsGraph (digraph_add_edge get_weight from to etx g).1
unfolding digraph_add_edge
add_edge-IsGraph get_weight from to etx {g} i hf ht =
    set_edges-IsGraph from _ i hf (λ es. simple-add_edge to etx _ es)
      (λ q h. elim (Bool-cases (q == to)) [
        | inl e ↦ subst (λ k. is_live k g.vertices ≡ true) (sym (==→eq q to e)) ht
        | inr n ↦ i.closed from q (
            ground (
              arith,
              has-add_edge to etx
                  (get_weight (lower (energy_of from g.vertices) (energy_of to g.vertices)) etx) q
                  (edges_of from g.vertices),
            ))
      ])
