-- ===== src/Controller/Reports.antt =====
-- A whole neighbour report of sdn-process-packets-controller.c, on the graph.
use idit_sdn.Base.{
  ℕ, ◌≡◌, refl, ◌∙◌, sym, subst, Bool, true, false, ◌==◌, ◌||◌, ◌&&◌, if◌then◌else◌,
}
use idit_sdn.Base.{
  List, [], ◌∷◌, some, none, arith, any, all, Option-cases, inl, inr, Bool-cases, ==→eq,
}
use idit_sdn.EdgeRing.{find_edge, mark_all, del_marked}
use idit_sdn.EdgeRing.Laws.{has_edge}
use idit_sdn.EdgeRing.Marked.{del_marked-ring}
use idit_sdn.EdgeRing.Reports.{is_current, has-unmarked, current-mark_all}
use idit_sdn.Digraph.{Digraph, edges_of, digraph_find_vertice, digraph_get_vertice}
use idit_sdn.Digraph.{digraph_mark_edges_to_del_from, digraph_del_marked_edges_to_del_from}
use idit_sdn.Digraph.Store.{is_live, edges-set_edges, live-set_edges}
use idit_sdn.Digraph.Invariant.{IsGraph, get_vertice-IsGraph}
use idit_sdn.Digraph.Deletion.{mark_from-IsGraph, del_marked_from-IsGraph}
use idit_sdn.Digraph.Vertices.{find-live}
use idit_sdn.Controller.{Neighbor, Controller, known_vertice, link_both, report_neighbor}
use idit_sdn.Controller.{report_neighbors, process_neighbor_report, full_graph_type}
use idit_sdn.Controller.Links.{link_both-Linked, known-get, get-found, get-keeps}
use idit_sdn.Controller.Links.{get-edges, get-live, find-set_edges}

-- Does a search for the id find the vertex?
abbrev pub stands_for : ℕ → ℕ → Digraph → Bool
stands_for id q g = elim (digraph_find_vertice id g) [ none ↦ false | some d ↦ d == q ]

-- An edge from the neighbour's vertex to the reporter
abbrev pub has_back : ℕ → Digraph → Neighbor → Bool
has_back p g n = elim (digraph_find_vertice n.neighbor g) [
  | none ↦ false
  | some d ↦ has_edge p (edges_of d g.vertices)
]

-- The graph `g'` after reports of `p` on `g`
pub record Reported (p : ℕ) (ns : List Neighbor) (g g' : Digraph) : Type 0 where
  pub graph : IsGraph g'
  pub live : (q : ℕ) → is_live q g.vertices ≡ true → is_live q g'.vertices ≡ true
  pub ids : (id d : ℕ) → digraph_find_vertice id g ≡ some d → digraph_find_vertice id g' ≡ some d
  pub current :
      (q : ℕ)
      → is_current (find_edge q (edges_of p g'.vertices))
        ≡ any (λ n. stands_for n.neighbor q g') ns
          || is_current (find_edge q (edges_of p g.vertices))
  pub back : all (has_back p g') ns ≡ true
  pub more :
      (r q : ℕ)
      → has_edge q (edges_of r g.vertices) ≡ true
      → has_edge q (edges_of r g'.vertices) ≡ true
  pub others :
      (r q : ℕ)
      → (r == p) ≡ false
      → has_edge q (edges_of r g'.vertices)
        ≡ ((q == p) && any (λ n. stands_for n.neighbor r g') ns)
          || has_edge q (edges_of r g.vertices)

none-Reported : {p : ℕ} {g : Digraph} → IsGraph g → Reported p [] g g
none-Reported i = record {
  graph = i;
  live = λ q h. h;
  ids = λ id d h. h;
  current = λ q. refl;
  back = refl;
  more = λ r q h. h;
  others = λ r q _. ground arith;
}

-- One neighbour, with its vertex
one-Reported :
    (get_weight : ℕ → ℕ → ℕ) (p : ℕ) (n : Neighbor) {g : Digraph}
    → IsGraph g
    → is_live p g.vertices ≡ true
    → let (d, g1) = digraph_get_vertice n.neighbor g in
      Reported p (n ∷ []) g (link_both get_weight p d n.etx g1).1
one-Reported get_weight p n {g} i lp =
    let g1 = (digraph_get_vertice n.neighbor g).1 in
    let d = (digraph_get_vertice n.neighbor g).0 in
    let i1 = get_vertice-IsGraph n.neighbor i in
    let found = get-found n.neighbor g in
    let l =
      link_both-Linked get_weight p d n.etx i1 (get-live n.neighbor p g lp)
        (find-live n.neighbor d g1 found) in
    record {
      graph = l.graph;
      live = λ q h. l.live q (get-live n.neighbor q g h);
      ids = λ id e h. l.ids id ∙ get-keeps n.neighbor id e g h;
      current = λ q. ground (arith, l.current q, l.ids n.neighbor, found, get-edges n.neighbor p i);
      back = ground (arith, l.ids n.neighbor, found, l.edges d p);
      more = λ r q h. ground (arith, l.edges r q, get-edges n.neighbor r i);
      others =
          λ r q a. ground (arith, l.edges r q, l.ids n.neighbor, found, get-edges n.neighbor r i);
    }

has_back-more :
    {p : ℕ} {ns : List Neighbor} {g g' : Digraph} (n : Neighbor)
    → Reported p ns g g'
    → has_back p g n ≡ true
    → has_back p g' n ≡ true
has_back-more {p} {ns} {g} {g'} n r h = elim (Option-cases (digraph_find_vertice n.neighbor g)) [
  | inl e ↦ ground (arith, e)
  | inr (d, e) ↦ ground (arith, e, r.ids n.neighbor d, r.more d p)
]

stands-more :
    {p : ℕ} {ns : List Neighbor} {g g' : Digraph} (id q d : ℕ)
    → Reported p ns g g'
    → digraph_find_vertice id g ≡ some d
    → stands_for id q g' ≡ stands_for id q g
stands-more id q d r e = ground (arith, e, r.ids id d)

-- The vertex of a reported neighbour is there.
found-back :
    (p : ℕ) (g : Digraph) (n : Neighbor)
    → has_back p g n ≡ true
    → (d : ℕ) × (digraph_find_vertice n.neighbor g ≡ some d)
found-back p g n h = elim (Option-cases (digraph_find_vertice n.neighbor g)) [
  | inl e ↦ absurd (ground (arith, e))
  | inr (d, e) ↦ (d, e)
]

then-Reported :
    {p : ℕ} (n : Neighbor) {ns : List Neighbor} {g g1 g2 : Digraph}
    → Reported p (n ∷ []) g g1
    → Reported p ns g1 g2
    → Reported p (n ∷ ns) g g2
then-Reported {p} n {ns} {g} {g1} {g2} r s =
    let back1 : has_back p g1 n ≡ true = ground (arith, r.back) in
    let (d, e) = found-back p g1 n back1 in
    record {
      graph = s.graph;
      live = λ q h. s.live q (r.live q h);
      ids = λ id e h. s.ids id e (r.ids id e h);
      current = λ q. ground (arith, s.current q, r.current q, stands-more n.neighbor q d s e);
      back = ground (arith, s.back, has_back-more n s back1);
      more = λ a q h. s.more a q (r.more a q h);
      others =
          λ a q x. ground (arith, s.others a q x, r.others a q x, stands-more n.neighbor a d s e);
    }

-- The loop over the neighbours
all-Reported :
    (get_weight : ℕ → ℕ → ℕ) (p : ℕ) (ns : List Neighbor) (changed : Bool) (c : Controller)
    → IsGraph c.graph
    → is_live p c.graph.vertices ≡ true
    → Reported p ns c.graph (report_neighbors get_weight p ns (changed, c)).1.graph
unfolding report_neighbors report_neighbor
all-Reported get_weight p [] changed c i lp = none-Reported i
all-Reported get_weight p (n ∷ ns) changed c i lp =
    let s = report_neighbor get_weight p n (changed, c) in
    let (kg, kd) = known-get 0 full_graph_type n.neighbor c in
    let first : Reported p (n ∷ []) c.graph s.1.graph =
      subst (Reported p (n ∷ []) c.graph) (ground (arith, kg, kd))
        (one-Reported get_weight p n i lp) in
    then-Reported n first (all-Reported get_weight p ns s.0 s.1 first.graph (first.live p lp))

live-digraph_mark :
    (p q : ℕ) (g : Digraph)
    → is_live q (digraph_mark_edges_to_del_from p g).vertices ≡ is_live q g.vertices
unfolding digraph_mark_edges_to_del_from
live-digraph_mark p q g = live-set_edges p q mark_all g.vertices

find-digraph_mark :
    (p id : ℕ) (g : Digraph)
    → digraph_find_vertice id (digraph_mark_edges_to_del_from p g) ≡ digraph_find_vertice id g
unfolding digraph_mark_edges_to_del_from
find-digraph_mark p id g = find-set_edges id p mark_all g

digraph_mark-current :
    (p q : ℕ) (g : Digraph)
    → is_live p g.vertices ≡ true
    → is_current (find_edge q (edges_of p (digraph_mark_edges_to_del_from p g).vertices)) ≡ false
unfolding digraph_mark_edges_to_del_from
digraph_mark-current p q g lp =
    ground (
      arith,
      edges-set_edges p p mark_all g.vertices lp,
      current-mark_all q (edges_of p g.vertices),
    )

any-stands :
    (q : ℕ) (ns : List Neighbor) (g g' : Digraph)
    → ((id : ℕ) → digraph_find_vertice id g' ≡ digraph_find_vertice id g)
    → any (λ n. stands_for n.neighbor q g') ns ≡ any (λ n. stands_for n.neighbor q g) ns
any-stands q [] g g' same = refl
any-stands q (n ∷ ns) g g' same = ground (arith, any-stands q ns g g' same, same n.neighbor)

-- The marked edges of the reporter are taken out.
module _ (p : ℕ) (ns : List Neighbor) (g g2 : Digraph) (live : is_live p g.vertices ≡ true)
    (r : Reported p ns (digraph_mark_edges_to_del_from p g) g2)
    (live2 : is_live p g2.vertices ≡ true) where
  ids-del_marked :
      (id : ℕ)
      → digraph_find_vertice id (digraph_del_marked_edges_to_del_from p g2).1
        ≡ digraph_find_vertice id g2
  unfolding digraph_del_marked_edges_to_del_from
  ids-del_marked id = find-set_edges id p (λ es. (del_marked es).1) g2

  edges-own :
      (q : ℕ)
      → has_edge q (edges_of p (digraph_del_marked_edges_to_del_from p g2).1.vertices)
        ≡ any (λ n. stands_for n.neighbor q g2) ns
  unfolding digraph_del_marked_edges_to_del_from
  edges-own q = ground (
    arith,
    edges-set_edges p p (λ es. (del_marked es).1) g2.vertices live2,
    del_marked-ring (edges_of p g2.vertices),
    r.graph.simple p,
    has-unmarked q (edges_of p g2.vertices),
    r.current q,
    digraph_mark-current p q g live,
  )

  edges-other :
      (a q : ℕ)
      → (a == p) ≡ false
      → has_edge q (edges_of a (digraph_del_marked_edges_to_del_from p g2).1.vertices)
        ≡ ((q == p) && any (λ n. stands_for n.neighbor a g2) ns)
          || has_edge q (edges_of a g.vertices)
  unfolding digraph_del_marked_edges_to_del_from digraph_mark_edges_to_del_from
  edges-other a q away = ground (
    arith,
    edges-set_edges p a (λ es. (del_marked es).1) g2.vertices live2,
    edges-set_edges p a mark_all g.vertices live,
    r.others a q away,
    ==→eq p a,
  )

  -- All edges, in terms of the searches of the last graph
  edges-del_marked :
      (a q : ℕ)
      → let g' = (digraph_del_marked_edges_to_del_from p g2).1 in
        has_edge q (edges_of a g'.vertices) ≡ (
          if a == p
          then any (λ n. stands_for n.neighbor q g') ns
          else ((q == p) && any (λ n. stands_for n.neighbor a g') ns)
            || has_edge q (edges_of a g.vertices))
  edges-del_marked a q =
      let g' = (digraph_del_marked_edges_to_del_from p g2).1 in
      elim (Bool-cases (a == p)) [
        | inl e ↦ ground (arith, e, ==→eq a p e, edges-own q, any-stands q ns g2 g' ids-del_marked)
        | inr n ↦ ground (arith, n, edges-other a q n, any-stands a ns g2 g' ids-del_marked)
      ]

-- After the report of a node its vertex is in the graph and the invariant holds. Its vertex has
-- edges exactly to the vertices of the reported neighbours. Any other vertex has the edges that it
-- had, and, if it is a reported neighbour, one to the reporter.
pub process_neighbor_report_lem :
    (get_weight : ℕ → ℕ → ℕ) (reliable : Bool) (id : ℕ) (ns : List Neighbor) (c : Controller)
    → IsGraph c.graph
    → let g' = (process_neighbor_report get_weight reliable id ns c).graph in
      (p : ℕ) × (digraph_find_vertice id g' ≡ some p)
      × IsGraph g'
      × ((r q : ℕ)
          → has_edge q (edges_of r g'.vertices) ≡ (
              if r == p
              then any (λ n. stands_for n.neighbor q g') ns
              else ((q == p) && any (λ n. stands_for n.neighbor r g') ns)
                || has_edge q (edges_of r c.graph.vertices)))
unfolding process_neighbor_report
process_neighbor_report_lem get_weight reliable id ns c i =
    let (p, made, c1) = known_vertice full_graph_type 0 id c in
    let marked : Controller = record c1 { graph = digraph_mark_edges_to_del_from p c1.graph } in
    let c2 = (report_neighbors get_weight p ns (made, marked)).1 in
    let (kg, kd) = known-get full_graph_type 0 id c in
    let i1 = subst IsGraph (sym kg) (get_vertice-IsGraph id i) in
    let found : digraph_find_vertice id c1.graph ≡ some p =
      ground (arith, kg, kd, get-found id c.graph) in
    let live = find-live id p c1.graph found in
    let im = mark_from-IsGraph p i1 live in
    let lm = live-digraph_mark p p c1.graph ∙ live in
    let r = all-Reported get_weight p ns made marked im lm in
    let live2 = r.live p lm in
    let g = c1.graph in
    let g2 = c2.graph in
    (
      p,
      ids-del_marked p ns g g2 live r live2 id ∙ r.ids id p (find-digraph_mark p id g ∙ found),
      del_marked_from-IsGraph p r.graph live2,
      λ a q. ground (arith, edges-del_marked p ns g g2 live r live2 a q, kg, get-edges id a i),
    )
