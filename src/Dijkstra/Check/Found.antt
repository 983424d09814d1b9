-- ===== src/Dijkstra/Check/Found.antt =====
-- A route that the search at_edge passes the check, with its weight.
use idit_sdn.Base.{
  inl, inr, ◌⊎◌, suc, ℕ, ◌+◌, ◌≡◌, ◌≢◌, refl, ◌∙◌, sym, ap, true, Option, none, some,
}
use idit_sdn.Base.{List, [], ◌∷◌, ◌==◌, arith, find?, ==→eq}
use idit_sdn.EdgeRing.{Edge, find_edge}
use idit_sdn.EdgeRing.Laws.{has_edge, find_edge-has}
use idit_sdn.Digraph.{
  blank_label, Digraph, edges_of, id_of, digraph_find_vertice, digraph_get_vertice,
}
use idit_sdn.Digraph.Store.{is_live, edges-dead}
use idit_sdn.Digraph.Invariant.{IsGraph}
use idit_sdn.Dijkstra.{
  Hop, shortest_path_algorithm, widest_shortest_path_algorithm, path_algorithm, worst,
}
use idit_sdn.Dijkstra.Route.{hops_of, found, no_route, path_algorithm_lem}
use idit_sdn.Dijkstra.Trace.{Trace, first, then_to, hops_from}
use idit_sdn.Dijkstra.Check.{checks_widest_shortest_route, worst_checked}
use idit_sdn.Dijkstra.Check.{
  edge_by_id, checks_loop, checks_route, checks_shortest_route, add_checked,
}

-- Every vertex of the ring is the one that a search for its id finds.
abbrev pub HasIds : Digraph → Type 0
HasIds g =
    (p : ℕ) → is_live p g.vertices ≡ true → digraph_find_vertice (id_of p g.vertices) g ≡ some p

-- The ids on a way, from its start on, before those in `rest`
abbrev pub ids_before : Digraph → List ℕ → List (ℕ × ℕ) → List ℕ
ids_before g rest [] = rest
ids_before g rest ((p, _) ∷ l) = ids_before g (id_of p g.vertices ∷ rest) l

-- Among edges to vertices of the ring, a search by id is one by vertex.
find-by_id :
    (q : ℕ) (g : Digraph) (es : List Edge)
    → HasIds g
    → is_live q g.vertices ≡ true
    → ((t : ℕ) → has_edge t es ≡ true → is_live t g.vertices ≡ true)
    → find? (λ e. id_of e.vertice g.vertices == id_of q g.vertices) es ≡ find_edge q es
find-by_id q g [] ids lq live = refl
find-by_id q g (e ∷ es) ids lq live = ground (
  arith,
  find-by_id q g es ids lq (λ t h. live t (ground arith)),
  ids q lq,
  ids e.vertice (live e.vertice (ground arith)),
  ==→eq (id_of e.vertice g.vertices) (id_of q g.vertices),
  ==→eq e.vertice q,
)

get-own :
    (p : ℕ) (g : Digraph)
    → HasIds g
    → is_live p g.vertices ≡ true
    → digraph_get_vertice (id_of p g.vertices) g ≡ (p, g)
unfolding digraph_get_vertice
get-own p g ids lp = ground (arith, ids p lp)

edge_by_id-found :
    (p q : ℕ) (e : Edge) {g : Digraph}
    → IsGraph g
    → HasIds g
    → find_edge q (edges_of p g.vertices) ≡ some e
    → edge_by_id (id_of q g.vertices) g.vertices (edges_of p g.vertices) ≡ some (some e)
unfolding edge_by_id
edge_by_id-found p q e {g} i ids at_edge =
    let lq = i.closed p q (ground (arith, find_edge-has q (edges_of p g.vertices))) in
    ground (arith, find-by_id q g (edges_of p g.vertices) ids lq (λ t h. i.closed p t h))

module _ (extend_checked : Option ℕ → ℕ → ℕ) {g : Digraph} (i : IsGraph g) (ids : HasIds g)
    (p q : ℕ) (o : Option ℕ) (e : Edge) (lp : is_live p g.vertices ≡ true)
    (at_edge : find_edge q (edges_of p g.vertices) ≡ some e) where
  -- One round of the loop, along an edge, and the last round
  loop-step :
      (next : ℕ) (rest : List ℕ)
      → checks_loop extend_checked (id_of p g.vertices) (id_of q g.vertices ∷ next ∷ rest) o g
        ≡ checks_loop extend_checked
            (id_of q g.vertices)
            (next ∷ rest)
            (some (extend_checked o e.weight))
            g
  unfolding checks_loop
  loop-step next rest = ground (arith, get-own p g ids lp, edge_by_id-found p q e i ids at_edge)

  loop-last :
      checks_loop extend_checked (id_of p g.vertices) (id_of q g.vertices ∷ []) o g
      ≡ some (some (extend_checked o e.weight), g)
  unfolding checks_loop
  loop-last = ground (arith, get-own p g ids lp, edge_by_id-found p q e i ids at_edge)

edge-live :
    (p q : ℕ) (e : Edge) (g : Digraph)
    → find_edge q (edges_of p g.vertices) ≡ some e
    → is_live p g.vertices ≡ true
edge-live p q e g at_edge = ground (arith, edges-dead p g.vertices)

module _ (extend : ℕ → ℕ → ℕ) (extend_checked : Option ℕ → ℕ → ℕ) (start : Option ℕ)
    (from_start : (x : ℕ) → extend_checked start x ≡ extend 0 x)
    (from_weight : (v x : ℕ) → extend_checked (some v) x ≡ extend v x) {g : Digraph} (i : IsGraph g)
    (ids : HasIds g) where
  -- The loop comes to the end of a way with a weight that goes on as that of the way.
  checks_route-Trace :
      {source q w : ℕ} {l : List (ℕ × ℕ)} (next : ℕ) (rest : List ℕ)
      → Trace extend g source q w l
      → (o : Option ℕ) × ((x : ℕ) → extend_checked o x ≡ extend w x)
        × (checks_route extend_checked start (ids_before g (next ∷ rest) l) g
            ≡ checks_loop extend_checked (id_of q g.vertices) (next ∷ rest) o g)
  unfolding checks_route
  checks_route-Trace next rest (first q w e z) =
      (start, λ x. from_start x ∙ ap (λ v. extend v x) (sym z), refl)
  checks_route-Trace next rest (then_to p q v w l t e at_edge weight) =
      let (o, goes_on, run) = checks_route-Trace (id_of q g.vertices) (next ∷ rest) t in
      (
        some (extend_checked o e.weight),
        λ x.
            from_weight (extend_checked o e.weight) x
            ∙ ap (λ v. extend v x) (goes_on e.weight ∙ sym weight),
        run ∙ loop-step extend_checked i ids p q o e (edge-live p q e g at_edge) at_edge next rest,
      )

  -- A way that is no single vertex passes the check, which computes its weight.
  pub checks_route-found :
      {source target w : ℕ} {l : List (ℕ × ℕ)}
      → Trace extend g source target w l
      → target ≢ source
      → checks_route extend_checked start (ids_before g [] l) g ≡ some (some w, g)
  checks_route-found (first q w e z) away = absurd (away e)
  checks_route-found (then_to p q v w l t e at_edge weight) away =
      let (o, goes_on, run) = checks_route-Trace (id_of q g.vertices) [] t in
      run
      ∙ (loop-last extend_checked i ids p q o e (edge-live p q e g at_edge) at_edge
          ∙ ap (λ v. some (some v, g)) (goes_on e.weight ∙ sym weight))

-- The ids of a route from the source on; the search returns it from the target on.
abbrev pub source_first : List ℕ → List Hop → List ℕ
source_first rest [] = rest
source_first rest (h ∷ hs) = source_first (h.vertice_id ∷ rest) hs

abbrev pub weight_of : List Hop → Option ℕ
weight_of [] = none
weight_of (h ∷ _) = some h.route_weight

source_first-hops_from :
    (g : Digraph) (total k : ℕ) (rest : List ℕ) (l : List (ℕ × ℕ))
    → source_first rest (hops_from g.vertices total k l) ≡ ids_before g rest l
source_first-hops_from g total k rest [] = refl
source_first-hops_from g total k rest ((p, w) ∷ l) =
    source_first-hops_from g total (suc k) (id_of p g.vertices ∷ rest) l

source_first-hops_of :
    (g : Digraph) (total : ℕ) (l : List (ℕ × ℕ))
    → source_first [] (hops_of g.vertices total l) ≡ ids_before g [] l
source_first-hops_of g total [] = refl
source_first-hops_of g total ((p, w) ∷ l) =
    source_first-hops_from g total 1 (id_of p g.vertices ∷ []) l

weight_of-hops_of :
    {extend : ℕ → ℕ → ℕ} {g : Digraph} {source q w : ℕ} {l : List (ℕ × ℕ)} (total : ℕ)
    → Trace extend g source q w l
    → weight_of (hops_of g.vertices total l) ≡ some total
weight_of-hops_of total (first q w e z) = refl
weight_of-hops_of total (then_to p q v w l t e at_edge weight) = refl

module _ (id_from id_to source target : ℕ) (g : Digraph) (i : IsGraph g) (ids : HasIds g)
    (blank : (p : ℕ) → g.labels p ≡ blank_label)
    (from : digraph_find_vertice id_from g ≡ some source)
    (to : digraph_find_vertice id_to g ≡ some target) where
  path_algorithm-checks_route :
      (extend : ℕ → ℕ → ℕ) (extend_checked : Option ℕ → ℕ → ℕ) (start : Option ℕ)
      → ((x : ℕ) → extend_checked start x ≡ extend 0 x)
      → ((v x : ℕ) → extend_checked (some v) x ≡ extend v x)
      → (route : List Hop) × (g' : Digraph) × (path_algorithm extend id_from id_to g
          ≡ some (route, g'))
        × ((route ≡ [])
            ⊎ (checks_route extend_checked start (source_first [] route) g
                ≡ some (weight_of route, g)))
  path_algorithm-checks_route extend extend_checked start from_start from_weight =
      let (route, g', run, answer, _, _) =
        path_algorithm_lem extend id_from id_to source target g i blank from to in
      (
        route,
        g',
        run,
        elim answer [
          | no_route e _ ↦ inl e
          | found total l t away e ↦ inr (
              ap (λ r. checks_route extend_checked start (source_first [] r) g) e
              ∙ (ap (λ r. checks_route extend_checked start r g) (source_first-hops_of g total l)
                  ∙ (checks_route-found extend extend_checked start from_start from_weight i ids t
                        away
                      ∙ ap (λ w. some (w, g)) (sym (ap weight_of e ∙ weight_of-hops_of total t)))))
        ],
      )

  -- On a graph where a search for the id of a vertex finds that vertex, with blank labels and
  -- between two vertices that it has: the route of `shortest_path_algorithm`, if it is not NULL,
  -- passes `checks_shortest_route` from the source on, which computes the weight that the route has.
  pub shortest_path-checks_route :
      (route : List Hop) × (g' : Digraph) × (shortest_path_algorithm id_from id_to g
        ≡ some (route, g'))
      × ((route ≡ [])
          ⊎ (checks_shortest_route (source_first [] route) g ≡ some (weight_of route, g)))
  unfolding shortest_path_algorithm checks_shortest_route
  shortest_path-checks_route =
      path_algorithm-checks_route ◌+◌ add_checked (some 0) (λ x. refl) (λ v x. refl)

  -- On a graph where a search for the id of a vertex finds that vertex, with blank labels and
  -- between two vertices that it has: the route of `widest_shortest_path_algorithm`, if it is not
  -- NULL, passes `checks_widest_shortest_route` from the source on, which computes the weight that
  -- the route has.
  pub widest_path-checks_route :
      (route : List Hop) × (g' : Digraph) × (widest_shortest_path_algorithm id_from id_to g
        ≡ some (route, g'))
      × ((route ≡ [])
          ⊎ (checks_widest_shortest_route (source_first [] route) g ≡ some (weight_of route, g)))
  unfolding widest_shortest_path_algorithm checks_widest_shortest_route
  widest_path-checks_route =
      path_algorithm-checks_route worst worst_checked none (λ x. ground arith) (λ v x. ground arith)
