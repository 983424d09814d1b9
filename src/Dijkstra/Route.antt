-- ===== src/Dijkstra/Route.antt =====
-- The two path algorithms of dijkstra.c: total, sound and complete.
use idit_sdn.Base.{ℕ, ◌≡◌, ◌≢◌, refl, ap, ◌∙◌, sym}
use idit_sdn.Base.{some, List, [], ◌∷◌}
use idit_sdn.Base.{inl, inr, arith, Option-cases, ==→eq}
use idit_sdn.Digraph.{Vertice, Digraph, blank_label, id_of}
use idit_sdn.Digraph.{digraph_find_vertice, digraph_get_vertice, digraph_count_vertice}
use idit_sdn.Digraph.Vertices.{find-live}
use idit_sdn.Digraph.Invariant.{IsGraph}
use idit_sdn.Dijkstra.{Search, Hop, build_route, clean_labels, path_algorithm}
use idit_sdn.Dijkstra.Rounds.Total.{Ended, search_total}
use idit_sdn.Dijkstra.Trace.{Walk, Trace, then_to, hops_from, collect_lem, complete}

-- A route as the algorithms return it: the first entry has the weight of the whole way.
abbrev pub hops_of : List Vertice → ℕ → List (ℕ × ℕ) → List Hop
hops_of vs total [] = []
hops_of vs total ((p, w) ∷ l) =
    record { vertice_id = id_of p vs; route_weight = total; hops = 0; keep_route_cache = 0 }
    ∷ hops_from vs total 1 l

-- What a returned list of entries means for a search from `source` to `target`.
pub data Answer (extend : ℕ → ℕ → ℕ) (g : Digraph) (source target : ℕ) (route : List Hop)
    : Type 0 where
  found :
      (total : ℕ) (l : List (ℕ × ℕ))
      → Trace extend g source target total l
      → target ≢ source
      → route ≡ hops_of g.vertices total l
      → Answer extend g source target route
  no_route :
      route ≡ []
      → ((w : ℕ) → Walk extend g source target w → target ≡ source)
      → Answer extend g source target route

module _ {extend : ℕ → ℕ → ℕ} {g : Digraph} {source n : ℕ} {s : Search}
    (ended : Ended extend g source n s) (target : ℕ) where
  open ended use {state as st, rank, bound}

  build_route_lem :
      (route : List Hop) × (build_route n g.vertices s.labels target ≡ some route)
      × Answer extend g source target route
  unfolding build_route
  build_route_lem = elim (Option-cases (s.labels target).route_root) [
    | inl e ↦ (
      [],
      ground (arith, e),
      no_route refl (λ w walk.
          sym (==→eq source target (ground (arith, st.known target, complete ended walk, e)))),
    )
    | inr (p, e) ↦
        let b = st.by_edge target p e in
        let total = (s.labels target).route_weight in
        let (l, t, run) =
          collect_lem ended n p total 1 g.vertices b.final (omega (arith, st.rank_lt p b.final)) in
        let route = hops_of g.vertices total ((target, total) ∷ l) in
        (
          route,
          ground (arith, e, run),
          found total ((target, total) ∷ l)
              (then_to p target (s.labels p).route_weight total l t b.edge b.found b.weight)
              (λ same. cc (sym (ap (λ q. (s.labels q).route_root) same) ∙ e, st.source_root)) refl,
        )
  ]

  clean-blank : (p : ℕ) → clean_labels g.vertices s.labels p ≡ blank_label
  unfolding clean_labels
  clean-blank p = ground (arith, st.outside p)

-- On a graph with blank labels, between two vertices that it has, the algorithm ends and returns
-- either a way from the source to the target that follows edges of the graph, with the weight of
-- the whole and of each rest, or NULL, and NULL only if there is no such way or the target is the
-- source. It leaves the vertices as they were and the labels blank.
pub path_algorithm_lem :
    (extend : ℕ → ℕ → ℕ) (id_from id_to source target : ℕ) (g : Digraph)
    → IsGraph g
    → ((p : ℕ) → g.labels p ≡ blank_label)
    → digraph_find_vertice id_from g ≡ some source
    → digraph_find_vertice id_to g ≡ some target
    → (route : List Hop) × (g' : Digraph) × (path_algorithm extend id_from id_to g
        ≡ some (route, g'))
      × Answer extend g source target route
      × (g'.vertices ≡ g.vertices)
      × ((p : ℕ) → g'.labels p ≡ blank_label)
unfolding path_algorithm digraph_get_vertice digraph_count_vertice digraph_find_vertice
path_algorithm_lem extend id_from id_to source target g i blank from to =
    let (s, run, ended) = search_total extend g source blank (find-live id_from source g from) i in
    let (route, built, answer) = build_route_lem ended target in
    let to' : digraph_find_vertice id_to (record g { labels = s.labels }) ≡ some target = to in
    (
      route,
      record g { labels = clean_labels g.vertices s.labels },
      ground (arith, from, to', run, built),
      answer,
      refl,
      clean-blank ended target,
    )
