-- ===== src/Dijkstra/Trace.antt =====
-- Routes as sequences of edges, and the loop of dijkstra.c that follows the roots.
use idit_sdn.Base.{ℕ, zero, suc, ◌-◌, ◌<◌, ◌≡◌, ap, ◌∙◌, sym, subst}
use idit_sdn.Base.{true, some, List, [], ◌∷◌}
use idit_sdn.Base.{inl, inr, arith, Option-cases, ==→eq}
use idit_sdn.EdgeRing.{Edge, find_edge}
use idit_sdn.EdgeRing.Laws.{find_edge-none, find_edge-has}
use idit_sdn.Digraph.{Vertice, Digraph, edges_of, id_of}
use idit_sdn.Dijkstra.{Search, Hop, collect}
use idit_sdn.Dijkstra.Scan.{is_some, mem}
use idit_sdn.Dijkstra.Rounds.Total.{Ended}

-- The vertices that the edges of the graph lead to from `source`, with the weight of the way.
pub data Walk (extend : ℕ → ℕ → ℕ) (g : Digraph) (source : ℕ) : ℕ → ℕ → Type 0 where
  here : {q w : ℕ} → q ≡ source → w ≡ 0 → Walk extend g source q w
  step :
      {p q v w : ℕ}
      → Walk extend g source p v
      → (e : Edge) → find_edge q (edges_of p g.vertices) ≡ some e
      → w ≡ extend v e.weight
      → Walk extend g source q w

-- A way with the vertices on it, from its end back to `source`, each with the weight up to there.
pub data Trace (extend : ℕ → ℕ → ℕ) (g : Digraph) (source : ℕ) : ℕ → ℕ → List (ℕ × ℕ) → Type 0 where
  first : (q w : ℕ) → q ≡ source → w ≡ 0 → Trace extend g source q w ((q, w) ∷ [])
  then_to :
      (p q v w : ℕ) (l : List (ℕ × ℕ))
      → Trace extend g source p v l
      → (e : Edge) → find_edge q (edges_of p g.vertices) ≡ some e
      → w ≡ extend v e.weight
      → Trace extend g source q w ((q, w) ∷ l)

pub Trace-Walk :
    {extend : ℕ → ℕ → ℕ} {g : Digraph} {source q w : ℕ} {l : List (ℕ × ℕ)}
    → Trace extend g source q w l
    → Walk extend g source q w
Trace-Walk (first q w e z) = here e z
Trace-Walk (then_to p q v w l t e found weight) = step (Trace-Walk t) e found weight

-- The entries of a route behind the first: the vertex, and what the rest of the way to the target
-- weighs.
abbrev pub hops_from : List Vertice → ℕ → ℕ → List (ℕ × ℕ) → List Hop
hops_from vs total k [] = []
hops_from vs total k ((p, w) ∷ l) =
    record { vertice_id = id_of p vs; route_weight = total - w; hops = k; keep_route_cache = 0 }
    ∷ hops_from vs total (suc k) l

module _ {extend : ℕ → ℕ → ℕ} {g : Digraph} {source n : ℕ} {s : Search}
    (ended : Ended extend g source n s) where
  open ended use {state as st, rank}

  -- At the end each vertex with a root is visited.
  pub rooted-visited :
      (q : ℕ) → is_some (s.labels q).route_root ≡ true → (s.labels q).visited ≡ true
  rooted-visited q h = ground (arith, st.waiting q, ap (mem q) ended.empty)

  pub source-visited : (s.labels source).visited ≡ true
  source-visited = ground (arith, st.source_seen)

  -- Every vertex that can be reached was visited.
  pub complete : {q w : ℕ} → Walk extend g source q w → (s.labels q).visited ≡ true
  complete (here {q} e z) = subst (λ p. (s.labels p).visited ≡ true) (sym e) source-visited
  complete (step {p} {q} walk e found weight) = ground (
    arith,
    complete walk,
    st.closed p q,
    rooted-visited q,
    find_edge-none q (edges_of p g.vertices),
    find_edge-has q (edges_of p g.vertices),
  )

  -- From a visited vertex the loop along the roots ends at the source, within as many rounds as
  -- there were visits, and what it collects is a way from the source.
  pub collect_lem :
      (fuel q total k : ℕ) (vs : List Vertice)
      → (s.labels q).visited ≡ true
      → rank q < fuel
      → (l : List (ℕ × ℕ)) × Trace extend g source q (s.labels q).route_weight l
        × (collect fuel vs s.labels total k (some q) ≡ some (hops_from vs total k l))
  unfolding collect
  collect_lem zero q total k vs v r = absurd (omega arith)
  collect_lem (suc fuel) q total k vs v r = elim (Option-cases (s.labels q).route_root) [
    | inl e ↦
        let at : source ≡ q = ground (arith, st.known q, ==→eq source q) in
        let w = ap (λ p. (s.labels p).route_weight) at in
        (
          (q, (s.labels q).route_weight) ∷ [],
          first q (s.labels q).route_weight (sym at) (sym w ∙ st.source_weight),
          ground (arith, e),
        )
    | inr (p, e) ↦
        let b = st.by_edge q p e in
        let (l, t, run) =
          collect_lem fuel p total (suc k) vs b.final (omega (arith, st.rank_root q p v e)) in
        (
          (q, (s.labels q).route_weight) ∷ l,
          then_to p q (s.labels p).route_weight (s.labels q).route_weight l t b.edge b.found
              b.weight,
          ground (arith, e, run),
        )
  ]
