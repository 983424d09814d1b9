-- ===== src/Dijkstra/Rounds/Loop.antt =====
-- One round of the outer loop of dijkstra.c keeps its invariant.
use idit_sdn.Base.{ℕ, suc, ◌<◌, ◌≡◌, ap, Bool, true, false}
use idit_sdn.Base.{some, List, ◌∷◌, ◌==◌, ◌||◌, if◌then◌else◌}
use idit_sdn.Base.{inl, inr, arith, ==→eq, subst}
use idit_sdn.EdgeRing.Laws.{find_edge-has}
use idit_sdn.Digraph.{Digraph, edges_of}
use idit_sdn.Digraph.Store.{is_live}
use idit_sdn.Digraph.Invariant.{IsGraph}
use idit_sdn.Dijkstra.{Search, set_visited}
use idit_sdn.Dijkstra.Scan.{is_some, mem, IsQueue, scan-IsQueue, is_distinct}
use idit_sdn.Dijkstra.Rounds.{State, ByEdge, visit, visit-labels, visit-visited, visit-final}
use idit_sdn.Dijkstra.Rounds.{visit-rooted, visit-route, visit-mem}

abbrev pub set_rank : ℕ → ℕ → (ℕ → ℕ) → ℕ → ℕ
set_rank u k rank q = if u == q then k else rank q

abbrev pub nothing : ℕ → Bool
nothing q = false

-- What is known of a vertex that has left the queue.
pub record IsNext (g : Digraph) (source u : ℕ) (s : Search) : Type 0 where
  pub live : is_live u g.vertices ≡ true
  pub rooted : (source == u) || is_some (s.labels u).route_root ≡ true
  pub alone : mem u s.queue ≡ false

module _ (extend : ℕ → ℕ → ℕ) {g : Digraph} (i : IsGraph g) (source u : ℕ) {s : Search}
    (rank : ℕ → ℕ) (k : ℕ) (st : State extend g source (λ q. u == q) rank k s)
    (n : IsNext g source u s) where
  u_new : (s.labels u).visited ≡ false
  u_new = st.unvisited u (ground arith)

  visit-IsQueue : IsQueue (visit extend i u s)
  visit-IsQueue =
      scan-IsQueue extend u (edges_of u g.vertices) (set_visited u s)
        (record { distinct = st.queue.distinct; rooted = λ q m. ground (arith, st.queue.rooted q) })

  visit-edge :
      (q p : ℕ)
      → ((visit extend i u s).labels q).route_root ≡ some p
      → ByEdge extend g (visit extend i u s).labels q p
  visit-edge q p h = elim (visit-route extend i u s q p h) [
    | inl (old, same) ↦
        let b = st.by_edge q p old in
        record {
          edge = b.edge;
          found = b.found;
          final = ground (arith, visit-visited extend i u s p, b.final);
          weight = ground (arith, visit-final extend i u s p, b.final, b.weight);
        }
    | inr (at, new, e, found, weight) ↦ record {
      edge = e;
      found = ground arith;
      final = ground (arith, visit-visited extend i u s p);
      weight = ground (arith, visit-final extend i u s p);
    }
  ]

  visit-rank_root :
      (q p : ℕ)
      → ((visit extend i u s).labels q).visited ≡ true
      → ((visit extend i u s).labels q).route_root ≡ some p
      → set_rank u k rank p < set_rank u k rank q
  visit-rank_root q p v h =
      let old : (s.labels q).route_root ≡ some p =
        ground (arith, visit-visited extend i u s q, visit-final extend i u s q) in
      let final = (st.by_edge q p old).final in
      ground (arith, final, u_new, visit-visited extend i u s q, st.rank_lt p, st.rank_root q p)

  pub visit-State : State extend g source nothing (set_rank u k rank) (suc k) (visit extend i u s)
  visit-State = record {
    queue = visit-IsQueue;
    source_root = ground (arith, st.source_root, st.source_seen, visit-final extend i u s source);
    source_weight =
        ground (arith, st.source_weight, st.source_seen, visit-final extend i u s source);
    source_seen = ground (arith, st.source_seen, visit-visited extend i u s source);
    by_edge = visit-edge;
    waiting = λ q h. ground (
      arith,
      visit-rooted extend i u s q,
      visit-mem extend i u s q,
      visit-visited extend i u s q,
      st.waiting q,
    );
    unvisited = λ q h. ground (
      arith,
      visit-mem extend i u s q,
      visit-visited extend i u s q,
      st.unvisited q,
      ==→eq u q,
      n.alone,
    );
    known = λ q h. ground (
      arith,
      visit-visited extend i u s q,
      visit-rooted extend i u s q,
      st.known q,
      ==→eq u q,
      n.rooted,
    );
    closed = λ p q v e. ground (
      arith,
      visit-visited extend i u s p,
      visit-visited extend i u s q,
      visit-rooted extend i u s q,
      st.closed p q,
      ==→eq u p,
    );
    outside = λ q h. ground (
      arith,
      visit-labels extend i u s q,
      find_edge-has q (edges_of u g.vertices),
      i.closed u q,
      st.outside q,
      n.live,
    );
    rank_lt = λ q h. ground (arith, visit-visited extend i u s q, st.rank_lt q);
    rank_root = visit-rank_root;
  }

-- The next vertex leaves the queue.
pub pop-State :
    (extend : ℕ → ℕ → ℕ) {g : Digraph} (source v : ℕ) (rest : List ℕ) (rank : ℕ → ℕ) (k : ℕ)
    (s : Search)
    → State extend g source nothing rank k s
    → s.queue ≡ v ∷ rest
    → State extend g source (λ q. v == q) rank k (record s { queue = rest })
      × IsNext g source v (record s { queue = rest })
pop-State extend {g} source v rest rank k s st e =
    let d = subst (λ l. is_distinct l ≡ true) e st.queue.distinct in
    let members = λ (q : ℕ). ap (mem q) e in
    let rooted = st.queue.rooted v (ground (arith, members v)) in
    (
      record {
        queue = record {
          distinct = ground (arith, d);
          rooted = λ q m. st.queue.rooted q (ground (arith, members q));
        };
        source_root = st.source_root;
        source_weight = st.source_weight;
        source_seen = ground (arith, st.source_seen);
        by_edge = st.by_edge;
        waiting = λ q h. ground (arith, st.waiting q, members q);
        unvisited = λ q h. ground (arith, st.unvisited q, members q);
        known = st.known;
        closed = st.closed;
        outside = st.outside;
        rank_lt = st.rank_lt;
        rank_root = st.rank_root;
      },
      record {
        live = ground (arith, st.outside v, rooted);
        rooted = ground (arith, rooted);
        alone = ground (arith, d);
      },
    )
