-- ===== src/Dijkstra/Rounds/Total.antt =====
-- The outer loop of dijkstra.c ends, and what holds then.
use idit_sdn.Base.{ℕ, zero, suc, ◌+◌, ◌≤◌, ◌<◌, ◌≡◌, refl, ap, Bool, true}
use idit_sdn.Base.{some, List, [], ◌∷◌, ◌==◌, length}
use idit_sdn.Base.{inl, inr, arith, List-cases, ==→eq, ne→==}
use idit_sdn.Digraph.{Vertice, Digraph, blank_label, edges_of}
use idit_sdn.Digraph.Store.{is_live}
use idit_sdn.Digraph.Invariant.{IsGraph}
use idit_sdn.Dijkstra.{Search, set_visited, search, dijkstra_queue_pop}
use idit_sdn.Dijkstra.Scan.{is_some, mem}
use idit_sdn.Dijkstra.Measure.{work, is_fresh, tally, tally-same, tally-drop, scan-work}
use idit_sdn.Dijkstra.Rounds.{State, visit}
use idit_sdn.Dijkstra.Rounds.Loop.{IsNext, nothing, set_rank, visit-State, pop-State}

-- The vertex that is visited next has a root, so the visit leaves the work alone.
work-next :
    (vs : List Vertice) (v : ℕ) (s : Search)
    → is_some (s.labels v).route_root ≡ true
    → work vs (set_visited v s) ≡ work vs s
work-next vs v s h =
    ap (λ n. n + length s.queue)
      (tally-same (λ p. is_fresh ((set_visited v s).labels p)) (λ p. is_fresh (s.labels p)) vs
        (λ p. ground (arith, ==→eq v p)))

-- How a search ends: with an empty queue, and the invariant after at most `n` visits.
pub record Ended (extend : ℕ → ℕ → ℕ) (g : Digraph) (source n : ℕ) (s : Search) : Type 0 where
  pub rank : ℕ → ℕ
  pub visits : ℕ
  pub state : State extend g source nothing rank visits s
  pub empty : s.queue ≡ []
  pub bound : visits ≤ n

module _ (extend : ℕ → ℕ → ℕ) {g : Digraph} (i : IsGraph g) (source n : ℕ) where
  pub search_ends :
      (fuel u : ℕ) (s : Search) (rank : ℕ → ℕ) (k : ℕ)
      → State extend g source (λ q. u == q) rank k s
      → IsNext g source u s
      → work g.vertices (set_visited u s) < fuel
      → k + fuel ≤ n
      → (s' : Search) × (search extend g.vertices fuel u s ≡ some s') × Ended extend g source n s'
  unfolding search dijkstra_queue_pop
  search_ends zero u s rank k st nx w b = absurd (omega arith)
  search_ends (suc fuel) u s rank k st nx w b =
      let s' = visit extend i u s in
      let after = visit-State extend i source u rank k st nx in
      let same =
        scan-work extend g.vertices i.distinct u (edges_of u g.vertices) (set_visited u s)
          (i.closed u) in
      elim (List-cases s'.queue) [
        | inl e ↦ (
          s',
          ground (arith, e),
          record {
            rank = set_rank u k rank;
            visits = suc k;
            state = after;
            empty = e;
            bound = omega arith;
          },
        )
        | inr (v, rest, e) ↦
            let (popped, next) = pop-State extend source v rest _ _ s' after e in
            let rooted = after.queue.rooted v (ground (arith, ap (mem v) e)) in
            let (t, run, ended) =
              search_ends fuel v (record s' { queue = rest }) (set_rank u k rank) (suc k) popped
                next
                (omega (
                  arith,
                  same,
                  work-next g.vertices v (record s' { queue = rest }) rooted,
                  ap length e,
                ))
                (omega arith) in
            (t, ground (arith, e, run), ended)
      ]

abbrev pub start : Digraph → Search
start g = record { labels = g.labels; queue = [] }

module _ (extend : ℕ → ℕ → ℕ) (g : Digraph) (source : ℕ)
    (blank : (p : ℕ) → g.labels p ≡ blank_label) (live : is_live source g.vertices ≡ true) where
  -- A search starts with blank labels.
  start-State : State extend g source (λ q. source == q) (λ _. 0) 0 (start g)
  start-State = record {
    queue = record { distinct = refl; rooted = λ q m. cc };
    source_root = ground (arith, blank source);
    source_weight = ground (arith, blank source);
    source_seen = ground arith;
    by_edge = λ q p h. absurd (ground (arith, blank q));
    waiting = λ q h. ground (arith, blank q);
    unvisited = λ q h. ground (arith, blank q);
    known = λ q h. ground (arith, blank q);
    closed = λ p q v e. ground (arith, blank p);
    outside = λ q h. blank q;
    rank_lt = λ q h. absurd (ground (arith, blank q));
    rank_root = λ q p v h. absurd (ground (arith, blank q));
  }

  start-IsNext : IsNext g source source (start g)
  start-IsNext = record { live = live; rooted = ground arith; alone = refl }

  tally-all : (f : ℕ → Bool) (vs : List Vertice) → ((p : ℕ) → f p ≡ true) → tally f vs ≡ length vs
  tally-all f [] h = refl
  tally-all f (v ∷ vs) h = ground (arith, h v.ptr, tally-all f vs h)

  start-work : IsGraph g → work g.vertices (set_visited source (start g)) < length g.vertices
  start-work i =
      let drop =
        tally-drop (λ p. is_fresh (g.labels p))
          (λ p. is_fresh ((set_visited source (start g)).labels p)) source g.vertices
          (λ p n. ground (arith, ne→== source p n)) (ground (arith, blank source)) (ground arith)
          i.distinct live in
      omega (
        arith,
        drop,
        tally-all (λ p. is_fresh (g.labels p)) g.vertices (λ p. ground (arith, blank p)),
      )

  -- The search from a vertex of a graph with blank labels ends within one round for each vertex.
  pub search_total :
      IsGraph g
      → (s' : Search) × (search extend g.vertices (length g.vertices) source (start g) ≡ some s')
        × Ended extend g source (length g.vertices) s'
  search_total i =
      search_ends extend i source (length g.vertices) (length g.vertices) source (start g) (λ _. 0)
        0 start-State start-IsNext (start-work i) (omega arith)
