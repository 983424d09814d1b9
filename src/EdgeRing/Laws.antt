-- ===== src/EdgeRing/Laws.antt =====
-- What the operations on a ring of edges do, as seen through `digraph_find_edge`.
use idit_sdn.Base.{ℕ, ◌≡◌, refl, Bool, true, false, none, some}
use idit_sdn.Base.{List, [], ◌∷◌, not, ◌&&◌, ◌||◌, ◌==◌, if◌then◌else◌, any}
use mathlib.Core.Option
use idit_sdn.Base.{length, Option-cases, inl, inr, arith}
use idit_sdn.EdgeRing.{Edge, leads_to, find_edge, insert_edge, refresh_edge, update_edge, add_edge}
use idit_sdn.EdgeRing.{digraph_new_edge, del_edge, del_all_loop}

abbrev pub has_edge : ℕ → List Edge → Bool
has_edge to es = any (leads_to to) es

-- No two edges lead to one vertex.
abbrev pub is_simple : List Edge → Bool
is_simple [] = true
is_simple (e ∷ es) = not (has_edge e.vertice es) && is_simple es

pub find-insert_edge :
    (e : Edge) (q : ℕ) (es : List Edge)
    → has_edge e.vertice es ≡ false
    → find_edge q (insert_edge e es) ≡ (if leads_to q e then some e else find_edge q es)
unfolding insert_edge
find-insert_edge e q [] h = refl
find-insert_edge e q (x ∷ es) h = ground arith

pub find_edge-none : (to : ℕ) (es : List Edge) → find_edge to es ≡ none → has_edge to es ≡ false
find_edge-none to [] h = refl
find_edge-none to (e ∷ es) h = ground (arith, find_edge-none to es)

pub find_edge-has : (to : ℕ) (es : List Edge) → has_edge to es ≡ false → find_edge to es ≡ none
find_edge-has to [] h = refl
find_edge-has to (x ∷ es) h = ground (arith, find_edge-has to es)

pub find_edge-some :
    (to : ℕ) (es : List Edge) (e : Edge) → find_edge to es ≡ some e → e.vertice ≡ to
find_edge-some to [] e h = ground arith
find_edge-some to (x ∷ es) e h = ground (arith, find_edge-some to es e)

refresh_edge-vertice : (etx weight : ℕ) (e : Edge) → (refresh_edge etx weight e).vertice ≡ e.vertice
unfolding refresh_edge
refresh_edge-vertice etx weight e = ground arith

pub find-update_edge :
    (to q : ℕ) (f : Edge → Edge) (es : List Edge)
    → ((e : Edge) → (f e).vertice ≡ e.vertice)
    → find_edge q (update_edge to f es)
      ≡ (if to == q then Option.map f (find_edge q es) else find_edge q es)
unfolding update_edge
find-update_edge to q f [] keep = ground arith
find-update_edge to q f (e ∷ es) keep = ground (arith, keep e, find-update_edge to q f es keep)

-- After `digraph_add_edge` the edge to the vertex is the returned one, and every other edge is
-- what it was.
pub find-add_edge :
    (to etx weight q : ℕ) (es : List Edge)
    → find_edge q (add_edge to etx weight es).1
      ≡ (if to == q then some (add_edge to etx weight es).0 else find_edge q es)
unfolding add_edge digraph_new_edge
find-add_edge to etx weight q es = ground (
  arith,
  find_edge-none to es,
  find-insert_edge (digraph_new_edge to etx weight) q es,
  find-update_edge to q (refresh_edge etx weight) es (refresh_edge-vertice etx weight),
)

-- The returned edge has the new cost, whether it was there before or not.
pub add_edge_fields :
    (to etx weight : ℕ) (es : List Edge)
    → let e = (add_edge to etx weight es).0 in
      (e.vertice ≡ to) × (e.etx ≡ etx) × (e.weight ≡ weight)
unfolding add_edge digraph_new_edge refresh_edge
add_edge_fields to etx weight es = elim (Option-cases (find_edge to es)) [
  | inl e ↦ rw (e, add_edge) (refl, refl, refl)
  | inr (x, e) ↦ rw (e, add_edge) (ground (arith, find_edge-some to es x e))
]

has-insert_edge :
    (e : Edge) (q : ℕ) (es : List Edge) → has_edge q (insert_edge e es) ≡ has_edge q (e ∷ es)
unfolding insert_edge
has-insert_edge e q [] = refl
has-insert_edge e q (x ∷ es) = ground arith

simple-insert_edge :
    (e : Edge) (es : List Edge)
    → has_edge e.vertice es ≡ false
    → is_simple es ≡ true
    → is_simple (insert_edge e es) ≡ true
unfolding insert_edge
simple-insert_edge e [] h s = refl
simple-insert_edge e (x ∷ es) h s = ground arith

pub has-update_edge :
    (to q : ℕ) (f : Edge → Edge) (es : List Edge)
    → ((e : Edge) → (f e).vertice ≡ e.vertice)
    → has_edge q (update_edge to f es) ≡ has_edge q es
unfolding update_edge
has-update_edge to q f [] keep = refl
has-update_edge to q f (e ∷ es) keep = ground (arith, keep e, has-update_edge to q f es keep)

pub simple-update_edge :
    (to : ℕ) (f : Edge → Edge) (es : List Edge)
    → ((e : Edge) → (f e).vertice ≡ e.vertice)
    → is_simple (update_edge to f es) ≡ is_simple es
unfolding update_edge
simple-update_edge to f [] keep = refl
simple-update_edge to f (e ∷ es) keep =
    ground (arith, keep e, has-update_edge to e.vertice f es keep, simple-update_edge to f es keep)

pub has-add_edge :
    (to etx weight q : ℕ) (es : List Edge)
    → has_edge q (add_edge to etx weight es).1 ≡ (q == to) || has_edge q es
unfolding add_edge digraph_new_edge
has-add_edge to etx weight q es = ground (
  arith,
  find_edge-none to es,
  find_edge-has to es,
  has-insert_edge (digraph_new_edge to etx weight) q es,
  has-update_edge to q (refresh_edge etx weight) es (refresh_edge-vertice etx weight),
)

-- `digraph_add_edge` adds no second edge to a vertex.
pub simple-add_edge :
    (to etx weight : ℕ) (es : List Edge)
    → is_simple es ≡ true
    → is_simple (add_edge to etx weight es).1 ≡ true
unfolding add_edge digraph_new_edge
simple-add_edge to etx weight es s = ground (
  arith,
  find_edge-none to es,
  simple-insert_edge (digraph_new_edge to etx weight) es,
  simple-update_edge to (refresh_edge etx weight) es (refresh_edge-vertice etx weight),
)

-- A vertex loses all its edges, within as many rounds as it has edges.
pub del_all_loop_lem : (es : List Edge) → del_all_loop (length es) es ≡ []
unfolding del_all_loop del_edge
del_all_loop_lem [] = refl
del_all_loop_lem (e ∷ es) = ground (arith, del_all_loop_lem es)
