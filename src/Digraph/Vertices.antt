-- ===== src/Digraph/Vertices.antt =====
-- Finding, adding and freeing the vertices of digraph.c.
use idit_sdn.Base.{true}
use idit_sdn.Base.{ℕ, zero, suc, ◌≡◌, refl, ap}
use idit_sdn.Base.{List, [], ◌∷◌, ◌==◌, if◌then◌else◌, length, find?}
use idit_sdn.Base.{Option, some, none, inl, inr, arith, List-cases, append-nil}
use mathlib.Core.Option
use idit_sdn.Digraph.Store.{is_live}
use idit_sdn.EdgeRing.{Edge, del_towards}
use idit_sdn.Digraph.{Vertice, Digraph, digraph_add_vertice, digraph_find_vertice, modify}
use idit_sdn.Digraph.{digraph_get_vertice, digraph_count_vertice, digraph_del_vertice, digraph_free}
use idit_sdn.Digraph.{insert_vertice, new_vertice, unlink, in_all}
use idit_sdn.Digraph.{digraph_del_edges_from, digraph_del_edges_to}

abbrev find_id : ℕ → List Vertice → Option Vertice
find_id id = find? (λ v. v.vertice_id == id)

find_id-insert :
    (q p id : ℕ) (vs : List Vertice)
    → find_id id vs ≡ none
    → find_id q (insert_vertice (new_vertice p id) vs)
      ≡ (if id == q then some (new_vertice p id) else find_id q vs)
unfolding insert_vertice
find_id-insert q p id [] h = ground arith
find_id-insert q p id (v ∷ vs) h = ground arith

length-insert : (v : Vertice) (vs : List Vertice) → length (insert_vertice v vs) ≡ suc (length vs)
unfolding insert_vertice
length-insert v [] = refl
length-insert v (x ∷ vs) = refl

-- `digraph_get_vertice` returns the vertex that a search for the id finds afterwards, makes a new
-- one only if the id was not there, and changes the search for no other id.
pub get_vertice_lem :
    (id q : ℕ) (g : Digraph)
    → let (p, g') = digraph_get_vertice id g in
      (digraph_find_vertice q g' ≡ (if id == q then some p else digraph_find_vertice q g))
      × (digraph_count_vertice g' ≡ elim (digraph_find_vertice id g) [
        | some _ ↦ digraph_count_vertice g
        | none ↦ suc (digraph_count_vertice g)
      ])
unfolding digraph_get_vertice digraph_find_vertice digraph_add_vertice digraph_count_vertice
get_vertice_lem id q g = ground (
  arith,
  find_id-insert q g.next_ptr id g.vertices,
  length-insert (new_vertice g.next_ptr id) g.vertices,
)

length-modify :
    (p : ℕ) (f : Vertice → Vertice) (vs : List Vertice) → length (modify p f vs) ≡ length vs
unfolding modify
length-modify p f [] = refl
length-modify p f (v ∷ vs) = ground (arith, length-modify p f vs)

length-in_all : (f : List Edge → List Edge) (vs : List Vertice) → length (in_all f vs) ≡ length vs
length-in_all f [] = refl
length-in_all f (v ∷ vs) = ap suc (length-in_all f vs)

-- The deletion of the header takes one vertex out of the ring.
del_header-length :
    (v : Vertice) (vs : List Vertice) (g : Digraph)
    → g.vertices ≡ v ∷ vs
    → length (digraph_del_vertice v.ptr g).vertices ≡ length vs
unfolding digraph_del_vertice digraph_del_edges_from digraph_del_edges_to unlink modify
del_header-length v vs g e =
    ground (arith, append-nil (in_all (del_towards v.ptr) vs), length-in_all (del_towards v.ptr) vs)

-- With as much fuel as there are vertices the loop of `digraph_free` ends, in the empty graph.
pub free_lem :
    (fuel : ℕ) (g : Digraph)
    → digraph_count_vertice g ≡ fuel
    → (g' : Digraph) × (digraph_free fuel g ≡ some g') × (g'.vertices ≡ [])
unfolding digraph_free digraph_count_vertice
free_lem zero g h = elim (List-cases g.vertices) [
  | inl e ↦ (g, ground arith, e)
  | inr (v, vs, e) ↦ absurd (omega (arith, ap length e))
]
free_lem (suc fuel) g h = elim (List-cases g.vertices) [
  | inl e ↦ absurd (omega (arith, ap length e))
  | inr (v, vs, e) ↦
      let (g', run, empty) =
        free_lem fuel (digraph_del_vertice v.ptr g)
          (omega (arith, ap length e, del_header-length v vs g e)) in
      (g', ground arith, empty)
]

-- A vertex that a search finds is one of the ring's.
pub find-live :
    (id p : ℕ) (g : Digraph) → digraph_find_vertice id g ≡ some p → is_live p g.vertices ≡ true
unfolding digraph_find_vertice
find-live id p g h = go g.vertices h
  where
    go :
        (vs : List Vertice)
        → Option.map (λ (v : Vertice). v.ptr) (find? (λ v. v.vertice_id == id) vs) ≡ some p
        → is_live p vs ≡ true
    go [] e = ground arith
    go (v ∷ vs) e = ground (arith, go vs)
