-- ===== src/Digraph.antt =====
-- controller-server/digraph/digraph.c: the network graph of the controller. The ring of vertices is
-- the list from `digraph_header` on. A pointer to a vertex is a number, and `malloc` hands out the
-- next one. A vertex id is the number that its bytes spell, since the code only compares ids.
-- `get_weight` is the function of `SDN_METRIC`. The fields of a vertex that the route search uses
-- (`visited`, `route_weight`, `route_root`) are kept beside the vertices, by pointer.
pub mod Store
pub mod Invariant
pub mod Deletion
pub mod Vertices
pub mod Edges
pub mod Energy
use idit_sdn.Base.{ℕ, zero, suc, ◌+◌, Bool, true, false, not, Option, none, some}
use idit_sdn.Base.{List, [], ◌∷◌, ◌++◌, map, ltb, ◌==◌, ◌||◌, if◌then◌else◌, find?, length}
use mathlib.Core.Option
use idit_sdn.EdgeRing.{Edge, leads_to, add_edge, del_edge, del_all_loop, mark_all, mark_towards}
use idit_sdn.EdgeRing.{del_marked, del_towards, del_marked_towards, find_edge, update_edge}

-- `struct vertice`, with its own pointer
pub record Vertice : Type 0 where
  pub ptr : ℕ
  pub vertice_id : ℕ
  pub edges : List Edge
  pub energy : ℕ

-- The fields of `struct vertice` for the route search
pub record Label : Type 0 where
  pub visited : Bool
  pub route_weight : ℕ
  pub route_root : Option ℕ

pub record Digraph : Type 0 where
  pub vertices : List Vertice
  pub labels : ℕ → Label
  pub next_ptr : ℕ

abbrev pub max_battery_level : ℕ
max_battery_level = 255

abbrev pub blank_label : Label
blank_label = record { visited = false; route_weight = 0; route_root = none }

abbrev pub set_label : ℕ → Label → (ℕ → Label) → ℕ → Label
set_label p l labels q = if p == q then l else labels q

-- Reading and writing through a pointer to a vertex of the ring.
abbrev pub vertice_at : ℕ → List Vertice → Option Vertice
vertice_at p = find? (λ v. v.ptr == p)

unfoldable pub modify : ℕ → (Vertice → Vertice) → List Vertice → List Vertice
modify p f [] = []
modify p f (v ∷ vs) = if v.ptr == p then f v ∷ vs else v ∷ modify p f vs

-- `p->edge_header`, `p->energy` and `p->vertice_id`; `Invariant` has that the pointers lead to
-- vertices of the ring.
unfoldable pub edges_of : ℕ → List Vertice → List Edge
edges_of p vs = elim (vertice_at p vs) [ none ↦ [] | some v ↦ v.edges ]

unfoldable pub energy_of : ℕ → List Vertice → ℕ
energy_of p vs = elim (vertice_at p vs) [ none ↦ 0 | some v ↦ v.energy ]

unfoldable pub id_of : ℕ → List Vertice → ℕ
id_of p vs = elim (vertice_at p vs) [ none ↦ 0 | some v ↦ v.vertice_id ]

abbrev pub set_edges : ℕ → (List Edge → List Edge) → List Vertice → List Vertice
set_edges p f = modify p (λ v. record v { edges = f v.edges })

abbrev pub in_all : (List Edge → List Edge) → List Vertice → List Vertice
in_all f = map (λ (v : Vertice). record v { edges = f v.edges })

abbrev pub new_vertice : ℕ → ℕ → Vertice
new_vertice p id = record { ptr = p; vertice_id = id; edges = []; energy = max_battery_level }

-- A new vertex stands behind the header.
unfoldable pub insert_vertice : Vertice → List Vertice → List Vertice
insert_vertice v [] = v ∷ []
insert_vertice v (h ∷ rest) = h ∷ v ∷ rest

unfoldable pub digraph_add_vertice : ℕ → Digraph → ℕ × Digraph
unfolding insert_vertice
digraph_add_vertice id g = (
  g.next_ptr,
  record g {
    vertices = insert_vertice (new_vertice g.next_ptr id) g.vertices;
    labels = set_label g.next_ptr blank_label g.labels;
    next_ptr = suc g.next_ptr;
  },
)

unfoldable pub digraph_find_vertice : ℕ → Digraph → Option ℕ
digraph_find_vertice id g = Option.map (λ v. v.ptr) (find? (λ v. v.vertice_id == id) g.vertices)

unfoldable pub digraph_get_vertice : ℕ → Digraph → ℕ × Digraph
digraph_get_vertice id g = elim (digraph_find_vertice id g) [
  | some p ↦ (p, g)
  | none ↦ digraph_add_vertice id g
]

unfoldable pub digraph_count_vertice : Digraph → ℕ
digraph_count_vertice g = length g.vertices

unfoldable pub digraph_find_edge : ℕ → ℕ → Digraph → Option Edge
digraph_find_edge from to g = find_edge to (edges_of from g.vertices)

-- The smaller of two energies
abbrev pub lower : ℕ → ℕ → ℕ
lower a b = if ltb a b then a else b

module _ (get_weight : ℕ → ℕ → ℕ) where
  unfoldable pub digraph_add_edge : ℕ → ℕ → ℕ → Digraph → Edge × Digraph
  digraph_add_edge from to etx g =
      let weight = get_weight (lower (energy_of from g.vertices) (energy_of to g.vertices)) etx in
      (
        (add_edge to etx weight (edges_of from g.vertices)).0,
        record g { vertices = set_edges from (λ es. (add_edge to etx weight es).1) g.vertices },
      )

unfoldable pub digraph_del_edge : ℕ → ℕ → Digraph → Digraph
digraph_del_edge from to g = record g { vertices = set_edges from (del_edge to) g.vertices }

unfoldable pub digraph_del_edges_from : ℕ → Digraph → Digraph
digraph_del_edges_from from g = record g {
  vertices = set_edges from (λ es. del_all_loop (length es) es) g.vertices;
}

unfoldable pub digraph_del_edges_to : ℕ → Digraph → Digraph
digraph_del_edges_to to g = record g { vertices = in_all (del_towards to) g.vertices }

unfoldable pub digraph_mark_edges_to_del_from : ℕ → Digraph → Digraph
digraph_mark_edges_to_del_from from g = record g { vertices = set_edges from mark_all g.vertices }

unfoldable pub digraph_mark_edges_to_del_towards : ℕ → Digraph → Digraph
digraph_mark_edges_to_del_towards to g = record g { vertices = in_all (mark_towards to) g.vertices }

unfoldable pub digraph_del_marked_edges_to_del_from : ℕ → Digraph → Bool × Digraph
digraph_del_marked_edges_to_del_from from g = (
  (del_marked (edges_of from g.vertices)).0,
  record g { vertices = set_edges from (λ es. (del_marked es).1) g.vertices },
)

-- The flag of the whole loop over the vertices.
unfoldable pub any_towards : ℕ → List Vertice → Bool
any_towards to [] = false
any_towards to (v ∷ vs) = (del_marked_towards to v.edges).0 || any_towards to vs

unfoldable pub digraph_del_marked_edges_to_del_towards : ℕ → Digraph → Bool × Digraph
unfolding any_towards
digraph_del_marked_edges_to_del_towards to g = (
  any_towards to g.vertices,
  record g { vertices = in_all (λ es. (del_marked_towards to es).1) g.vertices },
)

-- The ring without the vertex, from the vertex that followed it on; `passed` stands before it.
unfoldable pub unlink : ℕ → List Vertice → List Vertice → List Vertice
unlink p passed [] = passed
unlink p passed (v ∷ vs) = if v.ptr == p then vs ++ passed else unlink p (passed ++ (v ∷ [])) vs

unfoldable pub digraph_del_vertice : ℕ → Digraph → Digraph
unfolding digraph_del_edges_from digraph_del_edges_to unlink
digraph_del_vertice p g =
    let g' = digraph_del_edges_to p (digraph_del_edges_from p g) in
    record g' { vertices = unlink p [] g'.vertices }

-- `while (digraph_header != NULL) digraph_del_vertice(digraph_header);`, `none` if the fuel runs
-- out.
unfoldable pub digraph_free : ℕ → Digraph → Option Digraph
digraph_free zero g = elim g.vertices [ [] ↦ some g | _ ↦ none ]
digraph_free (suc fuel) g = elim g.vertices [
  | [] ↦ some g
  | v ∷ _ ↦ digraph_free fuel (digraph_del_vertice v.ptr g)
]

-- `digraph_count_edges` without its output
unfoldable pub digraph_count_edges : ℕ → Digraph → ℕ
digraph_count_edges id g = elim (digraph_find_vertice id g) [
  | none ↦ 0
  | some p ↦ length (edges_of p g.vertices)
]
