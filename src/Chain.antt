-- ===== src/Chain.antt =====
-- The singly linked lists of the controller's tables, with a pointer to the head and one to the
-- tail: the nodes in the order of their links, each with its address. `malloc` hands out a new
-- address, and a freed node is in no list.
pub mod Laws
use idit_sdn.Base.{ℕ, suc, Bool, Option, none, some, List, [], ◌∷◌, ◌==◌, if◌then◌else◌}
use idit_sdn.Base.{find?, true, false}
use mathlib.Core.Option

pub record Node {ℓ} (A : Type ℓ) : Type ℓ where
  pub addr : ℕ
  pub item : A

pub record Chain {ℓ} (A : Type ℓ) : Type ℓ where
  pub nodes : List (Node A)
  pub tail : Option ℕ
  pub next_addr : ℕ

module _ {ℓ} {A : Type ℓ} where
  -- `a->next = n`, where `n->next` is NULL. There is no result if `a` is no node of the list: its
  -- memory was freed.
  unfoldable pub link_after : ℕ → Node A → List (Node A) → Option (List (Node A))
  link_after a n [] = none
  link_after a n (x ∷ xs) =
      if x.addr == a then some (x ∷ n ∷ []) else Option.map (λ r. x ∷ r) (link_after a n xs)

  -- A new node, as the head and the tail of an empty list, or behind the tail.
  unfoldable pub append : A → Chain A → Option (ℕ × Chain A)
  unfolding link_after
  append a c =
      let n : Node A = record { addr = c.next_addr; item = a } in
      let linked : List (Node A) → ℕ × Chain A = λ nodes. (
        c.next_addr,
        record { nodes = nodes; tail = some c.next_addr; next_addr = suc c.next_addr },
      ) in
      elim c.nodes [
        | [] ↦ some (linked (n ∷ []))
        | _ ∷ _ ↦ elim c.tail [ none ↦ none | some t ↦ Option.map linked (link_after t n c.nodes) ]
      ]

  -- The first node whose item passes the test.
  abbrev pub find_node : (A → Bool) → Chain A → Option (Node A)
  find_node p c = find? (λ n. p n.item) c.nodes

  -- A write through the pointer that a search returned.
  unfoldable pub update_first : (A → Bool) → (A → A) → List (Node A) → List (Node A)
  update_first p f [] = []
  update_first p f (n ∷ ns) =
      if p n.item then record { addr = n.addr; item = f n.item } ∷ ns else n ∷ update_first p f ns

  -- `a->next = rest`, for a node of the list.
  unfoldable pub relink : ℕ → List (Node A) → List (Node A) → List (Node A)
  relink a rest [] = []
  relink a rest (x ∷ xs) = if x.addr == a then x ∷ rest else x ∷ relink a rest xs

  -- The loop that takes out and frees the nodes whose item passes the test: the nodes that are left
  -- to visit, the pointer to the previous node, the list from the head on, and `ret`. A node without
  -- a previous one makes the next node the head.
  unfoldable pub remove_loop :
      (A → Bool) → List (Node A) → Option ℕ → List (Node A) → Bool → Bool × List (Node A)
  remove_loop p [] previous head ret = (ret, head)
  remove_loop p (n ∷ ns) previous head ret =
      let unlinked = elim previous as (λ _. List (Node A)) [
        | none ↦ ns
        | some a ↦ relink a ns head
      ] in
      remove_loop p ns (if p n.item then previous else some n.addr)
        (if p n.item then unlinked else head) (if p n.item then true else ret)

  -- The tail pointer is left as it was.
  unfoldable pub remove_all : (A → Bool) → Chain A → Bool × Chain A
  remove_all p c =
      let r = remove_loop p c.nodes none c.nodes false in (r.0, record c { nodes = r.1 })
