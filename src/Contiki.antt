-- ===== src/Contiki.antt =====
-- What the node's code uses of the Contiki operating system (`lib/memb.h`, `lib/list.h`), which is
-- not part of the repository: operations, and what their documentation says of them.
use idit_sdn.Base.{ℕ, ◌≡◌, Bool, false, not, ◌&&◌, ◌||◌, Option, some, List, [], ◌∷◌, ◌++◌}
use idit_sdn.Base.{◌==◌, if◌then◌else◌}

-- The list without the first occurrence of the element.
abbrev pub without : ℕ → List ℕ → List ℕ
without a [] = []
without a (b ∷ bs) = if b == a then bs else b ∷ without a bs

-- A memory block is known by its address, and so is an element of a list.
pub record Contiki : Type 1 where
  pub Pool : Type 0
  pub in_use : ℕ → Pool → Bool
  pub memb_alloc : Pool → Option (ℕ × Pool)
  pub memb_free : ℕ → Pool → Pool
  pub list_add : List ℕ → ℕ → List ℕ
  pub list_remove : List ℕ → ℕ → List ℕ
  -- "Allocate a memory block from a block of memory": one that was free.
  pub memb_alloc-free : (p p' : Pool) (a : ℕ) → memb_alloc p ≡ some (a, p') → in_use a p ≡ false
  pub memb_alloc_lem :
      (p p' : Pool) (a b : ℕ) → memb_alloc p ≡ some (a, p') → in_use b p' ≡ (b == a || in_use b p)
  -- "Deallocate a memory block".
  pub memb_free_lem : (p : Pool) (a b : ℕ) → in_use b (memb_free a p) ≡ (not (b == a) && in_use b p)
  -- "Remove a specific element from a list".
  pub list_remove_lem : (l : List ℕ) (a : ℕ) → list_remove l a ≡ without a l
  -- "Add an item at the end of a list", which leaves its old place in the list.
  pub list_add_lem : (l : List ℕ) (a : ℕ) → list_add l a ≡ without a l ++ (a ∷ [])
