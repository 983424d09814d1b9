-- ===== src/Chain/Laws.antt =====
-- What holds of the linked lists of the controller's tables.
use idit_sdn.Base.{ℕ, suc, ◌<◌, ◌≡◌, refl, ◌∙◌, sym, Bool, true, false, not, Option, none, some}
use idit_sdn.Base.{List, [], ◌∷◌, ◌++◌, ◌==◌, ◌&&◌, ◌||◌, if◌then◌else◌, filter, any}
use idit_sdn.Base.{◌⊎◌, inl, inr, arith, List-cases}
use idit_sdn.Chain.{Node, Chain, link_after, append, update_first, remove_all}
use idit_sdn.Chain.{relink, remove_loop}
use idit_sdn.Base.{ap, ap₂, subst, Bool-cases, append_assoc}

or_true : (b : Bool) → true ≡ (b || true)
or_true true = refl
or_true false = refl

or_false : (b : Bool) → b ≡ (b || false)
or_false true = refl
or_false false = refl

module _ {ℓ} {A : Type ℓ} where
  abbrev pub has_addr : ℕ → List (Node A) → Bool
  has_addr a ns = any (λ n. n.addr == a) ns

  -- The address of the last node
  abbrev pub last_addr : List (Node A) → Option ℕ
  last_addr [] = none
  last_addr (n ∷ []) = some n.addr
  last_addr (n ∷ m ∷ ns) = last_addr (m ∷ ns)

  abbrev pub addrs_distinct : List (Node A) → Bool
  addrs_distinct [] = true
  addrs_distinct (n ∷ ns) = not (has_addr n.addr ns) && addrs_distinct ns

  abbrev pub is_nil : List (Node A) → Bool
  is_nil [] = true
  is_nil (n ∷ ns) = false

  -- The addresses are distinct and were handed out, and the tail pointer leads to the last node, if
  -- there is one.
  pub record IsChain (c : Chain A) : Type 0 where
    pub distinct : addrs_distinct c.nodes ≡ true
    pub bounded : (a : ℕ) → has_addr a c.nodes ≡ true → a < c.next_addr
    pub tail_last : (is_nil c.nodes ≡ true) ⊎ (c.tail ≡ last_addr c.nodes)

  pub last-has : (a : ℕ) (ns : List (Node A)) → last_addr ns ≡ some a → has_addr a ns ≡ true
  last-has a [] l = ground arith
  last-has a (n ∷ []) l = ground arith
  last-has a (n ∷ m ∷ ns) l = ground (arith, last-has a (m ∷ ns))

  link_after_last :
      (a : ℕ) (n : Node A) (xs : List (Node A))
      → addrs_distinct xs ≡ true
      → last_addr xs ≡ some a
      → link_after a n xs ≡ some (xs ++ (n ∷ []))
  unfolding link_after
  link_after_last a n [] d l = ground arith
  link_after_last a n (x ∷ []) d l = ground arith
  link_after_last a n (x ∷ y ∷ ys) d l =
      ground (arith, link_after_last a n (y ∷ ys), last-has a (y ∷ ys) l)

  link_after-freed :
      (a : ℕ) (n : Node A) (xs : List (Node A)) → has_addr a xs ≡ false → link_after a n xs ≡ none
  unfolding link_after
  link_after-freed a n [] h = refl
  link_after-freed a n (x ∷ xs) h = ground (arith, link_after-freed a n xs)

  last-some : (x : Node A) (xs : List (Node A)) → (a : ℕ) × (last_addr (x ∷ xs) ≡ some a)
  last-some x [] = (x.addr, refl)
  last-some x (y ∷ ys) = last-some y ys

  abbrev pub appended : A → Chain A → Chain A
  appended x c = record {
    nodes = c.nodes ++ (record { addr = c.next_addr; item = x } ∷ []);
    tail = some c.next_addr;
    next_addr = suc c.next_addr;
  }

  -- On a chain an append puts the new node behind all others.
  pub append_lem : (x : A) (c : Chain A) → IsChain c → append x c ≡ some (c.next_addr, appended x c)
  unfolding append
  append_lem x c i = elim (List-cases c.nodes) [
    | inl e ↦ rw (e, append)
    | inr (n, ns, e) ↦
        let (a, last) = last-some n ns in
        ground (
          arith,
          e,
          last,
          i.tail_last,
          i.distinct,
          link_after_last a (record { addr = c.next_addr; item = x }) (n ∷ ns),
        )
  ]

  -- An append to a list with a node whose tail pointer leads to none of its nodes writes to freed
  -- memory.
  pub append-freed :
      (x : A) (c : Chain A) (a : ℕ)
      → is_nil c.nodes ≡ false
      → c.tail ≡ some a
      → has_addr a c.nodes ≡ false
      → append x c ≡ none
  unfolding append
  append-freed x c a n t h =
      ground (arith, link_after-freed a (record { addr = c.next_addr; item = x }) c.nodes)

  has-append :
      (a : ℕ) (xs ys : List (Node A)) → has_addr a (xs ++ ys) ≡ has_addr a xs || has_addr a ys
  has-append a [] ys = refl
  has-append a (x ∷ xs) ys = ground (arith, has-append a xs ys)

  distinct-append :
      (xs : List (Node A)) (n : Node A)
      → addrs_distinct xs ≡ true
      → has_addr n.addr xs ≡ false
      → addrs_distinct (xs ++ (n ∷ [])) ≡ true
  distinct-append [] n d h = refl
  distinct-append (x ∷ xs) n d h =
      ground (arith, distinct-append xs n, has-append x.addr xs (n ∷ []))

  last-append : (xs : List (Node A)) (n : Node A) → last_addr (xs ++ (n ∷ [])) ≡ some n.addr
  last-append [] n = refl
  last-append (x ∷ []) n = refl
  last-append (x ∷ y ∷ ys) n = last-append (y ∷ ys) n

  pub appended-IsChain : (x : A) {c : Chain A} → IsChain c → IsChain (appended x c)
  appended-IsChain x {c} i =
      let n : Node A = record { addr = c.next_addr; item = x } in
      record {
        distinct = distinct-append c.nodes n i.distinct (ground (arith, i.bounded c.next_addr));
        bounded = λ a h. ground (arith, has-append a c.nodes (n ∷ []), i.bounded a);
        tail_last = inr (sym (last-append c.nodes n));
      }

  has-update :
      (p : A → Bool) (f : A → A) (a : ℕ) (ns : List (Node A))
      → has_addr a (update_first p f ns) ≡ has_addr a ns
  unfolding update_first
  has-update p f a [] = refl
  has-update p f a (n ∷ ns) = ground (arith, has-update p f a ns)

  distinct-update :
      (p : A → Bool) (f : A → A) (ns : List (Node A))
      → addrs_distinct (update_first p f ns) ≡ addrs_distinct ns
  unfolding update_first
  distinct-update p f [] = refl
  distinct-update p f (n ∷ ns) = ground (arith, has-update p f n.addr ns, distinct-update p f ns)

  last-update :
      (p : A → Bool) (f : A → A) (ns : List (Node A))
      → last_addr (update_first p f ns) ≡ last_addr ns
  unfolding update_first
  last-update p f [] = refl
  last-update p f (n ∷ []) = ground arith
  last-update p f (n ∷ m ∷ ns) = ground (arith, last-update p f (m ∷ ns))

  nil-update :
      (p : A → Bool) (f : A → A) (ns : List (Node A)) → is_nil (update_first p f ns) ≡ is_nil ns
  unfolding update_first
  nil-update p f [] = refl
  nil-update p f (n ∷ ns) = ground arith

  pub update-IsChain :
      (p : A → Bool) (f : A → A) {c : Chain A}
      → IsChain c
      → IsChain (record c { nodes = update_first p f c.nodes })
  update-IsChain p f {c} i = record {
    distinct = distinct-update p f c.nodes ∙ i.distinct;
    bounded = λ a h. i.bounded a (sym (has-update p f a c.nodes) ∙ h);
    tail_last = ground (arith, i.tail_last, nil-update p f c.nodes, last-update p f c.nodes);
  }

  has-filter_le :
      (p : Node A → Bool) (a : ℕ) (ns : List (Node A))
      → has_addr a (filter p ns) ≡ true
      → has_addr a ns ≡ true
  has-filter_le p a [] h = h
  has-filter_le p a (n ∷ ns) h = ground (arith, has-filter_le p a ns)

  distinct-filter :
      (p : Node A → Bool) (ns : List (Node A))
      → addrs_distinct ns ≡ true
      → addrs_distinct (filter p ns) ≡ true
  distinct-filter p [] d = refl
  distinct-filter p (n ∷ ns) d = ground (arith, distinct-filter p ns, has-filter_le p n.addr ns)

  -- Whether the last node passes
  abbrev pub last_passes : (Node A → Bool) → List (Node A) → Bool
  last_passes p [] = false
  last_passes p (n ∷ []) = p n
  last_passes p (n ∷ m ∷ ns) = last_passes p (m ∷ ns)

  last-cons :
      (n : Node A) (ns : List (Node A))
      → last_addr (n ∷ ns) ≡ (if is_nil ns then some n.addr else last_addr ns)
  last-cons n [] = refl
  last-cons n (m ∷ ns) = refl

  last-nil : (ns : List (Node A)) → is_nil ns ≡ true → last_addr ns ≡ none
  last-nil [] h = refl
  last-nil (n ∷ ns) h = ground arith

  last-filter :
      (p : Node A → Bool) (ns : List (Node A))
      → last_passes p ns ≡ true
      → last_addr (filter p ns) ≡ last_addr ns
  last-filter p [] h = refl
  last-filter p (n ∷ []) h = ground arith
  last-filter p (n ∷ m ∷ ns) h =
      let (a, last) = last-some m ns in
      ground (
        arith,
        last,
        last-filter p (m ∷ ns),
        last-cons n (filter p (m ∷ ns)),
        last-nil (filter p (m ∷ ns)),
      )

  not-nil : (p : Node A → Bool) (ns : List (Node A)) → last_passes p ns ≡ true → is_nil ns ≡ false
  not-nil p [] h = ground arith
  not-nil p (n ∷ ns) h = refl

  distinct-left :
      (xs ys : List (Node A)) → addrs_distinct (xs ++ ys) ≡ true → addrs_distinct xs ≡ true
  distinct-left [] ys d = refl
  distinct-left (x ∷ xs) ys d = ground (arith, distinct-left xs ys, has-append x.addr xs ys)

  distinct-without :
      (xs : List (Node A)) (n : Node A) (ys : List (Node A))
      → addrs_distinct (xs ++ (n ∷ ys)) ≡ true
      → addrs_distinct (xs ++ ys) ≡ true
  distinct-without [] n ys d = ground (arith, d)
  distinct-without (x ∷ xs) n ys d =
      ground
        (arith, distinct-without xs n ys, has-append x.addr xs ys, has-append x.addr xs (n ∷ ys))

  relink_last :
      (a : ℕ) (rest xs ys : List (Node A))
      → addrs_distinct xs ≡ true
      → last_addr xs ≡ some a
      → relink a rest (xs ++ ys) ≡ xs ++ rest
  unfolding relink
  relink_last a rest [] ys d l = ground arith
  relink_last a rest (x ∷ []) ys d l = ground arith
  relink_last a rest (x ∷ y ∷ xs) ys d l =
      ground (arith, relink_last a rest (y ∷ xs) ys, last-has a (y ∷ xs) l)

  -- The node behind the visited ones that stay is unlinked.
  unlinked_lem :
      (xs : List (Node A)) (n : Node A) (ys : List (Node A))
      → addrs_distinct (xs ++ (n ∷ ys)) ≡ true
      → (elim (last_addr xs) as (λ _. List (Node A)) [
        | none ↦ ys
        | some a ↦ relink a ys (xs ++ (n ∷ ys))
      ])
        ≡ xs ++ ys
  unlinked_lem [] n ys d = refl
  unlinked_lem (x ∷ xs) n ys d =
      let (a, last) = last-some x xs in
      rw last (relink_last a ys (x ∷ xs) (n ∷ ys) (distinct-left (x ∷ xs) (n ∷ ys) d) last)

  -- The loop, from where the nodes `xs` were visited and stay.
  remove_loop_lem :
      (p : A → Bool) (xs ns : List (Node A)) (ret : Bool)
      → addrs_distinct (xs ++ ns) ≡ true
      → remove_loop p ns (last_addr xs) (xs ++ ns) ret
        ≡ (ret || any (λ n. p n.item) ns, xs ++ filter (λ n. not (p n.item)) ns)
  unfolding remove_loop
  remove_loop_lem p xs [] ret d = ap (λ b. (b, xs ++ [])) (or_false ret)
  remove_loop_lem p xs (n ∷ ns) ret d = elim (Bool-cases (p n.item)) [
    | inl h ↦ rw h (
        ap (λ l. remove_loop p ns (last_addr xs) l true) (unlinked_lem xs n ns d)
        ∙ (remove_loop_lem p xs ns true (distinct-without xs n ns d)
            ∙ ap (λ b. (b, xs ++ filter (λ m. not (p m.item)) ns)) (or_true ret)))
    | inr h ↦
        let kept = xs ++ (n ∷ []) in
        rw h (
          ap₂ (λ o l. remove_loop p ns o l ret) (sym (last-append xs n))
            (sym (append_assoc xs (n ∷ []) ns))
          ∙ (remove_loop_lem p kept ns ret (rw (append_assoc xs (n ∷ []) ns) d)
              ∙ ap (λ l. (ret || any (λ m. p m.item) ns, l))
                  (append_assoc xs (n ∷ []) (filter (λ m. not (p m.item)) ns))))
  ]

  -- On a chain the loop takes out exactly the nodes that pass the test.
  pub remove_all_lem :
      (p : A → Bool) {c : Chain A}
      → IsChain c
      → remove_all p c
        ≡ (any (λ n. p n.item) c.nodes, record c { nodes = filter (λ n. not (p n.item)) c.nodes })
  unfolding remove_all
  remove_all_lem p {c} i =
      ap (λ (r : Bool × List (Node A)). (r.0, record c { nodes = r.1 }))
        (remove_loop_lem p [] c.nodes false i.distinct)

  -- Where the last node stays the removal keeps the invariant.
  pub remove-IsChain :
      (p : A → Bool) {c : Chain A}
      → IsChain c
      → last_passes (λ n. not (p n.item)) c.nodes ≡ true
      → IsChain (remove_all p c).1
  remove-IsChain p {c} i h =
      subst (λ (r : Bool × Chain A). IsChain r.1) (sym (remove_all_lem p i))
        (record {
          distinct = distinct-filter (λ n. not (p n.item)) c.nodes i.distinct;
          bounded = λ a e. i.bounded a (has-filter_le (λ n. not (p n.item)) a c.nodes e);
          tail_last = ground (
            arith,
            i.tail_last,
            last-filter (λ n. not (p n.item)) c.nodes h,
            not-nil (λ n. not (p n.item)) c.nodes h,
          );
        })

  last-removed :
      (p : Node A → Bool) (a : ℕ) (ns : List (Node A))
      → addrs_distinct ns ≡ true
      → last_addr ns ≡ some a
      → last_passes p ns ≡ false
      → has_addr a (filter p ns) ≡ false
  last-removed p a [] d l h = refl
  last-removed p a (n ∷ []) d l h = ground arith
  last-removed p a (n ∷ m ∷ ns) d l h =
      ground (arith, last-removed p a (m ∷ ns), last-has a (m ∷ ns))

  -- Where the last node goes and another stays, the tail pointer leads to freed memory, and the
  -- next append writes there.
  pub append-after-remove :
      (p : A → Bool) (x : A) {c : Chain A}
      → IsChain c
      → last_passes (λ n. not (p n.item)) c.nodes ≡ false
      → is_nil (remove_all p c).1.nodes ≡ false
      → append x (remove_all p c).1 ≡ none
  append-after-remove p x {c} i h n = elim (List-cases c.nodes) [
    | inl e ↦
        absurd
          (ground (arith, e, n, ap (λ (r : Bool × Chain A). is_nil r.1.nodes) (remove_all_lem p i)))
    | inr (m, ms, e) ↦
        let (a, last) = last-some m ms in
        append-freed x (remove_all p c).1 a n
          (ap (λ (r : Bool × Chain A). r.1.tail) (remove_all_lem p i)
            ∙ ground (arith, i.tail_last, e, last))
          (ap (λ (r : Bool × Chain A). has_addr a r.1.nodes) (remove_all_lem p i)
            ∙ last-removed (λ n. not (p n.item)) a c.nodes i.distinct (ground (arith, e, last)) h)
  ]
