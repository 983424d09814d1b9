-- ===== src/FlowTable/Insert.antt =====
-- Insertion in a flow table: what every search gives after it, and that it keeps the table sound.
use idit_sdn.Base.{ℕ, ◌≤◌, ◌<◌, ◌≡◌, refl, sym, ap, ◌∙◌, subst}
use idit_sdn.Base.{◌≢◌, ◌⊎◌, inl, inr, ◌||◌, Option, none, some}
use idit_sdn.Base.{List, [], ◌∷◌, ◌++◌, arith, ◌==◌}
use idit_sdn.Base.{if◌then◌else◌, ℕ-cases, Option-cases, ==→eq}
use idit_sdn.Base.{ne→==, ==-self}
use mathlib.Core.Option
use idit_sdn.Contiki.{Contiki, without}
use idit_sdn.FlowTable.{Entry, Memory, Table, put, older, age_all, find_entry, place, aged}
use idit_sdn.FlowTable.{block_for}
use idit_sdn.FlowTable.Count.{count, uses, count-without_self}
use idit_sdn.FlowTable.Count.{uses-same, uses-without, without-absent}
use idit_sdn.FlowTable.Count.{find_entry-some, find_entry-none}
use idit_sdn.FlowTable.Count.{count-moved, uses-moved, uses-without_le}
use idit_sdn.FlowTable.Place.{age_all_lem, age_all-key, find_entry-placed_ne, find_entry-placed}
use idit_sdn.FlowTable.Place.{find_entry-same}

module _ (os : Contiki) where
  -- The entry that a search gives.
  unfoldable pub lookup : ℕ → Table os → Option Entry
  lookup k t = Option.map t.entries (find_entry k t.entries t.linked)

  pub lookup-none :
      (k : ℕ) (t : Table os) → find_entry k t.entries t.linked ≡ none → lookup k t ≡ none
  unfolding lookup
  lookup-none k t h = rw h refl

  pub lookup-some :
      (k c : ℕ) (t : Table os)
      → find_entry k t.entries t.linked ≡ some c
      → lookup k t ≡ some (t.entries c)
  unfolding lookup
  lookup-some k c t h = rw h refl

  -- The addresses of the list are different and in use, and no two entries of it have the same key.
  pub record IsFit (t : Table os) : Type 0 where
    pub once : (a : ℕ) → count a t.linked ≤ (if os.in_use a t.pool then 1 else 0)
    pub keys : (k : ℕ) → uses k t.entries t.linked ≤ 1

  -- The address and the pool that an insertion under the key goes on with.
  pub record IsBlock (key : ℕ) (t : Table os) (a : ℕ) (p : os.Pool) : Type 0 where
    pub chosen : block_for os key t ≡ some (a, record t { pool = p })
    pub own_key : 0 < count a t.linked → (t.entries a).key ≡ key
    pub unused : uses key t.entries (without a t.linked) ≡ 0
    pub pool_lem : (b : ℕ) → os.in_use b p ≡ (b == a || os.in_use b t.pool)

  found-IsBlock :
      (key : ℕ) (t : Table os) (a : ℕ)
      → IsFit t
      → find_entry key t.entries t.linked ≡ some a
      → IsBlock key t a t.pool
  unfolding block_for
  found-IsBlock key t a fit h =
      let f = find_entry-some key a t.entries t.linked h in
      record {
        chosen = ground (arith, h);
        own_key = λ _. f.0;
        unused =
            ground
              (arith, uses-without key a t.entries t.linked f.1, fit.keys key, f.0, ==-self key);
        pool_lem = λ b. elim (ℕ-cases b a) [
          | inl e ↦
              subst (λ c. os.in_use c t.pool ≡ (c == a || os.in_use c t.pool)) (sym e)
                (ground (arith, ==-self a, fit.once a, f.1))
          | inr n ↦ ground (arith, ne→== b a n)
        ];
      }

  new-IsBlock :
      (key : ℕ) (t : Table os) (a : ℕ) (p : os.Pool)
      → IsFit t
      → find_entry key t.entries t.linked ≡ none
      → os.memb_alloc t.pool ≡ some (a, p)
      → IsBlock key t a p
  unfolding block_for
  new-IsBlock key t a p fit h alloc =
      let free = os.memb_alloc-free t.pool p a alloc in
      let absent : count a t.linked ≡ 0 = ground (arith, fit.once a, free) in
      record {
        chosen = ground (arith, h, alloc);
        own_key = λ c. absurd (omega arith);
        unused = rw (without-absent a t.linked absent) (find_entry-none key t.entries t.linked h);
        pool_lem = λ b. os.memb_alloc_lem t.pool p a b alloc;
      }

  -- Either the key is not there and no block is left, or there is a block for it.
  pub block_for-cases :
      (key : ℕ) (t : Table os)
      → IsFit t
      → ((block_for os key t ≡ none)
          × (find_entry key t.entries t.linked ≡ none)
          × (os.memb_alloc t.pool ≡ none))
        ⊎ ((a : ℕ) × (p : os.Pool) × IsBlock key t a p)
  unfolding block_for
  block_for-cases key t fit = elim (Option-cases (find_entry key t.entries t.linked)) [
    | inr (a, h) ↦ inr (a, t.pool, found-IsBlock key t a fit h)
    | inl h ↦ elim (Option-cases (os.memb_alloc t.pool)) [
      | inl full ↦ inl (ground (arith, h, full), h, full)
      | inr (r, alloc) ↦ inr (r.0, r.1, new-IsBlock key t r.0 r.1 fit h alloc)
    ]
  ]

  module _ (e : Entry) (t : Table os) (a : ℕ) (p : os.Pool) where
    -- The list, the memory and the table that the insertion makes.
    abbrev pub moved : List ℕ
    moved = without a t.linked ++ (a ∷ [])

    abbrev pub written : Memory
    written = put a e t.entries

    abbrev pub placed : Table os
    placed = record { pool = p; entries = age_all moved written; linked = moved }

    pub placed_lem : aged os (place os a e (record t { pool = p })) ≡ placed
    unfolding aged place
    placed_lem = rw (os.list_add_lem t.linked a) refl

    moved-once :
        IsFit t → IsBlock e.key t a p → (b : ℕ) → count b moved ≤ (if os.in_use b p then 1 else 0)
    moved-once fit block b = elim (ℕ-cases b a) [
      | inl q ↦
          subst (λ c. count c moved ≤ (if os.in_use c p then 1 else 0)) (sym q)
            (ground (arith, count-moved a a t.linked, block.pool_lem a, fit.once a, ==-self a))
      | inr n ↦ ground (arith, count-moved a b t.linked, block.pool_lem b, fit.once b, ne→== b a n)
    ]

    written_unused :
        IsFit t
        → (k : ℕ) → uses k written (without a t.linked) ≡ uses k t.entries (without a t.linked)
    written_unused fit k =
        uses-same k written t.entries (without a t.linked)
          (λ b h. ground (arith, count-without_self a t.linked, fit.once a, ==→eq b a))

    pub placed-IsFit : IsFit t → IsBlock e.key t a p → IsFit placed
    placed-IsFit fit block = record {
      once = moved-once fit block;
      keys = λ k. ground (
        arith,
        uses-same k (age_all moved written) written moved (λ b h. age_all-key moved written b),
        uses-moved k a written t.linked,
        written_unused fit k,
        uses-without_le k a t.entries t.linked,
        fit.keys k,
        block.unused,
        ==→eq e.key k,
        ==-self a,
      );
    }

    placed-once : IsFit t → IsBlock e.key t a p → (b : ℕ) → count b moved ≤ 1
    placed-once fit block b = ground (arith, moved-once fit block b)

    -- The entry under another key stays where it was, and is one insertion older.
    lookup-other :
        (k : ℕ)
        → IsFit t
        → IsBlock e.key t a p
        → k ≢ e.key
        → lookup k placed ≡ Option.map older (lookup k t)
    lookup-other k fit block ne =
        let same =
          find_entry-same k (age_all moved written) written moved (age_all-key moved written) in
        let kept =
          find_entry-placed_ne k a e t.entries t.linked ne (λ h q. ne (sym q ∙ block.own_key h)) in
        elim (Option-cases (find_entry k t.entries t.linked)) [
          | inl h ↦
              lookup-none k placed (same ∙ (kept ∙ h))
              ∙ ap (Option.map older) (sym (lookup-none k t h))
          | inr (c, h) ↦
              let f = find_entry-some k c t.entries t.linked h in
              let apart : c ≢ a = λ q. ne (
                sym f.0
                ∙ (ap (λ b. (t.entries b).key) q
                    ∙ block.own_key (subst (λ b. 0 < count b t.linked) q f.1))) in
              lookup-some k c placed (same ∙ (kept ∙ h))
              ∙ (ap some (
                    age_all_lem moved written c (placed-once fit block)
                    ∙ ground (arith, count-moved a c t.linked, f.1, ne→== c a apart))
                  ∙ ap (Option.map older) (sym (lookup-some k c t h)))
        ]

    lookup-own : IsFit t → IsBlock e.key t a p → lookup e.key placed ≡ some (older e)
    lookup-own fit block =
        let same =
          find_entry-same e.key (age_all moved written) written moved (age_all-key moved written) in
        let hit =
          find_entry-placed a e t.entries (without a t.linked)
            (written_unused fit e.key ∙ block.unused) in
        lookup-some e.key a placed (same ∙ hit)
        ∙ ap some (
            age_all_lem moved written a (placed-once fit block)
            ∙ ground (arith, count-moved a a t.linked, ==-self a))

    pub lookup-placed :
        (k : ℕ)
        → IsFit t
        → IsBlock e.key t a p
        → lookup k placed ≡ (if k == e.key then some (older e) else Option.map older (lookup k t))
    lookup-placed k fit block = elim (ℕ-cases k e.key) [
      | inl q ↦
          subst
            (λ c.
              lookup c placed
              ≡ (if c == e.key then some (older e) else Option.map older (lookup c t)))
            (sym q) (rw (==-self e.key) (lookup-own fit block))
      | inr ne ↦ rw (ne→== k e.key ne) (lookup-other k fit block ne)
    ]
