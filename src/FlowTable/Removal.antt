-- ===== src/FlowTable/Removal.antt =====
-- The removal of an entry, and of all entries of a table.
use idit_sdn.Base.{ℕ, ◌≤◌, ◌<◌, ◌≡◌, refl, sym, ap, ◌∙◌, subst}
use idit_sdn.Base.{◌↔◌, inl, inr, none, some}
use idit_sdn.Base.{List, [], ◌∷◌, arith, ◌==◌}
use idit_sdn.Base.{if◌then◌else◌, ℕ-cases, Option-cases}
use idit_sdn.Base.{eq→==, ne→==, ==-self}
use mathlib.Core.Option
use idit_sdn.Queue.{sdn_success, sdn_error}
use idit_sdn.Contiki.{Contiki, without}
use idit_sdn.FlowTable.{Entry, Table, find_entry, remove_entry, clear_from}
use idit_sdn.FlowTable.Count.{count, count-without_self, count-without_ne}
use idit_sdn.FlowTable.Count.{uses-without, uses-without_le}
use idit_sdn.FlowTable.Count.{find_entry-some, find_entry-unused}
use idit_sdn.FlowTable.Place.{find_entry-without}
use idit_sdn.FlowTable.Insert.{lookup, IsFit, lookup-none, lookup-some}

without-head : (a : ℕ) (l : List ℕ) → without a (a ∷ l) ≡ l
without-head a l = ground (arith, ==-self a)

count-head : (a : ℕ) (l : List ℕ) → 0 < count a (a ∷ l)
unfolding count
count-head a l = ground (arith, ==-self a)

module _ (os : Contiki) where
  module _ (t : Table os) (a : ℕ) where
    -- The table after the block is freed and leaves the list.
    abbrev unlinked : Table os
    unlinked = record t { pool = os.memb_free a t.pool; linked = without a t.linked }

    unlinked-IsFit : IsFit os t → 0 < count a t.linked → IsFit os unlinked
    unlinked-IsFit fit h = record {
      once = λ b. elim (ℕ-cases b a) [
        | inl q ↦
            subst
              (λ c.
                count c (without a t.linked)
                ≤ (if os.in_use c (os.memb_free a t.pool) then 1 else 0))
              (sym q) (ground (arith, count-without_self a t.linked, fit.once a, h))
        | inr n ↦ ground (
          arith,
          count-without_ne a b t.linked (λ q. n (sym q)),
          fit.once b,
          os.memb_free_lem t.pool a b,
          ne→== b a n,
        )
      ];
      keys = λ k. ground (arith, uses-without_le k a t.entries t.linked, fit.keys k);
    }

    lookup-unlinked :
        (k : ℕ)
        → IsFit os t
        → 0 < count a t.linked
        → lookup os k unlinked ≡ (if k == (t.entries a).key then none else lookup os k t)
    unfolding lookup
    lookup-unlinked k fit h = elim (ℕ-cases k (t.entries a).key) [
      | inl q ↦
          let gone = find_entry-unused k t.entries (without a t.linked) (
            ground (
              arith,
              uses-without k a t.entries t.linked h,
              fit.keys k,
              eq→== (t.entries a).key k (sym q),
            )) in
          rw (eq→== k (t.entries a).key q, gone) refl
      | inr n ↦
          rw (ne→== k (t.entries a).key n)
            (ap (Option.map t.entries) (find_entry-without k a t.entries t.linked (λ q. n (sym q))))
    ]

  -- The status and the table that the removal of a key gives.
  pub record IsRemoved (key : ℕ) (t : Table os) (status : ℕ) (u : Table os) : Type 0 where
    pub fit : IsFit os u
    pub entries_same : u.entries ≡ t.entries
    pub status_lem : (status ≡ sdn_success) ↔ ((e : Entry) × (lookup os key t ≡ some e))
    pub found_as : (k : ℕ) → lookup os k u ≡ (if k == key then none else lookup os k t)

  remove_entry-missing :
      (key : ℕ) (t : Table os)
      → find_entry key t.entries t.linked ≡ none
      → remove_entry os key t ≡ (sdn_error, t)
  unfolding remove_entry
  remove_entry-missing key t h = ground (arith, h)

  remove_entry-there :
      (key : ℕ) (t : Table os) (a : ℕ)
      → find_entry key t.entries t.linked ≡ some a
      → remove_entry os key t ≡ (sdn_success, unlinked t a)
  unfolding remove_entry
  remove_entry-there key t a h = ground (arith, h, os.list_remove_lem t.linked a)

  pub remove_entry-IsRemoved :
      (key : ℕ) (t : Table os)
      → IsFit os t
      → let r = remove_entry os key t in IsRemoved key t r.0 r.1
  remove_entry-IsRemoved key t fit = elim (Option-cases (find_entry key t.entries t.linked)) [
    | inl h ↦
        subst (λ r. IsRemoved key t r.0 r.1) (sym (remove_entry-missing key t h))
          (record {
            fit = fit;
            entries_same = refl;
            status_lem =
                (λ q. absurd (omega arith), λ r. ground (arith, r.1, lookup-none os key t h));
            found_as = λ k. elim (ℕ-cases k key) [
              | inl q ↦ rw (q, ==-self key) (lookup-none os key t h)
              | inr n ↦ rw (ne→== k key n) refl
            ];
          })
    | inr (a, h) ↦
        let f = find_entry-some key a t.entries t.linked h in
        subst (λ r. IsRemoved key t r.0 r.1) (sym (remove_entry-there key t a h))
          (record {
            fit = unlinked-IsFit t a fit f.1;
            entries_same = refl;
            status_lem = (λ q. (t.entries a, lookup-some os key a t h), λ r. refl);
            found_as = λ k.
                subst (λ c. lookup os k (unlinked t a) ≡ (if k == c then none else lookup os k t))
                  f.0 (lookup-unlinked t a k fit f.1);
          })
  ]

  -- The table after the blocks of its list are freed one by one.
  pub clear_from_lem :
      (l : List ℕ) (t : Table os)
      → t.linked ≡ l
      → IsFit os t
      → let u = clear_from os l t in IsFit os u × (u.linked ≡ []) × (u.entries ≡ t.entries)
  unfolding clear_from
  clear_from_lem [] t same fit = (fit, same, refl)
  clear_from_lem (a ∷ rest) t same fit =
      let left : os.list_remove t.linked a ≡ rest =
        os.list_remove_lem t.linked a ∙ (ap (without a) same ∙ without-head a rest) in
      let there : 0 < count a t.linked = rw same (count-head a rest) in
      clear_from_lem rest
        (record t { pool = os.memb_free a t.pool; linked = os.list_remove t.linked a }) left
        (subst (λ l. IsFit os (record t { pool = os.memb_free a t.pool; linked = l }))
          (sym (os.list_remove_lem t.linked a)) (unlinked-IsFit t a fit there))
