-- ===== src/FlowTable/Store.antt =====
-- An insertion or a removal in one flow table: what every search gives after it.
use idit_sdn.Base.{ℕ, ◌≡◌, refl, sym, subst}
use idit_sdn.Base.{inl, inr, none, some}
use idit_sdn.Base.{arith, ◌==◌}
use idit_sdn.Base.{if◌then◌else◌}
use mathlib.Core.Option
use idit_sdn.Queue.{sdn_success, sdn_error}
use idit_sdn.Contiki.{Contiki}
use idit_sdn.FlowTable.{Entry, Table, older, block_for, store_entry}
use idit_sdn.FlowTable.Insert.{lookup, IsFit, block_for-cases}
use idit_sdn.FlowTable.Insert.{placed, placed_lem, placed-IsFit, lookup-placed}

module _ (os : Contiki) where
  -- The table `u` and the status that an insertion of `e` in `t` gives.
  pub record IsStored (e : Entry) (t : Table os) (status : ℕ) (u : Table os) : Type 0 where
    pub fit : IsFit os u
    pub found_as :
        (k : ℕ)
        → lookup os k u ≡ (
            if status == sdn_success
            then (if k == e.key then some (older e) else Option.map older (lookup os k t))
            else lookup os k t)

  store_entry-full {ℓ} :
      {W : Type ℓ} (solve : Entry → W → W) (e : Entry) (t : Table os) (w : W)
      → block_for os e.key t ≡ none
      → store_entry os solve e t w ≡ (sdn_error, (t, w))
  unfolding store_entry
  store_entry-full solve e t w h = ground (arith, h)

  store_entry-block {ℓ} :
      {W : Type ℓ} (solve : Entry → W → W) (e : Entry) (t : Table os) (a : ℕ) (p : os.Pool) (w : W)
      → block_for os e.key t ≡ some (a, record t { pool = p })
      → store_entry os solve e t w ≡ (sdn_success, (placed os e t a p, solve e w))
  unfolding store_entry
  store_entry-block solve e t a p w h = ground (arith, h, placed_lem os e t a p)

  pub store_entry-IsStored {ℓ} :
      {W : Type ℓ} (solve : Entry → W → W) (e : Entry) (t : Table os) (w : W)
      → IsFit os t
      → let r = store_entry os solve e t w in IsStored e t r.0 r.1.0
  unfolding store_entry
  store_entry-IsStored solve e t w fit = elim (block_for-cases os e.key t fit) [
    | inl (full, missing, empty) ↦
        subst (λ r. IsStored e t r.0 r.1.0) (sym (store_entry-full solve e t w full))
          (record { fit = fit; found_as = λ k. refl })
    | inr (a, p, block) ↦
        subst (λ r. IsStored e t r.0 r.1.0) (sym (store_entry-block solve e t a p w block.chosen))
          (record {
            fit = placed-IsFit os e t a p fit block;
            found_as = λ k. lookup-placed os e t a p k fit block;
          })
  ]
