-- ===== src/FlowTable/NextHop.antt =====
-- The removals by next hop, which the source says were not tested.
use idit_sdn.Base.{ℕ, ◌≡◌, refl, sym, ◌∙◌, subst}
use idit_sdn.Base.{inl, inr, Bool, false, ◌&&◌, some}
use idit_sdn.Base.{List, [], ◌∷◌, arith, ltb}
use idit_sdn.Base.{if◌then◌else◌, ℕ-cases}
use idit_sdn.Base.{ne→==, ==-self}
use idit_sdn.Queue.{sdn_success}
use idit_sdn.Contiki.{Contiki}
use idit_sdn.FlowTable.{Tables, free_matching}
use idit_sdn.FlowTable.{sdn_dataflow_remove_next_hop, sdn_controlflow_remove_next_hop}
use idit_sdn.FlowTable.{data_goes_to, control_goes_to}
use idit_sdn.FlowTable.{sdn_dataflow_get, sdn_controlflow_get}
use idit_sdn.FlowTable.Count.{count, find_entry-some}

module _ (os : Contiki) where
  -- The blocks of the list that match are freed, the other blocks are as they were.
  free_matching_lem :
      (p : ℕ → Bool) (l : List ℕ) (pool : os.Pool) (b : ℕ)
      → os.in_use b (free_matching os p l pool)
        ≡ (if p b && ltb 0 (count b l) then false else os.in_use b pool)
  unfolding free_matching count
  free_matching_lem p [] pool b = ground (arith)
  free_matching_lem p (a ∷ l) pool b =
      let tail = free_matching_lem p l (if p a then os.memb_free a pool else pool) b in
      elim (ℕ-cases b a) [
        | inl q ↦
            tail
            ∙ subst
                (λ c.
                  (if p c && ltb 0 (count c l)
                    then false
                    else os.in_use c (if p a then os.memb_free a pool else pool))
                  ≡ (if p c && ltb 0 (count c (a ∷ l)) then false else os.in_use c pool))
                (sym q) (ground (arith, ==-self a, os.memb_free_lem pool a a))
        | inr n ↦ ground (arith, tail, ne→== b a n, os.memb_free_lem pool a b)
      ]

  -- A removal by next hop returns success and frees the block of every entry of the table with that
  -- next hop (in the data table, but for the entry of the controller's flow), yet each search finds
  -- the same address after it as before: the entries stay linked in freed blocks, so an entry that
  -- the call frees is found where it is not in use.
  pub remove_next_hop_lem :
      (next_hop k : ℕ) (t : Tables os)
      → let d = sdn_dataflow_remove_next_hop os next_hop t in
        let c = sdn_controlflow_remove_next_hop os next_hop t in
        ((d.0 ≡ sdn_success) × (c.0 ≡ sdn_success))
        × (sdn_dataflow_get os k d.1 ≡ sdn_dataflow_get os k t)
        × (sdn_controlflow_get os k c.1 ≡ sdn_controlflow_get os k t)
        × ((a : ℕ)
            → sdn_dataflow_get os k t ≡ some a
            → os.in_use a d.1.dft.pool ≡ (
                if data_goes_to os next_hop t.dft.entries a then false else os.in_use a t.dft.pool))
        × ((a : ℕ)
            → sdn_controlflow_get os k t ≡ some a
            → os.in_use a c.1.cft.pool ≡ (
                if control_goes_to os next_hop t.cft.entries a
                then false
                else os.in_use a t.cft.pool))
  unfolding sdn_dataflow_remove_next_hop sdn_controlflow_remove_next_hop sdn_dataflow_get
      sdn_controlflow_get
  remove_next_hop_lem next_hop k t = (
    (refl, refl),
    refl,
    refl,
    λ a h. ground (
      arith,
      free_matching_lem (data_goes_to os next_hop t.dft.entries) t.dft.linked t.dft.pool a,
      find_entry-some k a t.dft.entries t.dft.linked h,
    ),
    λ a h. ground (
      arith,
      free_matching_lem (control_goes_to os next_hop t.cft.entries) t.cft.linked t.cft.pool a,
      find_entry-some k a t.cft.entries t.cft.linked h,
    ),
  )
