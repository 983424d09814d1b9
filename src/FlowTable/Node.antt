-- ===== src/FlowTable/Node.antt =====
-- Both flow tables of a node: an insertion keeps them sound, and what every search gives after it.
use idit_sdn.Base.{ℕ, ◌≡◌}
use idit_sdn.Base.{some}
use idit_sdn.Base.{◌==◌}
use idit_sdn.Base.{if◌then◌else◌}
use mathlib.Core.Option
use idit_sdn.Queue.{sdn_success}
use idit_sdn.Contiki.{Contiki}
use idit_sdn.FlowTable.{Entry, Tables, older}
use idit_sdn.FlowTable.{new_entry, data_action, control_action, sdn_dataflow_insert}
use idit_sdn.FlowTable.{sdn_controlflow_insert}
use idit_sdn.Base.{refl}
use idit_sdn.FlowTable.Insert.{lookup, IsFit}
use idit_sdn.FlowTable.Store.{IsStored, store_entry-IsStored}

module _ (os : Contiki) where
  -- In each table the linked addresses are in use, none is linked twice, and no key is there twice.
  pub record IsSound (t : Tables os) : Type 0 where
    pub data_fit : IsFit os t.dft
    pub control_fit : IsFit os t.cft

  module _ {ℓ} {W : Type ℓ} (solve : Entry → W → W) (own key next_hop action : ℕ) where
    -- The entries that the two insertions write.
    abbrev pub data_written : Entry
    data_written = new_entry key next_hop (data_action own next_hop action)

    abbrev pub control_written : Entry
    control_written = new_entry key next_hop (control_action own next_hop action)

    data_insert-IsStored :
        (t : Tables os) (w : W)
        → IsSound t
        → let r = sdn_dataflow_insert os solve own key next_hop action t w in
          IsStored os data_written t.dft r.0 r.1.0.dft
    unfolding sdn_dataflow_insert
    data_insert-IsStored t w s = store_entry-IsStored os solve data_written t.dft w s.data_fit

    control_insert-IsStored :
        (t : Tables os) (w : W)
        → IsSound t
        → let r = sdn_controlflow_insert os solve own key next_hop action t w in
          IsStored os control_written t.cft r.0 r.1.0.cft
    unfolding sdn_controlflow_insert
    control_insert-IsStored t w s =
        store_entry-IsStored os solve control_written t.cft w s.control_fit

    pub data_insert-IsSound :
        (t : Tables os) (w : W)
        → IsSound t
        → IsSound (sdn_dataflow_insert os solve own key next_hop action t w).1.0
    unfolding sdn_dataflow_insert
    data_insert-IsSound t w s = record {
      data_fit = (data_insert-IsStored t w s).fit;
      control_fit = s.control_fit;
    }

    pub control_insert-IsSound :
        (t : Tables os) (w : W)
        → IsSound t
        → IsSound (sdn_controlflow_insert os solve own key next_hop action t w).1.0
    unfolding sdn_controlflow_insert
    control_insert-IsSound t w s = record {
      data_fit = s.data_fit;
      control_fit = (control_insert-IsStored t w s).fit;
    }

    -- In sound tables, an insertion in one table that returns success makes the search for its key
    -- give the entry written, one insertion old, and every other entry of that table one insertion
    -- older; one that returns an error changes no entry of it. What is found in the other table
    -- stays as it was.
    pub insert_lem :
        (t : Tables os) (w : W) (k : ℕ)
        → IsSound t
        → let d = sdn_dataflow_insert os solve own key next_hop action t w in
          let c = sdn_controlflow_insert os solve own key next_hop action t w in
          (lookup os k d.1.0.dft ≡ (
            if d.0 == sdn_success
            then (if k == key
                then some (older data_written)
                else Option.map older (lookup os k t.dft))
            else lookup os k t.dft))
          × (lookup os k d.1.0.cft ≡ lookup os k t.cft)
          × (lookup os k c.1.0.cft ≡ (
              if c.0 == sdn_success
              then (if k == key
                  then some (older control_written)
                  else Option.map older (lookup os k t.cft))
              else lookup os k t.cft))
          × (lookup os k c.1.0.dft ≡ lookup os k t.dft)
    unfolding sdn_dataflow_insert sdn_controlflow_insert
    insert_lem t w k s =
        let d = data_insert-IsStored t w s in
        let c = control_insert-IsStored t w s in (d.found_as k, refl, c.found_as k, refl)
