-- ===== src/FlowTable/Calls.antt =====
-- The calls on the flow tables of a node, one after the other.
use idit_sdn.Base.{ℕ, refl}
use idit_sdn.Base.{List, [], ◌∷◌, arith}
use idit_sdn.Contiki.{Contiki}
use idit_sdn.FlowTable.{Entry, Table, Tables}
use idit_sdn.FlowTable.{sdn_dataflow_insert, sdn_controlflow_insert, sdn_controlflow_init}
use idit_sdn.FlowTable.{sdn_dataflow_remove, sdn_controlflow_remove, sdn_dataflow_init}
use idit_sdn.FlowTable.{sdn_dataflow_clear, sdn_controlflow_clear, action_receive}
use idit_sdn.FlowTable.Count.{count, uses}
use idit_sdn.FlowTable.Removal.{remove_entry-IsRemoved, clear_from_lem}
use idit_sdn.FlowTable.Insert.{IsFit}
use idit_sdn.FlowTable.Node.{IsSound, data_insert-IsSound, control_insert-IsSound}

-- A call, with its arguments.
pub data Call : Type 0 where
  init_data : Call
  init_control : Call
  insert_data : ℕ → ℕ → ℕ → Call
  insert_control : ℕ → ℕ → ℕ → Call
  remove_data : ℕ → Call
  remove_control : ℕ → Call
  clear_data : Call
  clear_control : Call

module _ (os : Contiki) where
  module _ {ℓ} {W : Type ℓ} (solve_flow solve_dest : Entry → W → W) (own : ℕ) where
    unfoldable pub call : Call → Tables os × W → Tables os × W
    call init_data (t, w) = ((sdn_dataflow_init os t).1, w)
    call init_control (t, w) = (sdn_controlflow_init os solve_dest own t w).1
    call (insert_data k n a) (t, w) = (sdn_dataflow_insert os solve_flow own k n a t w).1
    call (insert_control k n a) (t, w) = (sdn_controlflow_insert os solve_dest own k n a t w).1
    call (remove_data k) (t, w) = ((sdn_dataflow_remove os k t).1, w)
    call (remove_control k) (t, w) = ((sdn_controlflow_remove os k t).1, w)
    call clear_data (t, w) = (sdn_dataflow_clear os t, w)
    call clear_control (t, w) = (sdn_controlflow_clear os t, w)

    unfoldable pub calls : List Call → Tables os × W → Tables os × W
    calls [] s = s
    calls (c ∷ cs) s = calls cs (call c s)

  -- A table whose list is emptied, without its blocks being freed.
  dropped-IsFit : (v : Table os) → IsFit os v → IsFit os (record v { linked = [] })
  unfolding count uses
  dropped-IsFit v fit = record { once = λ a. ground arith; keys = λ k. omega arith }

  drop_control-IsSound :
      (t : Tables os) → IsSound os t → IsSound os (record t { cft = record t.cft { linked = [] } })
  drop_control-IsSound t s = record {
    data_fit = s.data_fit;
    control_fit = dropped-IsFit t.cft s.control_fit;
  }

  module _ {ℓ} {W : Type ℓ} (solve_flow solve_dest : Entry → W → W) (own : ℕ) where
    call-IsSound :
        (c : Call) (s : Tables os × W)
        → IsSound os s.0
        → IsSound os (call solve_flow solve_dest own c s).0
    unfolding call sdn_dataflow_init sdn_controlflow_init sdn_dataflow_remove sdn_controlflow_remove
        sdn_dataflow_clear sdn_controlflow_clear
    call-IsSound init_data (t, w) h = record {
      data_fit = dropped-IsFit t.dft h.data_fit;
      control_fit = h.control_fit;
    }
    call-IsSound init_control (t, w) h =
        control_insert-IsSound os solve_dest own own own action_receive
          (record t { cft = record t.cft { linked = [] } }) w (drop_control-IsSound t h)
    call-IsSound (insert_data k n a) (t, w) h = data_insert-IsSound os solve_flow own k n a t w h
    call-IsSound (insert_control k n a) (t, w) h =
        control_insert-IsSound os solve_dest own k n a t w h
    call-IsSound (remove_data k) (t, w) h = record {
      data_fit = (remove_entry-IsRemoved os k t.dft h.data_fit).fit;
      control_fit = h.control_fit;
    }
    call-IsSound (remove_control k) (t, w) h = record {
      data_fit = h.data_fit;
      control_fit = (remove_entry-IsRemoved os k t.cft h.control_fit).fit;
    }
    call-IsSound clear_data (t, w) h = record {
      data_fit = (clear_from_lem os t.dft.linked t.dft refl h.data_fit).0;
      control_fit = h.control_fit;
    }
    call-IsSound clear_control (t, w) h = record {
      data_fit = h.data_fit;
      control_fit = (clear_from_lem os t.cft.linked t.cft refl h.control_fit).0;
    }

    -- Initialisations, insertions, removals by key and clearings of both tables, in any order and
    -- number, keep the tables sound: in each table the linked addresses are all different and all in
    -- use in its pool, and no key is there twice.
    pub calls-IsSound :
        (cs : List Call) (s : Tables os × W)
        → IsSound os s.0
        → IsSound os (calls solve_flow solve_dest own cs s).0
    unfolding calls
    calls-IsSound [] s h = h
    calls-IsSound (c ∷ cs) s h =
        calls-IsSound cs (call solve_flow solve_dest own c s) (call-IsSound c s h)
