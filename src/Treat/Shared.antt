-- ===== src/Treat/Shared.antt =====
-- What `sdn_treat_packet` and `sdn_treat_packet_receiv` have in common, for the proofs on both: each
-- comes to the same steps, with its own counts.
use idit_sdn.Base.{ℕ, Bool, true, false, not, ◌&&◌, Option, none, some}
use idit_sdn.Base.{List, [], ◌∷◌, ◌++◌, ◌==◌, if◌then◌else◌}
use idit_sdn.Queue.{sdn_success}
use idit_sdn.Contiki.{Contiki}
use idit_sdn.FlowTable.{Tables, action_receive, action_forward, action_drop}
use idit_sdn.FlowTable.{sdn_dataflow_get, sdn_controlflow_get}
use idit_sdn.Packet.{Bytes, bytes, Kind, kind_of, check_packet_len, packet_flow, packet_addr}
use idit_sdn.Packet.{packet_source, packet_real_dest, routed_by_flowid, routed_by_addr}
use idit_sdn.Packet.{routed_by_src, routed_not}
use idit_sdn.Treat.{Config, Effect, sdn_execute_action_receive}
use idit_sdn.Treat.{unknown_flow, unknown_dest, add_suspect, metric_rx, manag_update}
use idit_sdn.Treat.Decide.{Decision, decision, is_data, is_mngt, count_data, count_control}
use idit_sdn.Treat.Decide.{treat_route, treat_switch, receiv_route, receiv_switch}
use idit_sdn.Treat.Decide.{sdn_treat_packet, sdn_treat_packet_receiv}
use idit_sdn.FlowTable.{Table}
use idit_sdn.Base.{◌≡◌, refl, ap, ◌∙◌}

-- Is a packet to count as received: not so a source routed one on its way.
unfoldable pub is_for_us : Config → Kind → Bytes → Bool
is_for_us c k p = not (routed_by_src k && not (packet_real_dest c.at_null k p == c.own))

unfoldable pub count_received : Kind → List Effect
count_received k =
    metric_rx
    ∷ (if not (is_data k) && not (is_mngt k)
        then manag_update 0 3 ∷ []
        else if is_data k
        then manag_update 0 2 ∷ []
        else [])

if_not {ℓ} : {A : Type ℓ} (b : Bool) (x y : A) → (if not b then x else y) ≡ (if b then y else x)
if_not true x y = refl
if_not false x y = refl

if_same {ℓ} :
    {A : Type ℓ} (b : Bool) {x y x' y' : A}
    → x ≡ x'
    → y ≡ y'
    → (if b then x else y) ≡ (if b then x' else y')
if_same true e f = e
if_same false e f = f

if_both {ℓ} : {A : Type ℓ} (b : Bool) (x : A) → (if b then x else x) ≡ x
if_both true x = refl
if_both false x = refl

if_inside {ℓ m} :
    {A : Type ℓ} {B : Type m} (f : A → B) (b : Bool) (x y : A)
    → (if b then f x else f y) ≡ f (if b then x else y)
if_inside f true x y = refl
if_inside f false x y = refl

module _ (os : Contiki) where
  -- What the entry found says, or the calls after an unknown route. `touch` is what is done with
  -- the entry.
  unfoldable pub by_entry :
      (ℕ → Tables os → Tables os) → Table os → Option ℕ → List Effect → Tables os → Decision os
  by_entry touch v (some a) unknown t =
      decision os (v.entries a).action (some (v.entries a).next_hop) [] (touch a t)
  by_entry touch v none unknown t = decision os action_drop none unknown t

  -- `missing` are the calls after that of the module of unknown routes.
  unfoldable pub route_by_flowid :
      (Bool → ℕ → Tables os → Tables os) → List Effect → Bytes → ℕ → ℕ → Tables os → Decision os
  route_by_flowid touch missing p len time t =
      by_entry (touch true) t.dft (sdn_dataflow_get os (packet_flow p) t)
        (unknown_flow (bytes 0 len p) time ∷ missing) t

  unfoldable pub route_by_addr :
      (Bool → ℕ → Tables os → Tables os) → Bytes → ℕ → Tables os → Decision os
  route_by_addr touch p len t =
      by_entry (touch false) t.cft (sdn_controlflow_get os (packet_addr p) t)
        (unknown_dest (bytes 0 len p) ∷ []) t

  unfoldable pub route_by_src : Config → Bytes → Tables os → Decision os
  route_by_src c p t =
      decision os (if packet_addr p == c.own then action_receive else action_forward)
        (some (packet_addr p)) [] t

  unfoldable pub route_not : Config → Bytes → Tables os → Decision os
  route_not c p t =
      if packet_source p == c.own
      then decision os action_forward (some c.broadcast) [] t
      else decision os action_receive none [] t

  -- The first half: the check and the four ways to route a packet.
  unfoldable pub route :
      (Bool → ℕ → Tables os → Tables os)
      → List Effect
      → Config
      → Kind
      → Bytes
      → ℕ
      → ℕ
      → Tables os
      → Decision os
  route touch missing c k p len time t =
      if check_packet_len k p len == sdn_success
      then (if routed_by_flowid k
          then route_by_flowid touch missing p len time t
          else if routed_by_addr k
          then route_by_addr touch p len t
          else if routed_by_src k
          then route_by_src c p t
          else if routed_not k
          then route_not c p t
          else decision os action_drop none [] t)
      else decision os action_drop none [] t

  -- The second half: `received` is what is counted of a packet for this node.
  unfoldable pub finish : List Effect → Config → Kind → Bytes → ℕ → Decision os → Decision os
  finish received c k p len d =
      if d.action == action_forward
      then d
      else if d.action == action_receive
      then record d {
        next_hop = none;
        effects = d.effects ++ (received ++ sdn_execute_action_receive c k p len);
      }
      else record d { next_hop = none }

  -- The counts of the first function; the second has none.
  abbrev pub count_use : Bool → ℕ → Tables os → Tables os
  count_use b = if b then count_data os else count_control os

  abbrev pub no_count : Bool → ℕ → Tables os → Tables os
  no_count b a t = t

  by_entry_lem :
      (touch : ℕ → Tables os → Tables os) (v : Table os) (o : Option ℕ) (unknown : List Effect)
      (t : Tables os)
      → (elim o as (λ _. Decision os) [
        | some a ↦ decision os (v.entries a).action (some (v.entries a).next_hop) [] (touch a t)
        | none ↦ decision os action_drop none unknown t
      ])
        ≡ by_entry touch v o unknown t
  unfolding by_entry
  by_entry_lem touch v none unknown t = refl
  by_entry_lem touch v (some a) unknown t = refl

  module _ (c : Config) (k : Kind) (p : Bytes) (len time : ℕ) (t : Tables os) where
    treat_route_lem : treat_route os c k p len time t ≡ route count_use [] c k p len time t
    unfolding treat_route route route_by_flowid route_by_addr route_by_src route_not by_entry
    treat_route_lem =
        if_not (check_packet_len k p len == sdn_success) _ _
        ∙ if_same (check_packet_len k p len == sdn_success)
            (if_same (routed_by_flowid k)
              (by_entry_lem (count_use true) t.dft (sdn_dataflow_get os (packet_flow p) t)
                (unknown_flow (bytes 0 len p) time ∷ []) t)
              (if_same (routed_by_addr k)
                (by_entry_lem (count_use false) t.cft (sdn_controlflow_get os (packet_addr p) t)
                  (unknown_dest (bytes 0 len p) ∷ []) t)
                (if_same (routed_by_src k)
                  (if_inside (λ a. decision os a (some (packet_addr p)) [] t)
                    (packet_addr p == c.own) action_receive action_forward)
                  refl)))
            refl

    receiv_route_lem :
        receiv_route os c k p len time t
        ≡ route no_count
            (if is_data k then add_suspect (packet_source p) ∷ [] else [])
            c
            k
            p
            len
            time
            t
    unfolding receiv_route route route_by_flowid route_by_addr route_by_src route_not by_entry
    receiv_route_lem =
        if_not (check_packet_len k p len == sdn_success) _ _
        ∙ if_same (check_packet_len k p len == sdn_success)
            (if_same (routed_by_flowid k)
              (by_entry_lem (no_count true) t.dft (sdn_dataflow_get os (packet_flow p) t)
                (unknown_flow (bytes 0 len p) time
                  ∷ (if is_data k then add_suspect (packet_source p) ∷ [] else []))
                t)
              (if_same (routed_by_addr k)
                (by_entry_lem (no_count false) t.cft (sdn_controlflow_get os (packet_addr p) t)
                  (unknown_dest (bytes 0 len p) ∷ []) t)
                (if_same (routed_by_src k)
                  (if_inside (λ a. decision os a (some (packet_addr p)) [] t)
                    (packet_addr p == c.own) action_receive action_forward)
                  refl)))
            refl

  module _ (c : Config) (k : Kind) (p : Bytes) (len : ℕ) (d : Decision os) where
    treat_switch_lem :
        treat_switch os c k p len d
        ≡ finish (if is_for_us c k p then metric_rx ∷ [] else []) c k p len d
    unfolding treat_switch finish is_for_us
    treat_switch_lem = if_same (d.action == action_forward) refl (
        if_same (d.action == action_receive) refl
          (if_both (d.action == action_drop) (record d { next_hop = none })))

    receiv_switch_lem :
        receiv_switch os c k p len d
        ≡ finish (if is_for_us c k p then count_received k else []) c k p len d
    unfolding receiv_switch finish is_for_us count_received
    receiv_switch_lem = if_same (d.action == action_forward) refl (
        if_same (d.action == action_receive) refl
          (if_both (d.action == action_drop) (record d { next_hop = none })))

  pub treat_packet_lem :
      (c : Config) (p : Bytes) (len time : ℕ) (t : Tables os)
      → let k = kind_of (p 0) in
        sdn_treat_packet os c p len time t
        ≡ finish
            (if is_for_us c k p then metric_rx ∷ [] else [])
            c
            k
            p
            len
            (route count_use [] c k p len time t)
  unfolding sdn_treat_packet
  treat_packet_lem c p len time t =
      let k = kind_of (p 0) in
      ap (treat_switch os c k p len) (treat_route_lem c k p len time t)
      ∙ treat_switch_lem c k p len (route count_use [] c k p len time t)

  pub treat_packet_receiv_lem :
      (c : Config) (p : Bytes) (len time : ℕ) (t : Tables os)
      → let k = kind_of (p 0) in
        let missing = if is_data k then add_suspect (packet_source p) ∷ [] else [] in
        sdn_treat_packet_receiv os c p len time t
        ≡ finish
            (if is_for_us c k p then count_received k else [])
            c
            k
            p
            len
            (route no_count missing c k p len time t)
  unfolding sdn_treat_packet_receiv
  treat_packet_receiv_lem c p len time t =
      let k = kind_of (p 0) in
      let missing = if is_data k then add_suspect (packet_source p) ∷ [] else [] in
      ap (receiv_switch os c k p len) (receiv_route_lem c k p len time t)
      ∙ receiv_switch_lem c k p len (route no_count missing c k p len time t)
