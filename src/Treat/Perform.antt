-- ===== src/Treat/Perform.antt =====
-- The treatment of a packet received and the flow tables together: a route that the controller sets
-- up is the one that later packets take.
use idit_sdn.Base.{ℕ, ◌≤◌, ◌≡◌, refl, sym, ap, ◌∙◌, subst}
use idit_sdn.Base.{inl, inr, true, false, none, some}
use idit_sdn.Base.{List, [], ◌∷◌, ◌++◌, arith, ◌==◌}
use idit_sdn.Base.{if◌then◌else◌, Option-cases}
use idit_sdn.Base.{==-self}
use idit_sdn.Queue.{sdn_success}
use idit_sdn.Contiki.{Contiki}
use idit_sdn.FlowTable.{Entry, Table, Tables, find_entry, older}
use idit_sdn.FlowTable.{control_action, action_receive, action_forward}
use idit_sdn.FlowTable.{sdn_controlflow_insert, sdn_dataflow_insert, sdn_controlflow_get}
use idit_sdn.FlowTable.Insert.{lookup, lookup-some, lookup-none}
use idit_sdn.FlowTable.Node.{IsSound, insert_lem, control_written}
use idit_sdn.Packet.{
  Bytes, field, Kind, kind_of, packet_addr, packet_source, check_packet_len, known_type, least_len,
}
use idit_sdn.Packet.{routed_by_flowid, routed_by_addr, routed_by_src}
use idit_sdn.Packet.{control_flow_setup, data_flow_setup, control_flow_request, data_flow_request}
use idit_sdn.Packet.{
  neighbor_report, data_packet, src_routed_control_flow_setup, src_routed_data_flow_setup,
}
use idit_sdn.Packet.{multiple_control_flow_setup, multiple_data_flow_setup, nd, cd}
use idit_sdn.Packet.{ack_by_flow_id, src_routed_ack, register_flowid, ack_by_flow_address}
use idit_sdn.Packet.{mngt_cont_src_rtd, mngt_node_data, unknown_type}
use idit_sdn.Treat.{Config, Effect, controlflow_insert, dataflow_insert, sdn_execute_action_receive}
use idit_sdn.Treat.{treat_control_flow_setup, add_suspect}
use idit_sdn.Treat.{metric_rx, manag_update}
use idit_sdn.Treat.Decide.{Decision, decision, is_data, is_mngt, sdn_treat_packet}
use idit_sdn.Treat.Decide.{sdn_treat_packet_receiv}
use idit_sdn.Treat.Shared.{route, route_by_addr, by_entry, finish, is_for_us, count_use, no_count}
use idit_sdn.Treat.Shared.{count_received, treat_packet_lem, treat_packet_receiv_lem}
use idit_sdn.Base.{Bool}

by_addr_only : (k : Kind) → routed_by_addr k ≡ true → routed_by_flowid k ≡ false
unfolding routed_by_addr routed_by_flowid
by_addr_only control_flow_setup h = refl
by_addr_only data_flow_setup h = refl
by_addr_only control_flow_request h = ground arith
by_addr_only data_flow_request h = ground arith
by_addr_only neighbor_report h = ground arith
by_addr_only data_packet h = ground arith
by_addr_only src_routed_control_flow_setup h = refl
by_addr_only src_routed_data_flow_setup h = refl
by_addr_only multiple_control_flow_setup h = refl
by_addr_only multiple_data_flow_setup h = refl
by_addr_only nd h = refl
by_addr_only cd h = refl
by_addr_only ack_by_flow_id h = ground arith
by_addr_only src_routed_ack h = refl
by_addr_only register_flowid h = ground arith
by_addr_only ack_by_flow_address h = refl
by_addr_only mngt_cont_src_rtd h = refl
by_addr_only mngt_node_data h = ground arith
by_addr_only unknown_type h = refl

control_action-forward :
    (own next_hop action : ℕ)
    → action ≡ action_forward
    → (next_hop == own) ≡ false
    → control_action own next_hop action ≡ action_forward
unfolding control_action
control_action-forward own next_hop action h n = rw (n, h) refl

module _ (os : Contiki) where
  -- The calls carried out: the insertions change the tables, any other call, `other`, changes the
  -- rest of the node. `solve_flow` and `solve_dest` are the insertions' calls.
  module _ {ℓ} {W : Type ℓ} (solve_flow solve_dest : Entry → W → W) (other : Effect → W → W)
      (own : ℕ) where
    unfoldable pub perform : Effect → Tables os × W → Tables os × W
    perform (controlflow_insert d n a) (t, w) =
        (sdn_controlflow_insert os solve_dest own d n a t w).1
    perform (dataflow_insert k n a) (t, w) = (sdn_dataflow_insert os solve_flow own k n a t w).1
    perform e (t, w) = (t, other e w)

    unfoldable pub perform_all : List Effect → Tables os × W → Tables os × W
    perform_all [] s = s
    perform_all (e ∷ es) s = perform_all es (perform e s)

  -- What is found under a key is at an address that the search gives.
  lookup-address :
      (k : ℕ) (t : Table os) (e : Entry)
      → lookup os k t ≡ some e
      → (a : ℕ) × (find_entry k t.entries t.linked ≡ some a) × (t.entries a ≡ e)
  lookup-address k t e h = elim (Option-cases (find_entry k t.entries t.linked)) [
    | inl n ↦ absurd (ground (arith, lookup-none os k t n, h))
    | inr (a, f) ↦ (a, f, ground (arith, lookup-some os k a t f, h))
  ]

  module _ (touch : Bool → ℕ → Tables os → Tables os) (missing : List Effect) (c : Config)
      (k : Kind) (q : Bytes) (m time : ℕ) (t : Tables os) where
    -- A packet routed by an address that the table has.
    route-addr :
        (a : ℕ)
        → routed_by_addr k ≡ true
        → check_packet_len k q m ≡ sdn_success
        → sdn_controlflow_get os (packet_addr q) t ≡ some a
        → route os touch missing c k q m time t
          ≡ decision os
              (t.cft.entries a).action
              (some (t.cft.entries a).next_hop)
              []
              (touch false a t)
    unfolding route route_by_addr by_entry
    route-addr a r ok h = rw (ok, by_addr_only k r, r, h) refl

  finish-forward :
      (received : List Effect) (c : Config) (k : Kind) (q : Bytes) (m : ℕ) (d : Decision os)
      → d.action ≡ action_forward
      → finish os received c k q m d ≡ d
  unfolding finish
  finish-forward received c k q m d h = rw h refl

  finish-receive :
      (received : List Effect) (c : Config) (k : Kind) (q : Bytes) (m : ℕ) (d : Decision os)
      → d.action ≡ action_receive
      → finish os received c k q m d ≡ record d {
        next_hop = none;
        effects = d.effects ++ (received ++ sdn_execute_action_receive c k q m);
      }
  unfolding finish
  finish-receive received c k q m d h = rw h refl

  -- A packet that a node sends by address, where its table has an entry that forwards.
  sent_by_addr :
      (c : Config) (q : Bytes) (m time : ℕ) (t : Tables os) (e : Entry)
      → routed_by_addr (kind_of (q 0)) ≡ true
      → check_packet_len (kind_of (q 0)) q m ≡ sdn_success
      → lookup os (packet_addr q) t.cft ≡ some e
      → e.action ≡ action_forward
      → (sdn_treat_packet os c q m time t).next_hop ≡ some e.next_hop
  unfolding sdn_controlflow_get
  sent_by_addr c q m time t e r ok found_as act =
      let f = lookup-address (packet_addr q) t.cft e found_as in
      let k = kind_of (q 0) in
      let routed = route-addr (count_use os) [] c k q m time t f.0 r ok f.1 in
      ap (λ (d : Decision os). d.next_hop)
        (treat_packet_lem os c q m time t
          ∙ ap (finish os (if is_for_us c k q then metric_rx ∷ [] else []) c k q m) routed
          ∙ finish-forward (if is_for_us c k q then metric_rx ∷ [] else []) c k q m
              (decision os (t.cft.entries f.0).action (some (t.cft.entries f.0).next_hop) []
                (count_use os false f.0 t))
              (ap (λ (x : Entry). x.action) f.2 ∙ act))
      ∙ ap (λ (x : Entry). some x.next_hop) f.2

  module _ {ℓ} {W : Type ℓ} (solve_flow solve_dest : Entry → W → W) (other : Effect → W → W)
      (c : Config) where
    -- A packet received: it is treated, and the calls are carried out.
    unfoldable pub receive : Bytes → ℕ → ℕ → Tables os × W → Tables os × W
    receive p len time (t, w) =
        let d = sdn_treat_packet_receiv os c p len time t in
        perform_all solve_flow solve_dest other c.own d.effects (d.tables, w)

    setup_at :
        (p : Bytes) (n time a : ℕ) (t : Tables os)
        → 13 ≤ n
        → sdn_controlflow_get os (packet_addr p) t ≡ some a
        → (t.cft.entries a).action ≡ action_receive
        → finish os
            (if is_for_us c control_flow_setup p then count_received control_flow_setup else [])
            c
            control_flow_setup
            p
            n
            (route os
              (no_count os)
              (if is_data control_flow_setup then add_suspect (packet_source p) ∷ [] else [])
              c
              control_flow_setup
              p
              n
              time
              t)
          ≡ decision os
              (t.cft.entries a).action
              none
              (metric_rx ∷ manag_update 0 3 ∷ treat_control_flow_setup c p)
              t
    unfolding is_for_us count_received is_data is_mngt routed_by_src sdn_execute_action_receive
        check_packet_len least_len known_type routed_by_addr
    setup_at p n time a t len h act =
        ap (finish os (metric_rx ∷ manag_update 0 3 ∷ []) c control_flow_setup p n)
          (route-addr (no_count os) [] c control_flow_setup p n time t a refl (ground arith) h)
        ∙ finish-receive (metric_rx ∷ manag_update 0 3 ∷ []) c control_flow_setup p n
            (decision os (t.cft.entries a).action (some (t.cft.entries a).next_hop) [] t) act

    -- What a setup of a control flow comes to at the node that it is addressed to.
    setup_lem :
        (p : Bytes) (n time a : ℕ) (t : Tables os)
        → p 0 ≡ 0
        → 13 ≤ n
        → sdn_controlflow_get os (packet_addr p) t ≡ some a
        → (t.cft.entries a).action ≡ action_receive
        → sdn_treat_packet_receiv os c p n time t
          ≡ decision os
              (t.cft.entries a).action
              none
              (metric_rx ∷ manag_update 0 3 ∷ treat_control_flow_setup c p)
              t
    unfolding kind_of
    setup_lem p n time a t kind len h act =
        treat_packet_receiv_lem os c p n time t
        ∙ subst
            (λ x.
              finish os (if is_for_us c (kind_of x) p then count_received (kind_of x) else []) c
                (kind_of x) p n
                (route os (no_count os)
                  (if is_data (kind_of x) then add_suspect (packet_source p) ∷ [] else []) c
                  (kind_of x) p n time t)
              ≡ decision os (t.cft.entries a).action none
                  (metric_rx ∷ manag_update 0 3 ∷ treat_control_flow_setup c p) t)
            (sym kind) (setup_at p n time a t len h act)

    setup_tables :
        (p : Bytes) (n time a : ℕ) (t : Tables os) (w : W)
        → p 0 ≡ 0
        → 13 ≤ n
        → sdn_controlflow_get os (packet_addr p) t ≡ some a
        → (t.cft.entries a).action ≡ action_receive
        → (receive p n time (t, w)).0
          ≡ (sdn_controlflow_insert os solve_dest c.own
              (field p 8)
              (field p 11)
              (p 10)
              t
              (other (manag_update 0 3) (other metric_rx w))).1.0
    unfolding receive perform perform_all treat_control_flow_setup
    setup_tables p n time a t w kind len h act =
        ap
          (λ (d : Decision os).
            (perform_all solve_flow solve_dest other c.own d.effects (d.tables, w)).0)
          (setup_lem p n time a t kind len h act)

    -- A setup of a control flow, received by a node whose sound tables say that packets to its
    -- destination are received, makes the node send what it then has to send to the setup's route
    -- destination to the setup's next hop: any packet that is routed by that address and long enough.
    -- The setup is long enough and forwards to another node than this one, and the insertion finds
    -- a block for its entry.
    pub setup-then-send :
        (p q : Bytes) (n m time later a : ℕ) (t : Tables os) (w : W)
        → IsSound os t
        → p 0 ≡ 0
        → 13 ≤ n
        → sdn_controlflow_get os (packet_addr p) t ≡ some a
        → (t.cft.entries a).action ≡ action_receive
        → p 10 ≡ action_forward
        → (field p 11 == c.own) ≡ false
        → (sdn_controlflow_insert os solve_dest c.own
            (field p 8)
            (field p 11)
            (p 10)
            t
            (other (manag_update 0 3) (other metric_rx w))).0
          ≡ sdn_success
        → routed_by_addr (kind_of (q 0)) ≡ true
        → check_packet_len (kind_of (q 0)) q m ≡ sdn_success
        → packet_addr q ≡ field p 8
        → (sdn_treat_packet os c q m later (receive p n time (t, w)).0).next_hop ≡ some (field p 11)
    setup-then-send p q n m time later a t w sound kind len h act fwd away stored r ok addr =
        let w' = other (manag_update 0 3) (other metric_rx w) in
        let e = control_written os solve_dest c.own (field p 8) (field p 11) (p 10) in
        let u =
          (sdn_controlflow_insert os solve_dest c.own (field p 8) (field p 11) (p 10) t w').1.0 in
        let there =
          (insert_lem os solve_dest c.own (field p 8) (field p 11) (p 10) t w' (field p 8) sound).2
          ∙ rw (stored, ==-self (field p 8)) refl in
        ap (λ v. (sdn_treat_packet os c q m later v).next_hop)
          (setup_tables p n time a t w kind len h act)
        ∙ sent_by_addr c q m later u (older e) r ok (ap (λ k. lookup os k u.cft) addr ∙ there)
            (control_action-forward c.own (field p 11) (p 10) fwd away)
