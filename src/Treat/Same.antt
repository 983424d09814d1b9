-- ===== src/Treat/Same.antt =====
-- A packet to send and a packet received are treated alike, but for what is counted.
use idit_sdn.Base.{ℕ, ◌≡◌, refl, sym, ap, ◌∙◌, subst}
use idit_sdn.Base.{inl, inr, Bool, true, false, Option, none, some}
use idit_sdn.Base.{List, [], ◌∷◌, ◌++◌, arith, ◌==◌}
use idit_sdn.Base.{if◌then◌else◌, Bool-cases, ℕ-cases}
use idit_sdn.Base.{ne→==, ==-self}
use idit_sdn.Base.{filter, ap₂}
use idit_sdn.Contiki.{Contiki}
use idit_sdn.FlowTable.{Tables, Entry, put, sdn_dataflow_get, sdn_controlflow_get}
use idit_sdn.FlowTable.{action_forward, action_receive}
use idit_sdn.Packet.{Bytes, bytes, Kind, kind_of, packet_source, packet_flow, packet_addr}
use idit_sdn.Packet.{check_packet_len, routed_by_flowid, routed_by_addr, routed_by_src, routed_not}
use idit_sdn.Queue.{sdn_success}
use idit_sdn.Treat.{
  Config, Effect, add_suspect, manag_update, metric_rx, unknown_flow, unknown_dest,
}
use idit_sdn.Treat.{sdn_execute_action_receive}
use idit_sdn.Treat.Decide.{Decision, decision, used, is_data, is_mngt}
use idit_sdn.Treat.Decide.{sdn_treat_packet, sdn_treat_packet_receiv}
use idit_sdn.Treat.Shared.{route, route_by_flowid, route_by_addr, route_by_src, route_not, finish}
use idit_sdn.Treat.Shared.{is_for_us, count_use, no_count, count_received, by_entry}
use idit_sdn.Treat.Shared.{treat_packet_lem, treat_packet_receiv_lem}
use idit_sdn.FlowTable.{Table}

-- Is the call more than a count of packets or of suspects?
unfoldable pub is_treatment : Effect → Bool
is_treatment (add_suspect a) = false
is_treatment (manag_update t o) = false
is_treatment _ = true

abbrev pub treatment : List Effect → List Effect
treatment l = filter is_treatment l

-- An entry without its count of uses.
abbrev pub uncounted : Entry → Entry
uncounted e = record e { times_used = 0 }

module _ (os : Contiki) where
  -- The table with counts of uses that may be others.
  pub record IsCounted (v t : Table os) : Type 0 where
    pub entries_same : (a : ℕ) → uncounted (v.entries a) ≡ uncounted (t.entries a)
    pub linked_same : v.linked ≡ t.linked
    pub pool_same : v.pool ≡ t.pool

  uncounted-IsCounted : (t : Table os) → IsCounted t t
  uncounted-IsCounted t = record { entries_same = λ a. refl; linked_same = refl; pool_same = refl }

  used-IsCounted :
      (a : ℕ) (t : Table os)
      → IsCounted (record t { entries = put a (used (t.entries a)) t.entries }) t
  used-IsCounted a t = record {
    entries_same = λ b. elim (ℕ-cases b a) [
      | inl q ↦
          subst (λ x. uncounted (put a (used (t.entries a)) t.entries x) ≡ uncounted (t.entries x))
            (sym q) (rw (==-self a) refl)
      | inr n ↦ rw (ne→== b a n) refl
    ];
    linked_same = refl;
    pool_same = refl;
  }

  -- The decisions make the same calls but for counts, and the first has counted at most.
  pub record IsLike (t : Tables os) (d e : Decision os) : Type 0 where
    pub action_same : d.action ≡ e.action
    pub next_hop_same : d.next_hop ≡ e.next_hop
    pub effects_same : treatment d.effects ≡ treatment e.effects
    pub untouched : e.tables ≡ t
    pub data_counted : IsCounted d.tables.dft t.dft
    pub control_counted : IsCounted d.tables.cft t.cft

  missed-IsLike :
      (touch touch' : ℕ → Tables os → Tables os) (v : Table os) (l l' : List Effect) (t : Tables os)
      → treatment l ≡ treatment l'
      → IsLike t (by_entry os touch v none l t) (by_entry os touch' v none l' t)
  unfolding by_entry
  missed-IsLike touch touch' v l l' t h = record {
    action_same = refl;
    next_hop_same = refl;
    effects_same = h;
    untouched = refl;
    data_counted = uncounted-IsCounted t.dft;
    control_counted = uncounted-IsCounted t.cft;
  }

  data-IsLike :
      (found_at : Option ℕ) (l l' : List Effect) (t : Tables os)
      → treatment l ≡ treatment l'
      → IsLike t
          (by_entry os (count_use os true) t.dft found_at l t)
          (by_entry os (no_count os true) t.dft found_at l' t)
  unfolding by_entry
  data-IsLike none l l' t h = missed-IsLike (count_use os true) (no_count os true) t.dft l l' t h
  data-IsLike (some a) l l' t h = record {
    action_same = refl;
    next_hop_same = refl;
    effects_same = refl;
    untouched = refl;
    data_counted = used-IsCounted a t.dft;
    control_counted = uncounted-IsCounted t.cft;
  }

  control-IsLike :
      (found_at : Option ℕ) (l : List Effect) (t : Tables os)
      → IsLike t
          (by_entry os (count_use os false) t.cft found_at l t)
          (by_entry os (no_count os false) t.cft found_at l t)
  unfolding by_entry
  control-IsLike none l t = missed-IsLike (count_use os false) (no_count os false) t.cft l l t refl
  control-IsLike (some a) l t = record {
    action_same = refl;
    next_hop_same = refl;
    effects_same = refl;
    untouched = refl;
    data_counted = uncounted-IsCounted t.dft;
    control_counted = used-IsCounted a t.cft;
  }

  same-IsLike : (d : Decision os) → IsLike d.tables d d
  same-IsLike d = record {
    action_same = refl;
    next_hop_same = refl;
    effects_same = refl;
    untouched = refl;
    data_counted = uncounted-IsCounted d.tables.dft;
    control_counted = uncounted-IsCounted d.tables.cft;
  }

  if-IsLike :
      (t : Tables os) (b : Bool) {x x' y y' : Decision os}
      → IsLike t x x'
      → IsLike t y y'
      → IsLike t (if b then x else y) (if b then x' else y')
  if-IsLike t true h g = h
  if-IsLike t false h g = g

  decision-IsLike :
      (a : ℕ) (h : Option ℕ) (l : List Effect) (t : Tables os)
      → IsLike t (decision os a h l t) (decision os a h l t)
  decision-IsLike a h l t = same-IsLike (decision os a h l t)

  -- The calls after an unknown flow are the same but for a suspect.
  route-IsLike :
      (missing : List Effect) (c : Config) (k : Kind) (p : Bytes) (len time : ℕ) (t : Tables os)
      → treatment missing ≡ []
      → IsLike t
          (route os (count_use os) [] c k p len time t)
          (route os (no_count os) missing c k p len time t)
  unfolding route route_by_flowid route_by_addr route_by_src route_not is_treatment
  route-IsLike missing c k p len time t m =
      if-IsLike t (check_packet_len k p len == sdn_success)
        (if-IsLike t (routed_by_flowid k)
          (data-IsLike (sdn_dataflow_get os (packet_flow p) t)
            (unknown_flow (bytes 0 len p) time ∷ []) (unknown_flow (bytes 0 len p) time ∷ missing) t
            (ap (λ l. unknown_flow (bytes 0 len p) time ∷ l) (sym m)))
          (if-IsLike t (routed_by_addr k)
            (control-IsLike (sdn_controlflow_get os (packet_addr p) t)
              (unknown_dest (bytes 0 len p) ∷ []) t)
            (if-IsLike t (routed_by_src k) (decision-IsLike _ _ [] t) (
              if-IsLike t (routed_not k)
                (if-IsLike t (packet_source p == c.own) (decision-IsLike _ _ [] t)
                  (decision-IsLike _ _ [] t))
                (decision-IsLike _ _ [] t)))))
        (decision-IsLike _ _ [] t)

  treatment-append : (l r : List Effect) → treatment (l ++ r) ≡ treatment l ++ treatment r
  treatment-append [] r = refl
  treatment-append (x ∷ l) r = ground (arith, treatment-append l r)

  finish-IsLike :
      (received received' : List Effect) (c : Config) (k : Kind) (p : Bytes) (len : ℕ)
      (t : Tables os) (d e : Decision os)
      → treatment received ≡ treatment received'
      → IsLike t d e
      → IsLike t (finish os received c k p len d) (finish os received' c k p len e)
  unfolding finish
  finish-IsLike received received' c k p len t d e r like =
      subst
        (λ v. IsLike t (finish os received c k p len d) (
          if v == action_forward
          then e
          else if v == action_receive
          then record e {
            next_hop = none;
            effects = e.effects ++ (received' ++ sdn_execute_action_receive c k p len);
          }
          else record e { next_hop = none }))
        like.action_same
        (if-IsLike t (d.action == action_forward) like (
          if-IsLike t (d.action == action_receive)
            (record {
              action_same = like.action_same;
              next_hop_same = refl;
              effects_same =
                  treatment-append d.effects (received ++ sdn_execute_action_receive c k p len)
                  ∙ (ap₂ (λ x y. x ++ y) like.effects_same
                        (treatment-append received (sdn_execute_action_receive c k p len)
                          ∙ (ap (λ x. x ++ treatment (sdn_execute_action_receive c k p len)) r
                              ∙ sym (
                                  treatment-append received'
                                    (sdn_execute_action_receive c k p len))))
                      ∙ sym (
                          treatment-append e.effects
                            (received' ++ sdn_execute_action_receive c k p len)));
              untouched = like.untouched;
              data_counted = like.data_counted;
              control_counted = like.control_counted;
            })
            (record {
              action_same = like.action_same;
              next_hop_same = refl;
              effects_same = like.effects_same;
              untouched = like.untouched;
              data_counted = like.data_counted;
              control_counted = like.control_counted;
            })))

  count_received-treatment : (k : Kind) → treatment (metric_rx ∷ []) ≡ treatment (count_received k)
  unfolding is_treatment count_received
  count_received-treatment k = ground (arith, Bool-cases (is_data k), Bool-cases (is_mngt k))

  -- The two treatments of a packet, for sending it and on its receipt, come to the same action, the
  -- same next hop and, but for the counts of packets and of suspects, the same calls. The second
  -- leaves the flow tables as they are, the first changes counts of uses at most.
  pub treat_packets-IsLike :
      (c : Config) (p : Bytes) (len time : ℕ) (t : Tables os)
      → IsLike t (sdn_treat_packet os c p len time t) (sdn_treat_packet_receiv os c p len time t)
  unfolding is_treatment
  treat_packets-IsLike c p len time t =
      let k = kind_of (p 0) in
      let missing = if is_data k then add_suspect (packet_source p) ∷ [] else [] in
      let like =
        finish-IsLike (if is_for_us c k p then metric_rx ∷ [] else [])
          (if is_for_us c k p then count_received k else []) c k p len t
          (route os (count_use os) [] c k p len time t)
          (route os (no_count os) missing c k p len time t)
          (ground (arith, count_received-treatment k, Bool-cases (is_for_us c k p)))
          (route-IsLike missing c k p len time t (ground (arith, Bool-cases (is_data k)))) in
      subst (λ d. IsLike t d (sdn_treat_packet_receiv os c p len time t))
        (sym (treat_packet_lem os c p len time t))
        (subst
          (IsLike t (
            finish os (if is_for_us c k p then metric_rx ∷ [] else []) c k p len
              (route os (count_use os) [] c k p len time t)))
          (sym (treat_packet_receiv_lem os c p len time t)) like)
