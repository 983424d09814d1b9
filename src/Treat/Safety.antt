-- ===== src/Treat/Safety.antt =====
-- The whole treatment of a packet does not depend on memory past the packet's length.
use idit_sdn.Base.{ℕ, ◌≤◌, ◌<◌, ◌≡◌, refl, ap, subst}
use idit_sdn.Base.{inl, inr, true, false, ◌||◌}
use idit_sdn.Base.{List, [], ◌∷◌, arith, ◌==◌}
use idit_sdn.Base.{if◌then◌else◌, Bool-cases}
use idit_sdn.Queue.{sdn_success}
use idit_sdn.Contiki.{Contiki}
use idit_sdn.FlowTable.{Tables}
use idit_sdn.Packet.{Bytes, Kind, kind_of, check_packet_len, least_len, packet_source}
use idit_sdn.Packet.{packet_real_dest, routed_by_flowid, routed_by_addr, routed_by_src, routed_not}
use idit_sdn.Packet.{control_flow_setup, data_flow_setup, control_flow_request, data_flow_request}
use idit_sdn.Packet.{neighbor_report, data_packet, src_routed_control_flow_setup}
use idit_sdn.Packet.{src_routed_data_flow_setup, multiple_control_flow_setup}
use idit_sdn.Packet.{multiple_data_flow_setup, nd, cd, ack_by_flow_id, src_routed_ack}
use idit_sdn.Packet.{register_flowid, ack_by_flow_address, mngt_cont_src_rtd, mngt_node_data}
use idit_sdn.Packet.{unknown_type}
use idit_sdn.Packet.Agree.{Agree, Agree-at, field-Agree, bytes-Agree}
use idit_sdn.Treat.{Config, Effect, metric_rx, add_suspect}
use idit_sdn.Treat.Decide.{Decision, is_data, sdn_treat_packet, sdn_treat_packet_receiv}
use idit_sdn.Treat.Shared.{route, route_by_flowid, route_by_addr, route_by_src, route_not, finish}
use idit_sdn.Treat.Shared.{is_for_us, count_use, no_count, count_received, treat_packet_lem}
use idit_sdn.Treat.Shared.{treat_packet_receiv_lem}
use idit_sdn.Base.{Bool, sym, ◌∙◌}
use idit_sdn.Treat.Local.{if-cong}
use idit_sdn.Treat.Checked.{
  guarded, check-local, execute-local, check-least_len, routed-len, source-len,
}

-- The calls that a packet received adds after an unknown flow.
abbrev suspects : Bytes → Kind → List Effect
suspects p k = if is_data k then add_suspect (packet_source p) ∷ [] else []

module _ (os : Contiki) (c : Config) (n time : ℕ) (p q : Bytes) (same : Agree n p q) where
  flowid-local :
      (touch : Bool → ℕ → Tables os → Tables os) (missing missing' : List Effect) (t : Tables os)
      → 8 ≤ n
      → missing ≡ missing'
      → route_by_flowid os touch missing p n time t ≡ route_by_flowid os touch missing' q n time t
  unfolding route_by_flowid
  flowid-local touch missing missing' t h m =
      rw (field-Agree n p q same 6 (omega arith), bytes-Agree n p q same 0 n (omega arith), m) refl

  addr-local :
      (touch : Bool → ℕ → Tables os → Tables os) (t : Tables os)
      → 8 ≤ n
      → route_by_addr os touch p n t ≡ route_by_addr os touch q n t
  unfolding route_by_addr
  addr-local touch t h =
      rw (field-Agree n p q same 6 (omega arith), bytes-Agree n p q same 0 n (omega arith)) refl

  src-local : (t : Tables os) → 8 ≤ n → route_by_src os c p t ≡ route_by_src os c q t
  unfolding route_by_src
  src-local t h = rw (field-Agree n p q same 6 (omega arith)) refl

  not-local : (t : Tables os) → 6 ≤ n → route_not os c p t ≡ route_not os c q t
  unfolding route_not
  not-local t h = rw (field-Agree n p q same 4 (omega arith)) refl

  route-local :
      (touch : Bool → ℕ → Tables os → Tables os) (missing missing' : List Effect) (k : Kind)
      (t : Tables os)
      → guarded k p n ≡ true
      → ((routed_not k || is_data k) ≡ true → 6 ≤ n → missing ≡ missing')
      → (is_data k ≡ false → missing ≡ missing')
      → route os touch missing c k p n time t ≡ route os touch missing' c k q n time t
  unfolding route
  route-local touch missing missing' k t g m m' =
      if-cong (check_packet_len k p n == sdn_success) (check_packet_len k q n == sdn_success)
        (ap (λ v. v == sdn_success) (check-local n p q same k))
        (λ ok.
          let len = check-least_len k p n ok in
          if-cong (routed_by_flowid k) (routed_by_flowid k) refl
            (λ f.
              flowid-local touch missing missing' t (routed-len k p n len g (ground (arith, f)))
                (elim (Bool-cases (is_data k)) [
                  | inl d ↦ m (ground (arith, d)) (source-len k p n len (ground (arith, d)))
                  | inr d ↦ m' d
                ]))
            (λ f.
              if-cong (routed_by_addr k) (routed_by_addr k) refl
                (λ a. addr-local touch t (routed-len k p n len g (ground (arith, a))))
                (λ a.
                  if-cong (routed_by_src k) (routed_by_src k) refl
                    (λ s. src-local t (routed-len k p n len g (ground (arith, s))))
                    (λ s.
                      if-cong (routed_not k) (routed_not k) refl
                        (λ r. not-local t (source-len k p n len (ground (arith, r))))
                        (λ r. refl)))))
        (λ bad. refl)

  -- Where the check fails the packet is dropped, whatever is counted of it.
  dropped :
      (touch : Bool → ℕ → Tables os → Tables os) (missing received received' : List Effect)
      (k : Kind) (t : Tables os)
      → (check_packet_len k p n == sdn_success) ≡ false
      → finish os received c k p n (route os touch missing c k p n time t)
        ≡ finish os received' c k q n (route os touch missing c k p n time t)
  unfolding finish route
  dropped touch missing received received' k t bad = rw bad refl

  finish-local :
      (received received' : List Effect) (k : Kind) (d : Decision os)
      → least_len k p ≤ n
      → guarded k p n ≡ true
      → received ≡ received'
      → finish os received c k p n d ≡ finish os received' c k q n d
  unfolding finish
  finish-local received received' k d len g r = rw (r, execute-local n p q same c k len g) refl

  for_us-local : (k : Kind) → least_len k p ≤ n → is_for_us c k p ≡ is_for_us c k q
  unfolding is_for_us packet_real_dest least_len routed_by_src
  for_us-local src_routed_control_flow_setup len = rw (field-Agree n p q same 13 (omega arith)) refl
  for_us-local src_routed_data_flow_setup len = rw (field-Agree n p q same 13 (omega arith)) refl
  for_us-local src_routed_ack len = rw (field-Agree n p q same 10 (omega arith)) refl
  for_us-local mngt_cont_src_rtd len = rw (field-Agree n p q same 8 (omega arith)) refl
  for_us-local control_flow_setup len = refl
  for_us-local data_flow_setup len = refl
  for_us-local control_flow_request len = refl
  for_us-local data_flow_request len = refl
  for_us-local neighbor_report len = refl
  for_us-local data_packet len = refl
  for_us-local multiple_control_flow_setup len = refl
  for_us-local multiple_data_flow_setup len = refl
  for_us-local nd len = refl
  for_us-local cd len = refl
  for_us-local ack_by_flow_id len = refl
  for_us-local register_flowid len = refl
  for_us-local ack_by_flow_address len = refl
  for_us-local mngt_node_data len = refl
  for_us-local unknown_type len = refl

  -- Both halves, for what the two functions count of a packet for this node.
  treated-local :
      (touch : Bool → ℕ → Tables os → Tables os) (missing missing' count : List Effect) (k : Kind)
      (t : Tables os)
      → guarded k p n ≡ true
      → (6 ≤ n → missing ≡ missing')
      → (is_data k ≡ false → missing ≡ missing')
      → finish os
          (if is_for_us c k p then count else [])
          c
          k
          p
          n
          (route os touch missing c k p n time t)
        ≡ finish os
            (if is_for_us c k q then count else [])
            c
            k
            q
            n
            (route os touch missing' c k q n time t)
  treated-local touch missing missing' count k t g m m' =
      let r = route-local touch missing missing' k t g (λ d. m) m' in
      subst
        (λ d.
          finish os (if is_for_us c k p then count else []) c k p n
            (route os touch missing c k p n time t)
          ≡ finish os (if is_for_us c k q then count else []) c k q n d)
        r
        (elim (Bool-cases (check_packet_len k p n == sdn_success)) [
          | inr bad ↦
              dropped touch missing (if is_for_us c k p then count else [])
                (if is_for_us c k q then count else []) k t bad
          | inl ok ↦
              let len = check-least_len k p n ok in
              finish-local (if is_for_us c k p then count else [])
                (if is_for_us c k q then count else []) k (route os touch missing c k p n time t)
                len g (ap (λ b. if b then count else []) (for_us-local k len))
        ])

  -- The treatment of a packet, to send or received, does not depend on memory past the packet's
  -- length: it makes the same decision, the same calls and the same changes to the tables for any
  -- two memories that agree on the packet. The packet has at least the byte of its type, it is not
  -- one that the length check leaves unguarded (see `guarded`), and what the null pointer leads to
  -- is the same.
  pub treat_packet-local :
      (t : Tables os)
      → 0 < n
      → guarded (kind_of (p 0)) p n ≡ true
      → (sdn_treat_packet os c p n time t ≡ sdn_treat_packet os c q n time t)
        × (sdn_treat_packet_receiv os c p n time t ≡ sdn_treat_packet_receiv os c q n time t)
  treat_packet-local t pos g =
      let k = kind_of (p 0) in
      let r =
        subst
          (λ x.
            (finish os (if is_for_us c k p then metric_rx ∷ [] else []) c k p n
                (route os (count_use os) [] c k p n time t)
              ≡ finish os (if is_for_us c (kind_of x) q then metric_rx ∷ [] else []) c (kind_of x) q
                  n (route os (count_use os) [] c (kind_of x) q n time t))
            × (finish os (if is_for_us c k p then count_received k else []) c k p n
                  (route os (no_count os) (suspects p k) c k p n time t)
                ≡ finish os (if is_for_us c (kind_of x) q then count_received (kind_of x) else []) c
                    (kind_of x) q n
                    (route os (no_count os) (suspects q (kind_of x)) c (kind_of x) q n time t)))
          (Agree-at n p q same 0 pos)
          (
            treated-local (count_use os) [] [] (metric_rx ∷ []) k t g (λ h. refl) (λ h. refl),
            treated-local (no_count os) (suspects p k) (suspects q k) (count_received k) k t g
                (λ h. rw (field-Agree n p q same 4 (omega arith)) refl) (λ h. rw h refl),
          ) in
      (
        treat_packet_lem os c p n time t ∙ (r.0 ∙ sym (treat_packet_lem os c q n time t)),
        treat_packet_receiv_lem os c p n time t
            ∙ (r.1 ∙ sym (treat_packet_receiv_lem os c q n time t)),
      )
