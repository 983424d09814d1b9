-- ===== src/Treat/Arrival.antt =====
-- A source routed setup of a data flow at a node that it is addressed to: it is passed on to the next
-- address of its path, or to its destination, or taken for the flow table.
use idit_sdn.Base.{ℕ, zero, suc, ◌+◌, ◌-◌, ◌*◌, ◌≤◌, ◌<◌, ◌≡◌, refl, ap, ◌∙◌, subst}
use idit_sdn.Base.{◌≢◌, ◌⊎◌, inl, inr, Bool, false, some, ◌==◌, ltb}
use idit_sdn.Base.{List, [], ◌∷◌, ◌++◌, arith}
use idit_sdn.Base.{if◌then◌else◌, Bool-cases, length}
use idit_sdn.Base.{eq→==, ne→==, ==→eq, get_or}
use idit_sdn.Base.{ap₂}
use idit_sdn.Queue.{dec8}
use idit_sdn.Contiki.{Contiki}
use idit_sdn.FlowTable.{Tables, action_receive}
use idit_sdn.Packet.{
  Bytes, bytes, field, kind_of, packet_addr, packet_source, src_routed_data_flow_setup,
}
use idit_sdn.Packet.{check_packet_len, known_type, least_len, set_byte}
use idit_sdn.Packet.{routed_by_flowid, routed_by_addr, routed_by_src, packet_real_dest}
use idit_sdn.Treat.{Config, Effect, enqueue, metric_rx, manag_update, sub16, next_hop_packet}
use idit_sdn.Treat.{treat_data_flow_setup, sdn_execute_action_receive, add_suspect, copy_addr}
use idit_sdn.Treat.{treat_src_routed_setup, treat_src_routed_data_flow_setup}
use idit_sdn.Treat.Decide.{decision, is_data, is_mngt, sdn_treat_packet_receiv}
use idit_sdn.Treat.Shared.{route, route_by_src, finish, is_for_us, count_received, no_count}
use idit_sdn.Treat.Shared.{treat_packet_receiv_lem}

-- The memory that a packet of these bytes is copied to.
abbrev pub load : List ℕ → Bytes
load l i = get_or l i 0

length-bytes : (i n : ℕ) (p : Bytes) → length (bytes i n p) ≡ n
unfolding bytes
length-bytes i zero p = refl
length-bytes i (suc n) p = ap suc (length-bytes (i + 1) n p)

load-bytes : (i n j : ℕ) (p : Bytes) → j < n → load (bytes i n p) j ≡ p (i + j)
unfolding bytes
load-bytes i zero j p h = absurd (omega arith)
load-bytes i (suc n) zero p h = ap p (omega arith)
load-bytes i (suc n) (suc j) p h = load-bytes (i + 1) n j p (omega arith) ∙ ap p (omega arith)

load_lem : (n j : ℕ) (p : Bytes) → j < n → load (bytes 0 n p) j ≡ p j
load_lem n j p h = load-bytes 0 n j p h ∙ ap p (omega arith)

ltb_short : (n m : ℕ) → m ≤ n → ltb n m ≡ false
ltb_short n m h = ground arith

num-cases : (m : ℕ) → (m ≡ 0) ⊎ ((k : ℕ) × (m ≡ suc k))
num-cases zero = inl refl
num-cases (suc k) = inr (k, refl)

-- What a node does with a source routed setup of a data flow that is addressed to it.
module _ (os : Contiki) (c : Config) (p : Bytes) (n : ℕ) (t : Tables os) where
  routed_lem :
      (touch : Bool → ℕ → Tables os → Tables os) (missing : List Effect)
      → 16 + 2 * p 15 ≤ n
      → packet_addr p ≡ c.own
      → route os touch missing c src_routed_data_flow_setup p n 0 t
        ≡ decision os action_receive (some (packet_addr p)) [] t
  unfolding route check_packet_len known_type least_len routed_by_flowid routed_by_addr
      routed_by_src route_by_src
  routed_lem touch missing h a =
      rw (ltb_short n (16 + 2 * p 15) h, eq→== (packet_addr p) c.own a) refl

  receive_lem :
      p 0 ≡ 231
      → 16 + 2 * p 15 ≤ n
      → packet_addr p ≡ c.own
      → (sdn_treat_packet_receiv os c p n 0 t).effects
        ≡ (if field p 13 == c.own then metric_rx ∷ manag_update 0 3 ∷ [] else [])
          ++ treat_src_routed_data_flow_setup c p n
  unfolding kind_of finish sdn_execute_action_receive is_for_us count_received routed_by_src
      packet_real_dest is_data is_mngt
  receive_lem k h a =
      let kind : src_routed_data_flow_setup ≡ kind_of (p 0) = rw k refl in
      ap (λ d. d.effects) (treat_packet_receiv_lem os c p n 0 t)
      ∙ subst
          (λ x.
            (finish os (if is_for_us c x p then count_received x else []) c x p n (
              route os (no_count os) (if is_data x then add_suspect (packet_source p) ∷ [] else [])
                c x p n 0 t)).effects
            ≡ (if field p 13 == c.own then metric_rx ∷ manag_update 0 3 ∷ [] else [])
              ++ treat_src_routed_data_flow_setup c p n)
          kind
          (rw (routed_lem (no_count os) [] h a) (ground (arith, Bool-cases (field p 13 == c.own))))

-- The packet that goes on, as it arrives.
module _ (p : Bytes) (n k : ℕ) (count : p 15 ≡ suc k) (byte : suc k < 256)
    (fits : 16 + 2 * suc k ≤ n) (word : n < 65536) where
  abbrev onward : Bytes
  onward = load (bytes 0 (sub16 n 2) (next_hop_packet 16 15 p))

  onward-len : length (bytes 0 (sub16 n 2) (next_hop_packet 16 15 p)) ≡ n - 2
  onward-len = length-bytes 0 (sub16 n 2) (next_hop_packet 16 15 p) ∙ ground arith

  onward-same : (j : ℕ) → j < n - 2 → j ≢ 6 → j ≢ 7 → j ≢ 15 → onward j ≡ p j
  onward-same j h a b c =
      load_lem (sub16 n 2) j (next_hop_packet 16 15 p) (ground arith)
      ∙ rw (ne→== j 7 b, ne→== j 6 a, ne→== j 15 c) refl

  onward-count : onward 15 ≡ k
  onward-count =
      load_lem (sub16 n 2) 15 (next_hop_packet 16 15 p) (ground arith) ∙ rw count (omega arith)

  onward-addr : packet_addr onward ≡ field p (16 + 2 * k)
  onward-addr =
      let dec : dec8 (suc k) ≡ k = omega arith in
      ap₂ (λ x y. x + 256 * y)
        (load_lem (sub16 n 2) 6 (next_hop_packet 16 15 p) (ground arith)
          ∙ rw (count, dec, ne→== (16 + 2 * k) 15 (λ e. absurd (omega arith))) refl)
        (load_lem (sub16 n 2) 7 (next_hop_packet 16 15 p) (ground arith)
          ∙ rw (count, dec, ne→== (16 + 2 * k + 1) 15 (λ e. absurd (omega arith))) refl)

-- The setup that is left where the path has no more addresses.
module _ (p : Bytes) where
  abbrev plain : List ℕ
  plain = bytes 0 13 (copy_addr 6 13 (set_byte 0 1 p))

  plain-same : (j : ℕ) → 0 < j → j < 13 → j ≢ 6 → j ≢ 7 → load plain j ≡ p j
  plain-same j z h a b =
      load_lem 13 j (copy_addr 6 13 (set_byte 0 1 p)) h
      ∙ rw (ne→== j 7 b, ne→== j 6 a, ne→== j 0 (λ e. absurd (omega arith))) refl

module _ (os : Contiki) (c : Config) (p : Bytes) (n : ℕ) (t : Tables os) where
  abbrev treated : List Effect
  treated = (sdn_treat_packet_receiv os c p n 0 t).effects

  -- A source routed setup of a data flow, received by the node that it is addressed to, where the
  -- packet is not shorter than its path asks for and its numbers fit their fields. If the path is
  -- used up and the node is the real destination, the node takes the setup: it counts it and calls
  -- what the handler of a setup calls. If the path is used up elsewhere, it enqueues a plain setup
  -- for the real destination, with the other bytes as they were. Else it enqueues the packet for the
  -- last address of the path, with one address less, and all other bytes as they were.
  pub source_routed_lem :
      p 0 ≡ 231
      → p 15 < 256
      → 16 + 2 * p 15 ≤ n
      → n < 65536
      → packet_addr p ≡ c.own
      → ((p 15 ≡ 0)
          × (field p 13 ≡ c.own)
          × (treated ≡ metric_rx ∷ manag_update 0 3 ∷ treat_data_flow_setup c p))
        ⊎ ((l : List ℕ) × (p 15 ≡ 0)
            × (field p 13 ≢ c.own)
            × (treated ≡ enqueue l 0 ∷ [])
            × (length l ≡ 13)
            × (load l 0 ≡ 1)
            × (packet_addr (load l) ≡ field p 13)
            × ((j : ℕ) → 0 < j → j < 13 → j ≢ 6 → j ≢ 7 → load l j ≡ p j))
        ⊎ ((k : ℕ) × (l : List ℕ) × (p 15 ≡ suc k)
            × (treated
                ≡ (if field p 13 == c.own then metric_rx ∷ manag_update 0 3 ∷ [] else [])
                  ++ (enqueue l 0 ∷ []))
            × (length l ≡ n - 2)
            × (load l 15 ≡ k)
            × (packet_addr (load l) ≡ field p (16 + 2 * k))
            × ((j : ℕ) → j < n - 2 → j ≢ 6 → j ≢ 7 → j ≢ 15 → load l j ≡ p j))
  unfolding treat_src_routed_data_flow_setup treat_src_routed_setup
  source_routed_lem kind byte fits word here =
      let e = receive_lem os c p n t kind fits here in
      elim (num-cases (p 15)) [
        | inr (k, h) ↦
            let b : suc k < 256 = omega (arith, byte, h) in
            let f : 16 + 2 * suc k ≤ n = omega (arith, fits, h) in
            inr (
              inr (
                k,
                bytes 0 (sub16 n 2) (next_hop_packet 16 15 p),
                h,
                e ∙ rw (ne→== (p 15) 0 (λ z. absurd (omega (arith, z, h)))) refl,
                onward-len p n k h b f word,
                onward-count p n k h b f word,
                onward-addr p n k h b f word,
                onward-same p n k h b f word,
              ))
        | inl h ↦ elim (Bool-cases (field p 13 == c.own)) [
          | inl d ↦ inl (h, ==→eq (field p 13) c.own d, e ∙ rw (h, d) refl)
          | inr d ↦ inr (
              inl (
                plain p,
                h,
                λ z. absurd (ground (arith, eq→== (field p 13) c.own z, d)),
                e ∙ rw (h, d) refl,
                length-bytes 0 13 (copy_addr 6 13 (set_byte 0 1 p)),
                load_lem 13 0 (copy_addr 6 13 (set_byte 0 1 p)) (omega arith),
                ap₂ (λ x y. x + 256 * y)
                    (load_lem 13 6 (copy_addr 6 13 (set_byte 0 1 p)) (omega arith))
                    (load_lem 13 7 (copy_addr 6 13 (set_byte 0 1 p)) (omega arith)),
                plain-same p,
              ))
        ]
      ]
