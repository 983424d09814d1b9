-- ===== src/Treat/Local.antt =====
-- The handlers read nothing of a packet past its length, if it has the length that is checked.
use idit_sdn.Base.{ℕ, ◌+◌, ◌*◌, ◌≤◌, ◌<◌, ◌≡◌, refl, sym, ap, subst}
use idit_sdn.Base.{Bool, true, false}
use idit_sdn.Base.{List, [], ◌∷◌, arith, ◌==◌}
use idit_sdn.Base.{if◌then◌else◌}
use idit_sdn.Base.{==-self}
use idit_sdn.Queue.{dec8}
use idit_sdn.Packet.{Bytes, set_byte, copy_addr, bytes, setup_path_len}
use idit_sdn.Packet.{ack_path_len, mult_path_len, mult_set_len, setup_size, mult_size}
use idit_sdn.Packet.{src_rtd_setup_size, src_rtd_ack_size, cont_mngt_size}
use idit_sdn.Packet.Agree.{
  Agree, Agree-at, field-Agree, set_byte-Agree, copy_addr-Agree, bytes-Agree,
}
use idit_sdn.Treat.{Config, Effect, enqueue, sub16, next_hop_packet, next_mult_packet}
use idit_sdn.Treat.{treat_control_flow_setup, treat_data_flow_setup, treat_src_routed_setup}
use idit_sdn.Treat.{treat_src_routed_ack}
use idit_sdn.Treat.{treat_mult_control_flow_setup, treat_data, treat_controller_mngt_requisition}

-- One packet to send.
abbrev pub sent : List ℕ → List Effect
sent l = enqueue l 0 ∷ []

pub if-cong {ℓ} :
    {A : Type ℓ} (b b' : Bool) {x x' y y' : A}
    → b ≡ b'
    → (b ≡ true → x ≡ x')
    → (b ≡ false → y ≡ y')
    → (if b then x else y) ≡ (if b' then x' else y')
if-cong true true e t f = t refl
if-cong true false e t f = absurd (ground arith)
if-cong false true e t f = absurd (ground arith)
if-cong false false e t f = f refl

abbrev hop : ℕ → ℕ → ℕ → Bytes → Bytes
hop size path_len v p = copy_addr 6 (size + 2 * v) (set_byte path_len v p)

next_hop_packet_lem :
    (size path_len : ℕ) (p : Bytes)
    → next_hop_packet size path_len p ≡ hop size path_len (dec8 (p path_len)) p
next_hop_packet_lem size path_len p = rw (==-self path_len) refl

module _ (n : ℕ) (p q : Bytes) (same : Agree n p q) where
  -- The packet that goes on to the next address of its path.
  next_hop_packet-Agree :
      (size path_len : ℕ)
      → path_len < n
      → 0 < p path_len
      → size + 2 * p path_len ≤ n
      → Agree n (next_hop_packet size path_len p) (next_hop_packet size path_len q)
  next_hop_packet-Agree size path_len h pos fits =
      subst (λ r. Agree n r (next_hop_packet size path_len q))
        (sym (next_hop_packet_lem size path_len p))
        (subst (λ r. Agree n (hop size path_len (dec8 (p path_len)) p) r)
          (sym (next_hop_packet_lem size path_len q))
          (subst
            (λ v. Agree n (hop size path_len (dec8 (p path_len)) p) (hop size path_len (dec8 v) q))
            (Agree-at n p q same path_len h)
            (copy_addr-Agree n (set_byte path_len (dec8 (p path_len)) p)
              (set_byte path_len (dec8 (p path_len)) q)
              (set_byte-Agree n p q same path_len (dec8 (p path_len))) 6
              (size + 2 * dec8 (p path_len)) (omega arith))))

  pub control-local :
      (c : Config) → setup_size ≤ n → treat_control_flow_setup c p ≡ treat_control_flow_setup c q
  unfolding treat_control_flow_setup
  control-local c h =
      rw
        (
          field-Agree n p q same 8 (omega arith),
          field-Agree n p q same 11 (omega arith),
          Agree-at n p q same 10 (omega arith),
        )
        refl

  pub data-local :
      (c : Config) → setup_size ≤ n → treat_data_flow_setup c p ≡ treat_data_flow_setup c q
  unfolding treat_data_flow_setup
  data-local c h =
      rw
        (
          field-Agree n p q same 8 (omega arith),
          field-Agree n p q same 11 (omega arith),
          Agree-at n p q same 10 (omega arith),
        )
        refl

  -- The forwarding that the source routed packets share.
  pub forward-local :
      (size path_len : ℕ)
      → path_len < n
      → (p path_len == 0) ≡ false
      → size + 2 * p path_len ≤ n
      → sent (bytes 0 (sub16 n 2) (next_hop_packet size path_len p))
        ≡ sent (bytes 0 (sub16 n 2) (next_hop_packet size path_len q))
  forward-local size path_len h pos fits = ap sent (
      bytes-Agree n (next_hop_packet size path_len p) (next_hop_packet size path_len q)
        (next_hop_packet-Agree size path_len h (ground arith) fits) 0 (sub16 n 2) (ground arith))

  pub setup-local :
      (type : ℕ) (treat : Config → Bytes → List Effect) (c : Config)
      → (setup_size ≤ n → treat c p ≡ treat c q)
      → src_rtd_setup_size + 2 * p setup_path_len ≤ n
      → treat_src_routed_setup type treat c p n ≡ treat_src_routed_setup type treat c q n
  unfolding treat_src_routed_setup
  setup-local type treat c local h =
      if-cong _ _ (ap (λ v. v == 0) (Agree-at n p q same 15 (omega arith)))
        (λ z.
          if-cong _ _ (ap (λ v. v == c.own) (field-Agree n p q same 13 (omega arith)))
            (λ y. local (omega arith))
            (λ y. ap sent (
              bytes-Agree n (copy_addr 6 13 (set_byte 0 type p))
                (copy_addr 6 13 (set_byte 0 type q))
                (copy_addr-Agree n (set_byte 0 type p) (set_byte 0 type q)
                  (set_byte-Agree n p q same 0 type) 6 13 (omega arith))
                0 13 (omega arith))))
        (λ z. forward-local 16 15 (omega arith) z h)

  pub ack-local :
      (c : Config)
      → src_rtd_ack_size + 2 * p ack_path_len ≤ n
      → treat_src_routed_ack c p n ≡ treat_src_routed_ack c q n
  unfolding treat_src_routed_ack
  ack-local c h =
      if-cong _ _ (ap (λ v. v == 0) (Agree-at n p q same 12 (omega arith)))
        (λ z.
          if-cong _ _ (ap (λ v. v == c.own) (field-Agree n p q same 10 (omega arith)))
            (λ y.
              rw (Agree-at n p q same 8 (omega arith), Agree-at n p q same 9 (omega arith)) refl)
            (λ y. refl))
        (λ z. forward-local 13 12 (omega arith) z h)

  pub payload-local : 8 ≤ n → treat_data p n ≡ treat_data q n
  unfolding treat_data
  payload-local h =
      rw
        (
          bytes-Agree n p q same 8 (sub16 n 8) (omega arith),
          field-Agree n p q same 4 (omega arith),
          field-Agree n p q same 6 (omega arith),
        )
        refl

  -- A requisition on its way is not covered: its path is not part of the length checked.
  pub requisition-local :
      (c : Config)
      → cont_mngt_size ≤ n
      → (p 10 == 0) ≡ true
      → treat_controller_mngt_requisition c p n ≡ treat_controller_mngt_requisition c q n
  unfolding treat_controller_mngt_requisition
  requisition-local c h z =
      if-cong _ _ (ap (λ v. v == 0) (Agree-at n p q same 10 (omega arith)))
        (λ y.
          if-cong _ _ (ap (λ v. v == c.own) (field-Agree n p q same 8 (omega arith)))
            (λ x. rw (field-Agree n p q same 11 (omega arith)) refl) (λ x. refl))
        (λ y. absurd (ground (arith, z, y)))

  -- The multiple setups, where the path is not yet done.
  pub mult_forward-local :
      mult_size + 3 * p mult_set_len + 2 * p mult_path_len ≤ n
      → (p mult_path_len == 0) ≡ false
      → sent (bytes 0 (sub16 n 2) (next_mult_packet p))
        ≡ sent (bytes 0 (sub16 n 2) (next_mult_packet q))
  mult_forward-local h z =
      subst
        (λ v.
          sent (bytes 0 (sub16 n 2) (next_mult_packet p))
          ≡ sent (bytes 0 (sub16 n 2) (next_hop_packet (mult_size + 3 * v) mult_path_len q)))
        (Agree-at n p q same mult_set_len (omega arith))
        (forward-local (mult_size + 3 * p mult_set_len) mult_path_len (omega arith) z h)

  pub mult_control-local :
      (c : Config)
      → mult_size + 3 * p mult_set_len + 2 * p mult_path_len ≤ n
      → (p mult_path_len == 0) ≡ false
      → treat_mult_control_flow_setup c p n ≡ treat_mult_control_flow_setup c q n
  unfolding treat_mult_control_flow_setup
  mult_control-local c h z =
      if-cong _ _ (ap (λ v. v == 0) (Agree-at n p q same 10 (omega arith)))
        (λ y. absurd (ground (arith, z, y))) (λ y. mult_forward-local h z)
