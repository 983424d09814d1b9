-- ===== src/Treat/LocalMult.antt =====
-- The setup of several flows at once in the data table, where the path is done.
use idit_sdn.Base.{ℕ, ◌+◌, ◌*◌, ◌≤◌, ◌<◌, ◌≡◌, refl, sym, ap, subst}
use idit_sdn.Base.{true, false, ◌&&◌}
use idit_sdn.Base.{List, [], ◌∷◌, ◌++◌, arith, ◌==◌}
use idit_sdn.Base.{if◌then◌else◌}
use idit_sdn.Base.{set}
use idit_sdn.Queue.{dec8}
use idit_sdn.Packet.{
  Bytes, field, set_byte, copy_addr, bytes, mult_path_len, mult_set_len, mult_size,
}
use idit_sdn.Packet.Agree.{
  Agree, Agree-at, field-Agree, set_byte-Agree, copy_addr-Agree, bytes-Agree,
}
use idit_sdn.Treat.{Config, Effect, sub16, dataflow_insert, sld_rcv_flow_req, steady_state}
use idit_sdn.Treat.{treat_mult_data_flow_setup, awaiting_controller_route}
use idit_sdn.Treat.Local.{if-cong, sent, mult_forward-local}

-- The handler after `set_len` is decreased in the packet.
abbrev insert_last : Config → ℕ → Bytes → List Effect
insert_last c n m =
    dataflow_insert (field m 8) (field m (mult_size + 3 * m mult_set_len + 1))
      (m (mult_size + 3 * m mult_set_len))
    ∷ sld_rcv_flow_req (field m 8)
    ∷ ((if c.state == awaiting_controller_route && field m 8 == c.controller_flow
          then steady_state ∷ []
          else [])
        ++ (if m mult_set_len == 0
            then []
            else sent (bytes 0 (sub16 n 3) (copy_addr 6 (mult_size + 3 * m mult_set_len + 1) m))))

module _ (n : ℕ) (m m' : Bytes) (same : Agree n m m') where
  resend-local :
      (elem : ℕ)
      → elem + 2 < n
      → sent (bytes 0 (sub16 n 3) (copy_addr 6 (elem + 1) m))
        ≡ sent (bytes 0 (sub16 n 3) (copy_addr 6 (elem + 1) m'))
  resend-local elem h = ap sent (
      bytes-Agree n (copy_addr 6 (elem + 1) m) (copy_addr 6 (elem + 1) m')
        (copy_addr-Agree n m m' same 6 (elem + 1) (omega arith)) 0 (sub16 n 3) (ground arith))

  insert_last-local :
      (c : Config) → mult_size + 3 * m mult_set_len + 3 ≤ n → insert_last c n m ≡ insert_last c n m'
  insert_last-local c h =
      let s = Agree-at n m m' same 11 (omega arith) in
      rw
        (
          sym s,
          sym (field-Agree n m m' same 8 (omega arith)),
          sym (field-Agree n m m' same (mult_size + 3 * m 11 + 1) (omega arith)),
          sym (Agree-at n m m' same (mult_size + 3 * m 11) (omega arith)),
          sym (resend-local (mult_size + 3 * m 11) (omega arith)),
        )
        refl

last_fits :
    (path set n : ℕ)
    → 12 + 3 * set + 2 * path ≤ n
    → ((path == 0) && (set == 0)) ≡ false
    → (path == 0) ≡ true
    → 12 + 3 * dec8 set + 3 ≤ n
last_fits path set n h z y = ground arith

pub mult_data-local :
    (n : ℕ) (p q : Bytes)
    → Agree n p q
    → (c : Config) → mult_size + 3 * p mult_set_len + 2 * p mult_path_len ≤ n
    → ((p mult_path_len == 0) && (p mult_set_len == 0)) ≡ false
    → treat_mult_data_flow_setup c p n ≡ treat_mult_data_flow_setup c q n
unfolding treat_mult_data_flow_setup
mult_data-local n p q same c h z =
    if-cong (p 10 == 0) (q 10 == 0) (ap (λ v. v == 0) (Agree-at n p q same 10 (omega arith)))
      (λ y.
        subst
          (λ v.
            insert_last c n (set_byte mult_set_len (dec8 (p mult_set_len)) p)
            ≡ insert_last c n (set_byte mult_set_len (dec8 v) q))
          (Agree-at n p q same mult_set_len (omega arith))
          (insert_last-local n (set_byte mult_set_len (dec8 (p mult_set_len)) p)
            (set_byte mult_set_len (dec8 (p mult_set_len)) q)
            (set_byte-Agree n p q same mult_set_len (dec8 (p mult_set_len))) c
            (last_fits (p 10) (p 11) n h z y)))
      (λ y. mult_forward-local n p q same h y)
