-- ===== src/Send/Report.antt =====
-- The neighbour report against the size of its buffer.
use idit_sdn.Base.{ℕ, zero, suc, ◌+◌, ◌*◌, ◌≡◌, refl, ap, ◌∙◌}
use idit_sdn.Base.{Bool, true}
use idit_sdn.Base.{List, [], ◌∷◌, arith, ltb}
use idit_sdn.Base.{if◌then◌else◌, length}
use idit_sdn.Queue.{inc8}
use idit_sdn.Packet.{Bytes, set_byte}
use idit_sdn.Send.{put_field, make_header, default_ttl}
use idit_sdn.Send.{report_loop, make_report, max_packet_size}

if_true {ℓ} : {A : Type ℓ} (b : Bool) (x y : A) → b ≡ true → (if b then x else y) ≡ x
if_true b x y h = rw h refl

-- The length that the loop comes to from a length that leaves room for `room` neighbours or fewer.
report_loop-len :
    (ns : List (ℕ × ℕ)) (len : ℕ) (p : Bytes) (fit : ℕ)
    → len + 4 * fit ≡ 117
    → (report_loop ns len p).0 ≡ (if ltb (length ns) fit then len + 4 * length ns else 117)
unfolding report_loop
report_loop-len [] len p fit h = ground arith
report_loop-len (n ∷ ns) len p zero h = ground arith
report_loop-len (n ∷ ns) len p (suc fit) h =
    let q = set_byte 8 (inc8 (p 8)) (put_field (len + 2) n.1 (put_field len n.0 p)) in
    ap (λ (r : ℕ × Bytes). r.0)
      (if_true (ltb len 116) (report_loop ns (len + 4) q) (len, p) (ground arith))
    ∙ (report_loop-len ns (len + 4) q fit (omega arith) ∙ ground arith)

-- The report of fewer than 27 neighbours has their four bytes each behind the nine of its header.
-- With 27 neighbours or more it has 117 bytes, one more than the buffer.
pub make_report-len :
    (own : ℕ) (ns : List (ℕ × ℕ)) (p : Bytes)
    → (make_report own ns p).0
      ≡ (if ltb (length ns) 27 then 9 + 4 * length ns else max_packet_size + 1)
unfolding make_report
make_report-len own ns p =
    report_loop-len ns 9 (set_byte 8 0 (put_field 6 0 (make_header own 4 default_ttl p))) 27 refl
