-- ===== src/Management/RoundTrip.antt =====
-- The controller reads the metrics that a node sends, but for an alarm with other metrics.
use idit_sdn.Base.{ℕ, ◌+◌, ◌*◌, ◌%◌, ◌<◌, ◌≡◌, refl, ap, ◌∙◌}
use idit_sdn.Base.{Bool, true, false, ◌&&◌, ◌||◌}
use idit_sdn.Base.{List, [], ◌∷◌, ◌++◌, arith}
use idit_sdn.Base.{if◌then◌else◌}
use idit_sdn.Base.{◌/◌}
use idit_sdn.Packet.{Bytes, field}
use idit_sdn.Send.{make_header, put_field, default_ttl}
use idit_sdn.Management.{Report, node_alarm, node_metrics, sink_metrics, has_metric, qty_data}
use idit_sdn.Management.{ctrl_packet_tx, total_data, detect_alarm, put_word, word}
use idit_sdn.Management.{make_management, process_mngt_data}

word_lem :
    (v : ℕ)
    → v < 4294967296
    → v % 256 + 256 * (v / 256 % 256) + 65536 * (v / 65536 % 256) + 16777216 * (v / 16777216 % 256)
      ≡ v
word_lem v h = omega arith

field_lem : (v : ℕ) → v < 65536 → v % 256 + 256 * (v / 256 % 256) ≡ v
field_lem v h = omega arith

-- The metrics by their bits: the packet, and what is read from it.
abbrev add_if : Bool → ℕ → ℕ × Bytes → ℕ × Bytes
add_if b value (pos, p) = if b then (pos + 4, put_word (10 + pos) value p) else (pos, p)

abbrev made_with : Bool → Bool → Bool → Bool → (ℕ → ℕ) → ℕ → Bytes → ℕ × Bytes
made_with q x t a info suspect p =
    let r =
      add_if t (info total_data)
        (add_if x (info ctrl_packet_tx) (add_if q (info qty_data) (0, p))) in
    if a then (r.0 + 2, put_field (10 + r.0) suspect r.1) else r

abbrev take_if : Bool → (ℕ → Report) → Bytes → ℕ × List Report → ℕ × List Report
take_if b report p (pos, l) =
    if b then (pos + 4, l ++ (report (word p (10 + pos)) ∷ [])) else (pos, l)

abbrev read_with : Bool → Bool → Bool → Bool → ℕ → Bytes → List Report
read_with q x t a source p =
    (take_if t (λ v. sink_metrics v) p
      (take_if x (λ v. node_metrics ctrl_packet_tx (v % 65536)) p
        (take_if q (λ v. node_metrics qty_data (v % 65536)) p
          (if a then (2, node_alarm source (field p 10) ∷ []) else (0, []))))).1

-- What the controller should be told.
abbrev reports : Bool → Bool → Bool → Bool → ℕ → (ℕ → ℕ) → ℕ → List Report
reports q x t a source info suspect =
    (if a then node_alarm source suspect ∷ [] else [])
    ++ ((if q then node_metrics qty_data (info qty_data % 65536) ∷ [] else [])
        ++ ((if x then node_metrics ctrl_packet_tx (info ctrl_packet_tx % 65536) ∷ [] else [])
            ++ (if t then sink_metrics (info total_data) ∷ [] else [])))

module _ (source : ℕ) (info : ℕ → ℕ) (suspect : ℕ) (p : Bytes)
    (words : (id : ℕ) → info id < 4294967296) (addr : suspect < 65536) where
  read-made :
      (q x t a : Bool)
      → (a && (q || x || t)) ≡ false
      → read_with q x t a source (made_with q x t a info suspect p).1
        ≡ reports q x t a source info suspect
  read-made false false false false h = refl
  read-made true false false false h = rw (word_lem (info 2) (words 2)) refl
  read-made false true false false h = rw (word_lem (info 8) (words 8)) refl
  read-made true true false false h =
      rw (word_lem (info 2) (words 2), word_lem (info 8) (words 8)) refl
  read-made false false true false h = rw (word_lem (info 32) (words 32)) refl
  read-made true false true false h =
      rw (word_lem (info 2) (words 2), word_lem (info 32) (words 32)) refl
  read-made false true true false h =
      rw (word_lem (info 8) (words 8), word_lem (info 32) (words 32)) refl
  read-made true true true false h =
      rw (word_lem (info 2) (words 2), word_lem (info 8) (words 8), word_lem (info 32) (words 32))
        refl
  read-made false false false true h = rw (field_lem suspect addr) refl
  read-made true x t true h = absurd (ground arith)
  read-made false true t true h = absurd (ground arith)
  read-made false false true true h = absurd (ground arith)

made-metrics :
    (info : ℕ → ℕ) (suspect : ℕ) (p : Bytes) (q x t a : Bool)
    → field (made_with q x t a info suspect p).1 8 ≡ field p 8
made-metrics info suspect p true true true true = refl
made-metrics info suspect p true true true false = refl
made-metrics info suspect p true true false true = refl
made-metrics info suspect p true true false false = refl
made-metrics info suspect p true false true true = refl
made-metrics info suspect p true false true false = refl
made-metrics info suspect p true false false true = refl
made-metrics info suspect p true false false false = refl
made-metrics info suspect p false true true true = refl
made-metrics info suspect p false true true false = refl
made-metrics info suspect p false true false true = refl
made-metrics info suspect p false true false false = refl
made-metrics info suspect p false false true true = refl
made-metrics info suspect p false false true false = refl
made-metrics info suspect p false false false true = refl
made-metrics info suspect p false false false false = refl

-- What the controller reads from the metrics in a packet.
read_as : ℕ → ℕ → Bytes → List Report
read_as m source p =
    read_with (has_metric qty_data m) (has_metric ctrl_packet_tx m) (has_metric total_data m)
      (has_metric detect_alarm m) source p

-- From a management packet that a node makes, whose metrics, values and suspect their fields can hold,
-- and that does not have an alarm together with another metric, the controller makes the calls for
-- exactly the metrics that were asked for: the alarm with its suspect, the sink's metric with its
-- value, and the other two with their values modulo 65536, to which the controller cuts them.
pub make_management-process :
    (own source flow metrics suspect : ℕ) (info : ℕ → ℕ) (old : Bytes)
    → metrics < 65536
    → suspect < 65536
    → ((id : ℕ) → info id < 4294967296)
    → (has_metric detect_alarm metrics
        && (has_metric qty_data metrics
            || has_metric ctrl_packet_tx metrics
            || has_metric total_data metrics))
      ≡ false
    → process_mngt_data source (make_management own flow metrics info suspect old).1
      ≡ (if has_metric detect_alarm metrics then node_alarm source suspect ∷ [] else [])
        ++ ((if has_metric qty_data metrics
              then node_metrics qty_data (info qty_data % 65536) ∷ []
              else [])
            ++ ((if has_metric ctrl_packet_tx metrics
                  then node_metrics ctrl_packet_tx (info ctrl_packet_tx % 65536) ∷ []
                  else [])
                ++ (if has_metric total_data metrics
                    then sink_metrics (info total_data) ∷ []
                    else [])))
unfolding process_mngt_data make_management read_as make_header
make_management-process own source flow metrics suspect info old m addr words only =
    let made = (make_management own flow metrics info suspect old).1 in
    let q = has_metric qty_data metrics in
    let x = has_metric ctrl_packet_tx metrics in
    let t = has_metric total_data metrics in
    let a = has_metric detect_alarm metrics in
    let start = put_field 8 metrics (put_field 6 flow (make_header own 18 default_ttl old)) in
    ap (λ n. read_as n source made) (made-metrics info suspect start q x t a ∙ field_lem metrics m)
    ∙ read-made source info suspect start words addr q x t a only
