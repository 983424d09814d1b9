-- ===== src/Management.antt =====
-- The management data: `sdn_send_data_management` of sdn-common/sdn-send-packet.c, which an enabled
-- node sends, and `process_mngt_data` of sdn-common/sdn-process-packets.c on the controller, both
-- with CP_DETECT and DIST_DETECT.
pub mod RoundTrip
use idit_sdn.Base.{ℕ, ◌+◌, ◌*◌, ◌/◌, ◌%◌, Bool, not, ◌&&◌, ◌||◌, Option, none, some, List, [], ◌∷◌}
use idit_sdn.Base.{◌++◌, ◌==◌, ltb, if◌then◌else◌}
use idit_sdn.Queue.{sdn_success, sdn_error}
use idit_sdn.Contiki.{Contiki}
use idit_sdn.Packet.{Bytes, field, set_byte}
use idit_sdn.Keep.{Sender, sdn_packetbuf_pool_get, put_buffer}
use idit_sdn.Send.{Outbox, enqueue_and_send, make_header, put_field, default_ttl}

-- Is the bit of the metric set? The identifiers are powers of two.
abbrev pub has_metric : ℕ → ℕ → Bool
has_metric id metrics = (metrics / id) % 2 == 1

-- `SDN_MNGT_METRIC_QTY_DATA`, `SDN_MNGT_CTRL_PCKT_TX`, `SDN_MNGT_METRIC_TOTAL_DATA` and
-- `SDN_SEC_CP_DETECT_ALARM`
abbrev pub qty_data : ℕ
qty_data = 2

abbrev pub ctrl_packet_tx : ℕ
ctrl_packet_tx = 8

abbrev pub total_data : ℕ
total_data = 32

abbrev pub detect_alarm : ℕ
detect_alarm = 128

-- Four bytes at an offset.
abbrev pub put_word : ℕ → ℕ → Bytes → Bytes
put_word i v p =
    set_byte (i + 3) (v / 16777216 % 256) (
      set_byte (i + 2) (v / 65536 % 256)
        (set_byte (i + 1) (v / 256 % 256) (set_byte i (v % 256) p)))

abbrev pub word : Bytes → ℕ → ℕ
word p i = p i + 256 * p (i + 1) + 65536 * p (i + 2) + 16777216 * p (i + 3)

-- One metric of a packet: where it is asked for it is written at the position, which moves on.
abbrev pub add_metric : ℕ → ℕ → ℕ → ℕ × Bytes → ℕ × Bytes
add_metric id metrics value (pos, p) =
    if has_metric id metrics then (pos + 4, put_word (10 + pos) value p) else (pos, p)

abbrev pub add_suspect_address : ℕ → ℕ → ℕ × Bytes → ℕ × Bytes
add_suspect_address metrics suspect (pos, p) =
    if has_metric detect_alarm metrics then (pos + 2, put_field (10 + pos) suspect p) else (pos, p)

-- The packet's contents and `metrics_position`. `info` is `manag_get_info`, `suspect` what
-- `security_node_choose_suspect` points to.
unfoldable pub make_management : ℕ → ℕ → ℕ → (ℕ → ℕ) → ℕ → Bytes → ℕ × Bytes
make_management own flow metrics info suspect p = add_suspect_address metrics suspect (
    add_metric total_data metrics (info total_data) (
      add_metric ctrl_packet_tx metrics (info ctrl_packet_tx) (
        add_metric qty_data metrics (info qty_data)
          (0, put_field 8 metrics (put_field 6 flow (make_header own 18 default_ttl p))))))

module _ (os : Contiki) where
  -- A buffer that is not sent is not put back to the pool.
  unfoldable pub sdn_send_data_management : ℕ → (ℕ → ℕ) → ℕ → ℕ → ℕ → Outbox os → ℕ × Outbox os
  sdn_send_data_management own info suspect metrics flow_destiny o =
      elim (sdn_packetbuf_pool_get os o.sender) as (λ _. ℕ × Outbox os) [
        | none ↦ (sdn_error, o)
        | some (a, s) ↦
            let flow = if flow_destiny == 1 then 0 else 2 in
            let r = make_management own flow metrics info suspect (s.buffers a) in
            let u = record o { sender = record s { buffers = put_buffer a r.1 s.buffers } } in
            let header = record o {
              sender = record s {
                buffers = put_buffer a (make_header own 18 default_ttl (s.buffers a)) s.buffers;
              };
            } in
            if flow_destiny == 1 || flow_destiny == 2
            then (if ltb 0 r.0 then enqueue_and_send os own a (10 + r.0) 0 u else (sdn_error, u))
            else (sdn_error, header)
      ]

-- The calls that the controller makes for the metrics of a node.
pub data Report : Type 0 where
  node_alarm : ℕ → ℕ → Report
  node_metrics : ℕ → ℕ → Report
  sink_metrics : ℕ → Report

-- One metric read at the position: the call it leads to, and the position after it.
abbrev pub take_metric : ℕ → ℕ → (ℕ → Report) → Bytes → ℕ × List Report → ℕ × List Report
take_metric id metrics report p (pos, l) =
    if has_metric id metrics then (pos + 4, l ++ (report (word p (10 + pos)) ∷ [])) else (pos, l)

-- The alarm is read first, with two bytes.
unfoldable pub process_mngt_data : ℕ → Bytes → List Report
process_mngt_data source p =
    let metrics = field p 8 in
    let first =
      if has_metric detect_alarm metrics
      then (2, node_alarm source (field p 10) ∷ [])
      else (0, []) in
    (take_metric total_data metrics (λ v. sink_metrics v) p
      (take_metric ctrl_packet_tx metrics (λ v. node_metrics ctrl_packet_tx (v % 65536)) p
        (take_metric qty_data metrics (λ v. node_metrics qty_data (v % 65536)) p first))).1
