-- ===== src/Window.antt =====
-- The retransmission window of contiki-sdn/sdn-send.c on an enabled node: the packets of this node
-- that await an acknowledgement (`sld_w`, `sld_l`, `sld_ct` and `sld_count`).
pub mod Invariant
pub mod Renew
pub mod Requests
pub mod Answers
pub mod Expiry
pub mod Calls
pub mod Retransmit
use idit_sdn.Base.{ℕ, zero, suc, ◌+◌, Bool, true, false, not, ◌&&◌, ◌||◌, Option, none, some}
use idit_sdn.Base.{List, [], ◌∷◌, map, any, set, get_or, ◌==◌, ltb, if◌then◌else◌}
use idit_sdn.Queue.{sdn_success, sdn_error}
use idit_sdn.Contiki.{Contiki}
use idit_sdn.Packet.{Bytes, field, packet_source}
use idit_sdn.Keep.{send_idle, copy_packet}
use idit_sdn.Send.{Outbox, alloc_and_enqueue}

-- `SDN_MAX_TX_WINDOW`
abbrev pub max_window : ℕ
max_window = 4

-- `SDN_SEND_FULL_WINDOW`
abbrev pub full_window : ℕ
full_window = 3

-- The packets that are sent again.
abbrev pub neighbor_report : ℕ
neighbor_report = 4

abbrev pub data_flow_request : ℕ
data_flow_request = 3

abbrev pub control_flow_request : ℕ
control_flow_request = 2

abbrev pub register_flowid : ℕ
register_flowid = 14

-- The elements of `sld_w` and `sld_l` at one index, and whether the timer of `sld_ct` runs.
pub record Waiting : Type 0 where
  pub packet : Bytes
  pub len : ℕ
  pub armed : Bool

pub record Window : Type 0 where
  pub slots : List Waiting
  pub count : ℕ

abbrev pub is_live : Waiting → Bool
is_live x = ltb 0 x.len

-- Is the packet a request of the type for this flow, or this address?
abbrev pub is_request : ℕ → ℕ → Waiting → Bool
is_request type key x = x.packet 0 == type && field x.packet 8 == key

abbrev pub no_slot : Waiting
no_slot = record { packet = λ i. 0; len = 0; armed = false }

-- The loop of `sdn_send_init`.
unfoldable pub window_init : Window → Window
window_init w = record { slots = map (λ (x : Waiting). record x { len = 0 }) w.slots; count = 0 }

unfoldable pub has_data_flow_request_retransmission : ℕ → Window → Bool
has_data_flow_request_retransmission flowid w =
    any (λ x. is_request data_flow_request flowid x && is_live x) w.slots

unfoldable pub has_control_flow_request_retransmission : ℕ → Window → Bool
has_control_flow_request_retransmission address w =
    any (λ x. is_request control_flow_request address x && is_live x) w.slots

unfoldable pub sld_remove_element : ℕ → Window → ℕ × Window
sld_remove_element index w =
    if ltb index max_window
    then (
      sdn_success,
      record {
        slots =
            set w.slots index (record (get_or w.slots index no_slot) { len = 0; armed = false });
        count = if ltb index w.count then index else w.count;
      },
    )
    else (sdn_error, w)

-- The loops of the functions below: the index of the first slot that passes the test.
unfoldable pub first_index : (Waiting → Bool) → List Waiting → Option ℕ
first_index test [] = none
first_index test (x ∷ xs) =
    let rest = first_index test xs in
    if test x then some 0 else elim rest as (λ _. Option ℕ) [ none ↦ none | some i ↦ some (suc i) ]

unfoldable pub remove_first : (Waiting → Bool) → Window → ℕ × Window
remove_first test w = elim (first_index test w.slots) as (λ _. ℕ × Window) [
  | none ↦ (sdn_error, w)
  | some i ↦ sld_remove_element i w
]

unfoldable pub sld_rcv_ack : ℕ → ℕ → Window → ℕ × Window
sld_rcv_ack pkt_type seq_no = remove_first (λ x. x.packet 0 == pkt_type && x.packet 3 == seq_no)

unfoldable pub sld_purge : ℕ → Window → ℕ × Window
sld_purge pkt_type = remove_first (λ x. x.packet 0 == pkt_type)

unfoldable pub sld_rcv_flow_req : ℕ → Window → ℕ × Window
sld_rcv_flow_req flow = remove_first (is_request data_flow_request flow)

unfoldable pub sld_rcv_addr_req : ℕ → Window → ℕ × Window
sld_rcv_addr_req addr = remove_first (is_request control_flow_request addr)

unfoldable pub sld_check_flow_req : ℕ → Window → Bool
sld_check_flow_req flow w = any (is_request data_flow_request flow) w.slots

-- The packets that are kept until they are acknowledged.
abbrev pub is_reliable : ℕ → Bytes → Bool
is_reliable own p =
    (p 0 == neighbor_report
      || p 0 == data_flow_request
      || p 0 == control_flow_request
      || p 0 == register_flowid)
    && own == packet_source p

-- Does the slot hold the same request, or another neighbour report?
abbrev pub is_same : Bytes → Waiting → Bool
is_same p x =
    (if p 0 == neighbor_report
      then x.packet 0 == neighbor_report
      else is_request (p 0) (field p 8) x)
    && is_live x

-- A neighbour report that waits is replaced by the packet.
abbrev pub renew : Bytes → ℕ → Waiting → Waiting
renew p len x =
    if p 0 == neighbor_report && is_same p x
    then record x { packet = copy_packet len p x.packet; len = len }
    else x

-- The loop that looks for an empty slot, from a count on.
unfoldable pub first_free : ℕ → List Waiting → ℕ
first_free count [] = count
first_free zero (x ∷ xs) = let rest = first_free zero xs in if is_live x then suc rest else 0
first_free (suc count) (x ∷ xs) = suc (first_free count xs)

unfoldable pub sld_await_ack : ℕ → Bytes → ℕ → Window → ℕ × Window
sld_await_ack own p len w =
    let free = first_free w.count w.slots in
    let old = get_or w.slots free no_slot in
    if not (is_reliable own p)
    then (sdn_success, w)
    else if any (is_same p) w.slots
    then (sdn_success, record w { slots = map (renew p len) w.slots })
    else if free == max_window
    then (sdn_error, record w { count = free })
    else (
      sdn_success,
      record {
        slots =
            set w.slots free
              (record { packet = copy_packet len p old.packet; len = len; armed = true });
        count = free + 1;
      },
    )

module _ (os : Contiki) where
  -- `ctimer_set` for a slot.
  abbrev pub arm : ℕ → Bytes → Window → Window
  arm i p w = record w {
    slots = set w.slots i (record (get_or w.slots i no_slot) { packet = p; armed = true });
  }

  -- The timer of a slot has run out: the packet is sent again, with the next number, or the timer is
  -- set anew where there is no buffer.
  unfoldable pub sld_f : ℕ → ℕ → Window × Outbox os → Window × Outbox os
  sld_f own i (w, o) =
      let s = o.sender in
      let x = get_or w.slots i no_slot in
      let awake =
        if s.send_status == full_window
        then record o { sender = record s { send_status = send_idle } }
        else o in
      let r = alloc_and_enqueue os own x.packet x.len 0 awake in
      let numbered = record w {
        slots = set w.slots i (record x { packet = r.0; armed = false });
      } in
      elim (os.memb_alloc s.pool) as (λ _. Window × Outbox os) [
        | none ↦ (arm i x.packet w, r.1)
        | some _ ↦ ((sld_remove_element i numbered).1, r.1)
      ]
