-- ===== src/Tests/TreatTests.antt =====
-- The treatment of packets at concrete packets and tables.
use idit_sdn.Base.{ℕ, ◌≡◌, refl}
use idit_sdn.Base.{true, some}
use idit_sdn.Base.{List, [], ◌∷◌, ◌++◌, arith, ltb}
use idit_sdn.Base.{if◌then◌else◌, find?}
use idit_sdn.Queue.{sdn_success}
use idit_sdn.FlowTable.{Tables, sdn_controlflow_insert}
use idit_sdn.FlowTable.{sdn_controlflow_get, sdn_controlflow_init, store_entry, block_for, place}
use idit_sdn.FlowTable.{aged, age_all, find_entry, control_action}
use idit_sdn.FlowTable.Node.{IsSound, control_insert-IsSound}
use idit_sdn.Packet.{routed_by_addr, known_type, least_len}
use idit_sdn.Packet.{Bytes, kind_of, check_packet_len}
use idit_sdn.Packet.Agree.{Agree}
use idit_sdn.Treat.{Config, treat_data_flow_setup, controlflow_insert, dataflow_insert}
use idit_sdn.Treat.{treat_mult_control_flow_setup, treat_mult_data_flow_setup}
use idit_sdn.Packet.{bytes}
use idit_sdn.Treat.Decide.{sdn_treat_packet, sdn_treat_packet_receiv}
use idit_sdn.Treat.Checked.{guarded}
use idit_sdn.Treat.Safety.{treat_packet-local}
use idit_sdn.Treat.Same.{IsLike, treat_packets-IsLike}
use idit_sdn.Treat.Arrival.{load, source_routed_lem}
use idit_sdn.Packet.{field, packet_addr}
use idit_sdn.Treat.{enqueue, metric_rx, manag_update}
use idit_sdn.Base.{◌-◌, ◌*◌, ◌+◌, ◌<◌, ◌≢◌, ◌⊎◌, suc, ◌==◌, length}
use idit_sdn.Treat.Perform.{receive, setup-then-send}
use idit_sdn.Tests.FlowTableTests.{small, note, empty, empty-IsSound}

-- The node of an address, which has its controller and is not waiting for it.
abbrev node : ℕ → Config
node a = record { own = a; state = 2; controller_flow = 0; broadcast = 65535; at_null = 0 }

-- The setup of flow 5 towards node 4, from node 1 over the nodes 2 and 3.
abbrev setup : List ℕ
setup = 231 ∷ 0 ∷ 60 ∷ 1 ∷ 1 ∷ 0 ∷ 2 ∷ 0 ∷ 5 ∷ 0 ∷ 2 ∷ 7 ∷ 0 ∷ 4 ∷ 0 ∷ 2 ∷ 4 ∷ 0 ∷ 3 ∷ 0 ∷ []

-- Node 2 is not the last one.
source_routed_lem_example :
    let p = load setup in
    let treated = (sdn_treat_packet_receiv small (node 2) p 20 0 empty).effects in
    ((p 15 ≡ 0)
      × (field p 13 ≡ 2)
      × (treated ≡ metric_rx ∷ manag_update 0 3 ∷ treat_data_flow_setup (node 2) p))
    ⊎ ((l : List ℕ) × (p 15 ≡ 0)
        × (field p 13 ≢ 2)
        × (treated ≡ enqueue l 0 ∷ [])
        × (length l ≡ 13)
        × (load l 0 ≡ 1)
        × (packet_addr (load l) ≡ field p 13)
        × ((j : ℕ) → 0 < j → j < 13 → j ≢ 6 → j ≢ 7 → load l j ≡ p j))
    ⊎ ((k : ℕ) × (l : List ℕ) × (p 15 ≡ suc k)
        × (treated
            ≡ (if field p 13 == 2 then metric_rx ∷ manag_update 0 3 ∷ [] else [])
              ++ (enqueue l 0 ∷ []))
        × (length l ≡ 20 - 2)
        × (load l 15 ≡ k)
        × (packet_addr (load l) ≡ field p (16 + 2 * k))
        × ((j : ℕ) → j < 20 - 2 → j ≢ 6 → j ≢ 7 → j ≢ 15 → load l j ≡ p j))
source_routed_lem_example =
    source_routed_lem small (node 2) (load setup) 20 empty refl (omega arith) (omega arith)
      (omega arith) refl

-- The same packet in a memory that holds something else behind it.
abbrev stale : Bytes
stale i = if ltb i 20 then load setup i else 255

setup-stale : Agree 20 (load setup) stale
unfolding Agree
setup-stale i h = ground (arith)

setup-guarded : guarded (kind_of 231) (load setup) 20 ≡ true
unfolding guarded kind_of
setup-guarded = refl

treat_packet-local_example :
    (sdn_treat_packet small (node 2) (load setup) 20 0 empty
      ≡ sdn_treat_packet small (node 2) stale 20 0 empty)
    × (sdn_treat_packet_receiv small (node 2) (load setup) 20 0 empty
        ≡ sdn_treat_packet_receiv small (node 2) stale 20 0 empty)
treat_packet-local_example =
    treat_packet-local small (node 2) 20 0 (load setup) stale setup-stale empty (omega arith)
      setup-guarded

treat_packets-IsLike_example :
    IsLike small empty
      (sdn_treat_packet small (node 2) (load setup) 20 0 empty)
      (sdn_treat_packet_receiv small (node 2) (load setup) 20 0 empty)
treat_packets-IsLike_example = treat_packets-IsLike small (node 2) (load setup) 20 0 empty

-- Node 3 with its own address in its control table, and the setup of a route to 9 over 8.
abbrev started : Tables small
started = (sdn_controlflow_init small note 3 empty []).1.0

abbrev route_setup : List ℕ
route_setup = 0 ∷ 0 ∷ 60 ∷ 1 ∷ 1 ∷ 0 ∷ 3 ∷ 0 ∷ 9 ∷ 0 ∷ 2 ∷ 8 ∷ 0 ∷ []

-- A setup of a data flow for 9, which node 3 has to forward.
abbrev next_setup : List ℕ
next_setup = 1 ∷ 0 ∷ 60 ∷ 2 ∷ 1 ∷ 0 ∷ 9 ∷ 0 ∷ 5 ∷ 0 ∷ 2 ∷ 7 ∷ 0 ∷ []

started-IsSound : IsSound small started
unfolding sdn_controlflow_init
started-IsSound = control_insert-IsSound small note 3 3 3 1 empty [] empty-IsSound

own_route : sdn_controlflow_get small 3 started ≡ some 10
unfolding sdn_controlflow_get sdn_controlflow_init sdn_controlflow_insert store_entry block_for
    place aged age_all find_entry control_action
own_route = refl

own_action : (started.cft.entries 10).action ≡ 1
unfolding sdn_controlflow_get sdn_controlflow_init sdn_controlflow_insert store_entry block_for
    place aged age_all find_entry control_action
own_action = refl

route_stored : (sdn_controlflow_insert small note 3 9 8 2 started []).0 ≡ sdn_success
unfolding sdn_controlflow_get sdn_controlflow_init sdn_controlflow_insert store_entry block_for
    place aged age_all find_entry control_action
route_stored = refl

by_address : routed_by_addr (kind_of 1) ≡ true
unfolding routed_by_addr kind_of
by_address = refl

long_enough : check_packet_len (kind_of 1) (load next_setup) 13 ≡ sdn_success
unfolding check_packet_len kind_of known_type least_len
long_enough = refl

setup-then-send_example :
    (sdn_treat_packet small
      (node 3)
      (load next_setup)
      13
      0
      (receive small note note
        (λ e l. l)
        (node 3)
        (load route_setup)
        13
        0
        (started, [])).0).next_hop
    ≡ some 8
setup-then-send_example =
    setup-then-send small note note (λ e l. l) (node 3) (load route_setup) (load next_setup) 13 13 0
      0 10 started [] started-IsSound refl (omega arith) own_route own_action refl refl route_stored
      by_address long_enough refl

-- Two flows to set in a control table, where the path is done: the handler takes its element behind
-- the last one, which is not in the packet.
abbrev two_sets : List ℕ
two_sets = 216 ∷ 0 ∷ 60 ∷ 1 ∷ 1 ∷ 0 ∷ 3 ∷ 0 ∷ 9 ∷ 0 ∷ 0 ∷ 2 ∷ 2 ∷ 7 ∷ 0 ∷ 2 ∷ 8 ∷ 0 ∷ []

abbrev behind : Bytes
behind i = if ltb i 18 then load two_sets i else 255

element-behind :
    find? (λ e. true) (treat_mult_control_flow_setup (node 3) behind 18)
    ≡ some (controlflow_insert 9 65535 255)
unfolding treat_mult_control_flow_setup bytes
element-behind = refl

-- No flow to set in a data table: the count becomes 255.
abbrev no_sets : Bytes
no_sets i = if ltb i 12 then load (217 ∷ 0 ∷ 60 ∷ 1 ∷ 1 ∷ 0 ∷ 3 ∷ 0 ∷ 9 ∷ 0 ∷ 0 ∷ 0 ∷ []) i else 255

element-far :
    find? (λ e. true) (treat_mult_data_flow_setup (node 3) no_sets 12)
    ≡ some (dataflow_insert 9 65535 255)
unfolding treat_mult_data_flow_setup bytes
element-far = refl
