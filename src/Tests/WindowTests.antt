-- ===== src/Tests/WindowTests.antt =====
-- The retransmission window at concrete packets.
use idit_sdn.Base.{ℕ, ◌≡◌, refl}
use idit_sdn.Base.{true, false, ◌||◌, some}
use idit_sdn.Base.{List, [], ◌∷◌, ◌++◌, arith, ◌==◌}
use idit_sdn.Base.{get_or}
use idit_sdn.Base.{any, replicate}
use idit_sdn.Queue.{sdn_success}
use idit_sdn.Queue.Fifo.{sent}
use idit_sdn.Packet.{Bytes}
use idit_sdn.Treat.Arrival.{load}
use idit_sdn.Window.{Waiting, Window, no_slot, is_same, window_init, sld_f}
use idit_sdn.Window.{sld_await_ack, sld_rcv_flow_req, sld_rcv_addr_req}
use idit_sdn.Window.{has_data_flow_request_retransmission, has_control_flow_request_retransmission}
use idit_sdn.Window.Invariant.{IsWindow, filled, clear}
use idit_sdn.Window.Requests.{await_ack_lem}
use idit_sdn.Window.Answers.{rcv_req_lem}
use idit_sdn.Window.Calls.{Call, await_ack, rcv_flow_req, purge, expire, calls, calls-IsWindow}
use idit_sdn.Window.Retransmit.{retransmit_lem}
use idit_sdn.Tests.FlowTableTests.{small}
use idit_sdn.Tests.SendTests.{queues, queues-IsValid, outbox}

-- The request of node 4 for flow or address 7.
abbrev request : ℕ → Bytes
request type = load (type ∷ 255 ∷ 60 ∷ 9 ∷ 4 ∷ 0 ∷ 0 ∷ 0 ∷ 7 ∷ 0 ∷ [])

abbrev waiting : Bytes → Waiting
waiting p = record { packet = p; len = 10; armed = true }

-- The requests for flow 7 and for the address 7 wait.
abbrev window : Window
window = record {
  slots = waiting (request 3) ∷ waiting (request 2) ∷ no_slot ∷ no_slot ∷ [];
  count = 2;
}

window-IsWindow : IsWindow window
unfolding filled clear
window-IsWindow = record { size = refl; below = refl; timers = refl; apart = refl }

await_ack_lem_example :
    IsWindow (sld_await_ack 4 (request 14) 10 window).1
    × ((sld_await_ack 4 (request 14) 10 window).0 ≡ sdn_success)
    × (any (is_same (request 14)) (sld_await_ack 4 (request 14) 10 window).1.slots ≡ true)
await_ack_lem_example = await_ack_lem 4 (request 14) 10 window (omega arith) refl window-IsWindow

rcv_req_lem_example :
    IsWindow (sld_rcv_flow_req 7 window).1
    × (has_data_flow_request_retransmission 7 (sld_rcv_flow_req 7 window).1 ≡ false)
    × (has_control_flow_request_retransmission 7 (sld_rcv_flow_req 7 window).1
        ≡ has_control_flow_request_retransmission 7 window)
    × IsWindow (sld_rcv_addr_req 7 window).1
    × (has_control_flow_request_retransmission 7 (sld_rcv_addr_req 7 window).1 ≡ false)
    × (has_data_flow_request_retransmission 7 (sld_rcv_addr_req 7 window).1
        ≡ has_data_flow_request_retransmission 7 window)
rcv_req_lem_example = rcv_req_lem 7 7 7 7 window window-IsWindow

-- Two requests are sent, the first is answered and made again, the timer of its slot runs out, and
-- the second is purged.
abbrev story : List Call
story =
    await_ack (request 3) 10
    ∷ await_ack (request 2) 10
    ∷ rcv_flow_req 7
    ∷ await_ack (request 3) 10
    ∷ expire 0
    ∷ purge 2
    ∷ []

calls-IsWindow_example :
    IsWindow
      (calls small 4 story
        (window_init (record { slots = replicate 4 no_slot; count = 3 }), outbox)).0
calls-IsWindow_example =
    calls-IsWindow small 4 story (record { slots = replicate 4 no_slot; count = 3 }) outbox refl
      refl refl

retransmit_lem_example :
    ((get_or (sld_f small 4 0 (window, outbox)).0.slots 0 no_slot).len ≡ 0)
    × (sent (sld_f small 4 0 (window, outbox)).1.sender.queues
        ≡ sent queues ++ ((some 12, 10, 0) ∷ []))
retransmit_lem_example =
    retransmit_lem small 4 0 12 (λ b. b == 12 || outbox.sender.pool b) window outbox queues-IsValid
      refl (omega arith) refl
