-- ===== src/Tests/ReceiveTests.antt =====
-- The receipt of packets at concrete states.
use idit_sdn.Base.{◌≡◌, refl, false, ◌||◌, ◌==◌, arith, ◌∷◌, replicate}
use idit_sdn.Receive.{Inbox, sdn_receive, sdn_seqno_is_duplicate, is_last_of}
use idit_sdn.Receive.Accepted.{IsReceived, accepted, sdn_receive_lem}
use idit_sdn.Tests.FlowTableTests.{small}
use idit_sdn.Tests.SendTests.{sender, queues-IsValid, data_of}

abbrev inbox : Inbox small
inbox = record {
  received_seqnos =
      record { sender = 1; seqno = 9 } ∷ replicate 15 (record { sender = 0; seqno = 0 });
  node = sender;
  posted = 0;
}

first_time : sdn_seqno_is_duplicate 4 (data_of 5) inbox.received_seqnos ≡ false
unfolding sdn_seqno_is_duplicate is_last_of
first_time = refl

-- The packet with the number 0 of node 1, whose last number was 9.
sdn_receive_lem_example :
    IsReceived small 100 4 9 12
      (λ b. b == 12 || sender.pool b)
      (data_of 5)
      inbox
      (sdn_receive small 100 4 (data_of 5) 9 inbox)
    × (sdn_seqno_is_duplicate 4
          (data_of 5)
          (sdn_receive small 100 4 (data_of 5) 9 inbox).received_seqnos
        ≡ accepted small 100 4 9 12 (λ b. b == 12 || sender.pool b) (data_of 5) inbox)
sdn_receive_lem_example =
    sdn_receive_lem small 100 4 9 12 (λ b. b == 12 || sender.pool b) (data_of 5) inbox
      queues-IsValid (omega arith) (omega arith) (omega arith) refl first_time
