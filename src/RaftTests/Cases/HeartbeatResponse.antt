-- ===== src/RaftTests/Cases/HeartbeatResponse.antt =====
-- raft/tests/normal/heartbeat_response.go
use tendermint_testing.Testlib.Conditions.{and, is_message_send}
use tendermint_testing.Testlib.Actions.{}
use tendermint_testing.Testlib.Filters.{FilterSet}
use tendermint_testing.Testlib.Machine.{StateMachine, on, success_state_label}
use tendermint_testing.RaftTests.Messages.{RaftMessage, msg_heartbeat, msg_heartbeat_resp}
use tendermint_testing.RaftTests.Conditions.{Texts, is_message_type, is_sender_same_as}
use tendermint_testing.RaftTests.Actions.{}
use tendermint_testing.RaftTests.Cases.{start, deliver_recording, leader_elected}

module _ (t : Texts) where
  unfoldable pub machine : StateMachine RaftMessage
  machine =
      (on (on start (leader_elected t) "LeaderElected")
        (and (and is_message_send (is_sender_same_as "r")) (is_message_type msg_heartbeat_resp))
        success_state_label).machine

  unfoldable pub filters : FilterSet RaftMessage
  filters = deliver_recording msg_heartbeat
