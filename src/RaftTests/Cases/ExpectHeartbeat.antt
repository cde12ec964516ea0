-- ===== src/RaftTests/Cases/ExpectHeartbeat.antt =====
-- raft/tests/normal/expect_heartbeat.go
use tendermint_testing.Testlib.Conditions.{}
use tendermint_testing.Testlib.Actions.{}
use tendermint_testing.Testlib.Filters.{FilterSet, new_filter_set}
use tendermint_testing.Testlib.Machine.{StateMachine, on, success_state_label}
use tendermint_testing.RaftTests.Messages.{RaftMessage, msg_heartbeat}
use tendermint_testing.RaftTests.Conditions.{Texts}
use tendermint_testing.RaftTests.Actions.{}
use tendermint_testing.RaftTests.Cases.{start, is_sent, leader_elected}

module _ (t : Texts) where
  unfoldable pub machine : StateMachine RaftMessage
  machine =
      (on (on start (leader_elected t) "LeaderElected") (is_sent msg_heartbeat)
        success_state_label).machine

  unfoldable pub filters : FilterSet RaftMessage
  filters = new_filter_set RaftMessage
