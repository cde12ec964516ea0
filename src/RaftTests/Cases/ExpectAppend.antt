-- ===== src/RaftTests/Cases/ExpectAppend.antt =====
-- raft/tests/normal/expect_append.go
use tendermint_testing.Testlib.Conditions.{and}
use tendermint_testing.Testlib.Actions.{}
use tendermint_testing.Testlib.Filters.{FilterSet}
use tendermint_testing.Testlib.Machine.{StateMachine, on, success_state_label}
use tendermint_testing.RaftTests.Messages.{RaftMessage, msg_app, msg_app_resp}
use tendermint_testing.RaftTests.Conditions.{is_sender_same_as}
use tendermint_testing.RaftTests.Actions.{}
use tendermint_testing.RaftTests.Cases.{start, is_sent, deliver_recording}

unfoldable pub machine : StateMachine RaftMessage
machine =
    (on (on start (is_sent msg_app) "AppendDelivered")
      (and (is_sent msg_app_resp) (is_sender_same_as "r")) success_state_label).machine

unfoldable pub filters : FilterSet RaftMessage
filters = deliver_recording msg_app
