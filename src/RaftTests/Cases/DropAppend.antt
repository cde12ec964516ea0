-- ===== src/RaftTests/Cases/DropAppend.antt =====
-- raft/tests/appends/drop_append.go
use tendermint_testing.Base.{[], ◌∷◌}
use tendermint_testing.Testlib.Conditions.{and}
use tendermint_testing.Testlib.Actions.{if_then, drop_message, once_action}
use tendermint_testing.Testlib.Filters.{FilterSet}
use tendermint_testing.Testlib.Machine.{StateMachine, on, success_state_label}
use tendermint_testing.RaftTests.Messages.{RaftMessage, msg_app}
use tendermint_testing.RaftTests.Conditions.{is_receiver_same_as}
use tendermint_testing.RaftTests.Actions.{record_message_receiver, record_index, is_same_index}
use tendermint_testing.RaftTests.Cases.{start, one_filter, is_sent}

unfoldable pub machine : StateMachine RaftMessage
machine =
    (on (on start (is_sent msg_app) "AppendObserved")
      (and (and (is_sent msg_app) (is_receiver_same_as "r")) (is_same_index "appIndex"))
      success_state_label).machine

unfoldable pub filters : FilterSet RaftMessage
filters = one_filter (
    if_then (is_sent msg_app) (
      once_action 0 (record_index "appIndex")
      ∷ once_action 1 (record_message_receiver "r")
      ∷ once_action 2 drop_message
      ∷ []))
