-- ===== src/RaftTests/Cases/ExpectLeader.antt =====
-- raft/tests/normal/expect_leader.go
use tendermint_testing.Testlib.Conditions.{and}
use tendermint_testing.Testlib.Actions.{}
use tendermint_testing.Testlib.Filters.{FilterSet}
use tendermint_testing.Testlib.Machine.{StateMachine, on, success_state_label}
use tendermint_testing.RaftTests.Messages.{RaftMessage}
use tendermint_testing.RaftTests.Conditions.{Texts, is_correct_leader}
use tendermint_testing.RaftTests.Actions.{as_filter, count_votes}
use tendermint_testing.RaftTests.Cases.{start, one_filter, leader_elected}

module _ (t : Texts) where
  unfoldable pub machine : StateMachine RaftMessage
  machine = (on start (and (leader_elected t) (is_correct_leader t)) success_state_label).machine

  unfoldable pub filters : FilterSet RaftMessage
  filters = one_filter (as_filter (count_votes t))
