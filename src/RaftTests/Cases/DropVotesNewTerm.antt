-- ===== src/RaftTests/Cases/DropVotesNewTerm.antt =====
-- raft/tests/voting/drop_votes_new_term.go
use tendermint_testing.Base.{[], ◌∷◌}
use tendermint_testing.Testlib.Conditions.{and, is_message_send}
use tendermint_testing.Testlib.Actions.{if_then, drop_message}
use tendermint_testing.Testlib.Filters.{FilterSet}
use tendermint_testing.Testlib.Machine.{StateMachine, on, in_state, success_state_label}
use tendermint_testing.RaftTests.Messages.{RaftMessage, msg_vote, msg_vote_resp}
use tendermint_testing.RaftTests.Conditions.{Texts, is_message_type, is_new_term}
use tendermint_testing.RaftTests.Actions.{count_term}
use tendermint_testing.RaftTests.Cases.{start, two_filters, is_sent}

module _ (t : Texts) where
  unfoldable pub machine : StateMachine RaftMessage
  machine =
      (on (on start (is_sent msg_vote) "VotingPhase") (is_new_term t) success_state_label).machine

  unfoldable pub filters : FilterSet RaftMessage
  filters = two_filters (count_term t) (
      if_then (and (and (in_state "VotingPhase") is_message_send) (is_message_type msg_vote_resp))
        (drop_message ∷ []))
