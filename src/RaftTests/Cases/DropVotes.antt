-- ===== src/RaftTests/Cases/DropVotes.antt =====
-- raft/tests/voting/drop_votes.go
use tendermint_testing.Base.{String, Bool, true, false, [], ◌∷◌, Option, none, some, ◌<>◌}
use tendermint_testing.Testlib.Conditions.{Lookup, and}
use tendermint_testing.Testlib.Wrappers.{count_f, lt_f}
use tendermint_testing.Testlib.Actions.{if_then, drop_message, incr}
use tendermint_testing.Testlib.Filters.{FilterSet}
use tendermint_testing.Testlib.Machine.{StateMachine, on, success_state_label}
use tendermint_testing.RaftTests.Messages.{
  RaftMessage, msg_vote_resp, get_message_from_event, f_replicas,
}
use tendermint_testing.RaftTests.Conditions.{Texts}
use tendermint_testing.RaftTests.Actions.{}
use tendermint_testing.RaftTests.Cases.{start, one_filter, is_sent, leader_elected}

module _ (t : Texts) where
  -- The label, and the Boolean that says that there is one.
  abbrev pub votes_label : Option RaftMessage → String × Bool
  votes_label none = ("", false)
  votes_label (some m) = ("_votesDropped_" <> (t.decimal m.term <> ("_" <> t.decimal m.to)), false)

  abbrev pub where_ok : String × Bool → Option String
  where_ok (label, true) = some label
  where_ok (label, false) = none

  unfoldable pub votes_by_term_by_replica : Lookup RaftMessage String
  unfolding get_message_from_event
  votes_by_term_by_replica e c = (where_ok (votes_label (get_message_from_event e c)), c)

  unfoldable pub machine : StateMachine RaftMessage
  machine = (on start (leader_elected t) success_state_label).machine

  unfoldable pub filters : FilterSet RaftMessage
  filters = one_filter (
      if_then (and (is_sent msg_vote_resp) (lt_f (count_f votes_by_term_by_replica) f_replicas))
        (drop_message ∷ incr (count_f votes_by_term_by_replica) ∷ []))
