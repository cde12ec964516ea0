-- ===== src/RaftTests/Cases/Partition.antt =====
-- raft/tests/voting/partition.go
use tendermint_testing.Base.{ℕ, [], ◌∷◌}
use tendermint_testing.Base.Int.{pos}
use tendermint_testing.Testlib.Conditions.{
  and, or, negate, is_event_of_f, is_event_type, is_message_to_f, is_message_from_f,
}
use tendermint_testing.Testlib.Actions.{if_then, drop_message}
use tendermint_testing.Testlib.Filters.{FilterSet}
use tendermint_testing.Testlib.Machine.{
  StateMachine, on, in_state, start_state_label, success_state_label,
}
use tendermint_testing.RaftTests.Messages.{RaftMessage, random_replica}
use tendermint_testing.RaftTests.Conditions.{Texts, is_new_term, is_term, is_term_gte}
use tendermint_testing.RaftTests.Actions.{count_term}
use tendermint_testing.RaftTests.Cases.{start, two_filters}

module _ (t : Texts) (chosen : ℕ) where
  unfoldable pub machine : StateMachine RaftMessage
  machine =
      (on
        (on start
          (and (and (is_event_of_f (random_replica chosen)) (is_new_term t)) (is_term t (pos 10)))
          "ReachedTermTen")
        (and (and (negate (is_event_of_f (random_replica chosen))) (is_event_type "TermChange"))
          (is_term_gte t (pos 10)))
        success_state_label).machine

  unfoldable pub filters : FilterSet RaftMessage
  filters = two_filters (count_term t) (
      if_then
        (and (in_state start_state_label) (
          or (is_message_from_f (random_replica chosen)) (is_message_to_f (random_replica chosen))))
        (drop_message ∷ []))
