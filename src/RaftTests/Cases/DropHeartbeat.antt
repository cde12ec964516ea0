-- ===== src/RaftTests/Cases/DropHeartbeat.antt =====
-- raft/tests/voting/drop_heartbeat.go
use tendermint_testing.Base.{ℕ, [], ◌∷◌}
use tendermint_testing.Testlib.Conditions.{and, or, is_event_of_f, is_message_send, is_message_to_f}
use tendermint_testing.Testlib.Actions.{if_then, drop_message}
use tendermint_testing.Testlib.Filters.{FilterSet}
use tendermint_testing.Testlib.Machine.{StateMachine, on, in_state, success_state_label}
use tendermint_testing.RaftTests.Messages.{
  RaftMessage, msg_app, msg_vote_resp, msg_heartbeat, msg_snap, random_replica,
}
use tendermint_testing.RaftTests.Conditions.{
  Texts, is_message_type, is_state_change, is_state_candidate,
}
use tendermint_testing.RaftTests.Actions.{}
use tendermint_testing.RaftTests.Cases.{start, two_filters, leader_elected}

module _ (t : Texts) (chosen : ℕ) where
  unfoldable pub machine : StateMachine RaftMessage
  machine =
      (on (on start (leader_elected t) "LeaderElected")
        (and (and (is_event_of_f (random_replica chosen)) is_state_change) (is_state_candidate t))
        success_state_label).machine

  unfoldable pub filters : FilterSet RaftMessage
  filters =
      two_filters
        (if_then
          (and (and is_message_send (is_message_to_f (random_replica chosen)))
            (is_message_type msg_vote_resp))
          (drop_message ∷ []))
        (if_then
          (and
            (and (and (in_state "LeaderElected") is_message_send)
              (is_message_to_f (random_replica chosen)))
            (or (or (is_message_type msg_heartbeat) (is_message_type msg_app))
              (is_message_type msg_snap)))
          (drop_message ∷ []))
