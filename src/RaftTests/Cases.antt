-- ===== src/RaftTests/Cases.antt =====
-- raft/tests/normal, raft/tests/voting and raft/tests/appends: the test cases for the replicas of the
-- Raft example, as the machine and the filters that each is built from. The flags of the Once actions
-- are numbered in the order in which a test case makes them.
pub mod DropAppend
pub mod ExpectAppend
pub mod VoteResponse
pub mod ExpectHeartbeat
pub mod ExpectLeader
pub mod HeartbeatResponse
pub mod DropVotes
pub mod DropVotesNewTerm
pub mod DropHeartbeat
pub mod Partition
pub mod Stuck
pub mod NoDrop
use tendermint_testing.Base.{ℕ, String, Bool, false, List, [], ◌∷◌, Option, none, some, ◌<>◌}
use tendermint_testing.Base.Int.{pos}
use tendermint_testing.Types.Event.{Event}
use tendermint_testing.Testlib.Context.{Context}
use tendermint_testing.Testlib.Conditions.{
  Condition, Lookup, and, or, negate, is_event_of_f, is_message_send, is_event_type,
  is_message_to_f, is_message_from_f,
}
use tendermint_testing.Testlib.Wrappers.{count_f, lt_f}
use tendermint_testing.Testlib.Actions.{
  FilterFunc, if_then, deliver_message, drop_message, incr, once_action,
}
use tendermint_testing.Testlib.Filters.{FilterSet, new_filter_set, add_filter}
use tendermint_testing.Testlib.Machine.{
  StateMachine, StateMachineBuilder, new_state_machine, builder, on, in_state, start_state_label,
  success_state_label,
}
use tendermint_testing.RaftTests.Messages.{
  RaftMessage, MessageType, msg_app, msg_app_resp, msg_vote, msg_vote_resp, msg_heartbeat,
  msg_heartbeat_resp, msg_snap, get_message_from_event, random_replica, f_replicas,
}
use tendermint_testing.RaftTests.Conditions.{
  Texts, is_message_type, is_sender_same_as, is_receiver_same_as, is_state_change, is_state_leader,
  is_state_candidate, is_correct_leader, is_new_term, is_term, is_term_gte,
}
use tendermint_testing.RaftTests.Actions.{
  record_message_receiver, record_index, is_same_index, count_votes, count_term,
}

-- sm.Builder() of a new machine.
abbrev pub start : StateMachineBuilder RaftMessage
start = builder (new_state_machine RaftMessage)

-- A filter set of one filter, or of two.
abbrev pub one_filter : FilterFunc RaftMessage → FilterSet RaftMessage
one_filter f = add_filter (new_filter_set RaftMessage) f

abbrev pub two_filters : FilterFunc RaftMessage → FilterFunc RaftMessage → FilterSet RaftMessage
two_filters f g = add_filter (one_filter f) g

abbrev pub is_sent : MessageType → Condition RaftMessage
is_sent t = and is_message_send (is_message_type t)

-- Deliver the messages of the type, and keep the receiver of the first under "r".
abbrev pub deliver_recording : MessageType → FilterSet RaftMessage
deliver_recording t =
    one_filter
      (if_then (is_sent t) (once_action 0 (record_message_receiver "r") ∷ deliver_message ∷ []))

-- The condition by which five of the test cases wait for a leader.
abbrev pub leader_elected : Texts → Condition RaftMessage
leader_elected t = and is_state_change (is_state_leader t)
