-- ===== src/RaftTests/Cases/Stuck.antt =====
-- Test cases that wait for a leader by IsStateChange().And(IsStateLeader()). IsStateChange asks for
-- an event of the type "TermChange", and IsStateLeader for one of the type "StateChange".
use tendermint_testing.Base.{
  ℕ, ◌≡◌, refl, subst, String, false, List, [], ◌∷◌, some, none, ◌==◌, string_eq, Bool-cases, inl,
  inr, All,
}
use text.Mathlib.TextEquality.{eq_iff}
use tendermint_testing.Base.GoMap.{lookup, insert}
use tendermint_testing.Types.Event.{
  EventType, generic, message_send, message_receive, timeout_start, timeout_end,
}
use tendermint_testing.Testlib.Context.{Context}
use tendermint_testing.Testlib.Conditions.{Condition, is_event_type, and}
use tendermint_testing.Testlib.Machine.{
  StateMachine, new_state_machine, builder, on, new_state, in_success_state, start_state_label,
}
use tendermint_testing.Testlib.Machine.Running.{Reached}
use tendermint_testing.Testlib.Machine.Standstill.{Never, Stands, Reached_stands}
use tendermint_testing.RaftTests.Messages.{RaftMessage}
use tendermint_testing.RaftTests.Conditions.{
  Texts, is_state_change, is_state_leader, is_correct_leader,
}
use tendermint_testing.RaftTests.Cases.{leader_elected}
use tendermint_testing.RaftTests.Cases.ExpectHeartbeat as ExpectHeartbeat
use tendermint_testing.RaftTests.Cases.ExpectLeader as ExpectLeader
use tendermint_testing.RaftTests.Cases.HeartbeatResponse as HeartbeatResponse
use tendermint_testing.RaftTests.Cases.DropVotes as DropVotes
use tendermint_testing.RaftTests.Cases.DropHeartbeat as DropHeartbeat

module _ {P : Type 0} where
  and-Never_left : (cond other : Condition P) → Never cond → Never (and cond other)
  unfolding and
  and-Never_left cond other never e c = rw (never e c).0 (refl, (never e c).1)

  only-Never :
      (label : String) (cond : Condition P)
      → Never cond
      → (to : String) (cond' : Condition P) → lookup to ((label, cond) ∷ []) ≡ some cond'
      → Never cond'
  unfolding lookup
  only-Never label cond never to cond' h = elim (Bool-cases (label == to)) [
    | inl e ↦
        let same : some cond ≡ some cond' = rw e at h in
        let is : cond ≡ cond' = cc in subst Never is never
    | inr e ↦ absurd (let gone : none ≡ some cond' = rw e at h in cc)
  ]

module _ (t : Texts) where
  leader_elected-Never : Never (leader_elected t)
  unfolding is_state_change is_state_leader is_event_type and
  leader_elected-Never e c = go e.type
    where
      go :
          (type : EventType)
          → ((leader_elected t (record e { type = type }) c).0 ≡ false)
            × ((leader_elected t (record e { type = type }) c).1.testcase ≡ c.testcase)
      go (message_send m) = (refl, refl)
      go (message_receive m) = (refl, refl)
      go (timeout_start d) = (refl, refl)
      go (timeout_end d) = (refl, refl)
      go (generic params type) = elim (Bool-cases (type == "TermChange")) [
        | inl e ↦
            let is : type ≡ "TermChange" = (eq_iff type "TermChange").0 e in rw is (refl, refl)
        | inr e ↦ rw e (refl, refl)
      ]

  expect_heartbeat-Stands : Stands (ExpectHeartbeat.machine t)
  unfolding ExpectHeartbeat.machine new_state_machine builder on new_state lookup insert
  expect_heartbeat-Stands = record {
    state = _;
    found = refl;
    no_success = refl;
    never = only-Never "LeaderElected" (leader_elected t) leader_elected-Never;
  }

  expect_leader-Stands : Stands (ExpectLeader.machine t)
  unfolding ExpectLeader.machine new_state_machine builder on new_state lookup insert
  expect_leader-Stands = record {
    state = _;
    found = refl;
    no_success = refl;
    never =
        only-Never "successState" (and (leader_elected t) (is_correct_leader t))
          (and-Never_left (leader_elected t) (is_correct_leader t) leader_elected-Never);
  }

  heartbeat_response-Stands : Stands (HeartbeatResponse.machine t)
  unfolding HeartbeatResponse.machine new_state_machine builder on new_state lookup insert
  heartbeat_response-Stands = record {
    state = _;
    found = refl;
    no_success = refl;
    never = only-Never "LeaderElected" (leader_elected t) leader_elected-Never;
  }

  drop_votes-Stands : Stands (DropVotes.machine t)
  unfolding DropVotes.machine new_state_machine builder on new_state lookup insert
  drop_votes-Stands = record {
    state = _;
    found = refl;
    no_success = refl;
    never = only-Never "successState" (leader_elected t) leader_elected-Never;
  }

  drop_heartbeat-Stands : (chosen : ℕ) → Stands (DropHeartbeat.machine t chosen)
  unfolding DropHeartbeat.machine new_state_machine builder on new_state lookup insert
  drop_heartbeat-Stands chosen = record {
    state = _;
    found = refl;
    no_success = refl;
    never = only-Never "LeaderElected" (leader_elected t) leader_elected-Never;
  }

  -- The test cases that wait for a leader first.
  abbrev pub waiting_machines : ℕ → List (StateMachine RaftMessage)
  waiting_machines chosen =
      ExpectHeartbeat.machine t
      ∷ ExpectLeader.machine t
      ∷ HeartbeatResponse.machine t
      ∷ DropVotes.machine t
      ∷ DropHeartbeat.machine t chosen
      ∷ []

  -- ExpectHeartbeat, ExpectLeader, HeartbeatResponse, DropFVotes and DropHeartbeat cannot succeed:
  -- whatever the events are, their machines stay in the start state.
  pub waiting_machines_stand :
      (chosen : ℕ) (c : Context RaftMessage)
      → All
          (λ m.
            Reached m c
            → (c.testcase.run.cur_state ≡ start_state_label) × (in_success_state m c ≡ false))
          (waiting_machines chosen)
  waiting_machines_stand chosen c = (
    λ r. Reached_stands (ExpectHeartbeat.machine t) expect_heartbeat-Stands r,
    (
      λ r. Reached_stands (ExpectLeader.machine t) expect_leader-Stands r,
      (
        λ r. Reached_stands (HeartbeatResponse.machine t) heartbeat_response-Stands r,
        (
          λ r. Reached_stands (DropVotes.machine t) drop_votes-Stands r,
          (
            λ r. Reached_stands (DropHeartbeat.machine t chosen) (drop_heartbeat-Stands chosen) r,
            tt,
          ),
        ),
      ),
    ),
  )
