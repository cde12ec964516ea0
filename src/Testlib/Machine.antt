-- ===== src/Testlib/Machine.antt =====
-- netrix/testlib/sm.go: the state machine of a test case. The machine is what the builder makes of it;
-- where it stands is the run, which the test case of the context holds.
pub mod Building
pub mod Running
pub mod Reading
pub mod Choice
pub mod Standstill
use mathlib.Core.Option
use tendermint_testing.Base.{
  ◌≡◌, String, Bool, true, false, List, [], ◌∷◌, ◌++◌, Option, none, some, if◌then◌else◌, ◌==◌,
  string_eq, is_some,
}
use tendermint_testing.Base.GoMap.{GoMap, lookup, insert}
use tendermint_testing.Types.Event.{Event}
use tendermint_testing.Types.Messages.{Message}
use tendermint_testing.Testlib.Vars.{text, set_var}
use tendermint_testing.Testlib.Context.{Context, Run, new_run, transition, log, abort}
use tendermint_testing.Testlib.Conditions.{Condition}
use tendermint_testing.Testlib.Actions.{FilterFunc}

abbrev pub start_state_label : String
start_state_label = "startState"

abbrev pub fail_state_label : String
fail_state_label = "failState"

abbrev pub success_state_label : String
success_state_label = "successState"

pub record State (P : Type 0) : Type 0 where
  pub label : String
  pub transitions : GoMap String (Condition P)
  pub success : Bool
  pub transition_order : List String

pub record StateMachine (P : Type 0) : Type 0 where
  pub states : GoMap String (State P)

-- A builder points to a state of its machine: the label names it.
pub record StateMachineBuilder (P : Type 0) : Type 0 where
  pub machine : StateMachine P
  pub cur_state : String

abbrev pub empty_state : (P : Type 0) → String → Bool → State P
empty_state P label success = record {
  label = label;
  transitions = [];
  success = success;
  transition_order = [];
}

-- The run that NewStateMachine makes with it is `new_run start_state_label`.
unfoldable pub new_state_machine : (P : Type 0) → StateMachine P
new_state_machine P = record {
  states = insert success_state_label (empty_state P success_state_label true) (
      insert fail_state_label (empty_state P fail_state_label false)
        (insert start_state_label (empty_state P start_state_label false) []));
}

unfoldable pub builder : {P : Type 0} → StateMachine P → StateMachineBuilder P
builder m = record { machine = m; cur_state = start_state_label }

module _ {P : Type 0} where
  unfoldable pub get_state : StateMachine P → String → Option (State P)
  get_state m label = lookup label m.states

  unfoldable pub new_state : StateMachine P → String → StateMachine P
  new_state m label = elim (lookup label m.states) [
    | some s ↦ m
    | none ↦ record { states = insert label (empty_state P label false) m.states }
  ]

  abbrev pub with_transition : State P → String → Condition P → State P
  with_transition s to cond = record s {
    transitions = insert to cond s.transitions;
    transition_order = s.transition_order ++ to ∷ [];
  }

  -- A write to the state that a label names; a missing one would be a nil pointer.
  abbrev pub change_state : StateMachine P → String → (State P → State P) → StateMachine P
  change_state m label f = elim (lookup label m.states) [
    | none ↦ m
    | some s ↦ record { states = insert label (f s) m.states }
  ]

  unfoldable pub on : StateMachineBuilder P → Condition P → String → StateMachineBuilder P
  unfolding new_state
  on b cond label = record {
    machine =
        change_state (new_state b.machine label) b.cur_state (λ s. with_transition s label cond);
    cur_state = label;
  }

  abbrev marked : State P → State P
  marked s = record s { success = true }

  unfoldable pub mark_success : StateMachineBuilder P → StateMachineBuilder P
  mark_success b = record b { machine = change_state b.machine b.cur_state marked }

  -- What a step does when the condition of a transition holds.
  abbrev pub move : StateMachine P → State P → String → Context P → Context P
  move m s to c = elim (lookup to m.states) [
    | none ↦ c
    | some next ↦
        let logged = log c (
          ("from_state", s.label) ∷ ("to_state", to) ∷ ("type", "state_machine_transition") ∷ []) in
        record logged {
          testcase = record logged.testcase { run = transition logged.testcase.run next.label };
          vars = set_var logged.vars "curState" (text to);
        }
  ]

  -- The loop over the order. Each label of an order has a condition (Machine.Building), so that the
  -- call of a nil function does not come up; it is passed over here.
  unfoldable pub try_transitions :
      StateMachine P → State P → List String → Event → Context P → Context P
  unfolding log transition set_var
  try_transitions m s [] e c = c
  try_transitions m s (to ∷ order) e c = elim (lookup to s.transitions) [
    | none ↦ try_transitions m s order e c
    | some cond ↦
        let (ok, c') = cond e c in
        elim ok [ true ↦ move m s to c' | false ↦ try_transitions m s order e c' ]
  ]

  unfoldable pub step : StateMachine P → Event → Context P → Context P
  unfolding try_transitions
  step m e c = elim (lookup c.testcase.run.cur_state m.states) [
    | none ↦ c
    | some s ↦ try_transitions m s s.transition_order e c
  ]

  unfoldable pub in_success_state : StateMachine P → Context P → Bool
  in_success_state m c = elim (lookup c.testcase.run.cur_state m.states) [
    | none ↦ false
    | some s ↦ s.success
  ]

  unfoldable pub in_state : String → Condition P
  in_state label e c = (c.testcase.run.cur_state == label, c)

  abbrev pub abort_on_failure : Context P → Context P
  abort_on_failure c = if c.testcase.run.cur_state == fail_state_label then abort c else c

  unfoldable pub handler : StateMachine P → FilterFunc P
  unfolding step abort
  handler m e c = (([], false), abort_on_failure (step m e c))
