-- ===== src/Testlib/Machine/Standstill.antt =====
-- A machine that never leaves its start state.
use tendermint_testing.Base.{
  ◌≡◌, refl, ◌∙◌, ap, String, false, List, [], ◌∷◌, some, string_eq, Option-cases, inl, inr,
}
use tendermint_testing.Base.GoMap.{lookup}
use tendermint_testing.Types.Event.{Event}
use tendermint_testing.Testlib.Conditions.{Condition}
use tendermint_testing.Testlib.Context.{Context, TestCase, Run, new_run}
use tendermint_testing.Testlib.Machine.{
  State, StateMachine, try_transitions, step, handler, abort_on_failure, in_success_state,
  start_state_label,
}
use tendermint_testing.Testlib.Machine.Running.{Reached, start, handle, between}

module _ {P : Type 0} where
  -- A condition that holds at no event, in no context, and leaves the test case alone.
  abbrev pub Never : Condition P → Type 0
  Never cond =
      (e : Event) (c : Context P) → ((cond e c).0 ≡ false) × ((cond e c).1.testcase ≡ c.testcase)

  -- The start state is there, without success, and no condition under its labels ever holds.
  pub record Stands (m : StateMachine P) : Type 0 where
    pub state : State P
    pub found : lookup start_state_label m.states ≡ some state
    pub no_success : state.success ≡ false
    pub never :
        (to : String) (cond : Condition P) → lookup to state.transitions ≡ some cond → Never cond

  try_transitions-Never :
      (m : StateMachine P) (s : State P) (order : List String) (e : Event) (c : Context P)
      → ((to : String) (cond : Condition P) → lookup to s.transitions ≡ some cond → Never cond)
      → (try_transitions m s order e c).testcase ≡ c.testcase
  unfolding try_transitions
  try_transitions-Never m s [] e c never = refl
  try_transitions-Never m s (to ∷ order) e c never = elim (Option-cases (lookup to s.transitions)) [
    | inl q ↦ rw (q, try_transitions) (try_transitions-Never m s order e c never)
    | inr (cond, q) ↦
        let (fails, same) = never to cond q e c in
        rw (q, try_transitions, fails) (try_transitions-Never m s order e (cond e c).1 never ∙ same)
  ]

  module _ (m : StateMachine P) (stands : Stands m) where
    step-run :
        (e : Event) (c : Context P)
        → c.testcase.run.cur_state ≡ start_state_label
        → (step m e c).testcase ≡ c.testcase
    unfolding step
    step-run e c at =
        let found : lookup c.testcase.run.cur_state m.states ≡ some stands.state =
          rw at stands.found in
        rw (found, step)
          (try_transitions-Never m stands.state stands.state.transition_order e c stands.never)

    handler_stays :
        (e : Event) (c : Context P)
        → c.testcase.run.cur_state ≡ start_state_label
        → (handler m e c).1.testcase ≡ c.testcase
    unfolding handler
    handler_stays e c at =
        let same = step-run e c at in
        let here : (step m e c).testcase.run.cur_state ≡ start_state_label =
          ap (λ (t : TestCase). t.run.cur_state) same ∙ at in
        rw (here, abort_on_failure) same

    -- Whatever events it is stepped with, the machine stays in the start state: its test case
    -- cannot succeed.
    pub Reached_stands :
        {c : Context P}
        → Reached m c
        → (c.testcase.run.cur_state ≡ start_state_label) × (in_success_state m c ≡ false)
    unfolding new_run in_success_state
    Reached_stands {c} r =
        let at : c.testcase.run.cur_state ≡ start_state_label = stays r in
        let found : lookup c.testcase.run.cur_state m.states ≡ some stands.state =
          rw at stands.found in
        (at, rw (found, in_success_state) stands.no_success)
      where
        stays : {d : Context P} → Reached m d → d.testcase.run.cur_state ≡ start_state_label
        stays (start e) = ap (λ (x : Run). x.cur_state) e
        stays (handle c' e r' q) =
            ap (λ (x : Context P). x.testcase.run.cur_state) q
            ∙ ap (λ (t : TestCase). t.run.cur_state) (handler_stays e c' (stays r'))
            ∙ stays r'
        stays (between c' r' q) = ap (λ (x : Run). x.cur_state) q ∙ stays r'
