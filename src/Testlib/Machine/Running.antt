-- ===== src/Testlib/Machine/Running.antt =====
-- The run of a machine is a path along its transitions, and a run in the failure state has aborted the
-- test case. The conditions are those that leave the test case alone, as all of conds.go do.
use tendermint_testing.Base.{
  ◌≡◌, ◌≢◌, refl, sym, subst, ◌∙◌, ap, String, true, false, List, [], ◌∷◌, ◌++◌, some, arith, ◌==◌,
  string_eq, Bool-cases, Option-cases, inl, inr, ◌⊎◌,
}
use text.Mathlib.TextEquality.{eq_iff}
use tendermint_testing.Base.GoMap.{lookup}
use tendermint_testing.Types.Event.{Event}
use tendermint_testing.Types.EventQueue.{has_label}
use tendermint_testing.Testlib.Conditions.{Condition}
use tendermint_testing.Testlib.Context.{
  Context, TestCase, Run, new_run, transition, abort, abort_test, log,
}
use tendermint_testing.Testlib.Machine.{
  State, StateMachine, try_transitions, move, step, handler, abort_on_failure, fail_state_label,
  start_state_label,
}
use tendermint_testing.Testlib.Machine.Building.{IsWired}

module _ {P : Type 0} where
  -- A condition that leaves the test case alone.
  abbrev pub KeepsTest : Condition P → Type 0
  KeepsTest cond = (e : Event) (c : Context P) → (cond e c).1.testcase ≡ c.testcase

  abbrev pub ReadsOnly : StateMachine P → Type 0
  ReadsOnly m =
      (label : String) (s : State P)
      → lookup label m.states ≡ some s
      → (to : String) (cond : Condition P) → lookup to s.transitions ≡ some cond
      → KeepsTest cond

-- What a run has passed through: it begins at the start state and each step goes from the state it is
-- in to a state of that state's order.
pub data Follows {P : Type 0} (m : StateMachine P) : List String → String → Type 0 where
  begin : {ls : List String} → ls ≡ start_state_label ∷ [] → Follows m ls start_state_label
  go :
      {ls : List String} {from : String} (s : State P) (to : String) {all : List String}
      → Follows m ls from
      → lookup from m.states ≡ some s
      → has_label to s.transition_order ≡ true
      → all ≡ ls ++ to ∷ []
      → Follows m all to

-- What a step can do to the test case: nothing, or a move to a label of the order.
abbrev Moves : TestCase → List String → TestCase → Type 0
Moves t order t' =
    (t' ≡ t)
    ⊎ ((to : String) × (has_label to order ≡ true) × (t' ≡ record t { run = transition t.run to }))

listed_self : (to : String) (order : List String) → has_label to (to ∷ order) ≡ true
unfolding has_label
listed_self to order = ground (arith, eq_iff to to)

widen :
    (t t' : TestCase) (l : String) (order : List String) → Moves t order t' → Moves t (l ∷ order) t'
unfolding has_label
widen t t' l order h = elim h [
  | inl same ↦ inl same
  | inr (to, listed, moved) ↦ inr (to, ground arith, moved)
]

module _ {P : Type 0} (m : StateMachine P) (wired : IsWired m) where
  move_lem :
      (s : State P) (to : String) (c : Context P)
      → ((move m s to c).testcase ≡ c.testcase)
        ⊎ ((move m s to c).testcase ≡ record c.testcase { run = transition c.testcase.run to })
  unfolding log
  move_lem s to c = elim (Option-cases (lookup to m.states)) [
    | inl e ↦ rw (e, move) (inl refl)
    | inr (next, e) ↦ let w = wired to next e in rw (e, move, w.label_eq) (inr refl)
  ]

  try_transitions_lem :
      (s : State P) (order : List String) (e : Event) (c : Context P)
      → ((to : String) (cond : Condition P) → lookup to s.transitions ≡ some cond → KeepsTest cond)
      → Moves c.testcase order (try_transitions m s order e c).testcase
  unfolding try_transitions
  try_transitions_lem s [] e c keeps = inl refl
  try_transitions_lem s (to ∷ order) e c keeps = elim (Option-cases (lookup to s.transitions)) [
    | inl q ↦
        rw (q, try_transitions)
          (widen c.testcase (try_transitions m s order e c).testcase to order
            (try_transitions_lem s order e c keeps))
    | inr (cond, q) ↦
        let c' : Context P = (cond e c).1 in
        let same : c'.testcase ≡ c.testcase = keeps to cond q e c in
        rw (q, try_transitions)
          (elim (Bool-cases (cond e c).0) [
            | inl holds ↦ rw holds (elim (move_lem s to c') [
              | inl stays ↦ inl (stays ∙ same)
              | inr moved ↦ inr (
                to,
                listed_self to order,
                moved ∙ ap (λ (t : TestCase). record t { run = transition t.run to }) same,
              )
            ])
            | inr fails ↦ rw fails (
                widen c.testcase (try_transitions m s order e c').testcase to order (
                  subst (λ t. Moves t order (try_transitions m s order e c').testcase) same
                    (try_transitions_lem s order e c' keeps)))
          ])
  ]

  step-Follows :
      (e : Event) (c : Context P)
      → ReadsOnly m
      → Follows m c.testcase.run.transitions c.testcase.run.cur_state
      → Follows m (step m e c).testcase.run.transitions (step m e c).testcase.run.cur_state
  unfolding step transition
  step-Follows e c reads h = elim (Option-cases (lookup c.testcase.run.cur_state m.states)) [
    | inl q ↦ rw (q, step) h
    | inr (s, q) ↦
        let t' : TestCase = (try_transitions m s s.transition_order e c).testcase in
        rw (q, step)
          (elim (try_transitions_lem s s.transition_order e c
            (reads c.testcase.run.cur_state s q)) [
              | inl same ↦
                  subst (λ (t : TestCase). Follows m t.run.transitions t.run.cur_state) (sym same) h
              | inr (to, listed, moved) ↦
                  subst (λ (t : TestCase). Follows m t.run.transitions t.run.cur_state) (sym moved)
                    (go s to h q listed refl)
            ])
  ]

-- The contexts that come up: the handler is called on events, and between its calls anything may change
-- but the run.
pub data Reached {P : Type 0} (m : StateMachine P) : Context P → Type 0 where
  start : {c : Context P} → c.testcase.run ≡ new_run start_state_label → Reached m c
  handle :
      (c : Context P) (e : Event) {c' : Context P}
      → Reached m c
      → c' ≡ (handler m e c).1
      → Reached m c'
  between :
      (c : Context P) {c' : Context P}
      → Reached m c
      → c'.testcase.run ≡ c.testcase.run
      → Reached m c'

module _ {P : Type 0} (m : StateMachine P) (wired : IsWired m) (reads : ReadsOnly m) where
  abort_on_failure_run : (c : Context P) → (abort_on_failure c).testcase.run ≡ c.testcase.run
  unfolding abort abort_test
  abort_on_failure_run c = elim (Bool-cases (c.testcase.run.cur_state == fail_state_label)) [
    | inl failed ↦ rw (failed, abort_on_failure)
    | inr other ↦ rw (other, abort_on_failure)
  ]

  -- For a wired machine whose conditions leave the test case alone, whatever events it is stepped
  -- with and whatever changes between its steps but the run, the labels that its run lists are a
  -- path of its transitions from the start state to the state it is in.
  pub Reached-Follows :
      {c : Context P} → Reached m c → Follows m c.testcase.run.transitions c.testcase.run.cur_state
  unfolding handler new_run
  Reached-Follows {c} (start e) =
      subst (λ (r : Run). Follows m r.transitions r.cur_state) (sym e) (begin refl)
  Reached-Follows (handle c e r eq) =
      subst (λ (x : Context P). Follows m x.testcase.run.transitions x.testcase.run.cur_state)
        (sym eq)
        (subst (λ (x : Run). Follows m x.transitions x.cur_state)
          (sym (abort_on_failure_run (step m e c)))
          (step-Follows m wired e c reads (Reached-Follows r)))
  Reached-Follows (between c r eq) =
      subst (λ (x : Run). Follows m x.transitions x.cur_state) (sym eq) (Reached-Follows r)

  step_test :
      (e : Event) (c : Context P)
      → ((step m e c).testcase.aborted ≡ c.testcase.aborted)
        × ((step m e c).testcase.done ≡ c.testcase.done)
  unfolding step transition
  step_test e c = elim (Option-cases (lookup c.testcase.run.cur_state m.states)) [
    | inl q ↦ rw (q, step) (refl, refl)
    | inr (s, q) ↦
        rw (q, step)
          (elim (try_transitions_lem m wired s s.transition_order e c
            (reads c.testcase.run.cur_state s q)) [
              | inl same ↦
                  (ap (λ (t : TestCase). t.aborted) same, ap (λ (t : TestCase). t.done) same)
              | inr (to, listed, moved) ↦
                  (ap (λ (t : TestCase). t.aborted) moved, ap (λ (t : TestCase). t.done) moved)
            ])
  ]

  -- For a wired machine whose conditions leave the test case alone, a step that leaves the machine
  -- in the failure state aborts and ends the test case, and any other leaves both flags as they
  -- were. The handler handles no event and delivers no message.
  pub handler_aborts :
      (e : Event) (c : Context P)
      → ((handler m e c).0 ≡ ([], false))
        × ((handler m e c).1.testcase.run.cur_state ≡ fail_state_label
            → ((handler m e c).1.testcase.aborted ≡ true)
              × ((handler m e c).1.testcase.done ≡ true))
        × ((handler m e c).1.testcase.run.cur_state ≢ fail_state_label
            → ((handler m e c).1.testcase.aborted ≡ c.testcase.aborted)
              × ((handler m e c).1.testcase.done ≡ c.testcase.done))
  unfolding handler abort abort_test
  handler_aborts e c =
      let c' : Context P = step m e c in
      elim (Bool-cases (c'.testcase.run.cur_state == fail_state_label)) [
        | inl failed ↦
            rw (failed, abort_on_failure)
              (
                refl,
                λ q. (refl, refl),
                λ ne. absurd (ne ((eq_iff c'.testcase.run.cur_state fail_state_label).0 failed)),
              )
        | inr other ↦
            rw (other, abort_on_failure)
              (
                refl,
                λ q. absurd (let z = (eq_iff c'.testcase.run.cur_state fail_state_label).1 q in cc),
                λ ne. step_test e c,
              )
      ]
