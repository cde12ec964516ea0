-- ===== src/Testlib/Machine/Choice.antt =====
-- Which transition a step takes.
use tendermint_testing.Base.{
  ◌≡◌, refl, sym, ◌∙◌, ap, String, Bool, true, false, List, [], ◌∷◌, ◌++◌, some, Option-cases, inl,
  inr, All, string_eq,
}
use mathlib.Core.List.{append-nil}
use tendermint_testing.Base.GoMap.{lookup, contains, lookup-insert_self}
use tendermint_testing.Types.Event.{Event}
use tendermint_testing.Testlib.Vars.{text, get, set_var}
use tendermint_testing.Testlib.Context.{Context, transition, log}
use tendermint_testing.Testlib.Conditions.{Condition}
use tendermint_testing.Testlib.Machine.{State, StateMachine, try_transitions, move, step}
use tendermint_testing.Testlib.Machine.Building.{IsWired}

module _ {P : Type 0} (m : StateMachine P) (e : Event) (c : Context P) where
  -- A label of a state whose condition does not hold and changes nothing.
  abbrev pub Fails : State P → String → Type 0
  Fails s l = (cond : Condition P) × (lookup l s.transitions ≡ some cond) × (cond e c ≡ (false, c))

  pass :
      (s : State P) (pre rest : List String)
      → All (Fails s) pre
      → try_transitions m s (pre ++ rest) e c ≡ try_transitions m s rest e c
  unfolding try_transitions
  pass s [] rest h = refl
  pass s (l ∷ pre) rest h =
      let (cond, found, fails) = h.0 in
      let answer : (cond e c).0 ≡ false = ap (λ (r : Bool × Context P). r.0) fails in
      let same : (cond e c).1 ≡ c = ap (λ (r : Bool × Context P). r.1) fails in
      rw (try_transitions, found, answer, same) (pass s pre rest h.1)

  none_left : (s : State P) → try_transitions m s [] e c ≡ c
  unfolding try_transitions
  none_left s = refl

  take_it :
      (s : State P) (to : String) (rest : List String) (cond : Condition P)
      → lookup to s.transitions ≡ some cond
      → cond e c ≡ (true, c)
      → try_transitions m s (to ∷ rest) e c ≡ move m s to c
  unfolding try_transitions
  take_it s to rest cond found holds =
      let answer : (cond e c).0 ≡ true = ap (λ (r : Bool × Context P). r.0) holds in
      let same : (cond e c).1 ≡ c = ap (λ (r : Bool × Context P). r.1) holds in
      rw (try_transitions, found, answer, same)

  move_run :
      (s : State P) (to : String)
      → IsWired m
      → contains to m.states ≡ true
      → ((move m s to c).testcase.run ≡ transition c.testcase.run to)
        × (get (move m s to c).vars "curState" ≡ some (text to))
  unfolding log get set_var
  move_run s to wired there = elim (Option-cases (lookup to m.states)) [
    | inl gone ↦ absurd (let z = rw gone at there in cc)
    | inr (next, found) ↦
        rw (found, move, (wired to next found).label_eq)
          (refl, lookup-insert_self "curState" (text to) c.vars.vars)
  ]

  -- In a wired machine, a step takes the first transition of the order whose condition holds: if
  -- the conditions before it fail, and none of these changes the context, the run goes on to its
  -- label, which the variable curState then holds. Where every condition of the order fails the
  -- step changes nothing.
  pub step_first :
      (s : State P) (pre : List String)
      → IsWired m
      → lookup c.testcase.run.cur_state m.states ≡ some s
      → All (Fails s) pre
      → ((to : String) (post : List String) (cond : Condition P)
          → s.transition_order ≡ pre ++ to ∷ post
          → lookup to s.transitions ≡ some cond
          → cond e c ≡ (true, c)
          → contains to m.states ≡ true
          → ((step m e c).testcase.run ≡ transition c.testcase.run to)
            × (get (step m e c).vars "curState" ≡ some (text to)))
        × (s.transition_order ≡ pre → step m e c ≡ c)
  unfolding step
  step_first s pre wired at fails = (
    λ to post cond order found holds there.
        let taken : step m e c ≡ move m s to c =
          rw (at, step)
            (ap (λ o. try_transitions m s o e c) order
              ∙ pass s pre (to ∷ post) fails
              ∙ take_it s to post cond found holds) in
        rw taken (move_run s to wired there),
    λ order.
        rw (at, step)
          (ap (λ o. try_transitions m s o e c) (order ∙ sym (append-nil pre))
            ∙ pass s pre [] fails
            ∙ none_left s),
  )
