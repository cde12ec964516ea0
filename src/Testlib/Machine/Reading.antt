-- ===== src/Testlib/Machine/Reading.antt =====
-- The builder keeps a machine to conditions that leave the test case alone.
use tendermint_testing.Base.{
  ◌≡◌, subst, String, Bool, false, true, [], some, Option-cases, inl, inr, string_eq,
}
use tendermint_testing.Base.GoMap.{lookup, insert, lookup-insert_cases}
use tendermint_testing.Testlib.Conditions.{Condition}
use tendermint_testing.Testlib.Machine.{
  State, StateMachine, StateMachineBuilder, empty_state, new_state_machine, new_state,
  with_transition, change_state, on, start_state_label, fail_state_label, success_state_label,
}
use tendermint_testing.Testlib.Machine.Running.{KeepsTest, ReadsOnly}

module _ {P : Type 0} where
  abbrev StateReads : State P → Type 0
  StateReads s =
      (to : String) (cond : Condition P) → lookup to s.transitions ≡ some cond → KeepsTest cond

  insert-ReadsOnly :
      (m : StateMachine P) (label : String) (s : State P)
      → ReadsOnly m
      → StateReads s
      → ReadsOnly (record { states = insert label s m.states })
  insert-ReadsOnly m label s h hs l t found = elim (lookup-insert_cases label l s m.states found) [
    | inl (same, is_s) ↦ subst StateReads is_s hs
    | inr (ne, old) ↦ h l t old
  ]

  empty-StateReads : (label : String) (success : Bool) → StateReads (empty_state P label success)
  unfolding lookup
  empty-StateReads label success to cond h = absurd (cc)

  new_state-ReadsOnly :
      (m : StateMachine P) (label : String) → ReadsOnly m → ReadsOnly (new_state m label)
  unfolding new_state
  new_state-ReadsOnly m label h = elim (Option-cases (lookup label m.states)) [
    | inl e ↦
        rw (e, new_state)
          (insert-ReadsOnly m label (empty_state P label false) h (empty-StateReads label false))
    | inr (s, e) ↦ rw (e, new_state) h
  ]

  with_transition-StateReads :
      (s : State P) (to : String) (cond : Condition P)
      → KeepsTest cond
      → StateReads s
      → StateReads (with_transition s to cond)
  with_transition-StateReads s to cond keeps h l k found =
      elim (lookup-insert_cases to l cond s.transitions found) [
        | inl (same, is_k) ↦ subst KeepsTest is_k keeps
        | inr (ne, old) ↦ h l k old
      ]

  pub on-ReadsOnly :
      (b : StateMachineBuilder P) (cond : Condition P) (label : String)
      → KeepsTest cond
      → ReadsOnly b.machine
      → ReadsOnly (on b cond label).machine
  unfolding on
  on-ReadsOnly b cond label keeps h =
      let m : StateMachine P = new_state b.machine label in
      let h' : ReadsOnly m = new_state-ReadsOnly b.machine label h in
      elim (Option-cases (lookup b.cur_state m.states)) [
        | inl e ↦ rw (e, change_state) h'
        | inr (s, e) ↦
            rw (e, change_state)
              (insert-ReadsOnly m b.cur_state (with_transition s label cond) h'
                (with_transition-StateReads s label cond keeps (h' b.cur_state s e)))
      ]

no_states-ReadsOnly : (P : Type 0) → ReadsOnly {P = P} (record { states = [] })
unfolding lookup
no_states-ReadsOnly P l s h = absurd (cc)

pub new_state_machine-ReadsOnly : (P : Type 0) → ReadsOnly (new_state_machine P)
unfolding new_state_machine
new_state_machine-ReadsOnly P =
    insert-ReadsOnly _ success_state_label (empty_state P success_state_label true)
      (insert-ReadsOnly _ fail_state_label (empty_state P fail_state_label false)
        (insert-ReadsOnly (record { states = [] }) start_state_label
          (empty_state P start_state_label false) (no_states-ReadsOnly P)
          (empty-StateReads start_state_label false))
        (empty-StateReads fail_state_label false))
      (empty-StateReads success_state_label true)
