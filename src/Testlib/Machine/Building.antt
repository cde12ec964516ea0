-- ===== src/Testlib/Machine/Building.antt =====
-- What the builder makes: every state stands under its own label, and every label of an order has a
-- condition and a state.
use tendermint_testing.Base.{
  ◌≡◌, refl, subst, String, Bool, true, false, List, [], ◌∷◌, ◌++◌, some, arith, ◌==◌, string_eq,
  Bool-cases, Option-cases, inl, inr, ◌⊎◌,
}
use text.Mathlib.TextEquality.{eq_iff}
use tendermint_testing.Base.GoMap.{
  GoMap, lookup, insert, contains, lookup-insert, lookup-insert_cases,
}
use tendermint_testing.Types.EventQueue.{has_label}
use tendermint_testing.Testlib.Conditions.{Condition}
use tendermint_testing.Testlib.Machine.{
  State, StateMachine, StateMachineBuilder, empty_state, new_state_machine, new_state,
  with_transition, change_state, on, start_state_label, fail_state_label, success_state_label,
}

-- A state under a label of a machine that has all its targets.
pub record IsWiredState {P : Type 0} (m : StateMachine P) (label : String) (s : State P)
    : Type 0 where
  pub label_eq : s.label ≡ label
  pub has_condition :
      (to : String) → has_label to s.transition_order ≡ true → contains to s.transitions ≡ true
  pub has_target :
      (to : String) → has_label to s.transition_order ≡ true → contains to m.states ≡ true

abbrev pub IsWired : {P : Type 0} → StateMachine P → Type 0
IsWired {P} m =
    (label : String) (s : State P) → lookup label m.states ≡ some s → IsWiredState m label s

has_label-append :
    (l x : String) (ls : List String)
    → has_label l (ls ++ x ∷ []) ≡ true
    → (has_label l ls ≡ true) ⊎ (x ≡ l)
unfolding has_label
has_label-append l x [] h = inr ((eq_iff x l).0 (ground arith))
has_label-append l x (y ∷ ls) h = elim (Bool-cases (y == l)) [
  | inl e ↦ inl (rw e)
  | inr e ↦ rw e (has_label-append l x ls (rw e at h))
]

contains_grow :
    {A : Type 0} (m : GoMap String A) (k : String) (v : A) (j : String)
    → contains j m ≡ true
    → contains j (insert k v m) ≡ true
contains_grow m k v j h = ground (arith, lookup-insert k j v m)

module _ {P : Type 0} where
  grow_targets :
      (m n : StateMachine P) (label : String) (s : State P)
      → ((j : String) → contains j m.states ≡ true → contains j n.states ≡ true)
      → IsWiredState m label s
      → IsWiredState n label s
  grow_targets m n label s more w = record {
    label_eq = w.label_eq;
    has_condition = w.has_condition;
    has_target = λ to h. more to (w.has_target to h);
  }

  -- A write of a wired state under its label keeps the machine wired.
  insert-IsWired :
      (m : StateMachine P) (label : String) (s : State P)
      → IsWired m
      → IsWiredState (record { states = insert label s m.states }) label s
      → IsWired (record { states = insert label s m.states })
  insert-IsWired m label s w h l t found = elim (lookup-insert_cases label l s m.states found) [
    | inl (same, is_s) ↦
        let m' : StateMachine P = record { states = insert label s m.states } in
        subst (λ x. IsWiredState m' x t) same (subst (λ x. IsWiredState m' label x) is_s h)
    | inr (ne, old) ↦
        grow_targets m (record { states = insert label s m.states }) l t
          (λ j. contains_grow m.states label s j) (w l t old)
  ]

  empty-IsWiredState :
      (m : StateMachine P) (label : String) (success : Bool)
      → IsWiredState m label (empty_state P label success)
  unfolding has_label
  empty-IsWiredState m label success = record {
    label_eq = refl;
    has_condition = λ to h. cc;
    has_target = λ to h. cc;
  }

  new_state-IsWired :
      (m : StateMachine P) (label : String)
      → IsWired m
      → IsWired (new_state m label)
        × (contains label (new_state m label).states ≡ true)
        × ((j : String) → contains j m.states ≡ true → contains j (new_state m label).states ≡ true)
  unfolding new_state
  new_state-IsWired m label w = elim (Option-cases (lookup label m.states)) [
    | inl e ↦
        rw (e, new_state)
          (
            insert-IsWired m label (empty_state P label false) w (empty-IsWiredState _ label false),
            ground (
              arith,
              lookup-insert label label (empty_state P label false) m.states,
              eq_iff label label,
            ),
            λ j. contains_grow m.states label (empty_state P label false) j,
          )
    | inr (s, e) ↦ rw (e, new_state) (w, rw e, λ j h. h)
  ]

  with_transition-IsWiredState :
      (m : StateMachine P) (label to : String) (s : State P) (cond : Condition P)
      → contains to m.states ≡ true
      → IsWiredState m label s
      → IsWiredState m label (with_transition s to cond)
  with_transition-IsWiredState m label to s cond there w = record {
    label_eq = w.label_eq;
    has_condition = λ l h. elim (has_label-append l to s.transition_order h) [
      | inl old ↦ contains_grow s.transitions to cond l (w.has_condition l old)
      | inr same ↦
          subst (λ x. contains x (insert to cond s.transitions) ≡ true) same
            (ground (arith, lookup-insert to to cond s.transitions, eq_iff to to))
    ];
    has_target = λ l h. elim (has_label-append l to s.transition_order h) [
      | inl old ↦ w.has_target l old
      | inr same ↦ subst (λ x. contains x m.states ≡ true) same there
    ];
  }

  change_state-IsWired :
      (m : StateMachine P) (label : String) (f : State P → State P)
      → ((s : State P) → IsWiredState m label s → IsWiredState m label (f s))
      → IsWired m
      → IsWired (change_state m label f)
        × ((j : String)
            → contains j m.states ≡ true
            → contains j (change_state m label f).states ≡ true)
  change_state-IsWired m label f keep w = elim (Option-cases (lookup label m.states)) [
    | inl e ↦ rw (e, change_state) (w, λ j h. h)
    | inr (s, e) ↦
        rw (e, change_state)
          (
            insert-IsWired m label (f s) w (
                grow_targets m _ label (f s) (λ j. contains_grow m.states label (f s) j)
                  (keep s (w label s e))),
            λ j. contains_grow m.states label (f s) j,
          )
  ]

  -- On keeps a machine wired, for any state that the builder stands at and any label it goes to, and
  -- the builder then stands at a state of the machine.
  pub on-IsWired :
      (b : StateMachineBuilder P) (cond : Condition P) (label : String)
      → IsWired b.machine
      → IsWired (on b cond label).machine
        × (contains (on b cond label).cur_state (on b cond label).machine.states ≡ true)
  unfolding on
  on-IsWired b cond label w =
      let (wired, there, more) = new_state-IsWired b.machine label w in
      let (wired', more') =
        change_state-IsWired (new_state b.machine label) b.cur_state
          (λ s. with_transition s label cond)
          (λ s.
            with_transition-IsWiredState (new_state b.machine label) b.cur_state label s cond there)
          wired in
      (wired', more' label there)

no_states-IsWired : (P : Type 0) → IsWired {P = P} (record { states = [] })
unfolding lookup
no_states-IsWired P l s h = absurd (cc)

-- The machine that NewStateMachine makes is wired.
pub new_state_machine-IsWired : (P : Type 0) → IsWired (new_state_machine P)
unfolding new_state_machine
new_state_machine-IsWired P =
    insert-IsWired _ success_state_label (empty_state P success_state_label true)
      (insert-IsWired _ fail_state_label (empty_state P fail_state_label false)
        (insert-IsWired (record { states = [] }) start_state_label
          (empty_state P start_state_label false) (no_states-IsWired P)
          (empty-IsWiredState _ start_state_label false))
        (empty-IsWiredState _ fail_state_label false))
      (empty-IsWiredState _ success_state_label true)
