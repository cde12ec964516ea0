-- ===== src/Testlib/Actions/Once.antt =====
-- OnceCondition (netrix/testlib/conds.go) and OnceAction (netrix/testlib/actions.go) over a run of events.
use tendermint_testing.Base.{
  ℕ, suc, ◌≤◌, ◌<◌, ◌≡◌, refl, true, false, List, [], ◌∷◌, ◌++◌, arith, if◌then◌else◌, length,
  get_elem?-set_self, set, Bool-cases, inl, inr,
}
use mathlib.Core.List.{append-nil}
use tendermint_testing.Types.Event.{Event}
use tendermint_testing.Types.Messages.{Message}
use tendermint_testing.Testlib.Context.{Context}
use tendermint_testing.Testlib.Conditions.{Condition, once_condition, is_done}
use tendermint_testing.Testlib.Actions.{Action, once_action}

module _ {P : Type 0} where
  -- How often a condition holds over a run of events.
  abbrev pub hits : Condition P → List Event → Context P → ℕ
  hits cond [] c = 0
  hits cond (e ∷ es) c =
      let rest = hits cond es (cond e c).1 in if (cond e c).0 then suc rest else rest

  -- A condition that leaves every flag alone.
  abbrev pub KeepsFlags : Condition P → Type 0
  KeepsFlags cond = (e : Event) (c : Context P) → (cond e c).1.once_done ≡ c.once_done

  flag_set :
      (c : Context P) (i : ℕ)
      → i < length c.once_done
      → is_done (record c { once_done = set c.once_done i true }) i ≡ true
  flag_set c i h = rw (is_done, get_elem?-set_self c.once_done i true h)

  module _ (i : ℕ) (cond : Condition P) where
    done-hits :
        (es : List Event) (c : Context P)
        → is_done c i ≡ true
        → hits (once_condition i cond) es c ≡ 0
    unfolding once_condition
    done-hits [] c h = refl
    done-hits (e ∷ es) c h = rw (h, once_condition) (done-hits es c h)

    -- Over any run of events a OnceCondition holds at most once, whatever its inner condition, if
    -- that changes no flag and the flag of the OnceCondition has its place.
    pub once_condition-hits :
        KeepsFlags cond
        → (es : List Event) (c : Context P) → i < length c.once_done
        → hits (once_condition i cond) es c ≤ 1
    unfolding once_condition
    once_condition-hits keeps [] c h = omega arith
    once_condition-hits keeps (e ∷ es) c h = elim (Bool-cases (is_done c i)) [
      | inl done ↦ rw (done, once_condition) (omega (arith, done-hits es c done))
      | inr fresh ↦
          let c' : Context P = (cond e c).1 in
          let h' : i < length c'.once_done = rw (keeps e c) h in
          elim (Bool-cases (cond e c).0) [
            | inl holds ↦
                rw (fresh, once_condition, holds)
                  (omega (
                    arith,
                    done-hits es (record c' { once_done = set c'.once_done i true })
                        (flag_set c' i h'),
                  ))
            | inr fails ↦ rw (fresh, once_condition, fails) (once_condition-hits keeps es c' h')
          ]
    ]

  -- The messages that an action returns over a run of events.
  abbrev pub outputs : Action P → List Event → Context P → List (Message P)
  outputs action [] c = []
  outputs action (e ∷ es) c = (action e c).0 ++ outputs action es (action e c).1

  module _ (i : ℕ) (action : Action P) where
    done-outputs :
        (es : List Event) (c : Context P)
        → is_done c i ≡ true
        → outputs (once_action i action) es c ≡ []
    unfolding once_action
    done-outputs [] c h = refl
    done-outputs (e ∷ es) c h = rw (h, once_action) (done-outputs es c h)

    -- Over a run of events a OnceAction whose flag is not set takes its action at the first and at
    -- no other, if the action changes no flag: what it returns there, with the flag set, is all
    -- that the run delivers.
    pub once_action-outputs :
        ((e : Event) (c : Context P) → (action e c).1.once_done ≡ c.once_done)
        → (e : Event) (es : List Event) (c : Context P) → i < length c.once_done
        → is_done c i ≡ false
        → outputs (once_action i action) (e ∷ es) c
          ≡ (action e (record c { once_done = set c.once_done i true })).0
    unfolding once_action
    once_action-outputs keeps e es c h fresh =
        let c0 : Context P = record c { once_done = set c.once_done i true } in
        let c1 : Context P = (action e c0).1 in
        let done : is_done c1 i ≡ true = rw (is_done, keeps e c0) (flag_set c i h) in
        rw (fresh, once_action, done-outputs es c1 done) (append-nil (action e c0).0)
