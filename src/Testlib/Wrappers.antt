-- ===== src/Testlib/Wrappers.antt =====
-- netrix/testlib/wrappers.go and the comparisons of conds.go: counters and message sets that are
-- looked up by label, and conditions on them.
use tendermint_testing.Base.{ℕ, String, Bool, false, Option, none, some, ◌<>◌, string_eq}
use tendermint_testing.Base.Int.{ℤ, pos, ltb_ℤ, leb_ℤ, int_beq}
use tendermint_testing.Types.Event.{Event}
use tendermint_testing.Types.Messages as Messages
use tendermint_testing.Types.Messages.{Message, MessageStore}
use tendermint_testing.Testlib.Vars.{
  VarSet, get_counter, set_counter, get_message_set, new_message_set, new_counter, set_value, value,
  set_at,
}
use tendermint_testing.Testlib.Context.{Context, get_message}
use tendermint_testing.Testlib.Conditions.{Condition, Lookup, on_message}

-- A CounterFunc or a SetFunc: the address of a cell, where there is one.
abbrev pub CountWrapper : Type 0 → Type 0
CountWrapper P = Event → Context P → Option ℕ × Context P

abbrev pub SetWrapper : Type 0 → Type 0
SetWrapper P = Event → Context P → Option ℕ × Context P

module _ {P : Type 0} where
  -- Count: the label's counter, which is made (over any other value there) if it is missing.
  abbrev found_or_made : Context P → String → Option ℕ → Option ℕ × Context P
  found_or_made c label (some n) = (some n, c)
  found_or_made c label none =
      let vars = set_counter c.vars label in (get_counter vars label, record c { vars = vars })

  unfoldable pub count : String → CountWrapper P
  unfolding set_counter get_counter
  count label e c = found_or_made c label (get_counter c.vars label)

  abbrev looked_up :
      (VarSet P → String → Option ℕ) → Option String × Context P → Option ℕ × Context P
  looked_up find (none, c) = (none, c)
  looked_up find (some label, c) = (find c.vars label, c)

  unfoldable pub count_f : Lookup P String → CountWrapper P
  unfolding get_counter
  count_f label e c = looked_up get_counter (label e c)

  unfoldable pub count_to : String → CountWrapper P
  unfolding count
  count_to label e c = elim (get_message c e) [
    | none ↦ (none, c)
    | some m ↦ count (label <> ("_" <> m.to)) e c
  ]

  abbrev set_found_or_made : Context P → String → Option ℕ → Option ℕ × Context P
  set_found_or_made c label (some s) = (some s, c)
  set_found_or_made c label none =
      let vars = new_message_set c.vars label in
      (get_message_set vars label, record c { vars = vars })

  unfoldable pub message_set : String → SetWrapper P
  unfolding new_message_set get_message_set
  message_set label e c = set_found_or_made c label (get_message_set c.vars label)

  unfoldable pub message_set_f : Lookup P String → SetWrapper P
  unfolding get_message_set
  message_set_f label e c = looked_up get_message_set (label e c)

  -- The address of a wrapper leads to a cell: Go's pointer.
  abbrev pub cell_size : Option (MessageStore P) → ℤ
  cell_size none = pos 0
  cell_size (some s) = pos (Messages.size s)

  -- SetWrapper.Count: a new counter with the size of the set.
  abbrev counted : Option ℕ × Context P → Option ℕ × Context P
  counted (none, c) = (none, c)
  counted (some s, c) =
      let (vars, n) = new_counter c.vars in
      (some n, record c { vars = set_value vars n (cell_size (set_at c.vars s)) })

  unfoldable pub set_count : SetWrapper P → CountWrapper P
  unfolding new_counter set_value set_at Messages.size
  set_count s e c = counted (s e c)

  -- A comparison of a counter with a value; an address always leads to a cell.
  abbrev cell_test : (ℤ → Bool) → Context P → Option ℕ → Bool
  cell_test test c none = false
  cell_test test c (some n) = elim (value c.vars n) [ none ↦ false | some x ↦ test x ]

  abbrev compare_with : (ℤ → Bool) → Option ℕ × Context P → Bool × Context P
  compare_with test (n, c) = (cell_test test c n, c)

  unfoldable pub lt : CountWrapper P → ℤ → Condition P
  unfolding value
  lt w n e c = compare_with (λ x. ltb_ℤ x n) (w e c)

  unfoldable pub gt : CountWrapper P → ℤ → Condition P
  unfolding value
  gt w n e c = compare_with (λ x. ltb_ℤ n x) (w e c)

  unfoldable pub eq : CountWrapper P → ℤ → Condition P
  unfolding value
  eq w n e c = compare_with (λ x. int_beq x n) (w e c)

  unfoldable pub leq : CountWrapper P → ℤ → Condition P
  unfolding value
  leq w n e c = compare_with (λ x. leb_ℤ x n) (w e c)

  unfoldable pub geq : CountWrapper P → ℤ → Condition P
  unfolding value
  geq w n e c = compare_with (λ x. leb_ℤ n x) (w e c)

  -- The F variants: the value is looked up only if there is a counter.
  abbrev compare_cell : (ℤ → ℤ → Bool) → ℕ → Option ℤ × Context P → Bool × Context P
  compare_cell test n (none, c) = (false, c)
  compare_cell test n (some v, c) = (cell_test (λ x. test x v) c (some n), c)

  abbrev compare_found :
      (ℤ → ℤ → Bool) → Lookup P ℤ → Event → Option ℕ × Context P → Bool × Context P
  compare_found test v e (none, c) = (false, c)
  compare_found test v e (some n, c) = compare_cell test n (v e c)

  unfoldable pub lt_f : CountWrapper P → Lookup P ℤ → Condition P
  unfolding value
  lt_f w v e c = compare_found (λ x y. ltb_ℤ x y) v e (w e c)

  unfoldable pub gt_f : CountWrapper P → Lookup P ℤ → Condition P
  unfolding value
  gt_f w v e c = compare_found (λ x y. ltb_ℤ y x) v e (w e c)

  unfoldable pub eq_f : CountWrapper P → Lookup P ℤ → Condition P
  unfolding value
  eq_f w v e c = compare_found (λ x y. int_beq x y) v e (w e c)

  unfoldable pub leq_f : CountWrapper P → Lookup P ℤ → Condition P
  unfolding value
  leq_f w v e c = compare_found (λ x y. leb_ℤ x y) v e (w e c)

  unfoldable pub geq_f : CountWrapper P → Lookup P ℤ → Condition P
  unfolding value
  geq_f w v e c = compare_found (λ x y. leb_ℤ y x) v e (w e c)

  abbrev member : Context P → ℕ → Message P → Bool
  member c s m = elim (set_at c.vars s) [ none ↦ false | some store ↦ Messages.exists store m.id ]

  abbrev contains_at : Event → Option ℕ × Context P → Bool × Context P
  contains_at e (none, c) = (false, c)
  contains_at e (some s, c) = (on_message c e (member c s), c)

  unfoldable pub contains : SetWrapper P → Condition P
  unfolding set_at
  contains s e c = contains_at e (s e c)
