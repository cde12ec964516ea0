-- ===== src/Tendermint/Rounds/Variables.antt =====
-- What MarkRound does to the variables one by one.
use tendermint_testing.Base.{
  ℕ, ◌≡◌, ◌≢◌, refl, sym, ◌∙◌, ap, String, true, none, some, length, if◌then◌else◌, is_some, ◌==◌,
  string_eq, Bool-cases, Option-cases, inl, inr,
}
use tendermint_testing.Base.GoMap.{
  lookup, lookup-insert, lookup-insert_ne, lookup-insert_self, eq_self, eq_ne,
}
use tendermint_testing.Base.Int.{or_zero, incr_int}
use tendermint_testing.Testlib.Vars.{
  VarSet, Value, bool, set_var, get_counter, as_counter, set_counter, incr, value,
}
use tendermint_testing.Testlib.Actions.Counters.{
  IsUnaliased, counter_value, set_counter-IsUnaliased, same-set_counter, get_counter-set_counter,
  incr-IsUnaliased, counter_value-incr, get_counter-incr,
}
use tendermint_testing.Tendermint.Rounds.{with_counter}

module _ {P : Type 0} where
  -- The counter under a key, made if it is missing: no value changes.
  with_counter_lem :
      (v : VarSet P) (key : String)
      → IsUnaliased v
      → (a : ℕ) × (get_counter (with_counter v key) key ≡ some a)
        × IsUnaliased (with_counter v key)
        × ((l : String) → counter_value (with_counter v key) l ≡ counter_value v l)
  with_counter_lem v key h = elim (Option-cases (get_counter v key)) [
    | inr (a, q) ↦ rw q (a, q, h, λ l. refl)
    | inl q ↦
        let made : get_counter (set_counter v key) key ≡ some (length v.counters) =
          get_counter-set_counter v key h key ∙ rw (eq_self key) refl in
        rw q (length v.counters, made, set_counter-IsUnaliased v key h, same-set_counter v key h q)
  ]

  -- Other labels keep what they hold.
  with_counter_other :
      (v : VarSet P) (key l : String)
      → key ≢ l
      → lookup l (with_counter v key).vars ≡ lookup l v.vars
  unfolding set_counter
  with_counter_other v key l apart = elim (Bool-cases (is_some (get_counter v key))) [
    | inl q ↦ rw q refl
    | inr q ↦ rw q (lookup-insert_ne key l _ v.vars apart)
  ]

  -- A value that is no counter.
  module _ (v : VarSet P) (key : String) (w : Value P) (plain : as_counter (some w) ≡ none) where
    get_counter-set_var :
        (l : String)
        → get_counter (set_var v key w) l ≡ (if key == l then none else get_counter v l)
    unfolding get_counter set_var
    get_counter-set_var l = elim (Bool-cases (key == l)) [
      | inl same ↦ rw (lookup-insert key l w v.vars, same) plain
      | inr other ↦ rw (lookup-insert key l w v.vars, other) refl
    ]

    counters-set_var : (set_var v key w).counters ≡ v.counters
    unfolding set_var
    counters-set_var = refl

    pub set_var-IsUnaliased : IsUnaliased v → IsUnaliased (set_var v key w)
    set_var-IsUnaliased h = record {
      bound = λ l n e. rw counters-set_var (h.bound l n (kept l n e));
      distinct = λ l k n e f. h.distinct l k n (kept l n e) (kept k n f);
    }
      where
        kept :
            (l : String) (n : ℕ)
            → get_counter (set_var v key w) l ≡ some n
            → get_counter v l ≡ some n
        kept l n e = elim (Bool-cases (key == l)) [
          | inl same ↦
              absurd (let gone : none ≡ some n = rw (get_counter-set_var l, same) at e in cc)
          | inr other ↦ rw (get_counter-set_var l, other) at e
        ]

    pub counter_value-set_var :
        (l : String) → key ≢ l → counter_value (set_var v key w) l ≡ counter_value v l
    counter_value-set_var l apart =
        rw (get_counter-set_var l, eq_ne key l apart, counters-set_var) refl

  pub lookup-set_var :
      (v : VarSet P) (key l : String) (w : Value P)
      → key ≢ l
      → lookup l (set_var v key w).vars ≡ lookup l v.vars
  unfolding set_var
  lookup-set_var v key l w apart = lookup-insert_ne key l w v.vars apart

  pub lookup-set_var_self :
      (v : VarSet P) (key : String) (w : Value P) → lookup key (set_var v key w).vars ≡ some w
  unfolding set_var
  lookup-set_var_self v key w = lookup-insert_self key w v.vars

  lookup-incr : (v : VarSet P) (a : ℕ) (l : String) → lookup l (incr v a).vars ≡ lookup l v.vars
  unfolding incr
  lookup-incr v a l = refl

  value-counter_value :
      (v : VarSet P) (key : String) {a : ℕ}
      → get_counter v key ≡ some a
      → or_zero (value v a) ≡ counter_value v key
  unfolding value
  value-counter_value v key h = rw h refl

  -- The variables once a report is counted: a flag under one label, and the counter of another gone
  -- up by one.
  pub record IsCounted (v v' : VarSet P) (key flag : String) : Type 0 where
    pub unaliased : IsUnaliased v'
    pub here : counter_value v' key ≡ incr_int (counter_value v key)
    pub there : (l : String) → key ≢ l → flag ≢ l → counter_value v' l ≡ counter_value v l
    pub others : (l : String) → key ≢ l → flag ≢ l → lookup l v'.vars ≡ lookup l v.vars
    pub flagged : lookup flag v'.vars ≡ some (bool true)

  module _ (v : VarSet P) (key flag : String) (apart : key ≢ flag) (h : IsUnaliased v) where
    abbrev v1 : VarSet P
    v1 = set_var v flag (bool true)

    pub counted_lem :
        (a : ℕ) × (get_counter (with_counter v1 key) key ≡ some a)
        × (or_zero (value (incr (with_counter v1 key) a) a) ≡ incr_int (counter_value v key))
        × IsCounted v (incr (with_counter v1 key) a) key flag
    counted_lem =
        let h1 : IsUnaliased v1 = set_var-IsUnaliased v flag (bool true) refl h in
        let (a, at, h2, same) = with_counter_lem v1 key h1 in
        let up = counter_value-incr (with_counter v1 key) key h2 a at in
        let before : (l : String)
            → flag ≢ l
            → counter_value (with_counter v1 key) l ≡ counter_value v l =
          λ l q. same l ∙ counter_value-set_var v flag (bool true) refl l q in
        let one : counter_value (incr (with_counter v1 key) a) key
            ≡ incr_int (counter_value v key) =
          up key ∙ rw (eq_self key) (ap incr_int (before key (λ q. apart (sym q)))) in
        (
          a,
          at,
          value-counter_value (incr (with_counter v1 key) a) key
                (get_counter-incr (with_counter v1 key) key h2 a key ∙ at)
              ∙ one,
          record {
            unaliased = incr-IsUnaliased (with_counter v1 key) key h2 a;
            here = one;
            there = λ l p q. up l ∙ rw (eq_ne key l p) (before l q);
            others = λ l p q.
                lookup-incr (with_counter v1 key) a l
                ∙ with_counter_other v1 key l p
                ∙ lookup-set_var v flag l (bool true) q;
            flagged =
                lookup-incr (with_counter v1 key) a flag
                ∙ with_counter_other v1 key flag apart
                ∙ lookup-set_var_self v flag (bool true);
          },
        )
