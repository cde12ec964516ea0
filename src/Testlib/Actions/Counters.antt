-- ===== src/Testlib/Actions/Counters.antt =====
-- Counters under their labels (netrix/testlib/lib.go, wrappers.go and actions.go).
use tendermint_testing.Base.{
  ℕ, ◌<◌, ◌≡◌, ◌≢◌, refl, sym, subst, ◌∙◌, ap, String, [], ◌∷◌, ◌++◌, Option, none, some, arith,
  if◌then◌else◌, length, length-append, length-modify, get_elem?, get_elem?-append_left,
  get_elem?-append_length, get_elem?-modify_self, get_elem?-modify_ne, get_elem?_total, modify,
  Bool-cases, Option-cases, inl, inr, ◌==◌, string_eq,
}
use text.Mathlib.TextEquality.{eq_iff}
use tendermint_testing.Base.GoMap.{eq_self, lookup-insert}
use tendermint_testing.Base.Int.{or_zero, ℤ, pos, incr_int}
use tendermint_testing.Types.Event.{Event}
use tendermint_testing.Testlib.Context.{Context}
use tendermint_testing.Testlib.Wrappers.{count}
use tendermint_testing.Testlib.Actions as Actions
use tendermint_testing.Testlib.Vars.{counter, VarSet, get_counter, set_counter, incr}

-- Every counter that a label holds has a cell, and no two labels share one.
pub record IsUnaliased {P : Type 0} (v : VarSet P) : Type 0 where
  pub bound : (l : String) (n : ℕ) → get_counter v l ≡ some n → n < length v.counters
  pub distinct :
      (l k : String) (n : ℕ) → get_counter v l ≡ some n → get_counter v k ≡ some n → l ≡ k

module _ {P : Type 0} where
  abbrev pub cell_value : VarSet P → Option ℕ → ℤ
  cell_value v none = pos 0
  cell_value v (some n) = or_zero (get_elem? v.counters n)

  -- The value of the counter under a label: 0 where there is none.
  abbrev pub counter_value : VarSet P → String → ℤ
  counter_value v l = cell_value v (get_counter v l)

  module _ (v : VarSet P) (label : String) (h : IsUnaliased v) where
    pub get_counter-set_counter :
        (l : String)
        → get_counter (set_counter v label) l
          ≡ (if label == l then some (length v.counters) else get_counter v l)
    unfolding get_counter set_counter
    get_counter-set_counter l = elim (Bool-cases (label == l)) [
      | inl same ↦ rw (same, lookup-insert label l (counter (length v.counters)) v.vars, same)
      | inr other ↦ rw (other, lookup-insert label l (counter (length v.counters)) v.vars, other)
    ]

    counters-set_counter : (set_counter v label).counters ≡ v.counters ++ pos 0 ∷ []
    unfolding set_counter
    counters-set_counter = refl

    -- A label that has no counter gets one of its own, which holds 0.
    pub set_counter-IsUnaliased : IsUnaliased (set_counter v label)
    set_counter-IsUnaliased = record {
      bound = λ l n e. set_bound l n e;
      distinct = λ l k n e f. set_distinct l k n e f;
    }
      where
        set_bound :
            (l : String) (n : ℕ)
            → get_counter (set_counter v label) l ≡ some n
            → n < length (set_counter v label).counters
        set_bound l n e = ground (
          arith,
          get_counter-set_counter l,
          counters-set_counter,
          length-append v.counters (pos 0 ∷ []),
          h.bound l n,
        )

        set_distinct :
            (l k : String) (n : ℕ)
            → get_counter (set_counter v label) l ≡ some n
            → get_counter (set_counter v label) k ≡ some n
            → l ≡ k
        set_distinct l k n e f = ground (
          arith,
          get_counter-set_counter l,
          get_counter-set_counter k,
          h.bound l n,
          h.bound k n,
          h.distinct l k n,
          eq_iff label l,
          eq_iff label k,
        )

    counter_value-set_counter :
        (l : String)
        → counter_value (set_counter v label) l ≡ (if label == l then pos 0 else counter_value v l)
    counter_value-set_counter l = elim (Bool-cases (label == l)) [
      | inl same ↦ rw (
        get_counter-set_counter l,
        same,
        counters-set_counter,
        get_elem?-append_length v.counters [] (pos 0),
      )
      | inr other ↦ elim (Option-cases (get_counter v l)) [
        | inl e ↦ rw (get_counter-set_counter l, other, e)
        | inr (n, e) ↦ rw (
          get_counter-set_counter l,
          other,
          e,
          counters-set_counter,
          get_elem?-append_left v.counters (pos 0 ∷ []) n (h.bound l n e),
        )
      ]
    ]

    -- The counter of one label goes up, and no other label's.
    pub incr-IsUnaliased : (n : ℕ) → IsUnaliased (incr v n)
    unfolding incr get_counter
    incr-IsUnaliased n = record {
      bound = λ l k e. rw (length-modify incr_int v.counters n) (h.bound l k e);
      distinct = h.distinct;
    }

    pub get_counter-incr : (n : ℕ) (l : String) → get_counter (incr v n) l ≡ get_counter v l
    unfolding incr get_counter
    get_counter-incr n l = refl

    counters-incr : (n : ℕ) → (incr v n).counters ≡ modify incr_int v.counters n
    unfolding incr
    counters-incr n = refl

    pub counter_value-incr :
        (n : ℕ)
        → get_counter v label ≡ some n
        → (l : String)
        → counter_value (incr v n) l
          ≡ (if label == l then incr_int (counter_value v label) else counter_value v l)
    counter_value-incr n at_label l =
        let (x, here) = get_elem?_total v.counters n (h.bound label n at_label) in
        elim (Bool-cases (label == l)) [
          | inl same ↦
              let at_l : get_counter v l ≡ some n =
                subst (λ k. get_counter v k ≡ some n) ((eq_iff label l).0 same) at_label in
              rw (
                same,
                get_counter-incr n l,
                at_l,
                counters-incr n,
                at_label,
                here,
                get_elem?-modify_self incr_int v.counters n here,
              )
          | inr other ↦ elim (Option-cases (get_counter v l)) [
            | inl e ↦ rw (get_counter-incr n l, other, e)
            | inr (k, e) ↦
                let apart : n ≢ k = λ q.
                  let together : label ≡ l = h.distinct label l n at_label (e ∙ ap some (sym q)) in
                  absurd (let z = (eq_iff label l).1 together in cc) in
                rw (
                  get_counter-incr n l,
                  other,
                  e,
                  counters-incr n,
                  get_elem?-modify_ne incr_int v.counters n k apart,
                )
          ]
        ]

    -- A new counter under a label that has none changes no value.
    pub same-set_counter :
        get_counter v label ≡ none
        → (l : String) → counter_value (set_counter v label) l ≡ counter_value v l
    same-set_counter q l =
        let zero_before : counter_value v label ≡ pos 0 = rw q in
        counter_value-set_counter l ∙ elim (Bool-cases (label == l)) [
          | inl same ↦
              rw same
                (subst (λ k. pos 0 ≡ counter_value v k) ((eq_iff label l).0 same) (sym zero_before))
          | inr other ↦ rw other
        ]

module _ {P : Type 0} (c : Context P) (label : String) (e : Event) (h : IsUnaliased c.vars) where
  -- The variables in which the counter goes up.
  pub incr-count_found :
      (v : VarSet P) × (n : ℕ) × (Actions.incr (count label) e c
        ≡ ([], record c { vars = incr v n }))
      × (get_counter v label ≡ some n)
      × IsUnaliased v
      × ((l : String) → counter_value v l ≡ counter_value c.vars l)
  unfolding Actions.incr count
  incr-count_found = elim (Option-cases (get_counter c.vars label)) [
    | inr (n, q) ↦ (c.vars, n, rw (q, count), q, h, λ l. refl)
    | inl q ↦
        let q' : get_counter (set_counter c.vars label) label ≡ some (length c.vars.counters) =
          get_counter-set_counter c.vars label h label ∙ rw (eq_self label) refl in
        (
          set_counter c.vars label,
          length c.vars.counters,
          rw (q, count, q'),
          q',
          set_counter-IsUnaliased c.vars label h,
          same-set_counter c.vars label h q,
        )
  ]

  -- Where every label's counter has a cell and no two labels share one, Count(label).Incr()
  -- delivers nothing, adds one to the counter under its label, and changes no other label's; the
  -- labels' counters stay apart. Where the label has no counter, the one that is made starts at 0, not
  -- at the initial value 1 that the comment on SetCounter names.
  pub incr-count :
      ((Actions.incr (count label) e c).0 ≡ [])
      × ((l : String)
          → counter_value (Actions.incr (count label) e c).1.vars l ≡ (
              if label == l then incr_int (counter_value c.vars label) else counter_value c.vars l))
      × IsUnaliased (Actions.incr (count label) e c).1.vars
  incr-count =
      let (v, n, eq, at_label, h', same) = incr-count_found in
      rw eq (
        refl,
        λ l. counter_value-incr v label h' n at_label l ∙ rw (same label, same l) refl,
        incr-IsUnaliased v label h' n,
      )
