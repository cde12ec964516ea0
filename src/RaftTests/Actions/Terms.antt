-- ===== src/RaftTests/Actions/Terms.antt =====
-- What CountTerm keeps (raft/tests/util/actions.go).
use tendermint_testing.Base.{
  ℕ, ◌≤◌, ◌≡◌, ◌⊎◌, inl, inr, refl, sym, subst, ◌∙◌, String, List, [], ◌∷◌, true, false, none, some,
  arith, ltb, if◌then◌else◌, Bool-cases, Option-cases, string_eq,
}
use tendermint_testing.Base.GoMap.{lookup, lookup-insert_self}
use tendermint_testing.Base.Int.{ℤ, pos, max_int, of_word}
use tendermint_testing.Types.Event.{Event}
use tendermint_testing.Testlib.Vars.{VarSet, int, exists, get_int, set_var}
use tendermint_testing.Testlib.Context.{Context, get_message}
use tendermint_testing.RaftTests.Messages.{RaftMessage, get_message_from_event}
use tendermint_testing.RaftTests.Conditions.{Texts}
use tendermint_testing.RaftTests.Actions.{
  count_term, highest_term_key, with_vars, raise_term, with_term,
}

-- The variables keep the term n as the highest, or nothing yet, which stands for 0.
abbrev pub KeepsTerm : Texts → VarSet RaftMessage → ℕ → Type 0
KeepsTerm t v n =
    (get_int v (highest_term_key t) ≡ some (pos n))
    ⊎ ((exists v (highest_term_key t) ≡ false) × (get_int v (highest_term_key t) ≡ none) × (n ≡ 0))

module _ (t : Texts) where
  abbrev key : String
  key = highest_term_key t

  exists_of_int : (v : VarSet RaftMessage) {x : ℤ} → get_int v key ≡ some x → exists v key ≡ true
  unfolding exists get_int
  exists_of_int v h = elim (Option-cases (lookup key v.vars)) [
    | inl q ↦ absurd (let gone = rw q at h in cc)
    | inr (x, q) ↦ rw q refl
  ]

  get_int-set_var : (v : VarSet RaftMessage) (x : ℤ) → get_int (set_var v key (int x)) key ≡ some x
  unfolding get_int set_var
  get_int-set_var v x = rw (lookup-insert_self key (int x) v.vars) refl

  with_term_kept :
      (v : VarSet RaftMessage) (n : ℕ)
      → KeepsTerm t v n
      → get_int (with_term t v) key ≡ some (pos n)
  with_term_kept v n (inl kept) = rw (exists_of_int v kept) kept
  with_term_kept v n (inr (new, unset, start)) = rw (new, start) (get_int-set_var v (pos 0))

  -- The larger of the term kept and the term seen is kept.
  abbrev pub larger : ℕ → ℕ → ℕ
  larger n m = if ltb n m then m else n

  raise_term_kept :
      (v : VarSet RaftMessage) (n m : ℕ)
      → m ≤ max_int
      → get_int v key ≡ some (pos n)
      → get_int (raise_term t v m) key ≡ some (pos (larger n m))
  raise_term_kept v n m small kept = elim (Bool-cases (ltb n m)) [
    | inl up ↦
        let same : of_word m ≡ pos m = ground arith in
        rw (kept, up, same) (get_int-set_var v (pos m))
    | inr down ↦ rw (kept, down) kept
  ]

  -- CountTerm over a run of events.
  abbrev pub count_terms : List Event → Context RaftMessage → Context RaftMessage
  count_terms [] c = c
  count_terms (e ∷ es) c = count_terms es (count_term t e c).1

  count_term_kept :
      (e : Event) (c : Context RaftMessage) (n : ℕ) {m : RaftMessage}
      → get_message_from_event e c ≡ some m
      → m.term ≤ max_int
      → KeepsTerm t c.vars n
      → KeepsTerm t (count_term t e c).1.vars (larger n m.term)
  unfolding count_term get_int exists
  count_term_kept e c n {m} found small kept =
      rw (found, count_term)
        (inl (raise_term_kept (with_term t c.vars) n m.term small (with_term_kept c.vars n kept)))

  count_term_silent :
      (e : Event) (c : Context RaftMessage)
      → get_message_from_event e c ≡ none
      → (count_term t e c).1 ≡ c
  unfolding count_term
  count_term_silent e c none_there = rw (none_there, count_term) refl

  count_term-with_vars :
      (e : Event) (c : Context RaftMessage)
      → (v : VarSet RaftMessage) × ((count_term t e c).1 ≡ with_vars c v)
  unfolding count_term get_int
  count_term-with_vars e c = elim (Option-cases (get_message_from_event e c)) [
    | inl q ↦ (c.vars, count_term_silent e c q)
    | inr (m, q) ↦ (raise_term t (with_term t c.vars) m.term, rw (q, count_term) refl)
  ]

  -- What it changes are the variables: an event still has the same message.
  count_term_lem :
      (e : Event) (c : Context RaftMessage) (f : Event)
      → get_message_from_event f (count_term t e c).1 ≡ get_message_from_event f c
  unfolding get_message_from_event get_message
  count_term_lem e c f = let (v, same) = count_term-with_vars e c in rw same refl

  -- Every message seen in the events has a property.
  abbrev pub AllSeen : (RaftMessage → Type 0) → List Event → Context RaftMessage → Type 0
  AllSeen P [] c = Unit
  AllSeen P (e ∷ es) c =
      ((m : RaftMessage) → get_message_from_event e c ≡ some m → P m) × AllSeen P es c

  -- Some message seen in the events has it.
  abbrev pub SomeSeen : (RaftMessage → Type 0) → List Event → Context RaftMessage → Type 0
  SomeSeen P [] c = ⊥
  SomeSeen P (e ∷ es) c =
      ((m : RaftMessage) × (get_message_from_event e c ≡ some m) × P m) ⊎ SomeSeen P es c

  AllSeen-same :
      (P : RaftMessage → Type 0) (es : List Event) (c d : Context RaftMessage)
      → ((f : Event) → get_message_from_event f d ≡ get_message_from_event f c)
      → AllSeen P es c
      → AllSeen P es d
  AllSeen-same P [] c d same all = all
  AllSeen-same P (e ∷ es) c d same (here, there) =
      (λ m found. here m (sym (same e) ∙ found), AllSeen-same P es c d same there)

  SomeSeen-same :
      (P : RaftMessage → Type 0) (es : List Event) (c d : Context RaftMessage)
      → ((f : Event) → get_message_from_event f d ≡ get_message_from_event f c)
      → SomeSeen P es c
      → SomeSeen P es d
  SomeSeen-same P [] c d same seen = elim seen [ ]
  SomeSeen-same P (e ∷ es) c d same (inl (m, found, p)) = inl (m, same e ∙ found, p)
  SomeSeen-same P (e ∷ es) c d same (inr there) = inr (SomeSeen-same P es c d same there)

  -- h is the maximum of n and the terms seen.
  abbrev pub IsHighest : ℕ → List Event → Context RaftMessage → ℕ → Type 0
  IsHighest n es c h =
      (n ≤ h) × AllSeen (λ m. m.term ≤ h) es c × ((h ≡ n) ⊎ SomeSeen (λ m. m.term ≡ h) es c)

  IsHighest-same :
      (n : ℕ) (es : List Event) (c d : Context RaftMessage) (h : ℕ)
      → ((f : Event) → get_message_from_event f d ≡ get_message_from_event f c)
      → IsHighest n es d h
      → IsHighest n es c h
  IsHighest-same n es c d h same (up, all, from) =
      let back : (f : Event) → get_message_from_event f c ≡ get_message_from_event f d =
        λ f. sym (same f) in
      (
        up,
        AllSeen-same (λ m. m.term ≤ h) es d c back all,
        elim from [
          | inl start ↦ inl start
          | inr seen ↦ inr (SomeSeen-same (λ m. m.term ≡ h) es d c back seen)
        ],
      )

  IsHighest-silent :
      (e : Event) (es : List Event) (c : Context RaftMessage) (n h : ℕ)
      → get_message_from_event e c ≡ none
      → IsHighest n es c h
      → IsHighest n (e ∷ es) c h
  IsHighest-silent e es c n h silent (up, all, from) = (
    up,
    (λ m found. absurd (cc), all),
    elim from [ inl start ↦ inl start | inr seen ↦ inr (inr seen) ],
  )

  IsHighest-seen :
      (e : Event) (es : List Event) (c : Context RaftMessage) (n h : ℕ) {m : RaftMessage}
      → get_message_from_event e c ≡ some m
      → IsHighest (larger n m.term) es c h
      → IsHighest n (e ∷ es) c h
  IsHighest-seen e es c n h {m} seen (up, all, from) = (
    ground arith,
    (λ k found. let same : k ≡ m = cc in rw same (ground arith), all),
    elim from [
      | inl start ↦ elim (Bool-cases (ltb n m.term)) [
        | inl above ↦ inr (inl (m, seen, ground arith))
        | inr below ↦ inl (ground arith)
      ]
      | inr later ↦ inr (inr later)
    ],
  )

  -- CountTerm over a run of events keeps the highest term. Let every message of the events have a
  -- term that an int holds, and let the variables keep n as the highest term, or nothing and n be
  -- 0. Then after the run they keep a term h in the same way, and h is the maximum: no smaller than
  -- n or any term of a message of the events, and one of these.
  pub count_terms-IsHighest :
      (es : List Event) (c : Context RaftMessage) (n : ℕ)
      → AllSeen (λ m. m.term ≤ max_int) es c
      → KeepsTerm t c.vars n
      → (h : ℕ) × KeepsTerm t (count_terms es c).vars h × IsHighest n es c h
  count_terms-IsHighest [] c n all kept = (n, kept, (ground arith, tt, inl refl))
  count_terms-IsHighest (e ∷ es) c n (small, all) kept =
      let d = (count_term t e c).1 in
      let same : (f : Event) → get_message_from_event f d ≡ get_message_from_event f c =
        count_term_lem e c in
      let rest : AllSeen (λ m. m.term ≤ max_int) es d =
        AllSeen-same (λ m. m.term ≤ max_int) es c d same all in
      elim (Option-cases (get_message_from_event e c)) [
        | inl q ↦
            let (h, keeps, high) = count_terms-IsHighest es d n rest (
              subst (λ (x : Context RaftMessage). KeepsTerm t x.vars n)
                (sym (count_term_silent e c q)) kept) in
            (h, keeps, IsHighest-silent e es c n h q (IsHighest-same n es c d h same high))
        | inr (m, q) ↦
            let (h, keeps, high) =
              count_terms-IsHighest es d (larger n m.term) rest
                (count_term_kept e c n q (small m q) kept) in
            (
              h,
              keeps,
              IsHighest-seen e es c n h q (IsHighest-same (larger n m.term) es c d h same high),
            )
      ]
