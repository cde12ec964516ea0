-- ===== src/RaftTests/Actions/Votes.antt =====
-- How CountVotes counts.
use tendermint_testing.Base.{
  ℕ, ◌≡◌, refl, sym, subst, ◌∙◌, ap, String, true, false, List, [], length, Option, none, some,
  if◌then◌else◌, Option-cases, inl, inr, ◌==◌, string_eq,
}
use tendermint_testing.Base.GoMap.{eq_self, lookup}
use tendermint_testing.Base.Int.{incr_int}
use tendermint_testing.Types.Event.{Event}
use tendermint_testing.Types.Messages.{Message}
use tendermint_testing.Testlib.Vars.{VarSet, exists, get_counter, set_counter, incr}
use tendermint_testing.Testlib.Context.{Context, get_message}
use tendermint_testing.Testlib.Wrappers.{count}
use tendermint_testing.Testlib.Actions as Actions
use tendermint_testing.Testlib.Actions.Counters.{
  IsUnaliased, counter_value, get_counter-set_counter, get_counter-incr, incr-count,
  incr-count_found,
}
use tendermint_testing.RaftTests.Messages.{
  RaftMessage, msg_vote_resp, message_type_eq, get_message_from_event,
}
use tendermint_testing.RaftTests.Conditions.{Texts, votes_key}
use tendermint_testing.RaftTests.Actions.{count_votes, count_under, with_vars}

-- Only a counter stands under the label.
abbrev pub HoldsCounter : VarSet RaftMessage → String → Type 0
HoldsCounter v key = get_counter v key ≡ none → exists v key ≡ false

exists_of_counter :
    (v : VarSet RaftMessage) (key : String) {n : ℕ}
    → get_counter v key ≡ some n
    → exists v key ≡ true
unfolding exists get_counter
exists_of_counter v key h = elim (Option-cases (lookup key v.vars)) [
  | inl q ↦ absurd (let gone = rw q at h in cc)
  | inr (x, q) ↦ rw q refl
]

count_under_found :
    (v : VarSet RaftMessage) (key : String) {n : ℕ}
    → get_counter v key ≡ some n
    → count_under v key ≡ some (incr v n)
count_under_found v key h = rw (exists_of_counter v key h, h) refl

count_under_made :
    (v : VarSet RaftMessage) (key : String) {n : ℕ}
    → exists v key ≡ false
    → get_counter (set_counter v key) key ≡ some n
    → count_under v key ≡ some (incr (set_counter v key) n)
count_under_made v key new h = rw (new, h) refl

module _ (c : Context RaftMessage) (key : String) (e : Event) (only : HoldsCounter c.vars key) where
  abbrev vars_of : List (Message RaftMessage) × Context RaftMessage → Option (VarSet RaftMessage)
  vars_of r = some r.1.vars

  counted_found :
      {n : ℕ}
      → get_counter c.vars key ≡ some n
      → Actions.incr (count key) e c ≡ ([], with_vars c (incr c.vars n))
  unfolding Actions.incr count
  counted_found q = rw (q, count) refl

  counted_made :
      {n : ℕ}
      → get_counter c.vars key ≡ none
      → get_counter (set_counter c.vars key) key ≡ some n
      → Actions.incr (count key) e c ≡ ([], with_vars c (incr (set_counter c.vars key) n))
  unfolding Actions.incr count
  counted_made q q' = rw (q, count, q') refl

  -- The variables that Count(key).Incr() leaves.
  abbrev pub counted : VarSet RaftMessage
  counted = (Actions.incr (count key) e c).1.vars

  -- Counting under a key is Count(key).Incr().
  count_under-incr : IsUnaliased c.vars → count_under c.vars key ≡ some counted
  count_under-incr h = elim (Option-cases (get_counter c.vars key)) [
    | inl q ↦
        let made : get_counter (set_counter c.vars key) key ≡ some (length c.vars.counters) =
          get_counter-set_counter c.vars key h key ∙ rw (eq_self key) refl in
        count_under_made c.vars key (only q) made ∙ sym (ap vars_of (counted_made q made))
    | inr (n, q) ↦ count_under_found c.vars key q ∙ sym (ap vars_of (counted_found q))
  ]

  -- After it, the key holds a counter, whichever way it went.
  holds_after : IsUnaliased c.vars → HoldsCounter counted key
  holds_after h q =
      let (v, n, eq, at, h', same) = incr-count_found c key e h in
      let after : counted ≡ incr v n =
        ap (λ (r : List (Message RaftMessage) × Context RaftMessage). r.1.vars) eq in
      absurd (
        let found : get_counter (incr v n) key ≡ none =
          subst (λ (x : VarSet RaftMessage). get_counter x key ≡ none) after q in
        let there : get_counter (incr v n) key ≡ some n = get_counter-incr v key h' n key ∙ at in
        cc)

-- An accepting answer to a request for a vote.
abbrev pub IsAccepted : RaftMessage → Type 0
IsAccepted m = (m.type ≡ msg_vote_resp) × (m.reject ≡ false)

module _ (t : Texts) where
  abbrev pub key_of : RaftMessage → String
  key_of m = votes_key t (t.decimal m.term) (t.decimal m.to)

  module _ (c : Context RaftMessage) (e : Event) (m : RaftMessage) where
    count_votes_accepted :
        {v : VarSet RaftMessage}
        → get_message_from_event e c ≡ some m
        → IsAccepted m
        → count_under c.vars (key_of m) ≡ some v
        → count_votes t e c ≡ some (([], false), with_vars c v)
    unfolding count_votes
    count_votes_accepted found (vote, accepts) ran =
        let is_vote : (m.type == msg_vote_resp) ≡ true =
          (message_type_eq.same_iff m.type msg_vote_resp).1 vote in
        rw (found, count_votes, is_vote, accepts, ran) refl

    -- CountVotes at an event of an accepting vote.
    counts :
        (f : Event)
        → get_message_from_event e c ≡ some m
        → IsAccepted m
        → IsUnaliased c.vars
        → HoldsCounter c.vars (key_of m)
        → (c' : Context RaftMessage) × (count_votes t e c ≡ some (([], false), c'))
          × (get_message_from_event f c' ≡ get_message_from_event f c)
          × ((l : String)
              → counter_value c'.vars l ≡ (
                  if key_of m == l
                  then incr_int (counter_value c.vars (key_of m))
                  else counter_value c.vars l))
          × IsUnaliased c'.vars
          × HoldsCounter c'.vars (key_of m)
    unfolding get_message_from_event get_message
    counts f found accepted h only =
        let (quiet, values, apart) = incr-count c (key_of m) e h in
        (
          with_vars c (counted c (key_of m) e only),
          count_votes_accepted found accepted (count_under-incr c (key_of m) e only h),
          refl,
          values,
          apart,
          holds_after c (key_of m) e only h,
        )

  -- CountVotes at two events of one accepting vote, which its sending and its receipt are, counts
  -- the vote twice. Let the variables share no counters, and let nothing but a counter stand under
  -- the label of the vote's term and receiver. Then the filter does not panic and lets both events
  -- pass, the counter under that label has gone up by two (in the arithmetic of int), and every other
  -- counter is as it was.
  pub count_votes_twice :
      (c : Context RaftMessage)
      → (sent received : Event) → (m : RaftMessage) → get_message_from_event sent c ≡ some m
      → get_message_from_event received c ≡ some m
      → IsAccepted m
      → IsUnaliased c.vars
      → HoldsCounter c.vars (key_of m)
      → (c1 : Context RaftMessage) × (c2 : Context RaftMessage) × (count_votes t sent c
          ≡ some (([], false), c1))
        × (count_votes t received c1 ≡ some (([], false), c2))
        × (counter_value c2.vars (key_of m) ≡ incr_int (incr_int (counter_value c.vars (key_of m))))
        × ((l : String)
            → (key_of m == l) ≡ false
            → counter_value c2.vars l ≡ counter_value c.vars l)
  count_votes_twice c sent received m at_send at_receive accepted h only =
      let (c1, first, pool, values, apart, only') =
        counts c sent m received at_send accepted h only in
      let (c2, second, pool', values', apart', only'') =
        counts c1 received m received (pool ∙ at_receive) accepted apart only' in
      let yes : (key_of m == key_of m) ≡ true = eq_self (key_of m) in
      let once : counter_value c1.vars (key_of m) ≡ incr_int (counter_value c.vars (key_of m)) =
        values (key_of m) ∙ rw yes refl in
      (
        c1,
        c2,
        first,
        second,
        values' (key_of m) ∙ rw yes (ap incr_int once),
        λ l other. values' l ∙ rw other (values l ∙ rw other refl),
      )
