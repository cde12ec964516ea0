-- ===== src/RaftTests/Actions.antt =====
-- raft/tests/util/actions.go and appends/drop_append.go: the actions and filters of the Raft test
-- cases. SetKeyValueAction only sends a request over HTTP and is left out.
pub mod Votes
pub mod Terms
use tendermint_testing.Base.{
  ℕ, ◌+◌, ◌-◌, ◌%◌, String, Bool, true, false, not, ◌&&◌, ◌||◌, List, [], Option, none, some, ◌==◌,
  ◌<>◌, ltb, if◌then◌else◌, string_eq,
}
use tendermint_testing.Base.GoMap.{GoMap, lookup}
use tendermint_testing.Base.Fallible.{◌>>=◌}
use tendermint_testing.Base.Int.{or_zero, ℤ, pos, negsuc, leb_ℤ, int_eq, of_word, to_word}
use tendermint_testing.Types.Event.{Event, EventType, generic}
use tendermint_testing.Types.Messages.{Message}
use tendermint_testing.Testlib.Vars as Vars
use tendermint_testing.Testlib.Vars.{
  VarSet, int, text, other, set_var, get_int, exists, set_counter, get_counter,
}
use tendermint_testing.Testlib.Context.{Context, get_message}
use tendermint_testing.Testlib.Conditions.{Condition}
use tendermint_testing.Testlib.Actions.{Action, FilterFunc}
use tendermint_testing.RaftTests.Messages.{
  msg_vote_resp, message_type_eq, RaftMessage, get_message_from_event,
}
use tendermint_testing.RaftTests.Conditions.{Texts, votes_key, on_param, on_raft_message}

abbrev pub with_vars : Context RaftMessage → VarSet RaftMessage → Context RaftMessage
with_vars c v = record c { vars = v }

unfoldable pub record_message_sender : String → Action RaftMessage
unfolding set_var
record_message_sender label e c = elim (get_message c e) [
  | none ↦ ([], c)
  | some m ↦ ([], with_vars c (set_var c.vars label (text m.from)))
]

unfoldable pub record_message_receiver : String → Action RaftMessage
unfolding set_var
record_message_receiver label e c = elim (get_message c e) [
  | none ↦ ([], c)
  | some m ↦ ([], with_vars c (set_var c.vars label (text m.to)))
]

unfoldable pub record_index : String → Action RaftMessage
unfolding set_var get_message_from_event
record_index label e c = elim (get_message_from_event e c) [
  | none ↦ ([], c)
  | some m ↦ ([], with_vars c (set_var c.vars label (int (of_word m.index))))
]

unfoldable pub is_same_index : String → Condition RaftMessage
unfolding get_int get_message_from_event
is_same_index label e c = (
  on_raft_message e c
      (λ m. elim (get_int c.vars label) [ none ↦ false | some n ↦ of_word m.index == n ]),
  c,
)

-- A filter that lets the event pass.
abbrev pub passes : Context RaftMessage → (List (Message RaftMessage) × Bool) × Context RaftMessage
passes c = (([], false), c)

-- A filter of code that can panic. The panic ends the run of the test: the filter lets the event pass
-- there, and what follows is no behaviour of the code.
abbrev pub as_filter :
    (Event
      → Context RaftMessage
      → Option ((List (Message RaftMessage) × Bool) × Context RaftMessage))
    → FilterFunc RaftMessage
as_filter f e c = elim (f e c) [ none ↦ passes c | some r ↦ r ]

-- Incr at what GetCounter found: `none` is the panic at the nil counter of a value of another type.
abbrev pub incr_found : VarSet RaftMessage → Option ℕ → Option (VarSet RaftMessage)
incr_found v none = none
incr_found v (some n) = some (Vars.incr v n)

abbrev pub incr_label : VarSet RaftMessage → String → Option (VarSet RaftMessage)
incr_label v key = incr_found v (get_counter v key)

-- The counter of a key, made if it is missing, goes up.
abbrev pub count_under : VarSet RaftMessage → String → Option (VarSet RaftMessage)
count_under v key = incr_label (if exists v key then v else set_counter v key) key

module _ (t : Texts) where
  abbrev pub count_vote : Context RaftMessage → RaftMessage → Option (Context RaftMessage)
  count_vote c m = if not (m.type == msg_vote_resp) || m.reject then some c else (do
    v ← count_under c.vars (votes_key t (t.decimal m.term) (t.decimal m.to))
    some (with_vars c v))

  -- `none` is a panic.
  unfoldable pub count_votes :
      Event
      → Context RaftMessage
      → Option ((List (Message RaftMessage) × Bool) × Context RaftMessage)
  unfolding get_message_from_event exists set_counter get_counter Vars.incr
  count_votes e c = elim (get_message_from_event e c) [
    | none ↦ some (passes c)
    | some m ↦ do c' ← count_vote c m; some (passes c')
  ]

  abbrev pub highest_term_key : String
  highest_term_key = "_highest_term"

  -- The term is kept where it is above the highest: the comparison is on uint64.
  abbrev pub raise_term : VarSet RaftMessage → ℕ → VarSet RaftMessage
  raise_term v term =
      if ltb (to_word (or_zero (get_int v highest_term_key))) term
      then set_var v highest_term_key (int (of_word term))
      else v

  abbrev pub with_term : VarSet RaftMessage → VarSet RaftMessage
  with_term v = if exists v highest_term_key then v else set_var v highest_term_key (int (pos 0))

  unfoldable pub count_term : FilterFunc RaftMessage
  unfolding get_message_from_event exists get_int set_var
  count_term e c = elim (get_message_from_event e c) [
    | none ↦ passes c
    | some m ↦ passes (with_vars c (raise_term (with_term c.vars) m.term))
  ]

  abbrev pub or_empty : Option String → String
  or_empty none = ""
  or_empty (some s) = s

  abbrev pub not_above : Option ℤ → ℤ → Bool
  not_above none n = true
  not_above (some highest) n = leb_ℤ highest n

  abbrev pub track : Event → Context RaftMessage → String → Context RaftMessage
  track e c term =
      let (n, ok) = t.atoi term in
      if not_above (get_int c.vars highest_term_key) n
      then with_vars c
          (set_var (set_var c.vars ("_leader_" <> term) (other e.replica)) highest_term_key (int n))
      else c

  abbrev pub track_params : Event → Context RaftMessage → GoMap String String → Context RaftMessage
  track_params e c params =
      if on_param params "new_state" (λ s. s == t.leader)
      then track e c (or_empty (lookup "term" params))
      else c

  abbrev pub track_type : Event → Context RaftMessage → EventType → Context RaftMessage
  track_type e c (generic params type) =
      if type == "StateChange" then track_params e c params else c
  track_type e c _ = c

  unfoldable pub track_leader : FilterFunc RaftMessage
  unfolding get_int set_var
  track_leader e c = passes (track_type e c e.type)
