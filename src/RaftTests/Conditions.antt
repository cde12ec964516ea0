-- ===== src/RaftTests/Conditions.antt =====
-- raft/tests/util/conditions.go: the conditions of the Raft test cases.
use tendermint_testing.Base.{
  ℕ, ◌-◌, ◌/◌, String, Bool, false, not, ◌&&◌, ◌||◌, Option, none, some, ◌==◌, ◌<>◌, string_eq,
}
use tendermint_testing.Base.GoMap.{GoMap, lookup}
use tendermint_testing.Base.Int.{ℤ, pos, leb_ℤ, ltb_ℤ, int_eq}
use tendermint_testing.Types.Event.{Event, EventType, generic}
use tendermint_testing.Types.Replicas.{cap_of}
use tendermint_testing.Testlib.Vars.{get_string, get_int, get_counter, value}
use tendermint_testing.Testlib.Context.{Context}
use tendermint_testing.Testlib.Conditions.{Condition, is_event_type, on_message}
use tendermint_testing.RaftTests.Messages.{
  MessageType, msg_vote_resp, msg_pre_vote_resp, message_type_eq, RaftMessage,
  get_message_from_event,
}

-- strconv.Atoi with its value and whether it succeeds, fmt's %d, and the library's names of roles.
pub record Texts : Type 0 where
  pub atoi : String → ℤ × Bool
  pub decimal : ℕ → String
  pub leader : String
  pub candidate : String

abbrev pub on_raft_message : Event → Context RaftMessage → (RaftMessage → Bool) → Bool
on_raft_message e c test = elim (get_message_from_event e c) [ none ↦ false | some m ↦ test m ]

unfoldable pub is_message_type : MessageType → Condition RaftMessage
unfolding get_message_from_event
is_message_type t e c = (on_raft_message e c (λ m. m.type == t), c)

unfoldable pub is_accepting_vote : Condition RaftMessage
unfolding get_message_from_event
is_accepting_vote e c = (
  on_raft_message e c
      (λ m. (m.type == msg_vote_resp || m.type == msg_pre_vote_resp) && not m.reject),
  c,
)

abbrev pub on_string : Context RaftMessage → String → (String → Bool) → Bool
on_string c label test = elim (get_string c.vars label) [ none ↦ false | some s ↦ test s ]

unfoldable pub is_sender_same_as : String → Condition RaftMessage
unfolding get_string
is_sender_same_as label e c =
    (on_string c label (λ sender. on_message c e (λ m. sender == m.from)), c)

unfoldable pub is_receiver_same_as : String → Condition RaftMessage
unfolding get_string
is_receiver_same_as label e c =
    (on_string c label (λ sender. on_message c e (λ m. sender == m.to)), c)

unfoldable pub is_state_change : Condition RaftMessage
unfolding is_event_type
is_state_change = is_event_type "TermChange"

-- A test of the parameters of a generic event of the type; other events fail it.
abbrev pub on_generic : EventType → String → (GoMap String String → Bool) → Bool
on_generic (generic params t) wanted test = t == wanted && test params
on_generic _ wanted test = false

abbrev pub on_param : GoMap String String → String → (String → Bool) → Bool
on_param params p test = elim (lookup p params) [ none ↦ false | some x ↦ test x ]

abbrev pub is_new_state : String → Event → Bool
is_new_state role e =
    on_generic e.type "StateChange" (λ params. on_param params "new_state" (λ s. s == role))

-- Atoi of the parameter `term`, and a test of the number.
abbrev pub on_term : Texts → GoMap String String → (ℤ → Bool) → Bool
on_term t params test = on_param params "term" (λ s. let (n, ok) = t.atoi s in ok && test n)

module _ (t : Texts) where
  unfoldable pub is_state_leader : Condition RaftMessage
  is_state_leader e c = (is_new_state t.leader e, c)

  unfoldable pub is_state_candidate : Condition RaftMessage
  is_state_candidate e c = (is_new_state t.candidate e, c)

  abbrev pub votes_key : String → String → String
  votes_key term replica = "_votes_" <> (term <> ("_" <> replica))

  -- The value of a counter: a label's address always leads to a cell.
  abbrev pub at_least : Context RaftMessage → Option ℕ → ℤ → Bool
  at_least c none f = false
  at_least c (some n) f = elim (value c.vars n) [ none ↦ false | some x ↦ leb_ℤ f x ]

  unfoldable pub is_correct_leader : Condition RaftMessage
  unfolding get_counter value cap_of
  is_correct_leader e c = (
    on_generic e.type "StateChange" (λ params.
        on_param params "new_state" (λ s. s == t.leader)
        && on_param params "term" (λ term.
          at_least c (get_counter c.vars (votes_key term e.replica))
            (pos ((cap_of c.replicas - 1) / 2)))),
    c,
  )

  unfoldable pub is_term_change : Condition RaftMessage
  unfolding is_event_type
  is_term_change = is_event_type "TermChange"

  abbrev pub above : Option ℤ → ℤ → Bool
  above none n = false
  above (some highest) n = ltb_ℤ highest n

  unfoldable pub is_new_term : Condition RaftMessage
  unfolding get_int
  is_new_term e c = (
    on_generic e.type "TermChange"
        (λ params. on_term t params (above (get_int c.vars "_highest_term"))),
    c,
  )

  unfoldable pub is_term : ℤ → Condition RaftMessage
  is_term term e c =
      (on_generic e.type "TermChange" (λ params. on_term t params (λ n. n == term)), c)

  unfoldable pub is_term_gte : ℤ → Condition RaftMessage
  is_term_gte g e c =
      (on_generic e.type "TermChange" (λ params. on_term t params (λ n. leb_ℤ g n)), c)
