-- ===== src/RaftTests/Messages.antt =====
-- raft/tests/util/util.go: the messages of the Raft library as the test cases see them.
use tendermint_testing.Base.{
  ℕ, ◌+◌, ◌-◌, ◌/◌, ◌≡◌, if◌then◌else◌, ◌↔◌, refl, sym, ◌∙◌, ap, String, Bool, true, Option, none,
  some, arith, nat_beq, nat_beq_iff, Key, string_eq,
}
use tendermint_testing.Base.Int.{ℤ, pos}
use tendermint_testing.Types.Event.{Event}
use tendermint_testing.Types.Messages.{Message}
use tendermint_testing.Types.Replicas.{cap_of, get_random}
use tendermint_testing.Testlib.Vars.{text, get_string, set_var}
use tendermint_testing.Testlib.Context.{Context, get_message}
use tendermint_testing.Testlib.Conditions.{Lookup}

-- The types of messages that the test cases name; `other n` stands for the rest.
pub data MessageType : Type 0 where
  msg_app msg_app_resp msg_vote msg_vote_resp msg_pre_vote_resp msg_heartbeat : MessageType
  msg_heartbeat_resp msg_snap : MessageType
  other : ℕ → MessageType

abbrev number : MessageType → ℕ
number msg_app = 0
number msg_app_resp = 1
number msg_vote = 2
number msg_vote_resp = 3
number msg_pre_vote_resp = 4
number msg_heartbeat = 5
number msg_heartbeat_resp = 6
number msg_snap = 7
number (other n) = n + 8

of_number : ℕ → MessageType
of_number n =
    if nat_beq n 0
    then msg_app
    else if nat_beq n 1
    then msg_app_resp
    else if nat_beq n 2
    then msg_vote
    else if nat_beq n 3
    then msg_vote_resp
    else if nat_beq n 4
    then msg_pre_vote_resp
    else if nat_beq n 5
    then msg_heartbeat
    else if nat_beq n 6
    then msg_heartbeat_resp
    else if nat_beq n 7
    then msg_snap
    else other (n - 8)

of_number-number : (t : MessageType) → of_number (number t) ≡ t
unfolding of_number
of_number-number msg_app = refl
of_number-number msg_app_resp = refl
of_number-number msg_vote = refl
of_number-number msg_vote_resp = refl
of_number-number msg_pre_vote_resp = refl
of_number-number msg_heartbeat = refl
of_number-number msg_heartbeat_resp = refl
of_number-number msg_snap = refl
of_number-number (other n) = ground arith

pub same_number_iff : (t u : MessageType) → (nat_beq (number t) (number u) ≡ true) ↔ (t ≡ u)
same_number_iff t u = (
  λ h.
      sym (of_number-number t)
      ∙ ap of_number ((nat_beq_iff (number t) (number u)).0 h)
      ∙ of_number-number u,
  λ h. (nat_beq_iff (number t) (number u)).1 (ap number h),
)

instance abbrev pub message_type_eq : Key MessageType
message_type_eq = record { same = λ t u. nat_beq (number t) (number u); same_iff = same_number_iff }

-- The fields of the library's message that the test cases read.
pub record RaftMessage : Type 0 where
  pub type : MessageType
  pub to : ℕ
  pub term : ℕ  -- uint64
  pub index : ℕ  -- uint64
  pub reject : Bool

abbrev pub parsed_of : Option (Message RaftMessage) → Option RaftMessage
parsed_of none = none
parsed_of (some m) = m.parsed

unfoldable pub get_message_from_event : Event → Context RaftMessage → Option RaftMessage
get_message_from_event e c = parsed_of (get_message c e)

unfoldable pub f_replicas : Lookup RaftMessage ℤ
unfolding cap_of
f_replicas e c = (some (pos ((cap_of c.replicas - 1) / 2)), c)

abbrev pub random_replica_key : String
random_replica_key = "_random_replica"

-- The replica that was picked, or one that is picked now: `chosen` is what rand.Intn gives.
unfoldable pub random_replica : ℕ → Lookup RaftMessage String
unfolding get_string get_random set_var
random_replica chosen e c = elim (get_string c.vars random_replica_key) [
  | some id ↦ (some id, c)
  | none ↦ elim (get_random c.replicas chosen) [
    | none ↦ (none, c)
    | some r ↦ (some r.id, record c { vars = set_var c.vars random_replica_key (text r.id) })
  ]
]
