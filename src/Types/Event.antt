-- ===== src/Types/Event.antt =====
-- netrix/types/events.go, event_types.go and timeout.go: events, their types and timeouts.
-- EventType is an interface in Go; its five implementations are the constructors here.
use tendermint_testing.Base.{
  ℕ, ◌≡◌, ◌↔◌, String, Bool, true, false, ◌&&◌, Option, none, some, arith, ◌==◌, string_eq,
}
use tendermint_testing.Base.GoMap.{GoMap}
use tendermint_testing.Base.Int.{ℤ, int_beq_iff, int_eq}
use text.Mathlib.TextEquality.{eq_iff}

pub record ReplicaTimeout : Type 0 where
  pub replica : String
  pub type : String
  pub duration : ℤ

unfoldable pub timeout_beq : ReplicaTimeout → ReplicaTimeout → Bool
timeout_beq t other =
    t.replica == other.replica && t.type == other.type && t.duration == other.duration

pub timeout_beq_iff : (t u : ReplicaTimeout) → (timeout_beq t u ≡ true) ↔ (t ≡ u)
unfolding timeout_beq
timeout_beq_iff t u =
    ground
      (arith, eq_iff t.replica u.replica, eq_iff t.type u.type, int_beq_iff t.duration u.duration)

pub data EventType : Type 0 where
  message_send : String → EventType
  message_receive : String → EventType
  timeout_start : ReplicaTimeout → EventType
  timeout_end : ReplicaTimeout → EventType
  generic : GoMap String String → String → EventType

pub record Event : Type 0 where
  pub replica : String
  pub type : EventType
  pub type_s : String
  pub id : ℕ  -- uint64
  pub timestamp : ℤ

unfoldable pub new_event : String → EventType → String → ℕ → ℤ → Event
new_event replica t ts id time = record {
  replica = replica;
  type = t;
  type_s = ts;
  id = id;
  timestamp = time;
}

abbrev message_id_of : EventType → Option String
message_id_of (message_receive m) = some m
message_id_of (message_send m) = some m
message_id_of _ = none

unfoldable pub message_id : Event → Option String
message_id e = message_id_of e.type

abbrev is_send_type : EventType → Bool
is_send_type (message_send m) = true
is_send_type _ = false

unfoldable pub is_message_send : Event → Bool
is_message_send e = is_send_type e.type

abbrev is_receive_type : EventType → Bool
is_receive_type (message_receive m) = true
is_receive_type _ = false

unfoldable pub is_message_receive : Event → Bool
is_message_receive e = is_receive_type e.type

abbrev timeout_of : EventType → Option ReplicaTimeout
timeout_of (timeout_start t) = some t
timeout_of (timeout_end t) = some t
timeout_of _ = none

unfoldable pub timeout : Event → Option ReplicaTimeout
timeout e = timeout_of e.type

abbrev is_timeout_start_type : EventType → Bool
is_timeout_start_type (timeout_start t) = true
is_timeout_start_type _ = false

unfoldable pub is_timeout_start : Event → Bool
is_timeout_start e = is_timeout_start_type e.type

abbrev is_timeout_end_type : EventType → Bool
is_timeout_end_type (timeout_end t) = true
is_timeout_end_type _ = false

unfoldable pub is_timeout_end : Event → Bool
is_timeout_end e = is_timeout_end_type e.type

-- EventType.Clone of each implementation.
unfoldable pub clone_type : EventType → EventType
clone_type (message_send m) = message_send m
clone_type (message_receive m) = message_receive m
clone_type (timeout_start t) = timeout_start t
clone_type (timeout_end t) = timeout_end t
clone_type (generic params t) = generic params t

unfoldable pub clone : Event → Event
unfolding clone_type
clone e = record {
  replica = e.replica;
  type = clone_type e.type;
  type_s = e.type_s;
  id = e.id;
  timestamp = e.timestamp;
}

pub clone_type_lem : (t : EventType) → clone_type t ≡ t
unfolding clone_type
clone_type_lem t = ground arith

-- A cloned event equals the original.
pub clone_lem : (e : Event) → clone e ≡ e
unfolding clone
clone_lem e = ground (arith, clone_type_lem e.type)

-- An event has a message identifier exactly when it is a send or a receive.
pub message_id-none_iff :
    (e : Event)
    → (message_id e ≡ none) ↔ ((is_message_send e ≡ false) × (is_message_receive e ≡ false))
unfolding message_id is_message_send is_message_receive
message_id-none_iff e = ground arith
