-- ===== src/Testlib/Conditions.antt =====
-- netrix/testlib/conds.go and wrappers.go: conditions on the current event. A condition can change the
-- context (a counter that is made when it is first read, the flag of a Once), so it returns it.
use tendermint_testing.Base.{
  ℕ, String, Bool, true, false, not, Option, none, some, ◌==◌, string_eq, get_elem?, set,
}
use tendermint_testing.Types.Event as Event
use tendermint_testing.Types.Event.{Event, EventType, generic}
use tendermint_testing.Types.Messages.{Message}
use tendermint_testing.Testlib.Partition.{ReplicaPartition, in_part}
use tendermint_testing.Testlib.Vars.{Value, partition, get}
use tendermint_testing.Testlib.Context.{Context, partition_key, get_message}

abbrev pub Condition : Type 0 → Type 0
Condition P = Event → Context P → Bool × Context P

-- A function of the event and the context that gives a value or none: the F variants take one.
abbrev pub Lookup : Type 0 → Type 0 → Type 0
Lookup P A = Event → Context P → Option A × Context P

abbrev is_generic : EventType → String → Bool
is_generic (generic params t) s = t == s
is_generic _ s = false

module _ {P : Type 0} where
  -- Go evaluates the second condition only where the first does not decide.
  abbrev pub and_then : Bool × Context P → Event → Condition P → Bool × Context P
  and_then (true, c) e other = other e c
  and_then (false, c) e other = (false, c)

  unfoldable pub and : Condition P → Condition P → Condition P
  and cond other e c = and_then (cond e c) e other

  abbrev pub or_else : Bool × Context P → Event → Condition P → Bool × Context P
  or_else (true, c) e other = (true, c)
  or_else (false, c) e other = other e c

  unfoldable pub or : Condition P → Condition P → Condition P
  or cond other e c = or_else (cond e c) e other

  abbrev pub negated : Bool × Context P → Bool × Context P
  negated (b, c) = (not b, c)

  unfoldable pub negate : Condition P → Condition P
  negate cond e c = negated (cond e c)

  unfoldable pub is_event_of : String → Condition P
  is_event_of replica e c = (e.replica == replica, c)

  abbrev holds : {A : Type 0} → (A → Bool) → Option A × Context P → Bool × Context P
  holds test (none, c) = (false, c)
  holds test (some a, c) = (test a, c)

  unfoldable pub is_event_of_f : Lookup P String → Condition P
  is_event_of_f replica e c = holds (λ r. e.replica == r) (replica e c)

  unfoldable pub is_message_send : Condition P
  is_message_send e c = (Event.is_message_send e, c)

  unfoldable pub is_message_receive : Condition P
  is_message_receive e c = (Event.is_message_receive e, c)

  unfoldable pub is_event_type : String → Condition P
  is_event_type t e c = (is_generic e.type t, c)

  abbrev pub on_message : Context P → Event → (Message P → Bool) → Bool
  on_message c e test = elim (get_message c e) [ none ↦ false | some m ↦ test m ]

  unfoldable pub is_message_type : String → Condition P
  is_message_type t e c = (on_message c e (λ m. m.type == t), c)

  unfoldable pub is_message_to : String → Condition P
  is_message_to to e c = (on_message c e (λ m. m.to == to), c)

  unfoldable pub is_message_from : String → Condition P
  is_message_from from e c = (on_message c e (λ m. m.from == from), c)

  -- The replica is looked up only if there is a message.
  unfoldable pub is_message_from_f : Lookup P String → Condition P
  is_message_from_f replica e c = elim (get_message c e) [
    | none ↦ (false, c)
    | some m ↦ holds (λ r. m.from == r) (replica e c)
  ]

  unfoldable pub is_message_to_f : Lookup P String → Condition P
  is_message_to_f replica e c = elim (get_message c e) [
    | none ↦ (false, c)
    | some m ↦ holds (λ r. m.to == r) (replica e c)
  ]

  -- The closure's flag is the one at address `i`.
  abbrev pub mark_done : ℕ → Bool × Context P → Bool × Context P
  mark_done i (true, c) = (true, record c { once_done = set c.once_done i true })
  mark_done i (false, c) = (false, c)

  abbrev pub is_done : Context P → ℕ → Bool
  is_done c i = elim (get_elem? c.once_done i) [ none ↦ false | some b ↦ b ]

  unfoldable pub once_condition : ℕ → Condition P → Condition P
  once_condition i cond e c = elim (is_done c i) [
    | true ↦ (false, c)
    | false ↦ mark_done i (cond e c)
  ]

  abbrev as_partition : Option (Value P) → Option ReplicaPartition
  as_partition (some (partition p)) = some p
  as_partition _ = none

  unfoldable pub get_partition : Context P → Option ReplicaPartition
  unfolding get
  get_partition c = as_partition (get c.vars partition_key)

  unfoldable pub is_message_from_part : String → Condition P
  unfolding get_partition
  is_message_from_part label e c = elim (get_partition c) [
    | none ↦ (false, c)
    | some p ↦ (on_message c e (λ m. in_part p m.from label), c)
  ]
