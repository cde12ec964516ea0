-- ===== src/Dispatcher/Once.antt =====
-- Calls of the dispatcher of netrix/dispatcher/main.go in the order in which they take its lock,
-- with the replicas that register in between: a message goes out at most once.
use tendermint_testing.Base.{
  ℕ, ◌+◌, ◌≤◌, ◌≡◌, inl, inr, refl, String, Bool, true, false, not, ◌||◌, List, [], ◌∷◌, ◌++◌,
  Option, none, some, arith, length, length-append, if◌then◌else◌, Bool-cases, Option-cases, leb,
  ltb, ◌&&◌, ◌==◌, string_eq,
}
use text.Mathlib.TextEquality.{eq_iff}
use tendermint_testing.Base.GoMap.{lookup, insert, contains, lookup-insert}
use tendermint_testing.Types.Event.{ReplicaTimeout}
use tendermint_testing.Types.Replicas as Replicas
use tendermint_testing.Types.Replicas.{Replica, ReplicaStore}
use tendermint_testing.Types.Messages.{Message}
use tendermint_testing.Dispatcher.{
  DispatchError, duplicate_dispatch, Dispatcher, Request, Answer, not_created, no_response,
  response, Marshal, Outcome, send_req, with_client, send_marshalled, dispatch_message,
  dispatch_timeout, send_directive, direct, Directive, stop_replica, start_replica, restart_replica,
  mark, fail, start_action, stop_action, restart_action,
}

pub data Call (Parsed : Type 0) : Type 0 where
  register : Replica → Call Parsed
  message : Message Parsed → Answer → Call Parsed
  timeout : ReplicaTimeout → Answer → Call Parsed
  stop start restart : String → Answer → Call Parsed

abbrev pub is_duplicate : Option DispatchError → Bool
is_duplicate (some duplicate_dispatch) = true
is_duplicate _ = false

-- Whether the message of the identifier was handed to the dispatcher.
abbrev pub marked : String → Dispatcher → Bool
marked id d = contains id d.dispatched_messages

-- What a call other than that of a new message does.
abbrev IsPlain : Dispatcher → Outcome (Option DispatchError) → Type 0
IsPlain d o =
    (o.after.dispatched_messages ≡ d.dispatched_messages)
    × (length o.sent ≤ 1)
    × (is_duplicate o.result ≡ false)

with_client-keeps :
    (d : Dispatcher) (id : String) → (with_client d id).dispatched_messages ≡ d.dispatched_messages
with_client-keeps d id = elim (Option-cases (lookup id d.clients)) [
  | inl e ↦ rw (e, with_client) refl
  | inr (c, e) ↦ rw (e, with_client) refl
]

send_marshalled-IsPlain :
    (d : Dispatcher) (to : Replica) (path : String) (bytes : Option (List ℕ)) (answer : Answer)
    → IsPlain d (send_marshalled d to path bytes answer)
unfolding send_req
send_marshalled-IsPlain d to path none answer = (refl, omega arith, refl)
send_marshalled-IsPlain d to path (some bytes) not_created =
    (with_client-keeps d to.id, omega arith, refl)
send_marshalled-IsPlain d to path (some bytes) no_response =
    (with_client-keeps d to.id, omega arith, refl)
send_marshalled-IsPlain d to path (some bytes) (response status none) =
    elim (Bool-cases (leb 200 status && ltb status 300)) [
      | inl e ↦ rw e (with_client-keeps d to.id, omega arith, refl)
      | inr e ↦ rw e (with_client-keeps d to.id, omega arith, refl)
    ]
send_marshalled-IsPlain d to path (some bytes) (response status (some body)) =
    elim (Bool-cases (leb 200 status && ltb status 300)) [
      | inl e ↦ rw e (with_client-keeps d to.id, omega arith, refl)
      | inr e ↦ rw e (with_client-keeps d to.id, omega arith, refl)
    ]

module _ {Parsed : Type 0} (json : Marshal Parsed) where
  unfoldable pub perform : Dispatcher → Call Parsed → Outcome (Option DispatchError)
  perform d (register r) = record {
    after = record d { replicas = Replicas.add d.replicas r };
    sent = [];
    result = none;
  }
  perform d (message m a) = dispatch_message json d m a
  perform d (timeout t a) = dispatch_timeout json d t a
  perform d (stop id a) = stop_replica json d id a
  perform d (start id a) = start_replica json d id a
  perform d (restart id a) = restart_replica json d id a

  abbrev pub is_message_of : String → Call Parsed → Bool
  is_message_of id (message m a) = m.id == id
  is_message_of id _ = false

  abbrev pub mentions : String → List (Call Parsed) → Bool
  mentions id [] = false
  mentions id (c ∷ cs) = is_message_of id c || mentions id cs

  -- The requests that go out for the messages of the identifier.
  unfoldable pub requests_of : String → Dispatcher → List (Call Parsed) → List Request
  requests_of id d [] = []
  requests_of id d (c ∷ cs) =
      (if is_message_of id c then (perform d c).sent else [])
      ++ requests_of id (perform d c).after cs

  -- How many of the calls with the identifier are not refused as duplicates.
  unfoldable pub accepted : String → Dispatcher → List (Call Parsed) → ℕ
  accepted id d [] = 0
  accepted id d (c ∷ cs) =
      (if is_message_of id c && not (is_duplicate (perform d c).result) then 1 else 0)
      + accepted id (perform d c).after cs

  direct-IsPlain :
      (a : Directive) (d : Dispatcher) (id : String) (answer : Answer)
      → IsPlain d (direct json a d id answer)
  unfolding send_directive
  direct-IsPlain a d id answer = elim (Option-cases (Replicas.get d.replicas id)) [
    | inl e ↦ rw (e, direct) (refl, omega arith, refl)
    | inr (r, e) ↦
        rw (e, direct) (send_marshalled-IsPlain d r "/directive" (json.directive a) answer)
  ]

  dispatch_timeout-IsPlain :
      (d : Dispatcher) (t : ReplicaTimeout) (answer : Answer)
      → IsPlain d (dispatch_timeout json d t answer)
  unfolding dispatch_timeout
  dispatch_timeout-IsPlain d t answer = elim (Option-cases (Replicas.get d.replicas t.replica)) [
    | inl e ↦ rw (e, dispatch_timeout) (refl, omega arith, refl)
    | inr (r, e) ↦
        rw (e, dispatch_timeout) (send_marshalled-IsPlain d r "/timeout" (json.timeout t) answer)
  ]

  -- A message that was not handed in before is marked, whatever becomes of it.
  dispatch_new :
      (d : Dispatcher) (m : Message Parsed) (answer : Answer)
      → lookup m.id d.dispatched_messages ≡ none
      → IsPlain (mark json d m.id) (dispatch_message json d m answer)
  unfolding dispatch_message insert
  dispatch_new d m answer new = elim (Option-cases (Replicas.get d.replicas m.to)) [
    | inl e ↦ rw (new, e, dispatch_message) (refl, omega arith, refl)
    | inr (r, e) ↦
        rw (new, e, dispatch_message)
          (send_marshalled-IsPlain (mark json d m.id) r "/message" (json.message m) answer)
  ]

  dispatch_again :
      (d : Dispatcher) (m : Message Parsed) (answer : Answer) {seen : Bool}
      → lookup m.id d.dispatched_messages ≡ some seen
      → dispatch_message json d m answer ≡ fail d duplicate_dispatch
  unfolding dispatch_message
  dispatch_again d m answer e = rw (e, dispatch_message) refl

  -- What a call does to the mark of an identifier, and when it sends and is refused.
  abbrev IsStep : String → Dispatcher → Call Parsed → Type 0
  IsStep id d c =
      (marked id (perform d c).after ≡ marked id d || is_message_of id c)
      × (length (if is_message_of id c then (perform d c).sent else [])
          ≤ (if is_message_of id c && not (is_duplicate (perform d c).result) then 1 else 0))
      × (is_message_of id c ≡ true → is_duplicate (perform d c).result ≡ marked id d)

  plain-IsStep :
      (id : String) (d : Dispatcher) (c : Call Parsed)
      → is_message_of id c ≡ false
      → (perform d c).after.dispatched_messages ≡ d.dispatched_messages
      → IsStep id d c
  plain-IsStep id d c other keeps = rw (other, keeps) (ground arith, omega arith, λ h. absurd (cc))

  message-IsStep :
      (id : String) (d : Dispatcher) (m : Message Parsed) (a : Answer) → IsStep id d (message m a)
  unfolding perform
  message-IsStep id d m a = elim (Option-cases (lookup m.id d.dispatched_messages)) [
    | inr (b, e) ↦
        rw (dispatch_again d m a e)
          (ground (arith, eq_iff m.id id), ground arith, λ h. ground (arith, eq_iff m.id id))
    | inl e ↦
        let (after, few, new) = dispatch_new d m a e in
        rw (after, new)
          (
            ground (arith, eq_iff m.id id, lookup-insert m.id id true d.dispatched_messages),
            ground arith,
            λ h. ground (arith, eq_iff m.id id),
          )
  ]

  perform-IsStep : (id : String) (d : Dispatcher) (c : Call Parsed) → IsStep id d c
  unfolding perform stop_replica start_replica restart_replica
  perform-IsStep id d (register r) = plain-IsStep id d (register r) refl refl
  perform-IsStep id d (message m a) = message-IsStep id d m a
  perform-IsStep id d (timeout t a) =
      plain-IsStep id d (timeout t a) refl (dispatch_timeout-IsPlain d t a).0
  perform-IsStep id d (stop r a) =
      plain-IsStep id d (stop r a) refl (direct-IsPlain stop_action d r a).0
  perform-IsStep id d (start r a) =
      plain-IsStep id d (start r a) refl (direct-IsPlain start_action d r a).0
  perform-IsStep id d (restart r a) =
      plain-IsStep id d (restart r a) refl (direct-IsPlain restart_action d r a).0

  -- Whatever the calls are and whatever becomes of their requests: of the calls of DispatchMessage
  -- with one identifier only the first is not refused as a duplicate, and none where the
  -- identifier is marked at the start; so at most one request goes out for the identifier.
  pub requests_of-once :
      (id : String) (d : Dispatcher) (cs : List (Call Parsed))
      → (accepted id d cs ≡ (if marked id d then 0 else if mentions id cs then 1 else 0))
        × (length (requests_of id d cs) ≤ accepted id d cs)
  unfolding accepted requests_of
  requests_of-once id d [] = (ground arith, omega arith)
  requests_of-once id d (c ∷ cs) =
      let (mark, few, dup) = perform-IsStep id d c in
      let (count, bound) = requests_of-once id (perform d c).after cs in
      (
        ground arith,
        rw
            (length-append (if is_message_of id c then (perform d c).sent else [])
              (requests_of id (perform d c).after cs))
            (omega arith),
      )
