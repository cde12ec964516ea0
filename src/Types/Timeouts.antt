-- ===== src/Types/Timeouts.antt =====
-- netrix/types/timeout.go: the timeouts that are pending at the replicas, and the store that times
-- them. `none` is a panic.
pub mod Pending
pub mod Firing
use tendermint_testing.Base.{
  ℕ, zero, suc, ◌+◌, ◌≡◌, refl, String, ◌<>◌, Bool, true, false, not, List, [], ◌∷◌, ◌++◌, Option,
  none, some, if◌then◌else◌, ltb, length, is_some, ◌==◌, string_eq,
}
use tendermint_testing.Base.GoMap.{GoMap, lookup, insert, delete, contains}
use tendermint_testing.Base.Int.{ℤ}
use tendermint_testing.Types.Event.{
  Event, EventType, ReplicaTimeout, timeout_start, timeout_end, timeout, is_timeout_start,
  is_timeout_end,
}

-- time.ParseDuration is the argument: `none` is its error.
unfoldable pub timeout_from_params :
    (String → Option ℤ) → String → GoMap String String → Option ReplicaTimeout
timeout_from_params parse_duration replica params = elim (lookup "type" params) [
  | none ↦ none
  | some type ↦ elim (lookup "duration" params) [
    | none ↦ none
    | some text ↦ elim (parse_duration text) [
      | none ↦ none
      | some d ↦ some (record { replica = replica; type = type; duration = d })
    ]
  ]
]

pub record TimeoutWrapper : Type 0 where
  pub timeout : ReplicaTimeout
  pub start_event : Option Event
  pub end_event : Option Event

unfoldable pub new_timeout_wrapper : ReplicaTimeout → TimeoutWrapper
new_timeout_wrapper t = record { timeout = t; start_event = none; end_event = none }

unfoldable pub set_start : TimeoutWrapper → Event → TimeoutWrapper
set_start w e = record w { start_event = some e }

unfoldable pub set_end : TimeoutWrapper → Event → TimeoutWrapper
set_end w e = record w { end_event = some e }

-- As it is written: true as long as there is no end event.
unfoldable pub has_ended : TimeoutWrapper → Bool
has_ended w = not (is_some w.end_event)

-- fmt.Sprintf("%s_%s", replica, type)
abbrev pub key : String → String → String
key replica type = replica <> ("_" <> type)

abbrev pub TimeoutContext : Type 0
TimeoutContext = GoMap String TimeoutWrapper

-- An event at a replica: a second start of the same key panics, and an end takes the key away.
-- The wrapper that SetEnd changes is the one that is taken away.
abbrev pub add_typed : TimeoutContext → Event → EventType → Option TimeoutContext
add_typed c e (timeout_start t) =
    if contains (key e.replica t.type) c
    then none
    else some (insert (key e.replica t.type) (set_start (new_timeout_wrapper t) e) c)
add_typed c e (timeout_end t) = some (delete (key e.replica t.type) c)
add_typed c e _ = some c

unfoldable pub add_event : TimeoutContext → Event → Option TimeoutContext
add_event c e = add_typed c e e.type

unfoldable pub add_events : TimeoutContext → List Event → Option TimeoutContext
add_events c [] = some c
add_events c (e ∷ es) = elim (add_event c e) [ none ↦ none | some c' ↦ add_events c' es ]

-- The store: the timeouts by key, the goroutines that wait for a timer, the channel of capacity 10
-- and the timeouts that are ready.
pub record TimeoutStore : Type 0 where
  pub timeouts : GoMap String ReplicaTimeout
  pub waiting : List ReplicaTimeout
  pub out_chan : List ReplicaTimeout
  pub ready : List ReplicaTimeout

unfoldable pub new_timeout_store : TimeoutStore
new_timeout_store = record { timeouts = []; waiting = []; out_chan = []; ready = [] }

abbrev pub key_of : ReplicaTimeout → String
key_of t = key t.replica t.type

unfoldable pub add_timeout : TimeoutStore → ReplicaTimeout → Option TimeoutStore
add_timeout s t =
    if contains (key_of t) s.timeouts
    then none
    else some
        (record s { timeouts = insert (key_of t) t s.timeouts; waiting = s.waiting ++ t ∷ [] })

-- The timer of the i-th waiting goroutine runs out, and it sends if the channel has room.
abbrev pub take_at : ℕ → List ReplicaTimeout → Option (ReplicaTimeout × List ReplicaTimeout)
take_at i [] = none
take_at zero (t ∷ ts) = some (t, ts)
take_at (suc i) (t ∷ ts) = elim (take_at i ts) [ none ↦ none | some (u, us) ↦ some (u, t ∷ us) ]

unfoldable pub fire : TimeoutStore → ℕ → TimeoutStore
fire s i =
    if ltb (length s.out_chan) 10
    then elim (take_at i s.waiting) [
      | none ↦ s
      | some (t, rest) ↦ record s { waiting = rest; out_chan = s.out_chan ++ t ∷ [] }
    ]
    else s

-- One receive of the poll loop.
abbrev pub poll_with : TimeoutStore → List ReplicaTimeout → TimeoutStore
poll_with s [] = s
poll_with s (t ∷ rest) =
    if contains (key_of t) s.timeouts
    then record s {
      out_chan = rest;
      ready = s.ready ++ t ∷ [];
      timeouts = delete (key_of t) s.timeouts;
    }
    else record s { out_chan = rest }

unfoldable pub poll : TimeoutStore → TimeoutStore
poll s = poll_with s s.out_chan

unfoldable pub flush : TimeoutStore → TimeoutStore
flush s = record s { out_chan = [] }

-- Reset leaves the goroutines that wait.
unfoldable pub reset : TimeoutStore → TimeoutStore
unfolding flush
reset s = record (flush s) { ready = []; timeouts = [] }

unfoldable pub to_dispatch : TimeoutStore → TimeoutStore × List ReplicaTimeout
to_dispatch s = (record s { ready = [] }, s.ready)
