-- ===== src/Examples/Timers.antt =====
-- The timeouts of netrix/types/timeout.go.
use tendermint_testing.Base.{ℕ, ◌≡◌, refl, [], ◌∷◌, Option, none, some, string_eq}
use tendermint_testing.Base.GoMap.{lookup, insert}
use tendermint_testing.Base.Int.{pos}
use tendermint_testing.Types.Event.{Event, ReplicaTimeout, timeout_start, timeout_end}
use tendermint_testing.Types.Timeouts.{
  TimeoutStore, TimeoutContext, new_timeout_store, new_timeout_wrapper, set_start, key, add_timeout,
  fire, poll, reset, to_dispatch, add_event,
}
use tendermint_testing.Types.Timeouts.Firing.{
  IsTimed, new_timeout_store-IsTimed, steps-IsTimed, reset_leaves_timer,
}
use tendermint_testing.Examples.Graph.{event}

abbrev propose : ℕ → ReplicaTimeout
propose d = record { replica = "a"; type = "propose"; duration = pos d }

abbrev or_new : Option TimeoutStore → TimeoutStore
or_new none = new_timeout_store
or_new (some s) = s

abbrev pending : TimeoutStore
pending = or_new (add_timeout new_timeout_store (propose 3))

steps-IsTimed_example :
    ((t : ReplicaTimeout) (s' : TimeoutStore)
      → add_timeout new_timeout_store t ≡ some s'
      → IsTimed s')
    × ((i : ℕ) → IsTimed (fire new_timeout_store i))
    × IsTimed (poll new_timeout_store)
    × IsTimed (to_dispatch new_timeout_store).0
steps-IsTimed_example = steps-IsTimed new_timeout_store new_timeout_store-IsTimed

pending-IsTimed : IsTimed pending
unfolding add_timeout new_timeout_store lookup insert
pending-IsTimed =
    (steps-IsTimed new_timeout_store new_timeout_store-IsTimed).0 (propose 3) pending refl

fired-IsTimed : IsTimed (fire pending 0)
fired-IsTimed = (steps-IsTimed pending pending-IsTimed).1 0

abbrev restarted : TimeoutStore
restarted = or_new (add_timeout (reset pending) (propose 9))

reset_leaves_timer_example :
    ((poll (fire restarted 0)).ready ≡ propose 3 ∷ [])
    × ((poll (fire (poll (fire restarted 0)) 0)).ready ≡ propose 3 ∷ [])
    × ((poll (fire (poll (fire restarted 0)) 0)).waiting ≡ [])
unfolding add_timeout new_timeout_store lookup insert reset
reset_leaves_timer_example =
    reset_leaves_timer (propose 3) (propose 9) refl pending restarted refl refl

abbrev started : Event
started = event "a" (timeout_start (propose 3)) 1

abbrev ended : Event
ended = event "a" (timeout_end (propose 3)) 2

abbrev context : TimeoutContext
context = (key "a" "propose", set_start (new_timeout_wrapper (propose 3)) started) ∷ []

second_start_panics : add_event context started ≡ none
unfolding add_event lookup
second_start_panics = refl
