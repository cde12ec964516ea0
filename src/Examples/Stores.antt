-- ===== src/Examples/Stores.antt =====
-- The stores of netrix/types/messages.go and replica_telemetry.go.
use tendermint_testing.Base.{ℕ, ◌≡◌, ◌≢◌, refl, String, List, [], ◌∷◌, ◌++◌, All, string_eq}
use tendermint_testing.Base.GoMap.{lookup, insert}
use tendermint_testing.Base.Int.{pos}
use tendermint_testing.Types.Messages.{MessageStore}
use tendermint_testing.Types.ReplicaLogs as Logs
use tendermint_testing.Types.ReplicaLogs.{ReplicaLog, ReplicaLogStore}
use tendermint_testing.Types.ReplicaLogs.Order.{IsSorted, logs_of, Before, NotAfter, add-IsSorted}
use tendermint_testing.Examples.Queues.{message}

abbrev store : MessageStore ℕ
store = ("m1", message "m1") ∷ ("m2", message "m2") ∷ []

abbrev stamped : String → ℕ → ReplicaLog
stamped m t = record { params = []; message = m; timestamp = pos t; replica = "a" }

abbrev logs : ReplicaLogStore
logs = ("a", stamped "first" 1 ∷ stamped "third" 5 ∷ []) ∷ []

add-IsSorted_example :
    IsSorted (logs_of "a" (Logs.add logs (stamped "second" 3)))
    × ((before : List ReplicaLog) × (after : List ReplicaLog) × (logs_of "a" logs ≡ before ++ after)
        × (logs_of "a" (Logs.add logs (stamped "second" 3)) ≡ before ++ stamped "second" 3 ∷ after)
        × All (λ x. Before x (stamped "second" 3)) before
        × All (λ x. NotAfter (stamped "second" 3) x) after)
    × ((id : String) → "a" ≢ id → lookup id (Logs.add logs (stamped "second" 3)) ≡ lookup id logs)
unfolding lookup
add-IsSorted_example = add-IsSorted logs (stamped "second" 3) ((refl, tt), (tt, tt))

-- A log with the timestamp of another goes before it.
equal_goes_before :
    logs_of "a" (Logs.add logs (stamped "again" 5))
    ≡ stamped "first" 1 ∷ stamped "again" 5 ∷ stamped "third" 5 ∷ []
unfolding Logs.add lookup insert
equal_goes_before = refl
