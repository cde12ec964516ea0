-- ===== src/Examples/Requests.antt =====
-- The dispatcher of netrix/dispatcher/main.go with two replicas' requests.
use tendermint_testing.Base.{
  ℕ, ◌≤◌, ◌≡◌, ◌↔◌, true, List, [], ◌∷◌, none, some, if◌then◌else◌, length, string_eq,
}
use tendermint_testing.Types.Replicas as Replicas
use tendermint_testing.Types.Replicas.{Replica, new_replica_store}
use tendermint_testing.Dispatcher.{
  Dispatcher, Marshal, response, no_response, new_dispatcher, dispatch_message,
}
use tendermint_testing.Dispatcher.Once.{
  Call, register, message, stop, marked, mentions, accepted, requests_of, requests_of-once,
}
use tendermint_testing.Dispatcher.Delivery.{IsDelivered, dispatch_message-none_iff}
use tendermint_testing.Examples.Queues as Queues

abbrev json : Marshal ℕ
json = record { message = λ m. some (7 ∷ []); timeout = λ t. none; directive = λ d. some (8 ∷ []) }

abbrev receiver : Replica
receiver = record { id = "b"; ready = true; info = []; addr = "host:1"; index = 0 }

abbrev start : Dispatcher
start = new_dispatcher (new_replica_store 2)

-- The message fails at the first attempt, where the receiver answers with status 500.
abbrev calls : List (Call ℕ)
calls =
    register receiver
    ∷ message (Queues.message "m1") (response 500 none)
    ∷ stop "b" no_response
    ∷ message (Queues.message "m1") (response 200 (some "ok"))
    ∷ []

requests_of-once_example :
    (accepted json "m1" start calls
      ≡ (if marked "m1" start then 0 else if mentions json "m1" calls then 1 else 0))
    × (length (requests_of json "m1" start calls) ≤ accepted json "m1" start calls)
requests_of-once_example = requests_of-once json "m1" start calls

abbrev ready : Dispatcher
ready = new_dispatcher (Replicas.add (new_replica_store 2) receiver)

dispatch_message-none_iff_example :
    ((dispatch_message json ready (Queues.message "m1") (response 200 (some "ok"))).result ≡ none)
    ↔ IsDelivered json ready
        (Queues.message "m1")
        (response 200 (some "ok"))
        (dispatch_message json ready (Queues.message "m1") (response 200 (some "ok"))).sent
dispatch_message-none_iff_example =
    dispatch_message-none_iff json ready (Queues.message "m1") (response 200 (some "ok"))
