-- ===== src/Dispatcher.antt =====
-- netrix/dispatcher/main.go: the requests that the server sends to the replicas. What a client and
-- the network do with a request is the argument `answer` of the call that makes it.
pub mod Once
pub mod Delivery
use tendermint_testing.Base.{
  ℕ, ◌⊎◌, inl, inr, String, Bool, true, List, [], ◌∷◌, Option, none, some, if◌then◌else◌, ltb, leb,
  ◌&&◌, ◌<>◌, string_eq,
}
use tendermint_testing.Base.GoMap.{GoMap, lookup, insert}
use tendermint_testing.Types.Event.{ReplicaTimeout}
use tendermint_testing.Types.Replicas as Replicas
use tendermint_testing.Types.Replicas.{Replica, ReplicaStore}
use tendermint_testing.Types.Messages.{Message}

pub data DispatchError : Type 0 where
  dest_unknown failed_marshal duplicate_dispatch : DispatchError
  send_failed response_read_fail bad_response : DispatchError

pub record Directive : Type 0 where
  pub action : String

abbrev pub start_action : Directive
start_action = record { action = "START" }

abbrev pub stop_action : Directive
stop_action = record { action = "STOP" }

abbrev pub restart_action : Directive
restart_action = record { action = "RESTART" }

-- The settings of the transport of a client.
pub record Client : Type 0 where
  pub max_idle_conns_per_host : ℕ
  pub max_conns_per_host : ℕ

pub record Dispatcher : Type 0 where
  pub replicas : ReplicaStore
  pub clients : GoMap String Client
  pub dispatched_messages : GoMap String Bool

unfoldable pub new_dispatcher : ReplicaStore → Dispatcher
new_dispatcher store = record { replicas = store; clients = []; dispatched_messages = [] }

-- A POST with a JSON body.
pub record Request : Type 0 where
  pub url : String
  pub body : List ℕ

-- What becomes of a request: http.NewRequest refuses it, no response comes, or a response comes
-- with a status and a body, which is `none` where it cannot be read.
pub data Answer : Type 0 where
  not_created no_response : Answer
  response : ℕ → Option String → Answer

-- encoding/json's Marshal, of the types that are sent.
pub record Marshal (Parsed : Type 0) : Type 0 where
  pub message : Message Parsed → Option (List ℕ)
  pub timeout : ReplicaTimeout → Option (List ℕ)
  pub directive : Directive → Option (List ℕ)

-- The dispatcher after a call, the requests that went out, and what the call returns.
pub record Outcome (A : Type 0) : Type 0 where
  pub after : Dispatcher
  pub sent : List Request
  pub result : A

-- The end of sendReq, on the response.
abbrev pub read_body : Option String → String ⊎ DispatchError
read_body none = inr response_read_fail
read_body (some body) = inl body

abbrev pub read_answer : Answer → String ⊎ DispatchError
read_answer not_created = inr send_failed
read_answer no_response = inr send_failed
read_answer (response status body) =
    if leb 200 status && ltb status 300 then read_body body else inr bad_response

abbrev pub goes_out : Answer → Request → List Request
goes_out not_created r = []
goes_out no_response r = r ∷ []
goes_out (response status body) r = r ∷ []

abbrev pub with_client : Dispatcher → String → Dispatcher
with_client d id = elim (lookup id d.clients) [
  | none ↦ record d {
    clients = insert id (record { max_idle_conns_per_host = 2; max_conns_per_host = 1 }) d.clients;
  }
  | some client ↦ d
]

unfoldable pub send_req :
    Dispatcher → Replica → String → List ℕ → Answer → Outcome (String ⊎ DispatchError)
send_req d to path msg answer = record {
  after = with_client d to.id;
  sent = goes_out answer (record { url = "http://" <> to.addr <> path; body = msg });
  result = read_answer answer;
}

abbrev pub error_of : String ⊎ DispatchError → Option DispatchError
error_of (inl body) = none
error_of (inr e) = some e

abbrev pub fail : Dispatcher → DispatchError → Outcome (Option DispatchError)
fail d e = record { after = d; sent = []; result = some e }

-- The marshalled bytes, if there are any, sent to the replica; the body is dropped.
abbrev pub send_marshalled :
    Dispatcher → Replica → String → Option (List ℕ) → Answer → Outcome (Option DispatchError)
send_marshalled d to path none answer = fail d failed_marshal
send_marshalled d to path (some bytes) answer =
    let o = send_req d to path bytes answer in
    record { after = o.after; sent = o.sent; result = error_of o.result }

module _ {Parsed : Type 0} (json : Marshal Parsed) where
  abbrev pub mark : Dispatcher → String → Dispatcher
  mark d id = record d { dispatched_messages = insert id true d.dispatched_messages }

  unfoldable pub dispatch_message :
      Dispatcher → Message Parsed → Answer → Outcome (Option DispatchError)
  dispatch_message d msg answer = elim (lookup msg.id d.dispatched_messages) [
    | some _ ↦ fail d duplicate_dispatch
    | none ↦ elim (Replicas.get d.replicas msg.to) [
      | none ↦ fail (mark d msg.id) dest_unknown
      | some replica ↦ send_marshalled (mark d msg.id) replica "/message" (json.message msg) answer
    ]
  ]

  unfoldable pub dispatch_timeout :
      Dispatcher → ReplicaTimeout → Answer → Outcome (Option DispatchError)
  dispatch_timeout d t answer = elim (Replicas.get d.replicas t.replica) [
    | none ↦ fail d dest_unknown
    | some replica ↦ send_marshalled d replica "/timeout" (json.timeout t) answer
  ]

  unfoldable pub send_directive :
      Dispatcher → Directive → Replica → Answer → Outcome (Option DispatchError)
  send_directive d directive to answer =
      send_marshalled d to "/directive" (json.directive directive) answer

  abbrev pub direct : Directive → Dispatcher → String → Answer → Outcome (Option DispatchError)
  direct directive d id answer = elim (Replicas.get d.replicas id) [
    | none ↦ fail d dest_unknown
    | some replica ↦ send_directive d directive replica answer
  ]

  unfoldable pub stop_replica : Dispatcher → String → Answer → Outcome (Option DispatchError)
  stop_replica = direct stop_action

  unfoldable pub start_replica : Dispatcher → String → Answer → Outcome (Option DispatchError)
  start_replica = direct start_action

  unfoldable pub restart_replica : Dispatcher → String → Answer → Outcome (Option DispatchError)
  restart_replica = direct restart_action
