-- ===== src/Dispatcher/Delivery.antt =====
-- When DispatchMessage of netrix/dispatcher/main.go succeeds, and what it sends then.
use tendermint_testing.Base.{
  ℕ, ◌≤◌, ◌<◌, ◌≡◌, ◌↔◌, refl, String, true, List, [], ◌∷◌, Option, none, some, arith, inl, inr,
  Bool-cases, Option-cases, leb, ltb, ◌&&◌, ◌<>◌, string_eq,
}
use tendermint_testing.Base.GoMap.{lookup}
use tendermint_testing.Types.Replicas as Replicas
use tendermint_testing.Types.Replicas.{Replica}
use tendermint_testing.Types.Messages.{Message}
use tendermint_testing.Dispatcher.{
  Dispatcher, Request, Answer, not_created, no_response, response, Marshal, send_req,
  send_marshalled, dispatch_message, mark,
}

-- A response with a status of success, whose body can be read.
abbrev pub IsSuccess : Answer → Type 0
IsSuccess answer =
    (status : ℕ) × (body : String) × (answer ≡ response status (some body))
    × (200 ≤ status)
    × (status < 300)

-- The bytes are there, the response is a success, and the one request sent is the POST of them.
abbrev pub IsPosted : Replica → String → Option (List ℕ) → Answer → List Request → Type 0
IsPosted to path marshalled answer sent =
    (bytes : List ℕ) × (marshalled ≡ some bytes)
    × IsSuccess answer
    × (sent ≡ record { url = "http://" <> to.addr <> path; body = bytes } ∷ [])

post_bytes :
    (d : Dispatcher) (to : Replica) (path : String) (bytes : List ℕ) (answer : Answer)
    → (send_marshalled d to path (some bytes) answer).result ≡ none
    → IsPosted to path (some bytes) answer (send_marshalled d to path (some bytes) answer).sent
unfolding send_req
post_bytes d to path bytes not_created h = absurd (cc)
post_bytes d to path bytes no_response h = absurd (cc)
post_bytes d to path bytes (response status none) h =
    elim (Bool-cases (leb 200 status && ltb status 300)) [
      | inl e ↦ absurd (let k = rw e at h in cc)
      | inr e ↦ absurd (let k = rw e at h in cc)
    ]
post_bytes d to path bytes (response status (some body)) h =
    elim (Bool-cases (leb 200 status && ltb status 300)) [
      | inl e ↦ (bytes, refl, (status, body, refl, ground arith, ground arith), refl)
      | inr e ↦ absurd (let k = rw e at h in cc)
    ]

post :
    (d : Dispatcher) (to : Replica) (path : String) (marshalled : Option (List ℕ)) (answer : Answer)
    → (send_marshalled d to path marshalled answer).result ≡ none
    → IsPosted to path marshalled answer (send_marshalled d to path marshalled answer).sent
post d to path none answer h = absurd (cc)
post d to path (some bytes) answer h = post_bytes d to path bytes answer h

posted :
    (d : Dispatcher) (to : Replica) (path : String) (marshalled : Option (List ℕ)) (answer : Answer)
    → IsPosted to path marshalled answer (send_marshalled d to path marshalled answer).sent
    → (send_marshalled d to path marshalled answer).result ≡ none
unfolding send_req
posted d to path marshalled answer (bytes, known, (status, body, a, low, high), sent) =
    let success : (leb 200 status && ltb status 300) ≡ true = ground arith in
    rw (known, a, send_marshalled, success) refl

module _ {Parsed : Type 0} (json : Marshal Parsed) where
  -- The message is new, its receiver has registered, and the message is posted to it.
  abbrev pub IsDelivered : Dispatcher → Message Parsed → Answer → List Request → Type 0
  IsDelivered d m answer sent =
      (lookup m.id d.dispatched_messages ≡ none)
      × ((to : Replica) × (Replicas.get d.replicas m.to ≡ some to)
          × IsPosted to "/message" (json.message m) answer sent)

  delivered :
      (d : Dispatcher) (m : Message Parsed) (answer : Answer)
      → (dispatch_message json d m answer).result ≡ none
      → IsDelivered d m answer (dispatch_message json d m answer).sent
  unfolding dispatch_message
  delivered d m answer h = elim (Option-cases (lookup m.id d.dispatched_messages)) [
    | inr (b, e) ↦ absurd (let k = rw (e, dispatch_message) at h in cc)
    | inl e ↦ elim (Option-cases (Replicas.get d.replicas m.to)) [
      | inl unknown ↦ absurd (let k = rw (e, unknown, dispatch_message) at h in cc)
      | inr (to, known) ↦
          let k = rw (e, known, dispatch_message) at h in
          (
            e,
            (
              to,
              known,
              rw (e, known, dispatch_message)
                  (post (mark json d m.id) to "/message" (json.message m) answer k),
            ),
          )
    ]
  ]

  -- DispatchMessage returns nil exactly when the identifier was not handed in before, the receiver
  -- has registered, the message can be marshalled, and the response has a status from 200 to 299 and
  -- a body that can be read; the one request that it then sent is the POST of the message to
  -- /message at the receiver's address.
  pub dispatch_message-none_iff :
      (d : Dispatcher) (m : Message Parsed) (answer : Answer)
      → ((dispatch_message json d m answer).result ≡ none)
        ↔ IsDelivered d m answer (dispatch_message json d m answer).sent
  unfolding dispatch_message
  dispatch_message-none_iff d m answer = (
    delivered d m answer,
    λ h.
        let (e, (to, known, p)) = h in
        rw (e, known, dispatch_message)
          (posted (mark json d m.id) to "/message" (json.message m) answer
            (rw (e, known, dispatch_message) at p)),
  )
