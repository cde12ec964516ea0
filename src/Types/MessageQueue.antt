-- ===== src/Types/MessageQueue.antt =====
-- netrix/types/messages.go: the message queue. It is the event queue's sibling, but it can be
-- disabled, and the second half of a turn of its loop is Pop, which tests the size again.
pub mod Dispatch
use tendermint_testing.Base.{
  ℕ, zero, suc, ◌+◌, ◌-◌, ◌≡◌, refl, String, Bool, true, false, List, [], ◌∷◌, ◌++◌, map, Option,
  none, some, if◌then◌else◌, ltb, not, ◌==◌, string_eq,
}
use tendermint_testing.Types.Messages.{Message, clone}
use tendermint_testing.Types.EventQueue.{has_label}

module _ {P : Type 0} where
  -- The copies of one message for the subscribers.
  abbrev pub copies : List String → Message P → List (String × Message P)
  copies labels m = map (λ l. (l, clone m)) labels

pub record MessageQueue (P : Type 0) : Type 0 where
  pub messages : List (Message P)
  pub size : ℕ
  pub subscribers : List String
  pub enabled : Bool
  pub reading : Option (Message P)
  pub sent : List (String × Message P)

pub data Op (P : Type 0) : Type 0 where
  adds : Message P → Op P
  pops flushes disables enables turns : Op P
  subscribes : String → Op P

unfoldable pub new_message_queue : (P : Type 0) → MessageQueue P
new_message_queue P = record {
  messages = [];
  size = 0;
  subscribers = [];
  enabled = true;
  reading = none;
  sent = [];
}

module _ {P : Type 0} where
  unfoldable pub add : MessageQueue P → Message P → MessageQueue P
  add q m =
      if not q.enabled then q else record q { messages = q.messages ++ m ∷ []; size = q.size + 1 }

  -- The first message and the rest; messages[0] of an empty slice panics.
  abbrev pub pop_front :
      MessageQueue P → List (Message P) → Option (MessageQueue P × Option (Message P))
  pop_front q [] = none
  pop_front q (m ∷ rest) = some (record q { size = q.size - 1; messages = rest }, some m)

  unfoldable pub pop : MessageQueue P → Option (MessageQueue P × Option (Message P))
  pop q = if ltb q.size 1 then some (q, none) else pop_front q q.messages

  unfoldable pub flush : MessageQueue P → MessageQueue P
  flush q = record q { messages = []; size = 0 }

  unfoldable pub restart : MessageQueue P → MessageQueue P
  unfolding flush
  restart q = flush q

  unfoldable pub disable : MessageQueue P → MessageQueue P
  disable q = record q { enabled = false }

  unfoldable pub enable : MessageQueue P → MessageQueue P
  enable q = record q { enabled = true }

  unfoldable pub subscribe : MessageQueue P → String → MessageQueue P
  subscribe q label =
      if has_label label q.subscribers
      then q
      else record q { subscribers = q.subscribers ++ label ∷ [] }

  abbrev pub start_sends : MessageQueue P → List (Message P) → Option (MessageQueue P)
  start_sends q [] = none
  start_sends q (m ∷ rest) =
      some (record q { reading = some m; sent = q.sent ++ copies q.subscribers m })

  unfoldable pub read_front : MessageQueue P → Option (MessageQueue P)
  read_front q = if ltb 0 q.size then start_sends q q.messages else some q

  -- A step of the dispatch loop: it reads, or it pops and throws the result away.
  unfoldable pub turn : MessageQueue P → Option (MessageQueue P)
  unfolding read_front pop
  turn q = elim q.reading [
    | none ↦ read_front q
    | some m ↦ elim (pop q) [ none ↦ none | some (q', front) ↦ some (record q' { reading = none }) ]
  ]

  unfoldable pub step : MessageQueue P → Op P → Option (MessageQueue P)
  unfolding pop turn
  step q (adds m) = some (add q m)
  step q pops = elim (pop q) [ none ↦ none | some (q', front) ↦ some q' ]
  step q flushes = some (flush q)
  step q disables = some (disable q)
  step q enables = some (enable q)
  step q turns = turn q
  step q (subscribes l) = some (subscribe q l)

  unfoldable pub run : MessageQueue P → List (Op P) → Option (MessageQueue P)
  run q [] = some q
  run q (op ∷ ops) = elim (step q op) [ none ↦ none | some q' ↦ run q' ops ]
