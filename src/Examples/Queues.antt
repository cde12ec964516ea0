-- ===== src/Examples/Queues.antt =====
-- The queues of netrix/types/events.go and netrix/types/messages.go with one subscriber.
use tendermint_testing.Base.{
  ℕ, ◌≡◌, ◌≤◌, refl, String, true, List, [], ◌∷◌, ◌++◌, none, some, length, string_eq,
}
use tendermint_testing.Types.Event.{Event, clone}
use tendermint_testing.Types.Messages.{Message}
use tendermint_testing.Types.EventQueue as Events
use tendermint_testing.Types.EventQueue.{EventQueue, new_event_queue, adds, flushes, turns, run}
use tendermint_testing.Types.EventQueue.Dispatch.{
  added, fan_out_all, run-sends_in_order, flush-turn_panics,
}
use tendermint_testing.Types.MessageQueue as Messages
use tendermint_testing.Types.MessageQueue.{MessageQueue, new_message_queue}
use tendermint_testing.Types.MessageQueue.Dispatch.{IsCounted, run-IsCounted, flush_loses_message}
use tendermint_testing.Examples.Graph.{send, receive}

run-sends_in_order_example :
    (q : EventQueue) × (done : List Event) × (left : List Event) × (run
        (record new_event_queue { subscribers = "checker" ∷ [] })
        (adds send ∷ turns ∷ adds receive ∷ turns ∷ [])
      ≡ some q)
    × (added (adds send ∷ turns ∷ adds receive ∷ turns ∷ []) ≡ done ++ left)
    × (q.sent ≡ fan_out_all ("checker" ∷ []) done)
    × (length left ≤ length q.events)
    × (q.size ≡ length q.events)
run-sends_in_order_example =
    run-sends_in_order ("checker" ∷ []) (adds send ∷ turns ∷ adds receive ∷ turns ∷ []) tt

abbrev holding : EventQueue
holding = record {
  events = send ∷ [];
  size = 1;
  subscribers = "checker" ∷ [];
  reading = some send;
  sent = ("checker", send) ∷ [];
}

flush-turn_panics_example : run holding (flushes ∷ turns ∷ []) ≡ none
flush-turn_panics_example = flush-turn_panics holding send refl

abbrev pub message : String → Message ℕ
message id = record {
  from = "a";
  to = "b";
  content = some (1 ∷ []);
  type = "vote";
  id = id;
  intercept = true;
  parsed = none;
  repr = "";
}

abbrev holding_message : MessageQueue ℕ
holding_message = record {
  messages = message "m1" ∷ [];
  size = 1;
  subscribers = "checker" ∷ [];
  enabled = true;
  reading = some (message "m1");
  sent = ("checker", message "m1") ∷ [];
}

run-IsCounted_example :
    (q : MessageQueue ℕ) × (Messages.run holding_message (Messages.flushes ∷ Messages.turns ∷ [])
      ≡ some q)
    × IsCounted q
run-IsCounted_example = run-IsCounted holding_message (Messages.flushes ∷ Messages.turns ∷ []) refl

flush_loses_message_example :
    (q : MessageQueue ℕ) × (Messages.run holding_message
        (Messages.flushes ∷ Messages.adds (message "m2") ∷ Messages.turns ∷ [])
      ≡ some q)
    × (q.messages ≡ [])
    × (q.sent ≡ holding_message.sent)
flush_loses_message_example =
    flush_loses_message holding_message (message "m1") (message "m2") refl refl

-- Two turns send the one event that was added and drop it.
drained :
    run (record new_event_queue { subscribers = "checker" ∷ [] }) (adds send ∷ turns ∷ turns ∷ [])
    ≡ some (record {
      events = [];
      size = 0;
      subscribers = "checker" ∷ [];
      reading = none;
      sent = ("checker", send) ∷ [];
    })
unfolding run new_event_queue clone Events.step Events.add
drained = refl
