-- ===== src/Types/EventQueue.antt =====
-- netrix/types/events.go: the event queue and its dispatch loop. The loop's turn is not one step:
-- it reads the front under the lock, starts a send to each subscriber, and takes the lock again to
-- drop the front, so other calls come in between. A schedule lists the steps in the order taken.
-- The channels belong to the runtime: `sent` lists the sends that were started, by subscriber.
pub mod Dispatch
use tendermint_testing.Base.{
  ℕ, zero, suc, ◌+◌, ◌-◌, ◌≡◌, refl, String, Bool, true, false, List, [], ◌∷◌, ◌++◌, map, Option,
  none, some, if◌then◌else◌, ltb, ◌==◌, string_eq,
}
use tendermint_testing.Types.Event.{Event, clone}

-- The queue, its subscribers by label, and where the dispatch loop stands: the front it has read.
pub record EventQueue : Type 0 where
  pub events : List Event
  pub size : ℕ
  pub subscribers : List String
  pub reading : Option Event
  pub sent : List (String × Event)

unfoldable pub new_event_queue : EventQueue
new_event_queue = record { events = []; size = 0; subscribers = []; reading = none; sent = [] }

unfoldable pub add : EventQueue → Event → EventQueue
add q m = record q { events = q.events ++ m ∷ []; size = q.size + 1 }

unfoldable pub flush : EventQueue → EventQueue
flush q = record q { events = []; size = 0 }

unfoldable pub restart : EventQueue → EventQueue
unfolding flush
restart q = flush q

unfoldable pub has_label : String → List String → Bool
has_label l [] = false
has_label l (x ∷ xs) = if x == l then true else has_label l xs

-- A label that is known gets the channel that it has.
unfoldable pub subscribe : EventQueue → String → EventQueue
subscribe q label =
    if has_label label q.subscribers
    then q
    else record q { subscribers = q.subscribers ++ label ∷ [] }

-- The sends of one event, a copy for each subscriber.
abbrev pub fan_out : List String → Event → List (String × Event)
fan_out labels e = map (λ l. (l, clone e)) labels

-- The first half of a turn: messages[0] of an empty slice panics, and nothing happens while the
-- size is 0.
abbrev pub start_sends : EventQueue → List Event → Option EventQueue
start_sends q [] = none
start_sends q (e ∷ rest) =
    some (record q { reading = some e; sent = q.sent ++ fan_out q.subscribers e })

unfoldable pub read_front : EventQueue → Option EventQueue
read_front q = if ltb 0 q.size then start_sends q q.events else some q

-- The second half, which drops the front without a test: q.events[1:] of an empty slice panics.
unfoldable pub drop_front : EventQueue → Option EventQueue
drop_front q = elim q.events [
  | [] ↦ none
  | e ∷ rest ↦ some (record q { events = rest; size = q.size - 1; reading = none })
]

-- The loop takes whichever half is due.
unfoldable pub turn : EventQueue → Option EventQueue
unfolding read_front drop_front
turn q = elim q.reading [ none ↦ read_front q | some e ↦ drop_front q ]

pub data Op : Type 0 where
  adds : Event → Op
  flushes : Op
  subscribes : String → Op
  turns : Op

unfoldable pub step : EventQueue → Op → Option EventQueue
unfolding turn
step q (adds e) = some (add q e)
step q flushes = some (flush q)
step q (subscribes l) = some (subscribe q l)
step q turns = turn q

unfoldable pub run : EventQueue → List Op → Option EventQueue
run q [] = some q
run q (op ∷ ops) = elim (step q op) [ none ↦ none | some q' ↦ run q' ops ]
