-- ===== src/Types/Timeouts/Pending.antt =====
-- TimeoutContext.AddEvent: which keys are pending after a run of events.
use tendermint_testing.Base.{
  ◌≡◌, ◌↔◌, refl, inl, inr, String, Bool, true, false, List, [], ◌∷◌, none, some, arith,
  if◌then◌else◌, ◌==◌, string_eq, Option-cases,
}
use text.Mathlib.TextEquality.{eq_iff}
use tendermint_testing.Base.GoMap.{contains, lookup-insert, lookup-delete}
use tendermint_testing.Types.Event.{
  Event, EventType, message_send, message_receive, timeout_start, timeout_end, generic,
  ReplicaTimeout,
}
use tendermint_testing.Types.Timeouts.{
  TimeoutWrapper, TimeoutContext, new_timeout_wrapper, set_start, set_end, has_ended, key,
  add_typed, add_event, add_events,
}

-- Whether a key is pending after some events: the last event of the key decides.
abbrev pub starts : String → Event → EventType → Bool → Bool
starts k e (timeout_start t) before = if key e.replica t.type == k then true else before
starts k e (timeout_end t) before = if key e.replica t.type == k then false else before
starts k e _ before = before

abbrev pub pending_after : String → List Event → Bool → Bool
pending_after k [] before = before
pending_after k (e ∷ es) before = pending_after k es (starts k e e.type before)

contains-add_typed :
    (c c' : TimeoutContext) (e : Event) (t : EventType) (k : String)
    → add_typed c e t ≡ some c'
    → contains k c' ≡ starts k e t (contains k c)
contains-add_typed c c' e (timeout_start t) k h = ground (
  arith,
  lookup-insert (key e.replica t.type) k (set_start (new_timeout_wrapper t) e) c,
  eq_iff (key e.replica t.type) k,
)
contains-add_typed c c' e (timeout_end t) k h =
    ground (arith, lookup-delete (key e.replica t.type) k c)
contains-add_typed c c' e (message_send m) k h = ground arith
contains-add_typed c c' e (message_receive m) k h = ground arith
contains-add_typed c c' e (generic ps t) k h = ground arith

-- After a run of events that does not panic, a key is pending exactly when it was started after its
-- last end, counting from what was pending before.
pub add_events-pending :
    (c : TimeoutContext) (es : List Event) {c' : TimeoutContext} (k : String)
    → add_events c es ≡ some c'
    → contains k c' ≡ pending_after k es (contains k c)
unfolding add_events add_event
add_events-pending c [] k h = ground arith
add_events-pending c (e ∷ es) {c'} k h = elim (Option-cases (add_typed c e e.type)) [
  | inl stuck ↦ absurd (let gone = rw (stuck, add_events) at h in cc)
  | inr (c1, first) ↦
      let rest : add_events c1 es ≡ some c' = rw (first, add_events) at h in
      rw (← contains-add_typed c c1 e e.type k first) (add_events-pending c1 es k rest)
]

add_typed-none :
    (c : TimeoutContext) (e : Event) (type : EventType)
    → add_typed c e type ≡ none
    → (t : ReplicaTimeout) × (type ≡ timeout_start t) × (contains (key e.replica t.type) c ≡ true)
add_typed-none c e (timeout_start t) h = (t, refl, ground arith)
add_typed-none c e (timeout_end t) h = absurd (cc)
add_typed-none c e (message_send m) h = absurd (cc)
add_typed-none c e (message_receive m) h = absurd (cc)
add_typed-none c e (generic ps t) h = absurd (cc)

-- An event panics exactly when it starts a timeout of a key that is pending.
pub add_event-none_iff :
    (c : TimeoutContext) (e : Event)
    → (add_event c e ≡ none) ↔ (
        (t : ReplicaTimeout) × (e.type ≡ timeout_start t)
        × (contains (key e.replica t.type) c ≡ true))
unfolding add_event
add_event-none_iff c e =
    (add_typed-none c e e.type, λ (t, is_start, known). rw (is_start, add_event, known))

-- HasEnded answers the opposite of its name: false once there is an end event, true before.
pub has_ended_inverted :
    (w : TimeoutWrapper) (e : Event)
    → (has_ended (set_end w e) ≡ false) × (w.end_event ≡ none → has_ended w ≡ true)
unfolding has_ended set_end
has_ended_inverted w e = ground arith
