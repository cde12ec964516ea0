-- ===== src/Types/EventQueue/Dispatch.antt =====
-- What the dispatch loop guarantees while nothing flushes the queue, and what a flush between its
-- two halves does.
use mathlib.Core.List.{append_assoc, append-nil}
use tendermint_testing.Base.{
  ◌-◌, ◌≤◌, ◌≡◌, refl, sym, ap, ◌∙◌, String, true, false, List, [], ◌∷◌, ◌++◌, none, some, arith,
  ltb, length, length-append, inl, inr, ◌⊎◌,
}
use tendermint_testing.Types.Event.{Event}
use tendermint_testing.Types.EventQueue.{
  EventQueue, new_event_queue, add, flush, fan_out, read_front, drop_front, turn, Op, adds, flushes,
  subscribes, turns, step, run,
}

-- The sends of several events, in their order.
abbrev pub fan_out_all : List String → List Event → List (String × Event)
fan_out_all labels [] = []
fan_out_all labels (e ∷ es) = fan_out labels e ++ fan_out_all labels es

fan_out_all-append :
    (labels : List String) (xs ys : List Event)
    → fan_out_all labels (xs ++ ys) ≡ fan_out_all labels xs ++ fan_out_all labels ys
fan_out_all-append labels [] ys = refl
fan_out_all-append labels (x ∷ xs) ys =
    rw (fan_out_all-append labels xs ys)
      (sym (append_assoc (fan_out labels x) (fan_out_all labels xs) (fan_out_all labels ys)))

-- The events that a schedule adds.
abbrev pub added : List Op → List Event
added [] = []
added (adds e ∷ ops) = e ∷ added ops
added (flushes ∷ ops) = added ops
added (subscribes l ∷ ops) = added ops
added (turns ∷ ops) = added ops

-- Only adds and turns of the loop.
abbrev pub IsSteady : List Op → Type 0
IsSteady [] = Unit {0}
IsSteady (adds e ∷ ops) = IsSteady ops
IsSteady (flushes ∷ ops) = ⊥
IsSteady (subscribes l ∷ ops) = ⊥
IsSteady (turns ∷ ops) = IsSteady ops

-- `done` was sent, and what was added is `done` and what is left; the front is held if it was read.
pub record Steady (labels : List String) (all : List Event) (q : EventQueue) : Type 0 where
  pub done : List Event
  pub left : List Event
  pub all_eq : all ≡ done ++ left
  pub sent_eq : q.sent ≡ fan_out_all labels done
  pub size_eq : q.size ≡ length q.events
  pub labels_eq : q.subscribers ≡ labels
  pub front :
      ((q.reading ≡ none) × (q.events ≡ left))
      ⊎ ((e : Event) × (q.reading ≡ some e) × (q.events ≡ e ∷ left))

left-le :
    {labels : List String} {all : List Event} {q : EventQueue} (h : Steady labels all q)
    → length h.left ≤ length q.events
left-le h = elim h.front [
  | inl (idle, same) ↦ omega (arith, ap length same)
  | inr (e, held, same) ↦ omega (arith, ap length same)
]

module _ (labels : List String) where
  add-Steady :
      (all : List Event) (q : EventQueue) (e : Event)
      → Steady labels all q
      → Steady labels (all ++ e ∷ []) (add q e)
  unfolding add
  add-Steady all q e h = record {
    done = h.done;
    left = h.left ++ e ∷ [];
    all_eq = ap (λ xs. xs ++ e ∷ []) h.all_eq ∙ append_assoc h.done h.left (e ∷ []);
    sent_eq = h.sent_eq;
    size_eq = omega (arith, h.size_eq, length-append q.events (e ∷ []));
    labels_eq = h.labels_eq;
    front = elim h.front [
      | inl (idle, same) ↦ inl (idle, ap (λ xs. xs ++ e ∷ []) same)
      | inr (x, held, same) ↦ inr (x, held, ap (λ xs. xs ++ e ∷ []) same)
    ];
  }

  read-Steady :
      (all : List Event) (q : EventQueue) (xs : List Event)
      → q.events ≡ xs
      → q.reading ≡ none
      → (h : Steady labels all q) → h.left ≡ xs
      → (q' : EventQueue) × (read_front q ≡ some q') × Steady labels all q'
  unfolding read_front
  read-Steady all q [] here idle h at_left =
      let empty : ltb 0 q.size ≡ false = (let n = ap length here in ground (arith, h.size_eq)) in
      (q, simp (read_front, empty), h)
  read-Steady all q (e ∷ rest) here idle h at_left =
      let busy : ltb 0 q.size ≡ true = (let n = ap length here in ground (arith, h.size_eq)) in
      (
        record q { reading = some e; sent = q.sent ++ fan_out q.subscribers e },
        simp (read_front, busy, here),
        record {
          done = h.done ++ e ∷ [];
          left = rest;
          all_eq = h.all_eq ∙ ap (◌++◌ h.done) at_left ∙ sym (append_assoc h.done (e ∷ []) rest);
          sent_eq =
              ap (λ xs. xs ++ fan_out q.subscribers e) h.sent_eq
              ∙ ap (λ ls. fan_out_all labels h.done ++ fan_out ls e) h.labels_eq
              ∙ sym (
                  fan_out_all-append labels h.done (e ∷ [])
                  ∙ ap (◌++◌ (fan_out_all labels h.done)) (append-nil (fan_out labels e)));
          size_eq = h.size_eq;
          labels_eq = h.labels_eq;
          front = inr (e, refl, here);
        },
      )

  drop-Steady :
      (all : List Event) (q : EventQueue) (e : Event)
      → (h : Steady labels all q) → q.events ≡ e ∷ h.left
      → (q' : EventQueue) × (drop_front q ≡ some q') × Steady labels all q'
  unfolding drop_front
  drop-Steady all q e h here = (
    record q { events = h.left; size = q.size - 1; reading = none },
    rw (here, drop_front),
    record {
      done = h.done;
      left = h.left;
      all_eq = h.all_eq;
      sent_eq = h.sent_eq;
      size_eq = omega (arith, h.size_eq, ap length here);
      labels_eq = h.labels_eq;
      front = inl (refl, refl);
    },
  )

  turn-Steady :
      (all : List Event) (q : EventQueue)
      → Steady labels all q
      → (q' : EventQueue) × (turn q ≡ some q') × Steady labels all q'
  unfolding turn
  turn-Steady all q h = elim h.front [
    | inl (idle, same) ↦
        let (q', q_eq, h') = read-Steady all q h.left same idle h refl in
        (q', simp (turn, idle) q_eq, h')
    | inr (e, held, same) ↦
        let (q', q_eq, h') = drop-Steady all q e h same in (q', rw (held, turn) q_eq, h')
  ]

  run-Steady :
      (ops : List Op) (all : List Event) (q : EventQueue)
      → IsSteady ops
      → Steady labels all q
      → (q' : EventQueue) × (run q ops ≡ some q') × Steady labels (all ++ added ops) q'
  unfolding run step
  run-Steady [] all q s h = (q, refl, rw append-nil h)
  run-Steady (adds e ∷ ops) all q s h =
      let (q', q_eq, h') = run-Steady ops (all ++ e ∷ []) (add q e) s (add-Steady all q e h) in
      (q', q_eq, rw (append_assoc all (e ∷ []) (added ops)) at h')
  run-Steady (flushes ∷ ops) all q s h = absurd s
  run-Steady (subscribes l ∷ ops) all q s h = absurd s
  run-Steady (turns ∷ ops) all q s h =
      let (q1, q1_eq, h1) = turn-Steady all q h in
      let (q', q_eq, h') = run-Steady ops all q1 s h1 in (q', rw (q1_eq, run) q_eq, h')

-- From an empty queue with any subscribers, while the queue is only added to and its loop runs,
-- whatever the order of the steps, nothing panics, the size is right, and for each event that was
-- added one send to every subscriber is started, in the order of the adds, but for those that are
-- still in the queue.
pub run-sends_in_order :
    (labels : List String) (ops : List Op)
    → IsSteady ops
    → (q' : EventQueue) × (done : List Event) × (left : List Event) × (run
          (record new_event_queue { subscribers = labels })
          ops
        ≡ some q')
      × (added ops ≡ done ++ left)
      × (q'.sent ≡ fan_out_all labels done)
      × (length left ≤ length q'.events)
      × (q'.size ≡ length q'.events)
unfolding new_event_queue
run-sends_in_order labels ops s =
    let (q', q_eq, h) =
      run-Steady labels ops [] (record new_event_queue { subscribers = labels }) s
        (record {
          done = [];
          left = [];
          all_eq = refl;
          sent_eq = refl;
          size_eq = refl;
          labels_eq = refl;
          front = inl (refl, refl);
        }) in
    (q', h.done, h.left, q_eq, h.all_eq, h.sent_eq, left-le h, h.size_eq)

-- Once the loop has read the front, a flush before the second half of its turn makes that half
-- panic.
pub flush-turn_panics :
    (q : EventQueue) (e : Event) → q.reading ≡ some e → run q (flushes ∷ turns ∷ []) ≡ none
unfolding run step flush
flush-turn_panics q e h = rw (h, turn)
