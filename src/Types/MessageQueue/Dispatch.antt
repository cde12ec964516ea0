-- ===== src/Types/MessageQueue/Dispatch.antt =====
-- The message queue never panics, whatever comes between the halves of a turn; but a flush there
-- can make the loop throw away a message that it has not sent.
use tendermint_testing.Base.{
  ◌-◌, ◌<◌, ◌≡◌, refl, ap, true, false, List, [], ◌∷◌, ◌++◌, Option, none, some, arith, ltb, length,
  length-append, Bool-cases, Option-cases, inl, inr,
}
use tendermint_testing.Types.Messages.{Message}
use tendermint_testing.Types.MessageQueue.{
  MessageQueue, Op, adds, pops, flushes, disables, enables, turns, subscribes, add, pop, pop_front,
  flush, disable, enable, subscribe, read_front, turn, step, run, copies,
}

module _ {P : Type 0} where
  -- The size that the queue keeps is the number of its messages.
  abbrev pub IsCounted : MessageQueue P → Type 0
  IsCounted q = q.size ≡ length q.messages

  add-IsCounted : (q : MessageQueue P) (m : Message P) → IsCounted q → IsCounted (add q m)
  unfolding add
  add-IsCounted q m h = ground (arith, length-append q.messages (m ∷ []))

  pop_front-IsCounted :
      (q : MessageQueue P) (ms : List (Message P))
      → q.messages ≡ ms
      → IsCounted q
      → 0 < q.size
      → (q' : MessageQueue P) × (front : Option (Message P)) × (pop_front q ms ≡ some (q', front))
        × IsCounted q'
  pop_front-IsCounted q [] e h n = absurd (omega (arith, ap length e))
  pop_front-IsCounted q (m ∷ ms) e h n =
      (record q { size = q.size - 1; messages = ms }, some m, refl, omega (arith, ap length e))

  pub pop-IsCounted :
      (q : MessageQueue P)
      → IsCounted q
      → (q' : MessageQueue P) × (front : Option (Message P)) × (pop q ≡ some (q', front))
        × IsCounted q'
  unfolding pop
  pop-IsCounted q h = elim (Bool-cases (ltb q.size 1)) [
    | inl empty ↦ (q, none, simp (pop, empty), h)
    | inr busy ↦
        let (q', front, eq, h') = pop_front-IsCounted q q.messages refl h (ground arith) in
        (q', front, simp (pop, busy) eq, h')
  ]

  read_front-IsCounted :
      (q : MessageQueue P) (ms : List (Message P))
      → q.messages ≡ ms
      → IsCounted q
      → (q' : MessageQueue P) × (read_front q ≡ some q') × IsCounted q'
  unfolding read_front
  read_front-IsCounted q [] e h =
      let empty : ltb 0 q.size ≡ false = (let n = ap length e in ground arith) in
      (q, simp (read_front, empty), h)
  read_front-IsCounted q (m ∷ ms) e h =
      let busy : ltb 0 q.size ≡ true = (let n = ap length e in ground arith) in
      (
        record q { reading = some m; sent = q.sent ++ copies q.subscribers m },
        simp (read_front, busy, e),
        h,
      )

  turn-IsCounted :
      (q : MessageQueue P) → IsCounted q → (q' : MessageQueue P) × (turn q ≡ some q') × IsCounted q'
  unfolding turn
  turn-IsCounted q h = elim (Option-cases q.reading) [
    | inl idle ↦
        let (q', eq, h') = read_front-IsCounted q q.messages refl h in
        (q', simp (turn, idle) eq, h')
    | inr (m, held) ↦
        let (q', front, eq, h') = pop-IsCounted q h in
        (record q' { reading = none }, simp (turn, held, eq), h')
  ]

  step-IsCounted :
      (q : MessageQueue P) (op : Op P)
      → IsCounted q
      → (q' : MessageQueue P) × (step q op ≡ some q') × IsCounted q'
  unfolding step flush disable enable subscribe
  step-IsCounted q (adds m) h = (add q m, refl, add-IsCounted q m h)
  step-IsCounted q pops h = let (q', front, eq, h') = pop-IsCounted q h in (q', simp (step, eq), h')
  step-IsCounted q flushes h = (flush q, refl, refl)
  step-IsCounted q disables h = (disable q, refl, h)
  step-IsCounted q enables h = (enable q, refl, h)
  step-IsCounted q turns h = turn-IsCounted q h
  step-IsCounted q (subscribes l) h = (subscribe q l, refl, ground arith)

  -- From any queue whose size is right, no schedule of calls and turns panics, flushes included, and
  -- the size stays right.
  pub run-IsCounted :
      (q : MessageQueue P) (ops : List (Op P))
      → IsCounted q
      → (q' : MessageQueue P) × (run q ops ≡ some q') × IsCounted q'
  unfolding run
  run-IsCounted q [] h = (q, refl, h)
  run-IsCounted q (op ∷ ops) h =
      let (q1, eq1, h1) = step-IsCounted q op h in
      let (q', eq, h') = run-IsCounted q1 ops h1 in (q', simp (run, eq1) eq, h')

  -- When an enabled queue is flushed after its loop has read the front, and another message
  -- arrives before the second half of the turn, the loop pops that message, and no send of it is
  -- started.
  pub flush_loses_message :
      (q : MessageQueue P) (m1 m2 : Message P)
      → q.reading ≡ some m1
      → q.enabled ≡ true
      → (q' : MessageQueue P) × (run q (flushes ∷ adds m2 ∷ turns ∷ []) ≡ some q')
        × (q'.messages ≡ [])
        × (q'.sent ≡ q.sent)
  unfolding run step flush add
  flush_loses_message q m1 m2 held on =
      (record q { messages = []; size = 0; reading = none }, ground arith, refl, refl)
