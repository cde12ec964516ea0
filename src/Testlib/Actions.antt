-- ===== src/Testlib/Actions.antt =====
-- netrix/testlib/actions.go: what a filter does when its condition holds. An action returns messages
-- to deliver, and the context that it leaves.
pub mod Counters
pub mod Once
use tendermint_testing.Base.{
  ℕ, ◌≡◌, String, Bool, true, false, List, [], ◌∷◌, ◌++◌, Option, none, some, if◌then◌else◌,
  get_elem?, set, modify, string_eq,
}
use tendermint_testing.Types.Event as Event
use tendermint_testing.Types.Event.{Event, message_id}
use tendermint_testing.Types.Messages as Messages
use tendermint_testing.Types.Messages.{Message, MessageStore}
use tendermint_testing.Testlib.Vars as Vars
use tendermint_testing.Testlib.Vars.{VarSet, message, set_var, set_at}
use tendermint_testing.Testlib.Context.{Context, get_message, get_from}
use tendermint_testing.Testlib.Conditions.{Condition, is_done}
use tendermint_testing.Testlib.Wrappers.{CountWrapper, SetWrapper}

abbrev pub Action : Type 0 → Type 0
Action P = Event → Context P → List (Message P) × Context P

-- A FilterFunc: the messages, whether the event was handled, and the context.
abbrev pub FilterFunc : Type 0 → Type 0
FilterFunc P = Event → Context P → (List (Message P) × Bool) × Context P

module _ {P : Type 0} where
  abbrev pub append_to :
      List (Message P) → List (Message P) × Context P → List (Message P) × Context P
  append_to ms (ns, c) = (ms ++ ns, c)

  abbrev result_of : List (Message P) × Context P → List (Message P)
  result_of (ms, c) = ms

  abbrev context_of : List (Message P) × Context P → Context P
  context_of (ms, c) = c

  -- The actions in their order, each in the context that the one before leaves.
  unfoldable pub run_actions : List (Action P) → Event → Context P → List (Message P) × Context P
  run_actions [] e c = ([], c)
  run_actions (a ∷ actions) e c =
      append_to (result_of (a e c)) (run_actions actions e (context_of (a e c)))

  abbrev pub handled : List (Message P) × Context P → (List (Message P) × Bool) × Context P
  handled (ms, c) = ((ms, true), c)

  abbrev pub then_run :
      List (Action P) → Event → Bool × Context P → (List (Message P) × Bool) × Context P
  then_run actions e (true, c) = handled (run_actions actions e c)
  then_run actions e (false, c) = (([], false), c)

  -- If(cond).Then(actions...)
  unfoldable pub if_then : Condition P → List (Action P) → FilterFunc P
  unfolding run_actions
  if_then cond actions e c = then_run actions e (cond e c)

  abbrev pub as_messages : Option (Message P) → List (Message P)
  as_messages none = []
  as_messages (some m) = m ∷ []

  unfoldable pub deliver_message : Action P
  deliver_message e c = elim (Event.is_message_send e) [
    | false ↦ ([], c)
    | true ↦ (as_messages (get_from c.message_pool (message_id e)), c)
  ]

  unfoldable pub drop_message : Action P
  drop_message e c = ([], c)

  abbrev incr_cell : Option ℕ × Context P → List (Message P) × Context P
  incr_cell (none, c) = ([], c)
  incr_cell (some n, c) = ([], record c { vars = Vars.incr c.vars n })

  unfoldable pub incr : CountWrapper P → Action P
  unfolding Vars.incr
  incr w e c = incr_cell (w e c)

  abbrev add_message : Message P → MessageStore P → MessageStore P
  add_message m s = (Messages.add s m).0

  abbrev store_in : Event → Option ℕ × Context P → List (Message P) × Context P
  store_in e (none, c) = ([], c)
  store_in e (some s, c) = elim (get_message c e) [
    | none ↦ ([], c)
    | some m ↦
        ([], record c { vars = record c.vars { sets = modify (add_message m) c.vars.sets s } })
  ]

  unfoldable pub store : SetWrapper P → Action P
  store w e c = store_in e (w e c)

  abbrev values_of : Option (MessageStore P) → List (Message P)
  values_of none = []
  values_of (some s) = Messages.iter s

  abbrev deliver_from : Option ℕ × Context P → List (Message P) × Context P
  deliver_from (none, c) = ([], c)
  deliver_from (some s, c) = (
    values_of (set_at c.vars s),
    record c { vars = record c.vars { sets = modify Messages.remove_all c.vars.sets s } },
  )

  unfoldable pub deliver_all : SetWrapper P → Action P
  unfolding set_at
  deliver_all w e c = deliver_from (w e c)

  unfoldable pub record_message_as : String → Action P
  unfolding set_var
  record_message_as label e c = elim (get_message c e) [
    | none ↦ ([], c)
    | some m ↦ ([], record c { vars = set_var c.vars label (message m) })
  ]

  -- The flag is set before the action runs.
  unfoldable pub once_action : ℕ → Action P → Action P
  once_action i action e c = elim (is_done c i) [
    | true ↦ ([], c)
    | false ↦ action e (record c { once_done = set c.once_done i true })
  ]
