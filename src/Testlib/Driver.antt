-- ===== src/Testlib/Driver.antt =====
-- netrix/testlib/driver.go and testcase.go: how a test case is put together, and one step of it. `none` is a panic.
pub mod Pool
use mathlib.Core.Option
use tendermint_testing.Base.{
  ◌≡◌, String, Bool, true, false, List, [], ◌∷◌, Option, none, some, if◌then◌else◌, string_eq,
}
use tendermint_testing.Types.Event.{Event}
use tendermint_testing.Types.Messages as Messages
use tendermint_testing.Types.Messages.{Message, MessageStore}
use tendermint_testing.Types.Reports as Reports
use tendermint_testing.Testlib.Context.{Context, Run, TestCase, set_event}
use tendermint_testing.Testlib.Machine.{StateMachine, handler, in_success_state}
use tendermint_testing.Testlib.Filters.{FilterSet, add_state_machine, handle_event}

module _ {P : Type 0} where
  -- The machine's handler comes before the filters; `run` is the run that the machine was made with.
  unfoldable pub new_test_case :
      String → Run → StateMachine P → FilterSet P → TestCase × FilterSet P
  unfolding add_state_machine
  new_test_case name run sm cascade = (
    record { name = name; run = run; aborted = false; done = false },
    add_state_machine cascade (handler sm),
  )

  -- TestCase.assert
  unfoldable pub assert_success : StateMachine P → Context P → Bool
  unfolding in_success_state
  assert_success sm c = in_success_state sm c

  -- The messages that the pool does not have are added to it.
  unfoldable pub add_missing : MessageStore P → List (Message P) → MessageStore P
  unfolding Messages.add Messages.exists
  add_missing pool [] = pool
  add_missing pool (m ∷ ms) =
      add_missing (if Messages.exists pool m.id then pool else (Messages.add pool m).0) ms

  abbrev pub reported : String → Context P → Event → Context P
  reported name c e = record c {
    report_store = Reports.log c.report_store (
        ("testcase", name)
        ∷ ("type", "event")
        ∷ ("replica", e.replica)
        ∷ ("event_type", e.type_s)
        ∷ []);
  }

  abbrev pub pool_messages : List (Message P) × Context P → List (Message P) × Context P
  pool_messages (ms, c) = (ms, record c { message_pool = add_missing c.message_pool ms })

  unfoldable pub step : FilterSet P → Context P → Event → Option (List (Message P) × Context P)
  unfolding add_missing Reports.log
  step cascade c e =
      Option.map (λ c'. pool_messages (handle_event cascade e c'))
        (set_event (reported c.testcase.name c e) e)
