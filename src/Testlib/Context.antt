-- ===== src/Testlib/Context.antt =====
-- netrix/testlib/context.go, testcase.go and sm.go's run: the state that the steps of a test case
-- share. A step is handed a pointer to the context in Go and changes it; here it returns the new one.
-- What closures keep for themselves, the `done` of each Once, is part of the context too.
use mathlib.Core.Option
use tendermint_testing.Base.{
  ℕ, ◌+◌, String, Bool, true, not, ◌&&◌, List, [], ◌∷◌, ◌++◌, Option, none, some, ◌<>◌,
  if◌then◌else◌, ◌⊎◌, inl, inr, string_eq,
}
use tendermint_testing.Base.GoMap.{GoMap, lookup, insert}
use tendermint_testing.Types.Event.{
  Event, EventType, message_send, message_receive, message_id, is_message_send, is_message_receive,
}
use tendermint_testing.Types.Replicas.{ReplicaStore}
use tendermint_testing.Types.Dag.{EventDag, new_event_dag, add_node}
use tendermint_testing.Types.Messages.{Message, MessageStore}
use tendermint_testing.Types.Reports as Reports
use tendermint_testing.Types.Reports.{ReportStore}
use tendermint_testing.Testlib.Partition.{ReplicaPartition, PartitionError, new_partition}
use tendermint_testing.Testlib.Vars.{VarSet, partition, new_var_set, set_var}

-- The state of a machine's run is a pointer to one of the machine's states: the label names it.
pub record Run : Type 0 where
  pub cur_state : String
  pub transitions : List String

unfoldable pub new_run : String → Run
new_run start = record { cur_state = start; transitions = start ∷ [] }

unfoldable pub transition : Run → String → Run
transition r to = record { cur_state = to; transitions = r.transitions ++ to ∷ [] }

-- The parts of a test case that a step changes or reads. `done` says that doneCh is closed, which the
-- test case's Once does a single time.
pub record TestCase : Type 0 where
  pub name : String
  pub run : Run
  pub aborted : Bool
  pub done : Bool

unfoldable pub end_test : TestCase → TestCase
end_test t = record t { done = true }

unfoldable pub abort_test : TestCase → TestCase
abort_test t = record t { aborted = true; done = true }

pub record Context (P : Type 0) : Type 0 where
  pub message_pool : MessageStore P
  pub replicas : ReplicaStore
  pub event_dag : EventDag
  pub vars : VarSet P
  pub counter : ℕ
  pub testcase : TestCase
  pub report_store : ReportStore
  pub sends : GoMap String Event
  pub once_done : List Bool

abbrev pub partition_key : String
partition_key = "_partition"

abbrev as_list : Option Event → List Event
as_list none = []
as_list (some e) = e ∷ []

-- The parents of an event, and the sends after it.
abbrev pub parents_of : GoMap String Event → Event → EventType → List Event × GoMap String Event
parents_of sends e (message_receive m) = (as_list (lookup m sends), sends)
parents_of sends e (message_send m) = ([], insert m e sends)
parents_of sends e _ = ([], sends)

module _ {P : Type 0} where
  -- The flags are those of the Once conditions and actions that the test case was built with.
  unfoldable pub new_context :
      MessageStore P → ReplicaStore → ReportStore → TestCase → List Bool → Option (Context P)
  new_context pool replicas reports testcase flags = elim (new_event_dag replicas) [
    | none ↦ none
    | some d ↦ some (record {
      message_pool = pool;
      replicas = replicas;
      event_dag = d;
      vars = new_var_set P;
      counter = 0;
      testcase = testcase;
      report_store = reports;
      sends = [];
      once_done = flags;
    })
  ]

  abbrev keep_partition : Context P → PartitionError ⊎ ReplicaPartition → Context P
  keep_partition c (inl e) = c
  keep_partition c (inr p) = record c { vars = set_var c.vars partition_key (partition p) }

  -- `none` is a panic.
  unfoldable pub create_partition : Context P → List ℕ → List String → Option (Context P)
  unfolding set_var
  create_partition c sizes labels =
      Option.map (keep_partition c) (new_partition c.replicas sizes labels)

  unfoldable pub abort : Context P → Context P
  unfolding abort_test
  abort c = record c { testcase = abort_test c.testcase }

  unfoldable pub end_test_case : Context P → Context P
  unfolding end_test
  end_test_case c = record c { testcase = end_test c.testcase }

  -- `decimal` is fmt's %d.
  unfoldable pub new_message :
      (ℕ → String) → Context P → Message P → Option (List ℕ) → Context P × Message P
  new_message decimal c cur content = (
    record c { counter = (c.counter + 1) },
    record {
      from = cur.from;
      to = cur.to;
      content = content;
      type = cur.type;
      id = cur.from <> ("_" <> (cur.to <> ("_change" <> decimal c.counter)));
      intercept = cur.intercept;
      parsed = none;
      repr = "";
    },
  )

  abbrev pub get_from : MessageStore P → Option String → Option (Message P)
  get_from pool none = none
  get_from pool (some id) = lookup id pool

  unfoldable pub get_message : Context P → Event → Option (Message P)
  get_message c e =
      if not (is_message_send e) && not (is_message_receive e)
      then none
      else get_from c.message_pool (message_id e)

  unfoldable pub log : Context P → GoMap String String → Context P
  log c key_vals = record c {
    report_store = Reports.log c.report_store (insert "testcase" c.testcase.name key_vals);
  }

  -- `none` is a panic.
  unfoldable pub set_event : Context P → Event → Option (Context P)
  set_event c e =
      let (parents, sends) = parents_of c.sends e e.type in
      Option.map (λ d. record c { event_dag = d; sends = sends })
        (add_node c.replicas c.event_dag e parents)
