-- ===== src/Examples/TestCases.antt =====
-- A test case of netrix/testlib that waits for message "m" to be received.
use tendermint_testing.Base.{
  ℕ, ◌≤◌, ◌≡◌, ◌≢◌, refl, String, true, false, List, [], ◌∷◌, ◌++◌, some, if◌then◌else◌, ◌==◌,
  string_eq, nat_eq, arith, All,
}
use tendermint_testing.Base.GoMap.{lookup, contains}
use tendermint_testing.Base.Int.{incr_int}
use tendermint_testing.Types.Event as Event
use tendermint_testing.Types.Event.{Event, message_id}
use tendermint_testing.Types.Replicas.{Replica}
use tendermint_testing.Types.Dag.History.{Built}
use tendermint_testing.Types.Messages as Messages
use tendermint_testing.Types.Messages.{Message}
use tendermint_testing.Types.Reports.{new_report_store}
use tendermint_testing.Testlib.Vars.{new_var_set, get_counter}
use tendermint_testing.Testlib.Context.{Context, new_run, set_event}
use tendermint_testing.Testlib.Conditions.{is_message_send, is_message_receive, once_condition}
use tendermint_testing.Testlib.Wrappers.{count}
use tendermint_testing.Testlib.Actions as Actions
use tendermint_testing.Testlib.Actions.{
  if_then, deliver_message, drop_message, once_action, as_messages,
}
use tendermint_testing.Testlib.Actions.Once.{hits, once_condition-hits}
use tendermint_testing.Testlib.Actions.Counters.{IsUnaliased, counter_value, incr-count}
use tendermint_testing.Testlib.Filters.{cascade}
use tendermint_testing.Testlib.Filters.{FilterSet, new_filter_set, add_filter, handle_event}
use tendermint_testing.Testlib.Filters.Cascade.{handle_event-first}
use tendermint_testing.Testlib.Machine.{
  StateMachine, StateMachineBuilder, new_state_machine, builder, on, handler, start_state_label,
  fail_state_label, success_state_label,
}
use tendermint_testing.Testlib.Machine.Building.{IsWired, new_state_machine-IsWired, on-IsWired}
use tendermint_testing.Testlib.Machine.Running.{
  KeepsTest, ReadsOnly, Follows, start, handle, Reached-Follows, handler_aborts,
}
use tendermint_testing.Testlib.Machine.Reading.{on-ReadsOnly, new_state_machine-ReadsOnly}
use tendermint_testing.Base.GoMap.{insert}
use tendermint_testing.Testlib.Conditions.{Condition}
use tendermint_testing.Testlib.Machine as Machine
use tendermint_testing.Testlib.Machine.{State, empty_state, with_transition}
use tendermint_testing.Testlib.Machine.Choice.{step_first}
use tendermint_testing.Testlib.Vars as Vars
use tendermint_testing.Testlib.Vars.{text}
use tendermint_testing.Testlib.Context.{transition}
use tendermint_testing.Testlib.Driver.{assert_success, step, reported}
use tendermint_testing.Types.Dag.{add_node}
use tendermint_testing.Types.Dag.Grown.{Grows}
use tendermint_testing.Testlib.Context.{parents_of}
use tendermint_testing.Testlib.Driver.Pool.{step_total}
use tendermint_testing.Examples.Cluster.{replica, pair, pair-IsComplete}
use tendermint_testing.Examples.Graph.{run, send, receive, d1, d1-Built}
use tendermint_testing.Examples.Queues.{message}

abbrev received : StateMachineBuilder ℕ
received = on (builder (new_state_machine ℕ)) is_message_receive success_state_label

on-IsWired_example :
    IsWired received.machine × (contains received.cur_state received.machine.states ≡ true)
unfolding builder
on-IsWired_example =
    on-IsWired (builder (new_state_machine ℕ)) is_message_receive success_state_label
      (new_state_machine-IsWired ℕ)

abbrev machine : StateMachine ℕ
machine = received.machine

abbrev context : Context ℕ
context = record {
  message_pool = ("m", message "m") ∷ [];
  replicas = pair;
  event_dag = d1;
  vars = new_var_set ℕ;
  counter = 0;
  testcase = record {
    name = "receive";
    run = new_run start_state_label;
    aborted = false;
    done = false;
  };
  report_store = new_report_store;
  sends = ("m", send) ∷ [];
  once_done = false ∷ [];
}

start_reads : KeepsTest {P = ℕ} is_message_receive
unfolding is_message_receive
start_reads e c = refl

machine-IsWired : IsWired machine
unfolding builder
machine-IsWired =
    (on-IsWired (builder (new_state_machine ℕ)) is_message_receive success_state_label
      (new_state_machine-IsWired ℕ)).0

machine-ReadsOnly : ReadsOnly machine
unfolding builder
machine-ReadsOnly =
    on-ReadsOnly (builder (new_state_machine ℕ)) is_message_receive success_state_label start_reads
      (new_state_machine-ReadsOnly ℕ)

abbrev stepped : Context ℕ
stepped = (handler machine receive context).1

Reached-Follows_example :
    Follows machine stepped.testcase.run.transitions stepped.testcase.run.cur_state
Reached-Follows_example =
    Reached-Follows machine machine-IsWired machine-ReadsOnly
      (handle context receive (start refl) refl)

handler_aborts_example :
    ((handler machine receive context).0 ≡ ([], false))
    × (stepped.testcase.run.cur_state ≡ fail_state_label
        → (stepped.testcase.aborted ≡ true) × (stepped.testcase.done ≡ true))
    × (stepped.testcase.run.cur_state ≢ fail_state_label
        → (stepped.testcase.aborted ≡ context.testcase.aborted)
          × (stepped.testcase.done ≡ context.testcase.done))
handler_aborts_example = handler_aborts machine machine-IsWired machine-ReadsOnly receive context

receive_keeps : (e : Event) (c : Context ℕ) → (is_message_receive e c).1.once_done ≡ c.once_done
unfolding is_message_receive
receive_keeps e c = refl

deliver_keeps : (e : Event) (c : Context ℕ) → (deliver_message e c).1.once_done ≡ c.once_done
unfolding deliver_message
deliver_keeps e c = ground arith

once_condition-hits_example :
    hits (once_condition 0 is_message_receive) (receive ∷ send ∷ receive ∷ []) context ≤ 1
once_condition-hits_example =
    once_condition-hits 0 is_message_receive receive_keeps (receive ∷ send ∷ receive ∷ []) context
      (omega arith)

no_counters : IsUnaliased (new_var_set ℕ)
unfolding get_counter new_var_set lookup
no_counters = record { bound = λ l n e. absurd (cc); distinct = λ l k n e f. absurd (cc) }

incr-count_example :
    ((Actions.incr (count "votes") send context).0 ≡ [])
    × ((l : String)
        → counter_value (Actions.incr (count "votes") send context).1.vars l ≡ (
            if "votes" == l
            then incr_int (counter_value context.vars "votes")
            else counter_value context.vars l))
    × IsUnaliased (Actions.incr (count "votes") send context).1.vars
incr-count_example = incr-count context "votes" send no_counters

abbrev dropping : FilterSet ℕ
dropping = add_filter (new_filter_set ℕ) (if_then is_message_send (drop_message ∷ []))

handle_event-first_example :
    (dropping.filters ≡ [] ++ if_then is_message_send (drop_message ∷ []) ∷ []
      → (if_then is_message_send (drop_message ∷ []) send context).0.1 ≡ true
      → handle_event dropping send context ≡ (
        (if_then is_message_send (drop_message ∷ []) send context).0.0,
        (if_then is_message_send (drop_message ∷ []) send context).1,
      ))
    × (dropping.filters ≡ []
        → handle_event dropping send context
          ≡ ((dropping.default_filter send context).0.0, (dropping.default_filter send context).1))
handle_event-first_example =
    handle_event-first dropping [] [] (if_then is_message_send (drop_message ∷ [])) send context
      refl

abbrev self : Replica
self = record (replica "b" false) { index = 1 }

step_total_example :
    (c1 : Context ℕ) × (ms : List (Message ℕ)) × (c2 : Context ℕ) × (set_event
        (reported context.testcase.name context receive)
        receive
      ≡ some c1)
    × (add_node pair d1 receive (parents_of context.sends receive receive.type).0
        ≡ some c1.event_dag)
    × Grows d1 receive c1.event_dag
    × Built c1.replicas c1.event_dag
    × (step dropping context receive ≡ some (ms, c2))
    × (ms ≡ (handle_event dropping receive c1).0)
    × All (λ m. Messages.exists c2.message_pool m.id ≡ true) ms
    × ((id : String) (m : Message ℕ)
        → Messages.get (handle_event dropping receive c1).1.message_pool id ≡ some m
        → Messages.get c2.message_pool id ≡ some m)
unfolding run
step_total_example = step_total dropping context receive self pair-IsComplete d1-Built refl refl

abbrev start_state : State ℕ
start_state =
    with_transition (empty_state ℕ start_state_label false) success_state_label is_message_receive

step_first_example :
    ((to : String) (post : List String) (cond : Condition ℕ)
      → start_state.transition_order ≡ (success_state_label ∷ []) ++ to ∷ post
      → lookup to start_state.transitions ≡ some cond
      → cond send context ≡ (true, context)
      → contains to machine.states ≡ true
      → ((Machine.step machine send context).testcase.run ≡ transition context.testcase.run to)
        × (Vars.get (Machine.step machine send context).vars "curState" ≡ some (text to)))
    × (start_state.transition_order ≡ success_state_label ∷ []
        → Machine.step machine send context ≡ context)
unfolding new_state_machine builder on lookup insert new_run is_message_receive
    Event.is_message_receive
step_first_example =
    step_first machine send context start_state (success_state_label ∷ []) machine-IsWired refl
      ((is_message_receive, refl, refl), tt)

-- The receive of "m" leads to the success state.
succeeds : assert_success machine stepped ≡ true
unfolding assert_success new_state_machine builder on lookup insert new_run handler
    is_message_receive Event.is_message_receive transition
succeeds = refl

-- The default of the cascade delivers the message of a send.
delivers : (handle_event (new_filter_set ℕ) send context).0 ≡ message "m" ∷ []
unfolding cascade handle_event new_filter_set if_then is_message_send Event.is_message_send
    deliver_message lookup message_id
delivers = refl
