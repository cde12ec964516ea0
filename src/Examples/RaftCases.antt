-- ===== src/Examples/RaftCases.antt =====
-- The test cases for the Raft example (raft/tests) at a small run.
use tendermint_testing.Base.{
  ℕ, zero, suc, ◌≤◌, ◌≡◌, inr, refl, subst, String, true, false, [], ◌∷◌, some, none, arith,
  if◌then◌else◌, ◌==◌, string_eq, nat_eq, All,
}
use tendermint_testing.Base.GoMap.{lookup}
use tendermint_testing.Base.Int.{pos, incr_int, max_int}
use tendermint_testing.Types.Event.{
  Event, message_send, message_receive, is_message_send, is_message_receive, message_id,
}
use tendermint_testing.Types.Messages.{Message}
use tendermint_testing.Types.Reports.{new_report_store}
use tendermint_testing.Testlib.Vars.{new_var_set, get_counter, get_int, exists}
use tendermint_testing.Testlib.Context.{Context, new_run, get_message}
use tendermint_testing.Testlib.Actions.Counters.{IsUnaliased, counter_value}
use tendermint_testing.Testlib.Filters.{handle_event, new_filter_set}
use tendermint_testing.Testlib.Machine.{start_state_label, in_success_state}
use tendermint_testing.Testlib.Machine.Running.{Reached}
use tendermint_testing.RaftTests.Messages.{RaftMessage, msg_vote_resp, get_message_from_event}
use tendermint_testing.RaftTests.Conditions.{Texts}
use tendermint_testing.RaftTests.Actions.{count_votes}
use tendermint_testing.RaftTests.Actions.Votes.{HoldsCounter, key_of, count_votes_twice}
use tendermint_testing.RaftTests.Actions.Terms.{
  KeepsTerm, count_terms, IsHighest, count_terms-IsHighest,
}
use tendermint_testing.RaftTests.Cases.DropVotes as DropVotes
use tendermint_testing.RaftTests.Cases.Stuck.{waiting_machines, waiting_machines_stand}
use tendermint_testing.RaftTests.Cases.NoDrop.{drop_votes-handle_event}
use tendermint_testing.Examples.Cluster.{pair}
use tendermint_testing.Examples.Graph.{d1}

abbrev texts : Texts
texts = record {
  atoi = λ s. (pos 2, s == "2");
  decimal = λ n. if n == 2 then "2" else "1";
  leader = "StateLeader";
  candidate = "StateCandidate";
}

-- The vote of replica 1 for replica 2 in term 2.
abbrev vote : RaftMessage
vote = record { type = msg_vote_resp; to = 1; term = 2; index = 0; reject = false }

abbrev event : ℕ → Event
event n = record {
  replica = if n == 0 then "a" else "b";
  type = if n == 0 then message_send "m" else message_receive "m";
  type_s = "";
  id = n;
  timestamp = pos 0;
}

abbrev context : Context RaftMessage
context = record {
  message_pool =
      (
        "m",
        record {
          from = "a";
          to = "b";
          content = none;
          type = "MsgVoteResp";
          id = "m";
          intercept = true;
          parsed = some vote;
          repr = "";
        },
      )
      ∷ [];
  replicas = pair;
  event_dag = d1;
  vars = new_var_set RaftMessage;
  counter = 0;
  testcase = record {
    name = "votes";
    run = new_run start_state_label;
    aborted = false;
    done = false;
  };
  report_store = new_report_store;
  sends = [];
  once_done = false ∷ [];
}

waiting_machines_stand_example :
    All
      (λ m.
        Reached m context
        → (context.testcase.run.cur_state ≡ start_state_label)
          × (in_success_state m context ≡ false))
      (waiting_machines texts 0)
waiting_machines_stand_example = waiting_machines_stand texts 0 context

drop_votes-handle_event_example :
    handle_event (DropVotes.filters texts) (event 0) context
    ≡ handle_event (new_filter_set RaftMessage) (event 0) context
drop_votes-handle_event_example = drop_votes-handle_event texts (event 0) context

at_event : (n : ℕ) → n ≤ 1 → get_message_from_event (event n) context ≡ some vote
unfolding get_message_from_event get_message is_message_send is_message_receive message_id lookup
    tendermint_testing.Types.Messages.get
at_event zero h = refl
at_event (suc zero) h = refl
at_event (suc (suc n)) h = absurd (omega arith)

context-IsUnaliased : IsUnaliased context.vars
unfolding get_counter new_var_set lookup
context-IsUnaliased = record { bound = λ l n h. absurd (cc); distinct = λ l k n h g. absurd (cc) }

no_counter : HoldsCounter context.vars (key_of texts vote)
unfolding exists new_var_set lookup
no_counter h = refl

count_votes_twice_example :
    (c1 : Context RaftMessage) × (c2 : Context RaftMessage) × (count_votes texts (event 0) context
      ≡ some (([], false), c1))
    × (count_votes texts (event 1) c1 ≡ some (([], false), c2))
    × (counter_value c2.vars (key_of texts vote)
        ≡ incr_int (incr_int (counter_value context.vars (key_of texts vote))))
    × ((l : String)
        → (key_of texts vote == l) ≡ false
        → counter_value c2.vars l ≡ counter_value context.vars l)
count_votes_twice_example =
    count_votes_twice texts context (event 0) (event 1) vote (at_event 0 (ground arith))
      (at_event 1 (ground arith)) (refl, refl) context-IsUnaliased no_counter

small :
    (n : ℕ)
    → n ≤ 1
    → (m : RaftMessage) → get_message_from_event (event n) context ≡ some m
    → m.term ≤ max_int
small n le m h =
    let is : vote ≡ m = let there = at_event n le in cc in
    subst (λ (x : RaftMessage). x.term ≤ max_int) is (ground arith)

nothing_kept : KeepsTerm texts context.vars 0
unfolding exists get_int new_var_set lookup
nothing_kept = inr (refl, refl, refl)

count_terms-IsHighest_example :
    (h : ℕ) × KeepsTerm texts (count_terms texts (event 0 ∷ event 1 ∷ []) context).vars h
    × IsHighest texts 0 (event 0 ∷ event 1 ∷ []) context h
count_terms-IsHighest_example =
    count_terms-IsHighest texts (event 0 ∷ event 1 ∷ []) context 0
      (small 0 (ground arith), (small 1 (ground arith), tt)) nothing_kept
