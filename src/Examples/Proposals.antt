-- ===== src/Examples/Proposals.antt =====
-- An action of the Tendermint test cases (tendermint/tests/common/actions.go) with a recorded proposal.
use tendermint_testing.Base.{ℕ, ◌≡◌, refl, ap, String, false, [], ◌∷◌, none, some}
use tendermint_testing.Base.GoMap.{lookup}
use tendermint_testing.Base.Int.{pos, negsuc}
use tendermint_testing.Types.Event.{Event, message_send}
use tendermint_testing.Types.Messages.{Message}
use tendermint_testing.Types.Reports.{new_report_store}
use tendermint_testing.Testlib.Vars.{message, get}
use tendermint_testing.Testlib.Context.{Context, new_run}
use tendermint_testing.Testlib.Machine.{start_state_label}
use tendermint_testing.Tendermint.Messages.{TMessage, proposal, proposal_type}
use tendermint_testing.Tendermint.Messages.Typed.{IsTyped}
use tendermint_testing.Tendermint.Actions.{change_vote_to_proposal_message}
use tendermint_testing.Tendermint.Actions.NoVote.{change_vote_to_proposal_message-quiet}
use tendermint_testing.Examples.Cluster.{pair}
use tendermint_testing.Examples.Graph.{d1}
use tendermint_testing.Examples.Votes.{tendermint, prevote_of_a}

abbrev proposal_of_a : TMessage ℕ ℕ
proposal_of_a = record {
  channel_id = 33;
  msg_bytes = [];
  from = "a";
  to = "b";
  type = proposal_type;
  content = some (
      proposal (record {
        height = pos 1;
        round = pos 0;
        pol_round = negsuc 0;
        block_id = 7;
        timestamp = 0;
        signature = [];
      }));
}

abbrev sent : String → TMessage ℕ ℕ → Message (TMessage ℕ ℕ)
sent id t = record {
  from = "a";
  to = "b";
  content = none;
  type = "";
  id = id;
  intercept = false;
  parsed = some t;
  repr = "";
}

abbrev context : Context (TMessage ℕ ℕ)
context = record {
  message_pool = ("v", sent "v" prevote_of_a) ∷ ("p", sent "p" proposal_of_a) ∷ [];
  replicas = pair;
  event_dag = d1;
  vars = record {
    vars = ("proposal", message (sent "p" proposal_of_a)) ∷ [];
    counters = [];
    sets = [];
  };
  counter = 0;
  testcase = record {
    name = "proposals";
    run = new_run start_state_label;
    aborted = false;
    done = false;
  };
  report_store = new_report_store;
  sends = [];
  once_done = [];
}

abbrev send_of_vote : Event
send_of_vote = record {
  replica = "a";
  type = message_send "v";
  type_s = "MessageSend";
  id = 1;
  timestamp = pos 0;
}

recorded_is :
    (m : Message (TMessage ℕ ℕ)) (t : TMessage ℕ ℕ)
    → get context.vars "proposal" ≡ some (message m)
    → m.parsed ≡ some t
    → IsTyped t
unfolding get lookup
recorded_is m t at parsed =
    let is_m : sent "p" proposal_of_a ≡ m = cc in
    let is_t : t ≡ proposal_of_a =
      let is_parsed : some proposal_of_a ≡ m.parsed =
        ap (λ (x : Message (TMessage ℕ ℕ)). x.parsed) is_m in
      cc in
    rw is_t refl

change_vote_to_proposal_message-quiet_example :
    change_vote_to_proposal_message tendermint (λ n. "0") "proposal" send_of_vote context
    ≡ some ([], context)
change_vote_to_proposal_message-quiet_example =
    change_vote_to_proposal_message-quiet tendermint (λ n. "0") "proposal" send_of_vote context
      recorded_is
