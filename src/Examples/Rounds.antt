-- ===== src/Examples/Rounds.antt =====
-- The filters and the setup of the Tendermint test cases (tendermint/tests/common) at one round.
use text.Mathlib.TextLemmas.{append_cancel_left, append_cancel_right, length-append}
use Prim.Native.String.{count}
use tendermint_testing.Base.{
  ℕ, ◌+◌, ◌<◌, ◌≡◌, ◌≢◌, refl, sym, ◌∙◌, ap, String, false, [], ◌∷◌, none, some, arith, ◌<>◌, ◌==◌,
  string_eq, if◌then◌else◌,
}
use tendermint_testing.Base.GoMap.{lookup}
use tendermint_testing.Base.Int.{ℤ, pos}
use tendermint_testing.Types.Event.{Event, generic}
use tendermint_testing.Types.Reports.{new_report_store}
use tendermint_testing.Testlib.Vars.{new_var_set, get_int}
use tendermint_testing.Testlib.Context.{Context, new_run}
use tendermint_testing.Testlib.Machine.{start_state_label}
use tendermint_testing.Tendermint.Messages.{TMessage}
use tendermint_testing.Tendermint.Conditions.{Reads, cur_round_key}
use tendermint_testing.Tendermint.Rounds.{track_round_two_thirds, SystemParams, setup_vars}
use tendermint_testing.Tendermint.Rounds.Counted.{Apart, Counts}
use tendermint_testing.Tendermint.Rounds.Runs.{reported, reports, track_rounds, track_rounds-Counts}
use tendermint_testing.Tendermint.Rounds.TwoThirds.{track_round_two_thirds-one}
use tendermint_testing.Examples.Cluster.{pair}
use tendermint_testing.Examples.Graph.{d1}

-- Only round 0 is seen, and written "0".
abbrev decimal : ℤ → String
decimal n = "0"

abbrev Seen : ℤ → Type 0
Seen n = n ≡ pos 0

abbrev prefix : String
prefix = "_roundCount_"

too_long : (x y : String) → count y < 12 → (prefix <> x) ≢ y
too_long x y short e =
    let long : count (prefix <> x) ≡ 12 + count x = length-append prefix x in
    let same : count (prefix <> x) ≡ count y = ap count e in omega arith

digit_is_short : (r : String) → "0" ≢ (r <> "_0")
digit_is_short r e =
    let long : count (r <> "_0") ≡ count r + 2 = length-append r "_0" in
    let same : 1 ≡ count (r <> "_0") = ap count e in omega arith

zero-Apart : Apart decimal Seen
zero-Apart = record {
  rounds = λ n m s t q. s ∙ sym t;
  replicas = λ r t n m s u q. (
    append_cancel_right r t "_0" (append_cancel_left prefix (r <> "_0") (t <> "_0") q),
    s ∙ sym u,
  );
  mixed = λ r n m s t q. digit_is_short r (append_cancel_left prefix "0" (r <> "_0") q);
  round_cur = λ n s. too_long "0" cur_round_key (ground arith);
  replica_cur = λ r n s. too_long (r <> "_0") cur_round_key (ground arith);
  round_n = λ n s. too_long "0" "n" (ground arith);
  replica_n = λ r n s. too_long (r <> "_0") "n" (ground arith);
  replica_faults = λ r n s. too_long (r <> "_0") "faults" (ground arith);
  replica_f = λ r n s. too_long (r <> "_0") "f" (ground arith);
}

abbrev reads : Reads
reads = record { atoi = λ s. if s == "0" then some (pos 0) else none; partition_at = λ name. none }

abbrev step : String → Event
step replica = record {
  replica = replica;
  type = generic (("round", "0") ∷ ("height", "1") ∷ []) "newStep";
  type_s = "newStep";
  id = 0;
  timestamp = pos 0;
}

abbrev two : SystemParams
two = record { n = 2; f = 0 }

abbrev context : Context (TMessage ℕ ℕ)
context = record {
  message_pool = [];
  replicas = pair;
  event_dag = d1;
  vars = setup_vars two (new_var_set (TMessage ℕ ℕ));
  counter = 0;
  testcase = record {
    name = "rounds";
    run = new_run start_state_label;
    aborted = false;
    done = false;
  };
  report_store = new_report_store;
  sends = [];
  once_done = [];
}

reports_zero : (q r : String) (n : ℤ) → reported reads (step q) ≡ some (r, n) → Seen n
unfolding lookup
reports_zero q r n h = cc

track_rounds-Counts_example :
    Counts decimal Seen 2
      (reports reads (λ n. []) (step "a" ∷ step "b" ∷ step "a" ∷ []))
      (track_rounds reads decimal (step "a" ∷ step "b" ∷ step "a" ∷ []) context).vars
track_rounds-Counts_example =
    track_rounds-Counts reads decimal Seen zero-Apart two (step "a" ∷ step "b" ∷ step "a" ∷ [])
      context (ground arith) refl (ground arith)
      (reports_zero "a", (reports_zero "b", (reports_zero "a", tt)))

step_a : reported reads (step "a") ≡ some ("a", pos 0)
unfolding lookup
step_a = refl

track_round_two_thirds-one_example :
    get_int (track_round_two_thirds reads decimal (step "a") context).1.vars cur_round_key
    ≡ some (pos 0)
track_round_two_thirds-one_example =
    track_round_two_thirds-one reads decimal Seen zero-Apart two (step "a") context "a" (pos 0)
      (ground arith) refl step_a refl
