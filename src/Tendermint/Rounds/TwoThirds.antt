-- ===== src/Tendermint/Rounds/TwoThirds.antt =====
-- TrackRoundTwoThirds reads the variable "f", and Setup makes one called "faults".
use tendermint_testing.Base.{
  ◌<◌, ◌≡◌, ◌∙◌, ap, String, true, false, [], none, some, is_some, string_eq,
}
use tendermint_testing.Base.GoMap.{lookup, insert}
use tendermint_testing.Base.Int.{or_zero, ℤ, pos, incr_int}
use tendermint_testing.Types.Event.{Event}
use tendermint_testing.Testlib.Vars.{
  VarSet, new_var_set, int, bool, exists, set_var, get_int, as_int, incr, value,
}
use tendermint_testing.Testlib.Context.{Context}
use tendermint_testing.Tendermint.Messages.{TMessage}
use tendermint_testing.Tendermint.Conditions.{Reads, cur_round_key}
use tendermint_testing.Tendermint.Rounds.{
  round_key, replica_round_key, with_counter, mark_round, two_thirds_test, track_round_two_thirds,
  SystemParams, setup_vars,
}
use tendermint_testing.Tendermint.Rounds.Reporters.{member}
use tendermint_testing.Tendermint.Rounds.Variables.{
  counted_lem, lookup-set_var, lookup-set_var_self,
}
use tendermint_testing.Tendermint.Rounds.Counted.{Apart, Counts}
use tendermint_testing.Tendermint.Rounds.Runs.{reported, mark_by, track-mark_by, setup-Counts}

module _ {P : Type 0} (decimal : ℤ → String) (Seen : ℤ → Type 0) (apart : Apart decimal Seen) where
  first_report :
      (sys : SystemParams) (r : String) (n : ℤ)
      → Seen n
      → Counts decimal Seen sys.n (λ m. []) (setup_vars sys (new_var_set P))
      → get_int
          (mark_round decimal two_thirds_test (setup_vars sys (new_var_set P)) r n)
          cur_round_key
        ≡ some n
  unfolding get_int exists setup_vars new_var_set lookup insert member
  first_report sys r n seen h =
      let v : VarSet P = setup_vars sys (new_var_set P) in
      let key : String = round_key decimal n in
      let flag : String = replica_round_key decimal r n in
      let (a, at, count, up) = counted_lem v key flag (apart.mixed r n n seen seen) h.unaliased in
      let w : VarSet P = incr (with_counter (set_var v flag (bool true)) key) a in
      let no_f : as_int (lookup "f" (set_var v flag (bool true)).vars) ≡ none =
        ap as_int (lookup-set_var v flag "f" (bool true) (apart.replica_f r n seen)) in
      let one : or_zero (value w a) ≡ pos 1 = count ∙ ap incr_int (h.counted n seen) in
      let no_cur : as_int (lookup cur_round_key w.vars) ≡ none =
        ap as_int (up.others cur_round_key (apart.round_cur n seen) (apart.replica_cur r n seen)) in
      let fresh : is_some (lookup flag v.vars) ≡ false = h.marked r n seen in
      rw (fresh, at, no_f, one, no_cur) (ap as_int (lookup-set_var_self w cur_round_key (int n)))

module _ {I M : Type 0} (rd : Reads) (decimal : ℤ → String) (Seen : ℤ → Type 0)
    (apart : Apart decimal Seen) where
  -- TrackRoundTwoThirds takes one report for two thirds, however many replicas the system has: from the
  -- variables that Setup makes, the first event by which a replica reports a round makes it the current
  -- round. Let the labels of the rounds that are seen differ from each other and from the filter's
  -- others.
  pub track_round_two_thirds-one :
      (sys : SystemParams) (e : Event) (c : Context (TMessage I M)) (r : String) (n : ℤ)
      → 0 < sys.n
      → c.vars ≡ setup_vars sys (new_var_set (TMessage I M))
      → reported rd e ≡ some (r, n)
      → Seen n
      → get_int (track_round_two_thirds rd decimal e c).1.vars cur_round_key ≡ some n
  unfolding track_round_two_thirds
  track_round_two_thirds-one sys e c r n some_replica start report seen =
      let mark = mark_by rd decimal two_thirds_test in
      ap (λ v. get_int v cur_round_key)
        (track-mark_by rd decimal two_thirds_test e c
          ∙ ap (λ v. mark v (reported rd e)) start
          ∙ ap (mark (setup_vars sys (new_var_set (TMessage I M)))) report)
      ∙ first_report decimal Seen apart sys r n seen
          (setup-Counts rd decimal Seen apart sys some_replica)
