-- ===== src/Tendermint/Rounds/AllReported.antt =====
-- What TrackRoundAll makes of one report.
use tendermint_testing.Base.{
  ℕ, suc, ◌<◌, ◌≡◌, ◌∙◌, ap, String, true, false, length, some, arith, if◌then◌else◌, string_eq,
  Bool-cases, inl, inr,
}
use tendermint_testing.Base.GoMap.{lookup}
use tendermint_testing.Base.Int.{or_zero, ℤ, pos, max_int, incr_int, int_beq}
use tendermint_testing.Types.Event.{}
use tendermint_testing.Testlib.Vars.{VarSet, bool, exists, set_var, get_int, as_int, incr, value}
use tendermint_testing.Tendermint.Conditions.{cur_round_key}
use tendermint_testing.Tendermint.Rounds.{
  round_key, replica_round_key, is_below, raise_round, with_counter, mark_round, all_test,
}
use tendermint_testing.Tendermint.Rounds.Reporters.{Table, member, report}
use tendermint_testing.Tendermint.Rounds.Order.{incr_small}
use tendermint_testing.Tendermint.Rounds.Variables.{IsCounted, counted_lem, lookup-set_var}
use tendermint_testing.Tendermint.Rounds.Counted.{
  Apart, Counts, known-Counts, keeps-Counts, raises-Counts,
}

module _ {P : Type 0} (decimal : ℤ → String) (Seen : ℤ → Type 0) (apart : Apart decimal Seen) where
  module _ (total : ℕ) (tbl : Table) (v : VarSet P) (h : Counts decimal Seen total tbl v)
      (r : String) (m : ℤ) (seen : Seen m) where
    raised-Counts :
        (w : VarSet P)
        → member r (tbl m) ≡ false
        → length (tbl m) < max_int
        → IsCounted v w (round_key decimal m) (replica_round_key decimal r m)
        → Counts decimal Seen total
            (report tbl r m)
            (if int_beq (pos (suc (length (tbl m)))) (pos total) then raise_round w m else w)
    unfolding get_int
    raised-Counts w new small up =
        let cur : lookup cur_round_key w.vars ≡ lookup cur_round_key v.vars =
          up.others cur_round_key (apart.round_cur m seen) (apart.replica_cur r m seen) in
        elim (Bool-cases (int_beq (pos (suc (length (tbl m)))) (pos total))) [
          | inr other ↦ rw other (
              keeps-Counts decimal Seen apart total tbl v h r m seen new small w up
                (λ le. h.highest m seen (ground arith)))
          | inl hit ↦ elim (Bool-cases (is_below (as_int (lookup cur_round_key v.vars)) m)) [
            | inl below ↦
                rw (hit, cur, below)
                  (raises-Counts decimal Seen apart total tbl v h r m seen new small w up
                    (ground arith) below)
            | inr not_below ↦
                rw (hit, cur, not_below)
                  (keeps-Counts decimal Seen apart total tbl v h r m seen new small w up
                    (λ le. not_below))
          ]
        ]

    pub mark_round-Counts :
        length (tbl m) < max_int
        → Counts decimal Seen total (report tbl r m) (mark_round decimal all_test v r m)
    unfolding exists get_int
    mark_round-Counts small = elim (Bool-cases (member r (tbl m))) [
      | inl there ↦
          rw (h.marked r m seen ∙ there)
            (known-Counts decimal Seen apart total tbl v h r m seen there)
      | inr new ↦
          let key : String = round_key decimal m in
          let flag : String = replica_round_key decimal r m in
          let (a, at, count, up) =
            counted_lem v key flag (apart.mixed r m m seen seen) h.unaliased in
          let v1 : VarSet P = set_var v flag (bool true) in
          let param : as_int (lookup "n" v1.vars) ≡ some (pos total) =
            ap as_int (lookup-set_var v flag "n" (bool true) (apart.replica_n r m seen))
            ∙ h.param in
          let one : or_zero (value (incr (with_counter v1 key) a) a) ≡ pos (suc (length (tbl m))) =
            count ∙ ap incr_int (h.counted m seen) ∙ incr_small (length (tbl m)) small in
          rw (h.marked r m seen ∙ new, at, param, one)
            (raised-Counts (incr (with_counter v1 key) a) new small up)
    ]
