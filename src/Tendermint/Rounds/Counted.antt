-- ===== src/Tendermint/Rounds/Counted.antt =====
-- What TrackRoundAll keeps: the highest round that all replicas have reported.
use tendermint_testing.Base.{
  ℕ, suc, ◌≤◌, ◌<◌, ◌≡◌, ◌≢◌, refl, sym, ◌∙◌, ap, String, true, false, length, some, arith, is_some,
  ◌==◌, string_eq, Bool-cases, inl, inr,
}
use tendermint_testing.Base.GoMap.{lookup, eq_self}
use tendermint_testing.Base.Int.{ℤ, pos, max_int, incr_int, int_eq}
use tendermint_testing.Testlib.Vars.{VarSet, int, set_var, as_int}
use tendermint_testing.Testlib.Actions.Counters.{IsUnaliased, counter_value}
use tendermint_testing.Tendermint.Conditions.{cur_round_key}
use tendermint_testing.Tendermint.Rounds.{round_key, replica_round_key, is_below}
use tendermint_testing.Tendermint.Rounds.Reporters.{
  Table, member, report, report_known, report_new, report_other, length-report,
}
use tendermint_testing.Tendermint.Rounds.Order.{
  incr_small, other_round, not_above_higher, not_below_self,
}
use tendermint_testing.Tendermint.Rounds.Variables.{
  IsCounted, set_var-IsUnaliased, counter_value-set_var, lookup-set_var, lookup-set_var_self,
}

-- The labels of the rounds that are seen differ from each other and from the filter's other labels.
pub record Apart (decimal : ℤ → String) (Seen : ℤ → Type 0) : Type 0 where
  pub rounds : (n m : ℤ) → Seen n → Seen m → round_key decimal n ≡ round_key decimal m → n ≡ m
  pub replicas :
      (r s : String) (n m : ℤ)
      → Seen n
      → Seen m
      → replica_round_key decimal r n ≡ replica_round_key decimal s m
      → (r ≡ s) × (n ≡ m)
  pub mixed :
      (r : String) (n m : ℤ) → Seen n → Seen m → round_key decimal n ≢ replica_round_key decimal r m
  pub round_cur : (n : ℤ) → Seen n → round_key decimal n ≢ cur_round_key
  pub replica_cur : (r : String) (n : ℤ) → Seen n → replica_round_key decimal r n ≢ cur_round_key
  pub round_n : (n : ℤ) → Seen n → round_key decimal n ≢ "n"
  pub replica_n : (r : String) (n : ℤ) → Seen n → replica_round_key decimal r n ≢ "n"
  pub replica_faults : (r : String) (n : ℤ) → Seen n → replica_round_key decimal r n ≢ "faults"
  pub replica_f : (r : String) (n : ℤ) → Seen n → replica_round_key decimal r n ≢ "f"

module _ {P : Type 0} (decimal : ℤ → String) (Seen : ℤ → Type 0) where
  -- The variables count the reports of a table, of `total` replicas: the current round is one that all
  -- have reported, and none that all have reported is above it.
  pub record Counts (total : ℕ) (tbl : Table) (v : VarSet P) : Type 0 where
    pub unaliased : IsUnaliased v
    pub counted : (n : ℤ) → Seen n → counter_value v (round_key decimal n) ≡ pos (length (tbl n))
    pub marked :
        (r : String) (n : ℤ)
        → Seen n
        → is_some (lookup (replica_round_key decimal r n) v.vars) ≡ member r (tbl n)
    pub param : as_int (lookup "n" v.vars) ≡ some (pos total)
    pub current :
        (n : ℤ) → as_int (lookup cur_round_key v.vars) ≡ some n → Seen n × (total ≤ length (tbl n))
    pub highest :
        (n : ℤ)
        → Seen n
        → total ≤ length (tbl n)
        → is_below (as_int (lookup cur_round_key v.vars)) n ≡ false

module _ {P : Type 0} (decimal : ℤ → String) (Seen : ℤ → Type 0) (apart : Apart decimal Seen) where
  module _ (total : ℕ) (tbl : Table) (v : VarSet P) (h : Counts decimal Seen total tbl v)
      (r : String) (m : ℤ) (seen : Seen m) where
    abbrev key : String
    key = round_key decimal m

    abbrev flag : String
    flag = replica_round_key decimal r m

    -- A report that is known changes nothing.
    pub known-Counts : member r (tbl m) ≡ true → Counts decimal Seen total (report tbl r m) v
    known-Counts there =
        let same : (n : ℤ) → report tbl r m n ≡ tbl n = report_known tbl r m there in
        record {
          unaliased = h.unaliased;
          counted = λ n s. rw (same n) (h.counted n s);
          marked = λ q n s. rw (same n) (h.marked q n s);
          param = h.param;
          current = λ n e. rw (same n) (h.current n e);
          highest = λ n s k. h.highest n s (rw (same n) at k);
        }

    -- A new one counts.
    module _ (new : member r (tbl m) ≡ false) (small : length (tbl m) < max_int) (w : VarSet P)
        (up : IsCounted v w key flag) where
      new_counted :
          (n : ℤ) → Seen n → counter_value w (round_key decimal n) ≡ pos (length (report tbl r m n))
      new_counted n s = elim (Bool-cases (m == n)) [
        | inl same ↦
            let is : n ≡ m = sym ((int_eq.same_iff m n).0 same) in
            rw (is, report_new tbl r m new)
              (up.here ∙ ap incr_int (h.counted m seen) ∙ incr_small (length (tbl m)) small)
        | inr other ↦ rw (report_other tbl r m n other) (
            up.there (round_key decimal n) (λ q. other_round m n other (apart.rounds m n seen s q))
              (λ q. apart.mixed r n m s seen (sym q))
            ∙ h.counted n s)
      ]

      new_marked :
          (q : String) (n : ℤ)
          → Seen n
          → is_some (lookup (replica_round_key decimal q n) w.vars) ≡ member q (report tbl r m n)
      unfolding member
      new_marked q n s = elim (Bool-cases (m == n)) [
        | inr other ↦
            rw
              (
                report_other tbl r m n other,
                up.others (replica_round_key decimal q n) (apart.mixed q m n seen s)
                    (λ e. other_round m n other (apart.replicas r q m n seen s e).1),
              )
              (h.marked q n s)
        | inl same ↦
            let is : n ≡ m = sym ((int_eq.same_iff m n).0 same) in
            rw (is, report_new tbl r m new)
              (elim (Bool-cases (r == q)) [
                | inl one ↦
                    let who : q ≡ r = sym ((string_eq.same_iff r q).0 one) in
                    rw (who, up.flagged, eq_self r) refl
                | inr two ↦
                    rw
                      (
                        two,
                        up.others (replica_round_key decimal q m) (apart.mixed q m m seen seen)
                            (λ e.
                              let who =
                                (string_eq.same_iff r q).1 (apart.replicas r q m m seen seen e).0 in
                              absurd (cc)),
                      )
                      (h.marked q m seen)
              ])
      ]

      same_cur : lookup cur_round_key w.vars ≡ lookup cur_round_key v.vars
      same_cur = up.others cur_round_key (apart.round_cur m seen) (apart.replica_cur r m seen)

      same_param : lookup "n" w.vars ≡ lookup "n" v.vars
      same_param = up.others "n" (apart.round_n m seen) (apart.replica_n r m seen)

      new_current :
          (n : ℤ)
          → as_int (lookup cur_round_key v.vars) ≡ some n
          → Seen n × (total ≤ length (report tbl r m n))
      new_current n e =
          let (s, le) = h.current n e in let more = length-report tbl r m n in (s, omega arith)

      -- Of the rounds that all have reported now, only m can be new.
      older_highest :
          (n : ℤ)
          → Seen n
          → (m == n) ≡ false
          → total ≤ length (report tbl r m n)
          → is_below (as_int (lookup cur_round_key v.vars)) n ≡ false
      older_highest n s other le = h.highest n s (rw (report_other tbl r m n other) at le)

      -- Not all have reported m, or the current round is not below it.
      pub keeps-Counts :
          (total ≤ suc (length (tbl m)) → is_below (as_int (lookup cur_round_key v.vars)) m ≡ false)
          → Counts decimal Seen total (report tbl r m) w
      keeps-Counts fits = record {
        unaliased = up.unaliased;
        counted = new_counted;
        marked = new_marked;
        param = rw same_param h.param;
        current = λ n e. new_current n (rw same_cur at e);
        highest = λ n s le. rw same_cur (elim (Bool-cases (m == n)) [
          | inr other ↦ older_highest n s other le
          | inl same ↦
              let is : n ≡ m = sym ((int_eq.same_iff m n).0 same) in
              rw is (fits (rw (is, report_new tbl r m new) at le))
        ]);
      }

      -- All have reported m, and it becomes the current round.
      pub raises-Counts :
          total ≤ suc (length (tbl m))
          → is_below (as_int (lookup cur_round_key v.vars)) m ≡ true
          → Counts decimal Seen total (report tbl r m) (set_var w cur_round_key (int m))
      raises-Counts full below =
          let w' : VarSet P = set_var w cur_round_key (int m) in
          let at_cur : lookup cur_round_key w'.vars ≡ some (int m) =
            lookup-set_var_self w cur_round_key (int m) in
          record {
            unaliased = set_var-IsUnaliased w cur_round_key (int m) refl up.unaliased;
            counted = λ n s.
                counter_value-set_var w cur_round_key (int m) refl (round_key decimal n)
                  (λ q. apart.round_cur n s (sym q))
                ∙ new_counted n s;
            marked = λ q n s.
                rw
                  (lookup-set_var w cur_round_key (replica_round_key decimal q n) (int m)
                    (λ e. apart.replica_cur q n s (sym e)))
                  (new_marked q n s);
            param =
                rw
                  (
                    lookup-set_var w cur_round_key "n" (int m) (λ e. absurd (
                        let differ : (cur_round_key == "n") ≡ true =
                          (string_eq.same_iff cur_round_key "n").1 e in
                        cc)),
                    same_param,
                  )
                  h.param;
            current = λ n e.
                let is : n ≡ m =
                  let there : as_int {P = P} (some (int m)) ≡ some n = rw at_cur at e in cc in
                rw (is, report_new tbl r m new) (seen, full);
            highest = λ n s le. rw at_cur (elim (Bool-cases (m == n)) [
              | inr other ↦
                  not_above_higher (as_int (lookup cur_round_key v.vars)) m n
                    (older_highest n s other le) below
              | inl same ↦
                  let is : n ≡ m = sym ((int_eq.same_iff m n).0 same) in rw is (not_below_self m)
            ]);
          }
