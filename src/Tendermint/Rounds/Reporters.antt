-- ===== src/Tendermint/Rounds/Reporters.antt =====
-- The replicas that have reported a round, for each round.
use tendermint_testing.Base.{
  ◌≤◌, ◌≡◌, refl, sym, ◌∙◌, ap, String, Bool, true, false, not, ◌&&◌, ◌||◌, List, [], ◌∷◌, length,
  arith, if◌then◌else◌, ◌==◌, string_eq, Bool-cases, inl, inr,
}
use tendermint_testing.Base.GoMap.{eq_self}
use tendermint_testing.Base.Int.{ℤ, int_eq}

unfoldable pub member : String → List String → Bool
member r [] = false
member r (s ∷ rest) = s == r || member r rest

abbrev pub Table : Type 0
Table = ℤ → List String

-- A replica reports round m; it counts once.
unfoldable pub report : Table → String → ℤ → Table
report tbl r m n = if m == n && not (member r (tbl n)) then r ∷ tbl n else tbl n

module _ (tbl : Table) (r : String) (m : ℤ) where
  pub report_known : member r (tbl m) ≡ true → (n : ℤ) → report tbl r m n ≡ tbl n
  unfolding report
  report_known h n = elim (Bool-cases (m == n)) [
    | inl same ↦
        let is : m ≡ n = (int_eq.same_iff m n).0 same in
        let there : member r (tbl n) ≡ true = ap (λ k. member r (tbl k)) (sym is) ∙ h in
        rw (same, there) refl
    | inr other ↦ rw other refl
  ]

  pub report_new : member r (tbl m) ≡ false → report tbl r m m ≡ r ∷ tbl m
  unfolding report
  report_new h = rw (eq_self m, h) refl

  pub report_other : (n : ℤ) → (m == n) ≡ false → report tbl r m n ≡ tbl n
  unfolding report
  report_other n h = rw h refl

  pub length-report : (n : ℤ) → length (tbl n) ≤ length (report tbl r m n)
  unfolding report
  length-report n = elim (Bool-cases (m == n)) [
    | inr other ↦ rw (report_other n other) (ground arith)
    | inl same ↦ elim (Bool-cases (member r (tbl n))) [
      | inl h ↦
          rw (report_known (ap (λ k. member r (tbl k)) ((int_eq.same_iff m n).0 same) ∙ h) n)
            (ground arith)
      | inr h ↦
          let new : report tbl r m n ≡ r ∷ tbl n = rw (same, h, report) refl in
          rw new (ground arith)
    ]
  ]
