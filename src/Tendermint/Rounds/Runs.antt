-- ===== src/Tendermint/Rounds/Runs.antt =====
-- TrackRoundAll over a run of events.
use tendermint_testing.Base.{
  ℕ, suc, ◌+◌, ◌≤◌, ◌<◌, ◌≡◌, refl, sym, subst, String, Bool, List, [], ◌∷◌, length, Option, none,
  some, arith, ◌==◌, string_eq, Bool-cases, Option-cases, inl, inr, All,
}
use tendermint_testing.Base.GoMap.{lookup, insert, eq_ne}
use tendermint_testing.Base.Int.{ℤ, max_int}
use tendermint_testing.Types.Event.{
  Event, EventType, message_send, message_receive, timeout_start, timeout_end, generic,
}
use tendermint_testing.Testlib.Vars.{VarSet, new_var_set, get_counter}
use tendermint_testing.Testlib.Context.{Context}
use tendermint_testing.Tendermint.Messages.{TMessage}
use tendermint_testing.Tendermint.Conditions.{Reads, new_step_type, on_type, number_at}
use tendermint_testing.Tendermint.Rounds.{
  round_key, replica_round_key, mark_round, all_test, track, track_round_all, SystemParams,
  setup_vars,
}
use tendermint_testing.Tendermint.Rounds.Reporters.{Table, member, report}
use tendermint_testing.Tendermint.Rounds.AllReported.{mark_round-Counts}
use tendermint_testing.Tendermint.Rounds.Counted.{Apart, Counts}

abbrev pub round_with : String → Option ℤ → Option (String × ℤ)
round_with r none = none
round_with r (some n) = some (r, n)

abbrev pub report_by : Table → Option (String × ℤ) → Table
report_by tbl none = tbl
report_by tbl (some (r, n)) = report tbl r n

module _ (rd : Reads) where
  -- The round that an event reports, and by which replica.
  abbrev pub reported : Event → Option (String × ℤ)
  reported e =
      on_type e.type new_step_type none
        (λ params. round_with e.replica (number_at rd params "round"))

  abbrev pub reports : Table → List Event → Table
  reports tbl [] = tbl
  reports tbl (e ∷ es) = reports (report_by tbl (reported e)) es

  abbrev pub AllSeen : (ℤ → Type 0) → List Event → Type 0
  AllSeen Seen es = All (λ e. (r : String) (n : ℤ) → reported e ≡ some (r, n) → Seen n) es

module _ {I M : Type 0} (rd : Reads) (decimal : ℤ → String) where
  abbrev pub track_rounds : List Event → Context (TMessage I M) → Context (TMessage I M)
  track_rounds [] c = c
  track_rounds (e ∷ es) c = track_rounds es (track_round_all rd decimal e c).1

  abbrev pub mark_by :
      (VarSet (TMessage I M) → ℤ → Bool)
      → VarSet (TMessage I M)
      → Option (String × ℤ)
      → VarSet (TMessage I M)
  mark_by test v none = v
  mark_by test v (some (r, n)) = mark_round decimal test v r n

  pub track-mark_by :
      (test : VarSet (TMessage I M) → ℤ → Bool) (e : Event) (c : Context (TMessage I M))
      → (track rd decimal test e c).1.vars ≡ mark_by test c.vars (reported rd e)
  track-mark_by test e c = go e.type
    where
      go :
          (type : EventType)
          → (track rd decimal test (record e { type = type }) c).1.vars
            ≡ mark_by test c.vars (reported rd (record e { type = type }))
      go (message_send m) = refl
      go (message_receive m) = refl
      go (timeout_start d) = refl
      go (timeout_end d) = refl
      go (generic params type) = elim (Bool-cases (type == new_step_type)) [
        | inr other ↦ rw other refl
        | inl step ↦ elim (Option-cases (number_at rd params "round")) [
          | inl q ↦ rw (step, q) refl
          | inr (n, q) ↦ rw (step, q) refl
        ]
      ]

  track_round_all-mark_by :
      (e : Event) (c : Context (TMessage I M))
      → (track_round_all rd decimal e c).1.vars ≡ mark_by all_test c.vars (reported rd e)
  unfolding track_round_all
  track_round_all-mark_by e c = track-mark_by all_test e c

-- Room for the reports to come.
abbrev HasRoom : Table → List Event → Type 0
HasRoom tbl es = (n : ℤ) → length (tbl n) + length es ≤ max_int

length-report_by :
    (tbl : Table) (o : Option (String × ℤ)) (n : ℤ)
    → length (report_by tbl o n) ≤ suc (length (tbl n))
unfolding report
length-report_by tbl none n = ground arith
length-report_by tbl (some (r, m)) n = ground arith

pub setup_counter :
    (P : Type 0) (sys : SystemParams) (l : String)
    → get_counter (setup_vars sys (new_var_set P)) l ≡ none
unfolding setup_vars new_var_set lookup insert get_counter
setup_counter P sys l = elim (Bool-cases ("faults" == l)) [
  | inl q ↦ elim (Bool-cases ("n" == l)) [ inl p ↦ rw (q, p) refl | inr p ↦ rw (q, p) refl ]
  | inr q ↦ elim (Bool-cases ("n" == l)) [ inl p ↦ rw (q, p) refl | inr p ↦ rw (q, p) refl ]
]

module _ {I M : Type 0} (rd : Reads) (decimal : ℤ → String) (Seen : ℤ → Type 0)
    (apart : Apart decimal Seen) where
  mark_by-Counts :
      (total : ℕ) (tbl : Table) (v : VarSet (TMessage I M)) (o : Option (String × ℤ))
      → Counts decimal Seen total tbl v
      → ((n : ℤ) → length (tbl n) < max_int)
      → ((r : String) (n : ℤ) → o ≡ some (r, n) → Seen n)
      → Counts decimal Seen total (report_by tbl o) (mark_by rd decimal all_test v o)
  mark_by-Counts total tbl v none h room seen = h
  mark_by-Counts total tbl v (some (r, n)) h room seen =
      mark_round-Counts decimal Seen apart total tbl v h r n (seen r n refl) (room n)

  track_rounds-keep :
      (total : ℕ) (tbl : Table) (es : List Event) (c : Context (TMessage I M))
      → Counts decimal Seen total tbl c.vars
      → HasRoom tbl es
      → AllSeen rd Seen es
      → Counts decimal Seen total (reports rd tbl es) (track_rounds rd decimal es c).vars
  track_rounds-keep total tbl [] c h room seen = h
  track_rounds-keep total tbl (e ∷ es) c h room seen =
      let next =
        mark_by-Counts total tbl c.vars (reported rd e) h (λ n. let k = room n in omega arith)
          seen.0 in
      track_rounds-keep total (report_by tbl (reported rd e)) es (track_round_all rd decimal e c).1
        (subst (Counts decimal Seen total (report_by tbl (reported rd e)))
          (sym (track_round_all-mark_by rd decimal e c)) next)
        (λ n. let k = room n in let l = length-report_by tbl (reported rd e) n in omega arith)
        seen.1

  pub setup-Counts :
      (sys : SystemParams)
      → 0 < sys.n
      → Counts decimal Seen sys.n (λ n. []) (setup_vars sys (new_var_set (TMessage I M)))
  unfolding setup_vars new_var_set lookup insert member get_counter
  setup-Counts sys some_replica = record {
    unaliased = record {
      bound = λ l n e. absurd (let gone = setup_counter (TMessage I M) sys l in cc);
      distinct = λ l k n e f. absurd (let gone = setup_counter (TMessage I M) sys l in cc);
    };
    counted = λ n s. rw (setup_counter (TMessage I M) sys (round_key decimal n)) refl;
    marked = λ r n s.
        let flag : String = replica_round_key decimal r n in
        rw
          (
            eq_ne "faults" flag (λ q. apart.replica_faults r n s (sym q)),
            eq_ne "n" flag (λ q. apart.replica_n r n s (sym q)),
          )
          refl;
    param = refl;
    current = λ n e. absurd (cc);
    highest = λ n s le. absurd (omega arith);
  }

  -- TrackRoundAll from the variables that Setup makes, over any run of events, keeps the highest round
  -- that every replica of the system has reported. Let the labels of the rounds that are seen differ
  -- from each other and from the filter's others, and let an int hold the number of events. Then the
  -- counter under the label of a round is the number of different replicas that have reported it; the
  -- current round, where there is one, has been reported by as many as the system has; and a round
  -- that so many have reported is not above the current one.
  pub track_rounds-Counts :
      (sys : SystemParams) (es : List Event) (c : Context (TMessage I M))
      → 0 < sys.n
      → c.vars ≡ setup_vars sys (new_var_set (TMessage I M))
      → length es ≤ max_int
      → AllSeen rd Seen es
      → Counts decimal Seen sys.n (reports rd (λ n. []) es) (track_rounds rd decimal es c).vars
  track_rounds-Counts sys es c some_replica start room seen =
      track_rounds-keep sys.n (λ n. []) es c
        (subst (Counts decimal Seen sys.n (λ n. [])) (sym start) (setup-Counts sys some_replica))
        (λ n. omega arith) seen
