-- ===== src/Tendermint/Rounds.antt =====
-- tendermint/tests/common/filters.go, common.go and params.go: the filters that keep the current round of
-- a test, and its setup.
pub mod Reporters
pub mod Order
pub mod Variables
pub mod Counted
pub mod AllReported
pub mod Runs
pub mod Setups
pub mod TwoThirds
use tendermint_testing.Base.{
  ℕ, ◌-◌, ◌*◌, ◌/◌, String, Bool, true, false, List, [], ◌∷◌, Option, none, some, if◌then◌else◌,
  is_some, ◌<>◌, ◌⊎◌, inl, inr,
}
use tendermint_testing.Base.GoMap.{GoMap, lookup}
use tendermint_testing.Base.Int.{or_zero, ℤ, pos, leb_ℤ, ltb_ℤ, int_beq, add_int}
use tendermint_testing.Types.Event.{Event}
use tendermint_testing.Types.Messages.{Message}
use tendermint_testing.Types.Replicas.{Replica, ReplicaStore, cap_of}
use tendermint_testing.Testlib.Vars.{
  VarSet, int, bool, exists, set_var, get_int, get_counter, set_counter, incr, value,
}
use tendermint_testing.Testlib.Context.{Context}
use tendermint_testing.Testlib.Actions.{FilterFunc}
use tendermint_testing.Tendermint.Partition.{Partition, PartitionError, create_partition}
use tendermint_testing.Tendermint.Messages.{TMessage}
use tendermint_testing.Tendermint.Conditions.{
  Reads, cur_round_key, new_step_type, on_type, number_at,
}

-- fmt's %d, in the labels of the variables.
abbrev pub round_key : (ℤ → String) → ℤ → String
round_key decimal n = "_roundCount_" <> decimal n

abbrev pub replica_round_key : (ℤ → String) → String → ℤ → String
replica_round_key decimal r n = "_roundCount_" <> (r <> ("_" <> decimal n))

-- !ok || curRound < round
abbrev pub is_below : Option ℤ → ℤ → Bool
is_below none n = true
is_below (some cur) n = ltb_ℤ cur n

module _ {P : Type 0} where
  abbrev pub raise_round : VarSet P → ℤ → VarSet P
  raise_round v n =
      if is_below (get_int v cur_round_key) n then set_var v cur_round_key (int n) else v

  abbrev pub with_counter : VarSet P → String → VarSet P
  with_counter v key = if is_some (get_counter v key) then v else set_counter v key

  -- Incr at a counter, and the test of its value.
  abbrev pub count_at : (ℤ → Bool) → ℤ → VarSet P → Option ℕ → VarSet P
  count_at test n v none = v
  count_at test n v (some a) =
      let v' = incr v a in if test (or_zero (value v' a)) then raise_round v' n else v'

module _ {P : Type 0} (decimal : ℤ → String) where
  -- `test` reads the variables before it is asked about the count of the replicas in the round.
  abbrev pub mark_round : (VarSet P → ℤ → Bool) → VarSet P → String → ℤ → VarSet P
  mark_round test v replica n =
      let v1 = set_var v (replica_round_key decimal replica n) (bool true) in
      let v2 = with_counter v1 (round_key decimal n) in
      if exists v (replica_round_key decimal replica n)
      then v
      else count_at (test v1) n v2 (get_counter v2 (round_key decimal n))

  abbrev pub mark_found : (VarSet P → ℤ → Bool) → VarSet P → String → Option ℤ → VarSet P
  mark_found test v replica none = v
  mark_found test v replica (some n) = mark_round test v replica n

-- roundCount.Value() == n
abbrev pub all_test : {P : Type 0} → VarSet P → ℤ → Bool
all_test v x = int_beq x (or_zero (get_int v "n"))

-- roundCount.Value() >= 2*f+1
abbrev pub two_thirds_test : {P : Type 0} → VarSet P → ℤ → Bool
two_thirds_test v x = let f = or_zero (get_int v "f") in leb_ℤ (add_int (add_int f f) (pos 1)) x

module _ {I M : Type 0} (rd : Reads) (decimal : ℤ → String) where
  abbrev pub track :
      (VarSet (TMessage I M) → ℤ → Bool)
      → Event
      → Context (TMessage I M)
      → (List (Message (TMessage I M)) × Bool) × Context (TMessage I M)
  track test e c = (
    ([], false),
    record c {
      vars =
          on_type e.type new_step_type c.vars
            (λ params. mark_found decimal test c.vars e.replica (number_at rd params "round"));
    },
  )

  unfoldable pub track_round_all : FilterFunc (TMessage I M)
  unfolding set_var exists get_int get_counter set_counter incr value
  track_round_all = track all_test

  unfoldable pub track_round_two_thirds : FilterFunc (TMessage I M)
  unfolding set_var exists get_int get_counter set_counter incr value
  track_round_two_thirds = track two_thirds_test

pub record SystemParams : Type 0 where
  pub n : ℕ
  pub f : ℕ

unfoldable pub new_system_params : ℕ → SystemParams
new_system_params n = record { n = n; f = (n - 1) / 3 }

module _ {P : Type 0} where
  -- The two variables that Setup makes before its options.
  unfoldable pub setup_vars : SystemParams → VarSet P → VarSet P
  unfolding set_var
  setup_vars sys v = set_var (set_var v "n" (int (pos sys.n))) "faults" (int (pos sys.f))

-- The error of CreatePartition is dropped, and the nil partition that comes with it panics when it is
-- printed. `none` is the panic.
abbrev pub printed : Option (PartitionError ⊎ Partition) → Option Partition
printed none = none
printed (some (inl error)) = none
printed (some (inr p)) = some p

-- The option that is Setup's default.
unfoldable pub partition : (Replica → Option String) → ReplicaStore → Option Partition
unfolding create_partition
partition val_addr store =
    let f = (cap_of store - 1) / 3 in
    printed (create_partition val_addr store (1 ∷ f ∷ 2 * f ∷ []) ("h" ∷ "faulty" ∷ "rest" ∷ []))
