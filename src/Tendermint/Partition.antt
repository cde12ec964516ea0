-- ===== src/Tendermint/Partition.antt =====
-- tendermint/tests/util/partition.go: partitions of all replicas. `none` is a panic. Sizes are natural
-- numbers here: a negative size gets the error of a size of 0.
pub mod Adding
pub mod Packing
pub mod Parts
pub mod Sizes
use tendermint_testing.Base.{
  ℕ, suc, ◌+◌, String, Bool, true, false, not, List, [], ◌∷◌, Option, none, some, if◌then◌else◌,
  ltb, nat_beq, length, get_elem?, modify, string_eq, ◌⊎◌, inl, inr,
}
use tendermint_testing.Base.GoMap.{GoMap, lookup, insert}
use tendermint_testing.Base.Fallible.{◌>>=◌}
use tendermint_testing.Types.Replicas.{Replica, ReplicaStore, cap_of, iter}
use tendermint_testing.Tendermint.ReplicaSets as ReplicaSets
use tendermint_testing.Tendermint.ReplicaSets.{ReplicaSet, new_replica_set}

pub data PartitionError : Type 0 where
  different_lengths not_positive wrong_total : PartitionError

pub record Part : Type 0 where
  pub replica_set : ReplicaSet
  pub label : String

abbrev pub Partition : Type 0
Partition = GoMap String Part

-- The parts by their labels: of two parts with one label the later stays.
unfoldable pub new_partition : List Part → Partition → Partition
new_partition [] parts = parts
new_partition (p ∷ ps) parts = new_partition ps (insert p.label p parts)

unfoldable pub get_part : Partition → String → Option Part
get_part p label = lookup label p

abbrev pub empty_part : String → Part
empty_part label = record { replica_set = new_replica_set; label = label }

abbrev pub with_part : String → Option (List Part) → Option (List Part)
with_part label none = none
with_part label (some parts) = some (empty_part label ∷ parts)

-- The first loop, for as many labels as sizes: `none` is the error of a size that is not positive.
unfoldable pub make_parts : List ℕ → List String → Option (List Part)
make_parts [] labels = some []
make_parts (s ∷ sizes) [] = none
make_parts (s ∷ sizes) (l ∷ labels) =
    let rest = make_parts sizes labels in if nat_beq s 0 then none else with_part l rest

abbrev pub total : List ℕ → ℕ
total [] = 0
total (s ∷ sizes) = s + total sizes

module _ (val_addr : Replica → Option String) where
  abbrev pub add_to : Replica → Part → Part
  add_to r p = record p { replica_set = ReplicaSets.add val_addr p.replica_set r }

  -- The second loop, with curIndex.
  unfoldable pub assign : List ℕ → ℕ → List (Option Replica) → List Part → Option (List Part)
  unfolding ReplicaSets.add
  assign sizes i [] parts = some parts
  assign sizes i (none ∷ rs) parts = none
  assign sizes i (some r ∷ rs) parts = do
    part ← get_elem? parts i
    size ← get_elem? sizes i
    elim (ltb part.replica_set.size size) [
      | true ↦ assign sizes i rs (modify (add_to r) parts i)
      | false ↦ do
        next ← get_elem? parts (suc i)
        assign sizes (suc i) rs (modify (add_to r) parts (suc i))
    ]

  abbrev filled : Option (List Part) → Option (PartitionError ⊎ Partition)
  filled none = none
  filled (some parts) = some (inr (new_partition parts []))

  unfoldable pub create_partition :
      ReplicaStore → List ℕ → List String → Option (PartitionError ⊎ Partition)
  unfolding assign make_parts
  create_partition store sizes labels = elim (nat_beq (length sizes) (length labels)) [
    | false ↦ some (inl different_lengths)
    | true ↦ elim (make_parts sizes labels) [
      | none ↦ some (inl not_positive)
      | some parts ↦ elim (nat_beq (total sizes) (cap_of store)) [
        | false ↦ some (inl wrong_total)
        | true ↦ do replicas ← iter store; filled (assign sizes 0 replicas parts)
      ]
    ]
  ]
