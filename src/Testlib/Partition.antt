-- ===== src/Testlib/Partition.antt =====
-- netrix/testlib/lib.go: partitions of the replicas into labelled parts. `none` is a panic. Sizes are
-- natural numbers here: negative ones are outside of the model.
pub mod Panics
use tendermint_testing.Base.{
  ℕ, suc, ◌+◌, String, Bool, true, false, List, [], ◌∷◌, Option, none, some, ltb, nat_beq, length,
  get_elem?, string_eq, ◌⊎◌, inl, inr, is_some,
}
use tendermint_testing.Base.GoMap.{GoMap, lookup, insert}
use tendermint_testing.Base.Fallible.{◌>>=◌}
use tendermint_testing.Types.Replicas.{Replica, ReplicaStore, cap_of, iter}

pub data PartitionError : Type 0 where
  not_enough_replicas size_labels_mismatch : PartitionError

pub record Part : Type 0 where
  pub replicas : GoMap String Bool
  pub label : String
  pub size : ℕ

unfoldable pub new_part : String → ℕ → Part
new_part label size = record { replicas = []; label = label; size = size }

unfoldable pub add : Part → String → Part
add p r = record p { replicas = insert r true p.replicas }

abbrev pub ReplicaPartition : Type 0
ReplicaPartition = GoMap String Part

-- The first loop: labels[i] is read before the lengths are compared.
unfoldable pub make_parts : List ℕ → List String → ReplicaPartition → Option ReplicaPartition
unfolding new_part
make_parts [] labels parts = some parts
make_parts (s ∷ sizes) [] parts = none
make_parts (s ∷ sizes) (l ∷ labels) parts = make_parts sizes labels (insert l (new_part l s) parts)

abbrev pub sum : List ℕ → ℕ
sum [] = 0
sum (s ∷ sizes) = s + sum sizes

-- partition.parts[label].add(id), where a missing part is a nil pointer.
unfoldable pub add_to : String → String → ReplicaPartition → Option ReplicaPartition
unfolding add
add_to label id parts = elim (lookup label parts) [
  | none ↦ none
  | some p ↦ some (insert label (add p id) parts)
]

-- The second loop, with curIndex and curPartSize. When a part is full the next one gets the replica,
-- and curPartSize stays as it is.
unfoldable pub assign :
    List ℕ
    → List String
    → ℕ
    → ℕ
    → List (Option Replica)
    → ReplicaPartition
    → Option ReplicaPartition
unfolding add_to
assign sizes labels i filled [] parts = some parts
assign sizes labels i filled (none ∷ rs) parts = none
assign sizes labels i filled (some r ∷ rs) parts = do
  label ← get_elem? labels i
  size ← get_elem? sizes i
  elim (ltb filled size) [
    | true ↦ add_to label r.id parts >>= assign sizes labels i (filled + 1) rs
    | false ↦ do
      next ← get_elem? labels (suc i)
      add_to next r.id parts >>= assign sizes labels (suc i) filled rs
  ]

unfoldable pub new_partition :
    ReplicaStore → List ℕ → List String → Option (PartitionError ⊎ ReplicaPartition)
unfolding make_parts assign
new_partition store sizes labels = do
  parts ← make_parts sizes labels []
  elim (ltb (cap_of store) (sum sizes)) [
    | true ↦ some (inl not_enough_replicas)
    | false ↦ elim (nat_beq (length sizes) (length labels)) [
      | false ↦ some (inl size_labels_mismatch)
      | true ↦ do
        replicas ← iter store
        filled ← assign sizes labels 0 0 replicas parts
        some (inr filled)
    ]
  ]

unfoldable pub in_part : ReplicaPartition → String → String → Bool
in_part p replica label = elim (lookup label p) [
  | none ↦ false
  | some part ↦ is_some (lookup replica part.replicas)
]
