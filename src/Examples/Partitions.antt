-- ===== src/Examples/Partitions.antt =====
-- Partitions of four replicas (netrix/testlib/lib.go and tendermint/tests/util/partition.go).
use tendermint_testing.Base.{
  ℕ, ◌+◌, ◌*◌, ◌<◌, ◌≡◌, ◌≢◌, refl, String, true, List, [], ◌∷◌, map, Option, none, some, arith,
  inr, string_eq,
}
use tendermint_testing.Base.GoMap.{lookup, insert}
use tendermint_testing.Types.Replicas.{Replica, ReplicaStore, new_replica_store, add, iter, cap_of}
use tendermint_testing.Tendermint.Partition.{Part, Partition, new_partition, create_partition}
use tendermint_testing.Tendermint.Partition.Adding.{held_by, size_of, ids, Distinct}
use tendermint_testing.Tendermint.Partition.Sizes.{keys_of, parts_of, create_partition_exact}
use tendermint_testing.Tendermint.Rounds.{partition}
use tendermint_testing.Tendermint.Rounds.Setups.{partition_lem}
use tendermint_testing.Examples.Cluster.{replica}

abbrev at_index : String → ℕ → Replica
at_index id i = record (replica id true) { index = i }

abbrev members : List Replica
members = at_index "a" 0 ∷ at_index "b" 1 ∷ at_index "c" 2 ∷ at_index "d" 3 ∷ []

abbrev four : ReplicaStore
four =
    add
      (add (add (add (new_replica_store 4) (replica "a" true)) (replica "b" true))
        (replica "c" true))
      (replica "d" true)

four_listed : iter four ≡ some (map some members)
unfolding iter add new_replica_store lookup insert
four_listed = refl

members_apart : Distinct members
members_apart = ((refl, (refl, (refl, tt))), ((refl, (refl, tt)), ((refl, tt), (tt, tt))))

-- No replica has a validator key.
abbrev keyless : Replica → Option String
keyless r = none

create_partition_exact_example :
    (m : Partition) × (create_partition keyless four (1 ∷ 3 ∷ []) ("honest" ∷ "rest" ∷ [])
      ≡ some (inr m))
    × (keys_of m ≡ "honest" ∷ "rest" ∷ [])
    × (map (λ (q : Part). q.label) (parts_of m) ≡ "honest" ∷ "rest" ∷ [])
    × (map size_of (parts_of m) ≡ 1 ∷ 3 ∷ [])
    × (held_by (parts_of m) ≡ ids members)
unfolding add new_replica_store lookup insert cap_of
create_partition_exact_example =
    create_partition_exact keyless four (1 ∷ 3 ∷ []) ("honest" ∷ "rest" ∷ []) members four_listed
      refl refl members_apart refl ((refl, tt), (tt, tt)) (omega arith)

partition_lem_example :
    ((f : ℕ)
      → 0 < f
      → cap_of four ≡ 3 * f + 1
      → (ps : List Part) × (partition keyless four ≡ some (new_partition ps []))
        × (map size_of ps ≡ 1 ∷ f ∷ 2 * f ∷ [])
        × (map (λ (q : Part). q.label) ps ≡ "h" ∷ "faulty" ∷ "rest" ∷ [])
        × (held_by ps ≡ ids members))
    × (((f : ℕ) → 0 < f → cap_of four ≢ 3 * f + 1) → partition keyless four ≡ none)
unfolding add new_replica_store lookup insert cap_of
partition_lem_example = partition_lem keyless four members four_listed refl members_apart
