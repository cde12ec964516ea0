-- ===== src/Tendermint/Partition/Parts.antt =====
-- The parts that CreatePartition makes of all the replicas, before it makes the map of them.
use tendermint_testing.Base.{
  ℕ, ◌<◌, ◌≡◌, refl, ◌∙◌, ap, String, true, false, List, [], ◌∷◌, ◌++◌, map, Option, some, arith,
  nat_beq, length, string_eq, All, inr,
}
use tendermint_testing.Base.Fallible.{◌>>=◌}
use tendermint_testing.Types.Replicas.{Replica, ReplicaStore, iter, cap_of}
use tendermint_testing.Tendermint.ReplicaSets as ReplicaSets
use tendermint_testing.Tendermint.ReplicaSets.{ReplicaSet, new_replica_set}
use tendermint_testing.Tendermint.Partition.{
  Part, empty_part, total, assign, make_parts, new_partition, create_partition,
}
use tendermint_testing.Tendermint.Partition.Adding.{
  held, held_by, size_of, ids, Distinct, empty-Lacks,
}
use tendermint_testing.Tendermint.Partition.Packing.{assign-Packed}

no_size : (l : String) → size_of (empty_part l) ≡ 0
unfolding new_replica_set
no_size l = refl

no_ids : (l : String) → held (empty_part l) ≡ []
unfolding new_replica_set ReplicaSets.iter
no_ids l = refl

make_parts_lem :
    (sizes : List ℕ) (labels : List String)
    → length sizes ≡ length labels
    → All (λ n. 0 < n) sizes
    → make_parts sizes labels ≡ some (map empty_part labels)
unfolding make_parts
make_parts_lem [] [] same pos = refl
make_parts_lem [] (l ∷ labels) same pos = absurd (omega arith)
make_parts_lem (n ∷ sizes) [] same pos = absurd (omega arith)
make_parts_lem (n ∷ sizes) (l ∷ labels) same pos =
    let positive : nat_beq n 0 ≡ false = (let p = pos.0 in ground arith) in
    rw (positive, make_parts_lem sizes labels (omega arith) pos.1)

module _ (val_addr : Replica → Option String) where
  assign_exact :
      (sizes : List ℕ) (labels : List String) (rs : List Replica)
      → length sizes ≡ length labels
      → All (λ n. 0 < n) sizes
      → Distinct rs
      → length rs ≡ total sizes
      → (ps : List Part) × (assign val_addr sizes 0 (map some rs) (map empty_part labels) ≡ some ps)
        × (map size_of ps ≡ sizes)
        × (map (λ (q : Part). q.label) ps ≡ labels)
        × (held_by ps ≡ ids rs)
  unfolding assign
  assign_exact [] [] [] same pos apart sum = ([], refl, refl, refl, refl)
  assign_exact [] [] (r ∷ rs) same pos apart sum = absurd (omega arith)
  assign_exact [] (l ∷ labels) rs same pos apart sum = absurd (omega arith)
  assign_exact (n ∷ sizes) [] rs same pos apart sum = absurd (omega arith)
  assign_exact (n ∷ sizes) (l ∷ labels) rs same pos apart sum =
      let k =
        assign-Packed val_addr [] [] (empty_part l) n sizes labels rs refl
          (omega (arith, no_size l)) pos.1 (omega arith) (empty-Lacks val_addr l rs) apart
          (ground (arith, no_size l)) in
      (
        k.current ∷ k.later,
        k.result_eq,
        rw (k.size_eq, k.sizes_eq),
        rw (k.label_eq, k.labels_eq),
        k.held_eq ∙ ap (λ h. h ++ ids rs) (no_ids l),
      )

  -- The parts that CreatePartition makes its map of.
  pub create_partition_parts :
      (store : ReplicaStore) (sizes : List ℕ) (labels : List String) (rs : List Replica)
      → iter store ≡ some (map some rs)
      → total sizes ≡ cap_of store
      → length rs ≡ total sizes
      → Distinct rs
      → length sizes ≡ length labels
      → All (λ n. 0 < n) sizes
      → (ps : List Part) × (create_partition val_addr store sizes labels
          ≡ some (inr (new_partition ps [])))
        × (map size_of ps ≡ sizes)
        × (map (λ (q : Part). q.label) ps ≡ labels)
        × (held_by ps ≡ ids rs)
  unfolding create_partition
  create_partition_parts store sizes labels rs listed full sum apart same pos =
      let (ps, eq, sizes_eq, labels_eq, held_eq) =
        assign_exact sizes labels rs same pos apart sum in
      let same' : nat_beq (length sizes) (length labels) ≡ true = ground arith in
      let full' : nat_beq (total sizes) (cap_of store) ≡ true = ground arith in
      (
        ps,
        rw (
          create_partition,
          same',
          make_parts_lem sizes labels same pos,
          full',
          listed,
          ◌>>=◌,
          eq,
        ),
        sizes_eq,
        labels_eq,
        held_eq,
      )
