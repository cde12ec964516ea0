-- ===== src/Tendermint/Rounds/Setups.antt =====
-- The setup of the Tendermint test cases: the partition, and the variable that TrackRoundTwoThirds reads.
use tendermint_testing.Base.{
  ℕ, ◌+◌, ◌-◌, ◌*◌, ◌/◌, ◌<◌, ◌≡◌, ◌≢◌, refl, ◌∙◌, ap, String, false, List, [], ◌∷◌, map, length,
  Option, none, some, arith, nat_beq, string_eq, Bool-cases, inl, inr,
}
use tendermint_testing.Types.Replicas.{Replica, ReplicaStore, iter, cap_of}
use tendermint_testing.Tendermint.Partition.{
  Part, not_positive, wrong_total, create_partition, new_partition, total,
}
use tendermint_testing.Tendermint.Partition.Adding.{held_by, size_of, ids, Distinct}
use tendermint_testing.Tendermint.Partition.Parts.{create_partition_parts}
use tendermint_testing.Tendermint.Rounds.{partition, printed}

module _ (val_addr : Replica → Option String) where
  abbrev sizes : ℕ → List ℕ
  sizes f = 1 ∷ f ∷ 2 * f ∷ []

  abbrev labels : List String
  labels = "h" ∷ "faulty" ∷ "rest" ∷ []

  partition-printed :
      (store : ReplicaStore) (f : ℕ)
      → (cap_of store - 1) / 3 ≡ f
      → partition val_addr store ≡ printed (create_partition val_addr store (sizes f) labels)
  unfolding partition create_partition
  partition-printed store f is =
      ap (λ x. printed (create_partition val_addr store (sizes x) labels)) is

  create_none_faulty :
      (store : ReplicaStore)
      → create_partition val_addr store (sizes 0) labels ≡ some (inl not_positive)
  unfolding create_partition
  create_none_faulty store = refl

  create_wrong_total :
      (store : ReplicaStore) (f : ℕ)
      → 0 < f
      → cap_of store ≢ 3 * f + 1
      → create_partition val_addr store (sizes f) labels ≡ some (inl wrong_total)
  unfolding create_partition
  create_wrong_total store f some_faulty differ =
      let one : nat_beq f 0 ≡ false = ground arith in
      let two : nat_beq (2 * f) 0 ≡ false = ground arith in
      let wrong : nat_beq (total (sizes f)) (cap_of store) ≡ false = ground arith in
      rw (create_partition, one, two, wrong) refl

  -- The partition that Setup makes by default, of a store that lists as many different replicas as it
  -- was made for. For 3f + 1 replicas with a positive f, its parts h, faulty and rest have 1, f and 2f
  -- replicas and hold all of them, in the order of the store. For any other number the setup panics.
  pub partition_lem :
      (store : ReplicaStore) (rs : List Replica)
      → iter store ≡ some (map some rs)
      → length rs ≡ cap_of store
      → Distinct rs
      → ((f : ℕ)
          → 0 < f
          → cap_of store ≡ 3 * f + 1
          → (ps : List Part) × (partition val_addr store ≡ some (new_partition ps []))
            × (map size_of ps ≡ sizes f)
            × (map (λ (q : Part). q.label) ps ≡ labels)
            × (held_by ps ≡ ids rs))
        × (((f : ℕ) → 0 < f → cap_of store ≢ 3 * f + 1) → partition val_addr store ≡ none)
  partition_lem store rs listed full apart = (
    λ f some_faulty three.
        let is : (cap_of store - 1) / 3 ≡ f = omega arith in
        let (ps, made, by_size, by_label, all) =
          create_partition_parts val_addr store (sizes f) labels rs listed (omega arith)
            (omega arith) apart refl (ground arith, (ground arith, (ground arith, tt))) in
        (ps, partition-printed store f is ∙ ap printed made, by_size, by_label, all),
    λ never. elim (Bool-cases (nat_beq ((cap_of store - 1) / 3) 0)) [
      | inl no_faulty ↦
          partition-printed store 0 (ground arith) ∙ ap printed (create_none_faulty store)
      | inr some_faulty ↦
          partition-printed store ((cap_of store - 1) / 3) refl
          ∙ ap printed (
              create_wrong_total store ((cap_of store - 1) / 3) (ground arith)
                (never ((cap_of store - 1) / 3) (ground arith)))
    ],
  )
