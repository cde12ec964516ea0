-- ===== src/Tendermint/Partition/Sizes.antt =====
-- What CreatePartition makes of all the replicas.
use mathlib.Core.List.{append_assoc, append-nil}
use tendermint_testing.Base.{
  ℕ, ◌<◌, ◌≡◌, refl, sym, ◌∙◌, ap, String, false, List, [], ◌∷◌, ◌++◌, map, Option, some, length,
  string_eq, ◌==◌, All, inr,
}
use text.Mathlib.TextEquality.{eq_iff}
use tendermint_testing.Base.GoMap.{lookup, contains, insert, contains-insert}
use tendermint_testing.Types.Replicas.{Replica, ReplicaStore, iter, cap_of}
use tendermint_testing.Tendermint.Partition.{
  Part, Partition, total, new_partition, create_partition,
}
use tendermint_testing.Tendermint.Partition.Adding.{held_by, size_of, ids, Distinct, insert_absent}
use tendermint_testing.Tendermint.Partition.Parts.{create_partition_parts}

-- No label stands twice.
abbrev pub ApartLabels : List String → Type 0
ApartLabels [] = Unit
ApartLabels (l ∷ ls) = All (λ k. (l == k) ≡ false) ls × ApartLabels ls

abbrev labels_of : List Part → List String
labels_of ps = map (λ (q : Part). q.label) ps

abbrev entries : List Part → Partition
entries ps = map (λ (q : Part). (q.label, q)) ps

-- The parts of a partition, without the labels that lead to them.
abbrev pub parts_of : Partition → List Part
parts_of m = map (λ (e : String × Part). e.1) m

abbrev pub keys_of : Partition → List String
keys_of m = map (λ (e : String × Part). e.0) m

keys_of-entries : (ps : List Part) → keys_of (entries ps) ≡ labels_of ps
keys_of-entries [] = refl
keys_of-entries (p ∷ ps) = ap (◌∷◌ p.label) (keys_of-entries ps)

parts_of-entries : (ps : List Part) → parts_of (entries ps) ≡ ps
parts_of-entries [] = refl
parts_of-entries (p ∷ ps) = ap (◌∷◌ p) (parts_of-entries ps)

absent-insert :
    (p : Part) (ps : List Part) (m : Partition)
    → All (λ (q : Part). contains q.label m ≡ false) ps
    → All (λ k. (p.label == k) ≡ false) (labels_of ps)
    → All (λ (q : Part). contains q.label (insert p.label p m) ≡ false) ps
absent-insert p [] m absent apart = tt
absent-insert p (q ∷ ps) m absent apart = (
  contains-insert q.label p.label p m
        (λ same. absurd (let z = (eq_iff p.label q.label).1 same in let y = apart.0 in cc))
      ∙ absent.0,
  absent-insert p ps m absent.1 apart.1,
)

-- Parts with different labels all stay.
new_partition_all :
    (ps : List Part) (m : Partition)
    → All (λ (q : Part). contains q.label m ≡ false) ps
    → ApartLabels (labels_of ps)
    → new_partition ps m ≡ m ++ entries ps
unfolding new_partition
new_partition_all [] m absent apart = sym (append-nil m)
new_partition_all (p ∷ ps) m absent apart =
    new_partition_all ps (insert p.label p m) (absent-insert p ps m absent.1 apart.0) apart.1
    ∙ ap (λ x. x ++ entries ps) (insert_absent p.label p m absent.0)
    ∙ append_assoc m ((p.label, p) ∷ []) (entries ps)

none_there : (ps : List Part) → All (λ (q : Part). contains {V = Part} q.label [] ≡ false) ps
unfolding lookup
none_there [] = tt
none_there (p ∷ ps) = (refl, none_there ps)

module _ (val_addr : Replica → Option String) where
  -- With as many labels as sizes, no label twice, all sizes positive and their sum the number of
  -- replicas, which have different identifiers and all stand in the store, CreatePartition panics
  -- nowhere and returns no error: the partition has exactly the labels asked for, each leads to a
  -- part of that label with the size asked for, and put together in their order the parts hold
  -- exactly the replicas in the order of the store.
  pub create_partition_exact :
      (store : ReplicaStore) (sizes : List ℕ) (labels : List String) (rs : List Replica)
      → iter store ≡ some (map some rs)
      → total sizes ≡ cap_of store
      → length rs ≡ total sizes
      → Distinct rs
      → length sizes ≡ length labels
      → ApartLabels labels
      → All (λ n. 0 < n) sizes
      → (m : Partition) × (create_partition val_addr store sizes labels ≡ some (inr m))
        × (keys_of m ≡ labels)
        × (map (λ (q : Part). q.label) (parts_of m) ≡ labels)
        × (map size_of (parts_of m) ≡ sizes)
        × (held_by (parts_of m) ≡ ids rs)
  create_partition_exact store sizes labels rs listed full sum apart same differ pos =
      let (ps, made, by_size, by_label, all) =
        create_partition_parts val_addr store sizes labels rs listed full sum apart same pos in
      let whole : new_partition ps [] ≡ entries ps =
        new_partition_all ps [] (none_there ps) (rw by_label differ) in
      let same_parts : parts_of (entries ps) ≡ ps = parts_of-entries ps in
      (
        entries ps,
        made ∙ ap (λ m. some (inr m)) whole,
        keys_of-entries ps ∙ by_label,
        rw same_parts by_label,
        rw same_parts by_size,
        rw same_parts all,
      )
