-- ===== src/Types/Replicas/Ready.antt =====
-- The Ready flags: NumReady and ResetReady.
use tendermint_testing.Base.{
  ℕ, ◌+◌, ◌≤◌, ◌≡◌, refl, inl, inr, String, false, [], ◌∷◌, none, some, arith, length, string_eq,
  Option-cases,
}
use tendermint_testing.Base.GoMap.{GoMap, lookup}
use tendermint_testing.Types.Replicas.{
  Replica, ReplicaStore, count_ready, num_ready, count, clear_ready, reset_ready,
}
use tendermint_testing.Types.Replicas.Invariant.{IsValid}

lookup-clear_ready :
    (id : String) (m : GoMap String Replica)
    → lookup id (clear_ready m)
      ≡ elim (lookup id m) [ none ↦ none | some r ↦ some (record r { ready = false }) ]
unfolding lookup
lookup-clear_ready id [] = refl
lookup-clear_ready id ((j, r) ∷ m) = ground (arith, lookup-clear_ready id m)

length-clear_ready : (m : GoMap String Replica) → length (clear_ready m) ≡ length m
length-clear_ready [] = refl
length-clear_ready ((j, r) ∷ m) = omega (arith, length-clear_ready m)

count_ready-clear_ready : (m : GoMap String Replica) (n : ℕ) → count_ready (clear_ready m) n ≡ n
count_ready-clear_ready [] n = refl
count_ready-clear_ready ((j, r) ∷ m) n = count_ready-clear_ready m n

count_ready-le : (m : GoMap String Replica) (n : ℕ) → count_ready m n ≤ n + length m
count_ready-le [] n = omega arith
count_ready-le ((j, r) ∷ m) n = ground (arith, count_ready-le m n, count_ready-le m (n + 1))

-- Never more replicas are ready than have registered.
pub num_ready-le-count : (s : ReplicaStore) → IsValid s → num_ready s ≤ count s
unfolding num_ready count
num_ready-le-count s v = omega (arith, count_ready-le s.replicas 0, v.size_replicas)

reset_ready-IsValid : (s : ReplicaStore) → IsValid s → IsValid (reset_ready s)
unfolding reset_ready
reset_ready-IsValid s v = record {
  size_index = v.size_index;
  size_replicas = omega (arith, v.size_replicas, length-clear_ready s.replicas);
  listed = λ i id h.
      let (r, found, i_eq, id_eq) = v.listed i id h in
      (record r { ready = false }, ground (arith, lookup-clear_ready id s.replicas), i_eq, id_eq);
  placed = λ id r h. elim (Option-cases (lookup id s.replicas)) [
    | inl e ↦ ground (arith, lookup-clear_ready id s.replicas)
    | inr (old, e) ↦ ground (arith, lookup-clear_ready id s.replicas, v.placed id old e)
  ];
}

-- After ResetReady of a well-formed store no replica is ready, and the store is still well-formed.
pub reset_ready-num_ready :
    (s : ReplicaStore) → IsValid s → (num_ready (reset_ready s) ≡ 0) × IsValid (reset_ready s)
unfolding num_ready reset_ready
reset_ready-num_ready s v = (count_ready-clear_ready s.replicas 0, reset_ready-IsValid s v)
