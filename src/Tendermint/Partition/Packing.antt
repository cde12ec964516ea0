-- ===== src/Tendermint/Partition/Packing.antt =====
-- What the second loop of CreatePartition makes of the replicas, from any part on.
use mathlib.Core.List.{append_assoc}
use tendermint_testing.Base.{
  ℕ, suc, ◌+◌, ◌≤◌, ◌<◌, ◌≡◌, refl, sym, subst, ◌∙◌, ap, String, true, false, List, [], ◌∷◌, ◌++◌,
  map, Option, some, arith, ltb, length, get_elem?, get_elem?-append_length, string_eq, All,
  Bool-cases, inl, inr,
}
use tendermint_testing.Base.GoMap.{lookup, contains}
use tendermint_testing.Base.Fallible.{◌>>=◌}
use tendermint_testing.Types.Replicas.{Replica}
use tendermint_testing.Tendermint.ReplicaSets as ReplicaSets
use tendermint_testing.Tendermint.ReplicaSets.{ReplicaSet, new_replica_set}
use tendermint_testing.Tendermint.Partition.{Part, empty_part, total, assign, add_to}
use tendermint_testing.Tendermint.Partition.Adding.{
  held, held_by, size_of, ids, Distinct, Lacks, get_elem?_next, modify_next, length-append_one,
  modify-append_length, add_to_lem, still-Lacks, empty-Lacks,
}

-- The parts from the current one on, when all replicas are assigned.
pub record Packed (pre : List Part) (p : Part) (s : ℕ) (sizes : List ℕ) (labels : List String)
    (rs : List Replica) (result : Option (List Part)) : Type 0 where
  pub current : Part
  pub later : List Part
  pub result_eq : result ≡ some (pre ++ current ∷ later)
  pub size_eq : size_of current ≡ s
  pub sizes_eq : map size_of later ≡ sizes
  pub label_eq : current.label ≡ p.label
  pub labels_eq : map (λ (q : Part). q.label) later ≡ labels
  pub held_eq : held current ++ held_by later ≡ held p ++ ids rs

module _ (val_addr : Replica → Option String) where
  module _ (pre : List Part) (before : List ℕ) (p : Part) (s : ℕ) (sizes : List ℕ) (r : Replica)
      (rs : List (Option Replica)) (at : length pre ≡ length before) where
    size_at : get_elem? (before ++ s ∷ sizes) (length pre) ≡ some s
    size_at =
        subst (λ i. get_elem? (before ++ s ∷ sizes) i ≡ some s) (sym at)
          (get_elem?-append_length before sizes s)

    assign_room :
        (rest : List Part)
        → ltb (size_of p) s ≡ true
        → assign val_addr (before ++ s ∷ sizes) (length pre) (some r ∷ rs) (pre ++ p ∷ rest)
          ≡ assign val_addr
              (before ++ s ∷ sizes)
              (length pre)
              rs
              (pre ++ add_to val_addr r p ∷ rest)
    unfolding assign
    assign_room rest room = rw (
      get_elem?-append_length pre rest p,
      ◌>>=◌,
      size_at,
      ◌>>=◌,
      room,
      modify-append_length (add_to val_addr r) pre rest p,
    )

    assign_full :
        (q : Part) (rest : List Part)
        → ltb (size_of p) s ≡ false
        → assign val_addr (before ++ s ∷ sizes) (length pre) (some r ∷ rs) (pre ++ p ∷ q ∷ rest)
          ≡ assign val_addr
              ((before ++ s ∷ []) ++ sizes)
              (length (pre ++ p ∷ []))
              rs
              ((pre ++ p ∷ []) ++ add_to val_addr r q ∷ rest)
    unfolding assign
    assign_full q rest full = rw (
      get_elem?-append_length pre (q ∷ rest) p,
      ◌>>=◌,
      size_at,
      ◌>>=◌,
      full,
      get_elem?_next pre rest p q,
      ◌>>=◌,
      modify_next (add_to val_addr r) pre rest p q,
      append_assoc before (s ∷ []) sizes,
      length-append_one pre p,
    )

  module _ (pre : List Part) (before : List ℕ) (p : Part) (s : ℕ) (r : Replica) (rs : List Replica)
      (lacks : contains r.id p.replica_set.replicas ≡ false) where
    room-Packed :
        (sizes : List ℕ) (labels : List String) {result result' : Option (List Part)}
        → result' ≡ result
        → Packed pre (add_to val_addr r p) s sizes labels rs result
        → Packed pre p s sizes labels (r ∷ rs) result'
    room-Packed sizes labels eq k = record {
      current = k.current;
      later = k.later;
      result_eq = eq ∙ k.result_eq;
      size_eq = k.size_eq;
      sizes_eq = k.sizes_eq;
      label_eq = k.label_eq;
      labels_eq = k.labels_eq;
      held_eq =
          k.held_eq
          ∙ ap (λ h. h ++ ids rs) (add_to_lem val_addr r p lacks).0
          ∙ append_assoc (held p) (r.id ∷ []) (ids rs);
    }

  one_held : (r : Replica) (l : String) → size_of (add_to val_addr r (empty_part l)) ≡ 1
  unfolding new_replica_set
  one_held r l = (add_to_lem val_addr r (empty_part l) (empty-Lacks val_addr l (r ∷ [])).0).1

  full-Packed :
      (pre : List Part) (p : Part) (s n : ℕ) (sizes : List ℕ) (l : String) (labels : List String)
      (r : Replica) (rs : List Replica) {result result' : Option (List Part)}
      → size_of p ≡ s
      → result' ≡ result
      → Packed (pre ++ p ∷ []) (add_to val_addr r (empty_part l)) n sizes labels rs result
      → Packed pre p s (n ∷ sizes) (l ∷ labels) (r ∷ rs) result'
  unfolding new_replica_set lookup ReplicaSets.iter
  full-Packed pre p s n sizes l labels r rs is_full eq k = record {
    current = p;
    later = k.current ∷ k.later;
    result_eq = eq ∙ k.result_eq ∙ ap some (append_assoc pre (p ∷ []) (k.current ∷ k.later));
    size_eq = is_full;
    sizes_eq = rw (k.size_eq, k.sizes_eq);
    label_eq = refl;
    labels_eq = rw (k.label_eq, k.labels_eq);
    held_eq =
        ap (λ h. held p ++ h)
          (k.held_eq ∙ ap (λ h. h ++ ids rs) (add_to_lem val_addr r (empty_part l) refl).0);
  }

  pub assign-Packed :
      (pre : List Part) (before : List ℕ) (p : Part) (s : ℕ) (sizes : List ℕ) (labels : List String)
      (rs : List Replica)
      → length pre ≡ length before
      → size_of p ≤ s
      → All (λ n. 0 < n) sizes
      → length labels ≡ length sizes
      → Lacks p rs
      → Distinct rs
      → size_of p + length rs ≡ s + total sizes
      → Packed pre p s sizes labels rs (
          assign val_addr
            (before ++ s ∷ sizes)
            (length pre)
            (map some rs)
            (pre ++ p ∷ map empty_part labels))
  unfolding assign
  assign-Packed pre before p s [] [] [] at le pos same lacks apart sum = record {
    current = p;
    later = [];
    result_eq = refl;
    size_eq = omega arith;
    sizes_eq = refl;
    label_eq = refl;
    labels_eq = refl;
    held_eq = refl;
  }
  assign-Packed pre before p s [] (l ∷ labels) rs at le pos same lacks apart sum =
      absurd (omega arith)
  assign-Packed pre before p s (n ∷ sizes) [] rs at le pos same lacks apart sum =
      absurd (omega arith)
  assign-Packed pre before p s (n ∷ sizes) (l ∷ labels) [] at le pos same lacks apart sum =
      absurd (omega (arith, pos.0))
  assign-Packed pre before p s [] [] (r ∷ rs) at le pos same lacks apart sum =
      room-Packed pre before p s r rs lacks.0 [] []
        (assign_room pre before p s [] r (map some rs) at [] (ground arith))
        (assign-Packed pre before (add_to val_addr r p) s [] [] rs at
          (omega (arith, (add_to_lem val_addr r p lacks.0).1)) pos same
          (still-Lacks val_addr r p rs lacks.0 apart.0 lacks.1) apart.1
          (omega (arith, (add_to_lem val_addr r p lacks.0).1)))
  assign-Packed pre before p s (n ∷ sizes) (l ∷ labels) (r ∷ rs) at le pos same lacks apart sum =
      elim (Bool-cases (ltb (size_of p) s)) [
        | inl room ↦
            room-Packed pre before p s r rs lacks.0 (n ∷ sizes) (l ∷ labels)
              (assign_room pre before p s (n ∷ sizes) r (map some rs) at
                (map empty_part (l ∷ labels)) room)
              (assign-Packed pre before (add_to val_addr r p) s (n ∷ sizes) (l ∷ labels) rs at
                (ground (arith, (add_to_lem val_addr r p lacks.0).1)) pos same
                (still-Lacks val_addr r p rs lacks.0 apart.0 lacks.1) apart.1
                (omega (arith, (add_to_lem val_addr r p lacks.0).1)))
        | inr full ↦
            full-Packed pre p s n sizes l labels r rs (ground arith)
              (assign_full pre before p s (n ∷ sizes) r (map some rs) at (empty_part l)
                (map empty_part labels) full)
              (assign-Packed (pre ++ p ∷ []) (before ++ s ∷ []) (add_to val_addr r (empty_part l)) n
                sizes labels rs
                (length-append_one pre p ∙ ap suc at ∙ sym (length-append_one before s))
                (omega (arith, pos.0, one_held r l)) pos.1 (omega arith)
                (still-Lacks val_addr r (empty_part l) rs (empty-Lacks val_addr l (r ∷ [])).0
                  apart.0 (empty-Lacks val_addr l rs))
                apart.1 (ground (arith, one_held r l)))
      ]
