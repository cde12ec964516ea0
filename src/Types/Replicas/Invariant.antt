-- ===== src/Types/Replicas/Invariant.antt =====
-- The index, the map and the size agree, and Add keeps them so.
use tendermint_testing.Base.{
  ℕ, zero, suc, ◌≡◌, refl, String, List, [], ◌∷◌, ◌++◌, none, some, arith, length, length-append,
  get_elem?, string_eq, ◌⊎◌, inl, inr, Option-cases, Bool-cases, ◌==◌, get_elem?-append_left,
  get_elem?-append_length, get_elem?_bound,
}
use tendermint_testing.Base.GoMap.{
  lookup, lookup-insert, lookup-insert_cases, length-insert, lookup-insert_self,
}
use text.Mathlib.TextEquality.{eq_iff}
use tendermint_testing.Types.Replicas.{Replica, ReplicaStore, new_replica_store, add}

pub record IsValid (s : ReplicaStore) : Type 0 where
  pub size_index : s.size ≡ length s.index
  pub size_replicas : s.size ≡ length s.replicas
  -- The i-th registered replica is in the map, and knows its place.
  pub listed :
      (i : ℕ) (id : String)
      → get_elem? s.index i ≡ some id
      → (r : Replica) × (lookup id s.replicas ≡ some r) × (r.index ≡ i) × (r.id ≡ id)
  pub placed :
      (id : String) (r : Replica)
      → lookup id s.replicas ≡ some r
      → get_elem? s.index r.index ≡ some id

pub new_replica_store-IsValid : (cap : ℕ) → IsValid (new_replica_store cap)
unfolding new_replica_store lookup
new_replica_store-IsValid cap = record {
  size_index = refl;
  size_replicas = refl;
  listed = λ i id h. cc;
  placed = λ id r h. cc;
}

-- An index past the old list is the new entry's.
get_elem?-append_one :
    {A : Type 0} (xs : List A) (y : A) (i : ℕ) {x : A}
    → get_elem? (xs ++ y ∷ []) i ≡ some x
    → (get_elem? xs i ≡ some x) ⊎ ((i ≡ length xs) × (x ≡ y))
get_elem?-append_one [] y zero h = inr (refl, ground arith)
get_elem?-append_one [] y (suc i) h = cc
get_elem?-append_one (z ∷ xs) y zero h = inl h
get_elem?-append_one (z ∷ xs) y (suc i) h = ground (arith, get_elem?-append_one xs y i h)

module _ (s : ReplicaStore) (p : Replica) (v : IsValid s) where
  add_new-IsValid : lookup p.id s.replicas ≡ none → IsValid (add s p)
  unfolding add
  add_new-IsValid e =
      rw (e, add)
        (record {
          size_index = omega (arith, v.size_index, length-append s.index (p.id ∷ []));
          size_replicas =
              ground (
                arith,
                v.size_replicas,
                length-insert p.id (record p { index = s.size }) s.replicas,
              );
          listed = λ i id h. elim (get_elem?-append_one s.index p.id i h) [
            | inl old ↦
                let (r, found, i_eq, id_eq) = v.listed i id old in
                (
                  r,
                  ground (
                    arith,
                    lookup-insert p.id id (record p { index = s.size }) s.replicas,
                    eq_iff p.id id,
                  ),
                  i_eq,
                  id_eq,
                )
            | inr (at_end, new) ↦ (
              record p { index = s.size },
              rw new (lookup-insert_self p.id (record p { index = s.size }) s.replicas),
              omega (arith, v.size_index),
              ground arith,
            )
          ];
          placed = λ id r h.
              elim (lookup-insert_cases p.id id (record p { index = s.size }) s.replicas h) [
                | inl (same, new) ↦
                    ground (arith, v.size_index, get_elem?-append_length s.index [] p.id)
                | inr (differ, old) ↦
                    let known = v.placed id r old in
                    ground (
                      arith,
                      get_elem?-append_left s.index (p.id ∷ []) r.index
                          (get_elem?_bound s.index r.index known),
                    )
              ];
        })

  add_existing-IsValid : {r : Replica} → lookup p.id s.replicas ≡ some r → IsValid (add s p)
  unfolding add
  add_existing-IsValid {r} e =
      rw (e, add)
        (record {
          size_index = v.size_index;
          size_replicas = ground (
            arith,
            v.size_replicas,
            length-insert p.id (record p { index = r.index }) s.replicas,
          );
          listed = λ i id h.
              let (known, found, i_eq, id_eq) = v.listed i id h in
              elim (Bool-cases (p.id == id)) [
                | inl same ↦ (
                  record p { index = r.index },
                  ground (arith, lookup-insert p.id id (record p { index = r.index }) s.replicas),
                  ground (arith, eq_iff p.id id),
                  ground (arith, eq_iff p.id id),
                )
                | inr differ ↦ (
                  known,
                  ground (arith, lookup-insert p.id id (record p { index = r.index }) s.replicas),
                  i_eq,
                  id_eq,
                )
              ];
          placed = λ id other h.
              elim (lookup-insert_cases p.id id (record p { index = r.index }) s.replicas h) [
                | inl (same, new) ↦ ground (arith, v.placed p.id r e)
                | inr (differ, old) ↦ v.placed id other old
              ];
        })

-- Add keeps a store well-formed, for a replica that is new and for one that registers again: the
-- listed identifiers and the map agree, every replica stands at its index, and the sizes are right.
pub add-IsValid : (s : ReplicaStore) (p : Replica) → IsValid s → IsValid (add s p)
add-IsValid s p v = elim (Option-cases (lookup p.id s.replicas)) [
  | inl e ↦ add_new-IsValid s p v e
  | inr (r, e) ↦ add_existing-IsValid s p v e
]
