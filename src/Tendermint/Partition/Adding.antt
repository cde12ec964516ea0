-- ===== src/Tendermint/Partition/Adding.antt =====
-- What adding a replica does to a part, and writes at a place of a list that is known.
use tendermint_testing.Base.{
  ℕ, suc, ◌+◌, ◌≡◌, refl, ap, String, false, List, [], ◌∷◌, ◌++◌, map, Option, some, arith, length,
  get_elem?, modify, string_eq, ◌==◌, All, Bool-cases, inl, inr,
}
use tendermint_testing.Base.GoMap.{GoMap, lookup, insert, contains, lookup-insert}
use tendermint_testing.Types.Replicas.{Replica}
use tendermint_testing.Tendermint.ReplicaSets as ReplicaSets
use tendermint_testing.Tendermint.ReplicaSets.{ReplicaSet, new_replica_set}
use tendermint_testing.Tendermint.Partition.{Part, empty_part, add_to}

pub get_elem?_next {ℓ} :
    {A : Type ℓ} (xs ys : List A) (x y : A)
    → get_elem? (xs ++ x ∷ y ∷ ys) (suc (length xs)) ≡ some y
get_elem?_next [] ys x y = refl
get_elem?_next (z ∷ xs) ys x y = get_elem?_next xs ys x y

pub modify_next {ℓ} :
    {A : Type ℓ} (f : A → A) (xs ys : List A) (x y : A)
    → modify f (xs ++ x ∷ y ∷ ys) (suc (length xs)) ≡ (xs ++ x ∷ []) ++ f y ∷ ys
unfolding modify
modify_next f [] ys x y = refl
modify_next f (z ∷ xs) ys x y = ap (◌∷◌ z) (modify_next f xs ys x y)

pub length-append_one {ℓ} :
    {A : Type ℓ} (xs : List A) (x : A) → length (xs ++ x ∷ []) ≡ suc (length xs)
length-append_one [] x = refl
length-append_one (z ∷ xs) x = ap suc (length-append_one xs x)

-- The identifiers that a part holds, in the order in which they were added.
abbrev pub held : Part → List String
held p = ReplicaSets.iter p.replica_set

abbrev pub held_by : List Part → List String
held_by [] = []
held_by (p ∷ ps) = held p ++ held_by ps

abbrev pub size_of : Part → ℕ
size_of p = p.replica_set.size

abbrev pub ids : List Replica → List String
ids [] = []
ids (r ∷ rs) = r.id ∷ ids rs

-- No two replicas of the list have one identifier.
abbrev pub Distinct : List Replica → Type 0
Distinct [] = Unit
Distinct (r ∷ rs) = All (λ (x : Replica). (r.id == x.id) ≡ false) rs × Distinct rs

-- The part has none of the replicas.
abbrev pub Lacks : Part → List Replica → Type 0
Lacks p rs = All (λ (x : Replica). contains x.id p.replica_set.replicas ≡ false) rs

pub modify-append_length {ℓ} :
    {A : Type ℓ} (f : A → A) (xs ys : List A) (y : A)
    → modify f (xs ++ y ∷ ys) (length xs) ≡ xs ++ f y ∷ ys
unfolding modify
modify-append_length f [] ys y = refl
modify-append_length f (x ∷ xs) ys y = ap (◌∷◌ x) (modify-append_length f xs ys y)

pub insert_absent :
    {V : Type 0} (k : String) (v : V) (m : GoMap String V)
    → contains k m ≡ false
    → insert k v m ≡ m ++ (k, v) ∷ []
unfolding insert lookup
insert_absent k v [] h = refl
insert_absent k v (e ∷ m) h = elim (Bool-cases (e.0 == k)) [
  | inl same ↦ absurd (let z = rw same at h in cc)
  | inr other ↦ rw other (ap (◌∷◌ e) (insert_absent k v m (rw other at h)))
]

keys-append :
    {V : Type 0} (m : GoMap String V) (k : String) (v : V)
    → map (λ (p : String × V). p.0) (m ++ (k, v) ∷ []) ≡ map (λ (p : String × V). p.0) m ++ k ∷ []
keys-append [] k v = refl
keys-append (e ∷ m) k v = ap (◌∷◌ e.0) (keys-append m k v)

module _ (val_addr : Replica → Option String) where
  pub add_to_lem :
      (r : Replica) (p : Part)
      → contains r.id p.replica_set.replicas ≡ false
      → (held (add_to val_addr r p) ≡ held p ++ r.id ∷ [])
        × (size_of (add_to val_addr r p) ≡ size_of p + 1)
        × ((add_to val_addr r p).replica_set.replicas ≡ insert r.id r p.replica_set.replicas)
  unfolding ReplicaSets.add ReplicaSets.iter
  add_to_lem r p h =
      rw (h, ReplicaSets.add)
        (
          rw (insert_absent r.id r p.replica_set.replicas h)
              (keys-append p.replica_set.replicas r.id r),
          refl,
          refl,
        )

  pub still-Lacks :
      (r : Replica) (p : Part) (rs : List Replica)
      → contains r.id p.replica_set.replicas ≡ false
      → All (λ (x : Replica). (r.id == x.id) ≡ false) rs
      → Lacks p rs
      → Lacks (add_to val_addr r p) rs
  still-Lacks r p [] h d l = tt
  still-Lacks r p (x ∷ rs) h d l = (
    ground
        (arith, (add_to_lem r p h).2, lookup-insert r.id x.id r p.replica_set.replicas, d.0, l.0),
    still-Lacks r p rs h d.1 l.1,
  )

  pub empty-Lacks : (label : String) (rs : List Replica) → Lacks (empty_part label) rs
  unfolding new_replica_set lookup
  empty-Lacks label [] = tt
  empty-Lacks label (r ∷ rs) = (refl, empty-Lacks label rs)
