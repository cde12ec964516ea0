-- ===== src/Base/GoMap.antt =====
-- Go's map[K]V as an association list. The list's order stands for the order of iteration, which
-- Go leaves open: statements about iteration do not depend on it.
use Prim.Native.Nat.{suc, ◌+◌}
use mathlib.Core.Path.{◌≡◌, refl, sym, subst, ◌∙◌}
use mathlib.Core.Logic.{◌≢◌, ◌⊎◌, inl, inr}
use mathlib.Core.Bool.{Bool, false}
use mathlib.Core.List.{List, [], ◌∷◌}
use mathlib.Core.Option.{Option, none, some}
use native.Mathlib.Omega.{arith}
use tendermint_testing.Base.Tests.{if◌then◌else◌, is_some, Bool-cases}
use tendermint_testing.Base.Lists.{length}
use tendermint_testing.Base.Keys.{Key, ◌==◌, eq_self, eq_ne}
pub use tendermint_testing.Base.Keys.{eq_self, eq_ne}

abbrev pub GoMap {ℓ κ} : Type ℓ → Type κ → Type (ℓ ⊔ κ)
GoMap K V = List (K × V)

module _ {ℓ κ} {K : Type ℓ} {V : Type κ} ⦃e : Key K⦄ where
  -- v, ok := m[k]
  unfoldable pub lookup : K → GoMap K V → Option V
  lookup key [] = none
  lookup key (entry ∷ rest) = if entry.0 == key then some entry.1 else lookup key rest

  -- m[k] = v
  unfoldable pub insert : K → V → GoMap K V → GoMap K V
  insert key new [] = (key, new) ∷ []
  insert key new (entry ∷ rest) =
      if entry.0 == key then (key, new) ∷ rest else entry ∷ insert key new rest

  -- delete(m, k)
  unfoldable pub delete : K → GoMap K V → GoMap K V
  delete k [] = []
  delete k ((j, w) ∷ m) = if j == k then delete k m else (j, w) ∷ delete k m

  abbrev pub contains : K → GoMap K V → Bool
  contains k m = is_some (lookup k m)

  pub lookup-insert :
      (k j : K) (v : V) (m : GoMap K V)
      → lookup j (insert k v m) ≡ (if k == j then some v else lookup j m)
  unfolding lookup insert
  lookup-insert k j v [] = refl
  lookup-insert k j v (entry ∷ rest) =
      ground (
        arith,
        lookup-insert k j v rest,
        e.same_iff entry.0 j,
        e.same_iff entry.0 k,
        e.same_iff k j,
      )

  pub lookup-insert_self : (k : K) (v : V) (m : GoMap K V) → lookup k (insert k v m) ≡ some v
  lookup-insert_self k v m = rw (lookup-insert k k v m, eq_self k)

  pub lookup-insert_ne :
      (k j : K) (v : V) (m : GoMap K V) → k ≢ j → lookup j (insert k v m) ≡ lookup j m
  lookup-insert_ne k j v m h = rw (lookup-insert k j v m, eq_ne k j h)

  -- What a read after a write returns was written, or was there.
  pub lookup-insert_cases :
      (k j : K) (v : V) (m : GoMap K V) {x : V}
      → lookup j (insert k v m) ≡ some x
      → ((k ≡ j) × (v ≡ x)) ⊎ ((k ≢ j) × (lookup j m ≡ some x))
  lookup-insert_cases k j v m h = elim (Bool-cases (k == j)) [
    | inl same ↦ inl (ground (arith, lookup-insert k j v m, e.same_iff k j))
    | inr differ ↦ inr (ground (arith, lookup-insert k j v m, e.same_iff k j))
  ]

  pub lookup-delete :
      (k j : K) (m : GoMap K V) → lookup j (delete k m) ≡ (if k == j then none else lookup j m)
  unfolding lookup delete
  lookup-delete k j [] = ground arith
  lookup-delete k j ((i, w) ∷ m) =
      ground (arith, e.same_iff k j, e.same_iff i k, e.same_iff i j, lookup-delete k j m)

  -- A write grows the map by one key, unless the key is there.
  pub length-insert :
      (k : K) (v : V) (m : GoMap K V)
      → length (insert k v m) ≡ (if contains k m then length m else suc (length m))
  unfolding lookup insert
  length-insert k v [] = refl
  length-insert k v ((i, w) ∷ m) = ground (arith, length-insert k v m)

  -- No key stands twice: so it is in a Go map.
  abbrev pub UniqueKeys : GoMap K V → Type ℓ
  UniqueKeys [] = Unit
  UniqueKeys ((k, v) ∷ m) = (contains k m ≡ false) × UniqueKeys m

  pub contains-insert :
      (k j : K) (v : V) (m : GoMap K V) → j ≢ k → contains k (insert j v m) ≡ contains k m
  contains-insert k j v m h = rw (lookup-insert_ne j k v m h)

  contains-delete :
      (k j : K) (m : GoMap K V) → contains k m ≡ false → contains k (delete j m) ≡ false
  contains-delete k j m h = ground (arith, lookup-delete j k m)

  pub insert-UniqueKeys : (k : K) (v : V) (m : GoMap K V) → UniqueKeys m → UniqueKeys (insert k v m)
  unfolding insert lookup
  insert-UniqueKeys k v [] h = (refl, tt)
  insert-UniqueKeys k v ((j, w) ∷ m) h = elim (Bool-cases (j == k)) [
    | inl same ↦ rw same (subst (λ x. contains x m ≡ false) ((e.same_iff j k).0 same) h.0, h.1)
    | inr differ ↦
        let ne : k ≢ j = λ q. absurd (let back = (e.same_iff j k).1 (sym q) in cc) in
        rw differ (contains-insert j k v m ne ∙ h.0, insert-UniqueKeys k v m h.1)
  ]

  pub delete-UniqueKeys : (k : K) (m : GoMap K V) → UniqueKeys m → UniqueKeys (delete k m)
  unfolding delete
  delete-UniqueKeys k [] h = tt
  delete-UniqueKeys k ((j, w) ∷ m) h =
      ground (arith, contains-delete j k m h.0, delete-UniqueKeys k m h.1)

  delete_absent : (k : K) (m : GoMap K V) → contains k m ≡ false → delete k m ≡ m
  unfolding delete lookup
  delete_absent k [] h = refl
  delete_absent k ((j, w) ∷ m) h = ground (arith, delete_absent k m)

  -- A delete takes away one key, where it is there.
  pub length-delete :
      (k : K) (m : GoMap K V)
      → UniqueKeys m
      → length (delete k m) + (if contains k m then 1 else 0) ≡ length m
  unfolding delete lookup
  length-delete k [] h = refl
  length-delete k ((j, w) ∷ m) h = elim (Bool-cases (j == k)) [
    | inl same ↦
        let absent : contains k m ≡ false =
          subst (λ x. contains x m ≡ false) ((e.same_iff j k).0 same) h.0 in
        rw (same, delete_absent k m absent) (omega arith)
    | inr differ ↦ rw differ (omega (arith, length-delete k m h.1))
  ]
