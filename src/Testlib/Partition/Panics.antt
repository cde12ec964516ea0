-- ===== src/Testlib/Partition/Panics.antt =====
-- NewPartition on two parts, the second no larger than the first: curPartSize is not set back to 0.
use tendermint_testing.Base.{
  ℕ, ◌+◌, ◌≤◌, ◌≡◌, refl, String, false, List, [], ◌∷◌, map, Option, none, some, arith, ltb, length,
  Bool-cases, inl, inr, subst, sym,
}
use tendermint_testing.Base.Fallible.{◌>>=◌}
use tendermint_testing.Types.Replicas.{Replica, ReplicaStore, cap_of, iter}
use tendermint_testing.Testlib.Partition.{ReplicaPartition, new_partition, make_parts, assign}

bind-none {ℓ} :
    {A B : Type ℓ} (m : Option A) (f : A → Option B) → ((a : A) → f a ≡ none) → (m >>= f) ≡ none
bind-none none f h = refl
bind-none (some a) f h = h a

module _ (s t : ℕ) (a b : String) (smaller : t ≤ s) where
  -- No third part takes the replicas that the second does not.
  second_full :
      (r : Replica) (rs : List (Option Replica)) (parts : ReplicaPartition)
      → assign (s ∷ t ∷ []) (a ∷ b ∷ []) 1 s (some r ∷ rs) parts ≡ none
  unfolding assign
  second_full r rs parts = let full : ltb s t ≡ false = ground arith in rw (assign, ◌>>=◌, full)

  first_fills :
      (k : ℕ) (rs : List Replica) (parts : ReplicaPartition)
      → k ≤ s
      → s + 2 ≤ k + length rs
      → assign (s ∷ t ∷ []) (a ∷ b ∷ []) 0 k (map some rs) parts ≡ none
  unfolding assign
  first_fills k [] parts le many = absurd (omega arith)
  first_fills k (r ∷ []) parts le many = absurd (omega arith)
  first_fills k (r ∷ r' ∷ rs) parts le many = elim (Bool-cases (ltb k s)) [
    | inl room ↦
        rw (assign, ◌>>=◌, room)
          (bind-none _ _ (λ p. first_fills (k + 1) (r' ∷ rs) p (ground arith) (omega arith)))
    | inr full ↦
        let same : k ≡ s = ground arith in
        rw (assign, ◌>>=◌, full)
          (bind-none _ _ (λ p.
            subst (λ n. assign (s ∷ t ∷ []) (a ∷ b ∷ []) 1 n (some r' ∷ map some rs) p ≡ none)
              (sym same) (second_full r' (map some rs) p)))
  ]

  -- Two parts whose sizes the capacity allows, the second no larger than the first, make NewPartition panic
  -- where at least two more replicas have registered than the first part takes, and Iter lists them all.
  pub new_partition_panics :
      (store : ReplicaStore) (rs : List Replica)
      → iter store ≡ some (map some rs)
      → s + t ≤ cap_of store
      → s + 2 ≤ length rs
      → new_partition store (s ∷ t ∷ []) (a ∷ b ∷ []) ≡ none
  unfolding new_partition make_parts
  new_partition_panics store rs listed fits many =
      let enough : ltb (cap_of store) (s + (t + 0)) ≡ false = ground arith in
      rw (enough, listed, ◌>>=◌) (rw (first_fills 0 rs _ (omega arith) (omega arith)))
