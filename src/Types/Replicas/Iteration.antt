-- ===== src/Types/Replicas/Iteration.antt =====
-- What Iter returns, in closed form, and when it panics.
use mathlib.Core.List.{append_assoc, append-nil}
use tendermint_testing.Base.{
  ℕ, zero, suc, ◌-◌, ◌≤◌, ◌≡◌, String, List, [], ◌∷◌, ◌++◌, map, Option, none, some, arith, leb,
  if◌then◌else◌, length, length-append, replicate, get_elem?, string_eq, set-append_length,
  length-replicate, length-map, get_elem?-map, get_elem?-append_left, get_elem?_bound,
}
use tendermint_testing.Base.GoMap.{GoMap, lookup}
use tendermint_testing.Types.Replicas.{Replica, ReplicaStore, fill, iter}
use tendermint_testing.Types.Replicas.Invariant.{IsValid}

fill_lem :
    (m : GoMap String Replica) (done : List (Option Replica)) (n : ℕ) (ps : List String)
    → fill m (done ++ replicate n none) (length done) ps ≡ (
        if leb (length ps) n
        then some (done ++ (map (λ p. lookup p m) ps ++ replicate (n - length ps) none))
        else none)
fill_lem m done n [] = ground arith
fill_lem m done zero (p ∷ ps) = ground (arith, append-nil done)
fill_lem m done (suc n) (p ∷ ps) =
    let found = lookup p m in
    ground (
      arith,
      set-append_length done (replicate n none) none found,
      length-append done (none ∷ replicate n none),
      length-append done (found ∷ []),
      fill_lem m (done ++ found ∷ []) n ps,
      append_assoc done (found ∷ []) (map (λ q. lookup q m) ps ++ replicate (n - length ps) none),
    )

-- Iter lists the replicas in the order of registration and fills up with nil, or panics when more
-- replicas have registered than the store was made for.
pub iter_lem :
    (s : ReplicaStore)
    → iter s ≡ (
        if leb (length s.index) s.cap
        then some
            (map (λ p. lookup p s.replicas) s.index ++ replicate (s.cap - length s.index) none)
        else none)
unfolding iter
iter_lem s = fill_lem s.replicas [] s.cap s.index

-- While no more replicas have registered than a well-formed store was made for, Iter succeeds, its result has one
-- slot for each, and every replica stands at its index.
pub iter-index :
    (s : ReplicaStore)
    → IsValid s
    → s.size ≤ s.cap
    → (l : List (Option Replica)) × (iter s ≡ some l)
      × (length l ≡ s.cap)
      × ((id : String) (r : Replica)
          → lookup id s.replicas ≡ some r
          → get_elem? l r.index ≡ some (some r))
iter-index s v h = (
  listing,
  ground (arith, iter_lem s, v.size_index),
  omega (
    arith,
    v.size_index,
    length-append (map look s.index) padding,
    length-map s.index look,
    length-replicate {A = Option Replica} (s.cap - length s.index) none,
  ),
  λ id r found.
      let known = v.placed id r found in
      let there = get_elem?-map look s.index r.index known in
      ground (
        arith,
        there,
        get_elem?-append_left (map look s.index) padding r.index
            (get_elem?_bound (map look s.index) r.index there),
      ),
)
  where
    look : String → Option Replica
    look p = lookup p s.replicas

    padding : List (Option Replica)
    padding = replicate (s.cap - length s.index) none

    listing : List (Option Replica)
    listing = map look s.index ++ padding
