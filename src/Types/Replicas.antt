-- ===== src/Types/Replicas.antt =====
-- netrix/types/replica.go: the replicas that have registered, in the order of registration.
pub mod Iteration
pub mod Invariant
pub mod Ready
use tendermint_testing.Base.{
  ℕ, zero, suc, ◌+◌, ◌-◌, ◌≤◌, ◌<◌, ◌≡◌, refl, String, Bool, true, false, List, [], ◌∷◌, ◌++◌, map,
  Option, none, some, arith, ltb, if◌then◌else◌, length, replicate, get_elem?, set, string_eq,
}
use tendermint_testing.Base.GoMap.{GoMap, lookup, insert}

-- A value of the Info map, which JSON decoding made: the code only asks whether it is a text.
pub data InfoValue : Type 0 where
  text : String → InfoValue
  other : InfoValue

pub record Replica : Type 0 where
  pub id : String
  pub ready : Bool
  pub info : GoMap String InfoValue
  pub addr : String
  pub index : ℕ

pub record ReplicaStore : Type 0 where
  pub replicas : GoMap String Replica
  pub index : List String
  pub cap : ℕ
  pub size : ℕ

unfoldable pub new_replica_store : ℕ → ReplicaStore
new_replica_store cap = record { replicas = []; index = []; cap = cap; size = 0 }

unfoldable pub add : ReplicaStore → Replica → ReplicaStore
add s p = elim (lookup p.id s.replicas) [
  | none ↦ record s {
    index = s.index ++ p.id ∷ [];
    size = s.size + 1;
    replicas = insert p.id (record p { index = s.size }) s.replicas;
  }
  | some existing ↦ record s {
    replicas = insert p.id (record p { index = existing.index }) s.replicas;
  }
]

unfoldable pub get : ReplicaStore → String → Option Replica
get s id = lookup id s.replicas

-- The loop of NumReady, over the values of the map.
abbrev pub count_ready : GoMap String Replica → ℕ → ℕ
count_ready [] count = count
count_ready ((id, r) ∷ rest) count = count_ready rest (if r.ready then count + 1 else count)

unfoldable pub num_ready : ReplicaStore → ℕ
num_ready s = count_ready s.replicas 0

unfoldable pub count : ReplicaStore → ℕ
count s = s.size

-- The loop of Iter: `none` is the panic of a write past the end of the slice.
abbrev pub fill :
    GoMap String Replica → List (Option Replica) → ℕ → List String → Option (List (Option Replica))
fill m out i [] = some out
fill m out i (p ∷ ps) =
    let rest = fill m (set out i (lookup p m)) (i + 1) ps in
    if ltb i (length out) then rest else none

-- A slot of the result that no replica fills is a nil pointer, `none`.
unfoldable pub iter : ReplicaStore → Option (List (Option Replica))
iter s = fill s.replicas (replicate s.cap none) 0 s.index

abbrev pub clear_ready : GoMap String Replica → GoMap String Replica
clear_ready [] = []
clear_ready ((id, r) ∷ rest) = (id, record r { ready = false }) ∷ clear_ready rest

unfoldable pub reset_ready : ReplicaStore → ReplicaStore
reset_ready s = record s { replicas = clear_ready s.replicas }

unfoldable pub cap_of : ReplicaStore → ℕ
cap_of s = s.cap

-- The outcome of rand.Intn(len(s.replicas)) is the argument `chosen`.
unfoldable pub get_random : ReplicaStore → ℕ → Option Replica
get_random s chosen = elim s.replicas [
  | [] ↦ none
  | _ ↦ elim (get_elem? (map (λ (p : String × Replica). p.0) s.replicas) chosen) [
    | none ↦ none
    | some id ↦ lookup id s.replicas
  ]
]
