-- ===== src/Types/ReplicaLogs.antt =====
-- netrix/types/replica_telemetry.go: the logs that the replicas post, kept for each replica by
-- their timestamps. `none` is a panic.
pub mod Order
use tendermint_testing.Base.{
  ℕ, zero, suc, ◌+◌, ◌-◌, ◌≡◌, refl, String, Bool, true, false, List, [], ◌∷◌, ◌++◌, map, Option,
  none, some, if◌then◌else◌, leb, ltb, length, take, drop, replicate, get_elem?, string_eq, ◌&&◌,
}
use tendermint_testing.Base.GoMap.{GoMap, lookup, insert}
use tendermint_testing.Base.Int.{ℤ, pos, negsuc, ltb_ℤ, leb_ℤ}

pub record ReplicaLog : Type 0 where
  pub params : GoMap String String
  pub message : String
  pub timestamp : ℤ  -- int64
  pub replica : String

unfoldable pub clone : ReplicaLog → ReplicaLog
clone l = record {
  params = l.params;
  message = l.message;
  timestamp = l.timestamp;
  replica = l.replica;
}

abbrev pub ReplicaLogStore : Type 0
ReplicaLogStore = GoMap String (List ReplicaLog)

unfoldable pub new_replica_log_store : ReplicaLogStore
new_replica_log_store = []

abbrev pub is_before : Option ReplicaLog → ReplicaLog → Bool
is_before none l = false
is_before (some m) l = ltb_ℤ m.timestamp l.timestamp

-- The loop of Add, from position n - 1 down: the place after the last log that is earlier. The
-- positions that it reads are in the list.
unfoldable pub find_place : List ReplicaLog → ReplicaLog → ℕ → ℕ
find_place logs l zero = 0
find_place logs l (suc n) =
    let further = find_place logs l n in if is_before (get_elem? logs n) l then suc n else further

-- The append, the copy and the write: what stood from the place on moves up by one.
unfoldable pub insert_log : List ReplicaLog → ReplicaLog → List ReplicaLog
unfolding find_place
insert_log logs l =
    let place = find_place logs l (length logs) in take place logs ++ l ∷ drop place logs

unfoldable pub add : ReplicaLogStore → ReplicaLog → ReplicaLogStore
unfolding insert_log
add store l = elim (lookup l.replica store) [
  | none ↦ insert l.replica (l ∷ []) store
  | some logs ↦ insert l.replica (insert_log logs l) store
]

-- logs[from : to]: Go allows `to` up to the capacity, which the runtime chooses, and what lies past
-- the length is nil.
abbrev pub slice : ℕ → List ReplicaLog → ℤ → ℤ → Option (List (Option ReplicaLog))
slice capacity logs (pos from) (pos to) =
    let found = take (to - from) (drop from logs) in
    if leb from to && leb to capacity
    then some (map some found ++ replicate (to - from - length found) none)
    else none
slice capacity logs from to = none

abbrev pub with_length :
    ℕ → Option (List (Option ReplicaLog)) → Option (List (Option ReplicaLog) × ℕ)
with_length n none = none
with_length n (some ls) = some (ls, n)

unfoldable pub get_logs :
    ℕ → ReplicaLogStore → String → ℤ → ℤ → Option (List (Option ReplicaLog) × ℕ)
get_logs capacity store replica from to = elim (lookup replica store) [
  | none ↦ some ([], 0)
  | some logs ↦ with_length (length logs) (slice capacity logs from to)
]

-- The replicas stay, with no logs.
unfoldable pub reset : ReplicaLogStore → ReplicaLogStore
reset store = map (λ (p : String × List ReplicaLog). (p.0, [])) store
