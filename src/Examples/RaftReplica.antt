-- ===== src/Examples/RaftReplica.antt =====
-- A replica of the Raft example (raft/raft) with a small library in place of the real one.
use tendermint_testing.Base.{
  ℕ, zero, suc, ◌+◌, ◌<◌, ◌≤◌, ◌≡◌, ◌⊎◌, inl, inr, refl, String, Bool, true, false, ◌&&◌, List, [],
  ◌∷◌, length, Option, none, some, arith, if◌then◌else◌, get_elem?, nat_eq, ◌==◌, string_eq,
  Bool-cases, take,
}
use text.Mathlib.TextEquality.{eq_iff}
use tendermint_testing.Raft.State.{NodeState}
use tendermint_testing.Raft.KvApp as KvApp
use tendermint_testing.Raft.KvApp.{Kv, KvApp}
use tendermint_testing.Raft.Library.{
  Library, Entry, normal, conf_change, ConfChange, add_node, remove_node, Snapshot, Load,
  no_snapshot, loaded,
}
use tendermint_testing.Raft.Node.{Node, done, fatal, panicked, blocked}
use tendermint_testing.Raft.Snapshots.{restore_snapshot, take_snapshot, snap_count}
use tendermint_testing.Raft.Snapshots.Bounds.{Taken, take_snapshot_bounds}
use tendermint_testing.Raft.Snapshots.RoundTrip.{ReadsBack, restore_snapshot-snapshot}
use tendermint_testing.Raft.Apply.{apply_each, apply_entries}
use tendermint_testing.Raft.Apply.Replay.{view, replay}
use tendermint_testing.Raft.Apply.Batches.{IsLog}
use tendermint_testing.Raft.Apply.Once.{with_storage}
use tendermint_testing.Raft.Apply.Log.{
  IsApplied, between, stored, apply_batches, apply_batches-IsApplied,
}
use tendermint_testing.Raft.Apply.Removal.{apply_each-removed}
use tendermint_testing.Raft.Loop.{restart, on_tick}
use tendermint_testing.Raft.Loop.Restart.{Wipes, restart-apply_panics}
use tendermint_testing.Raft.Loop.Published.{
  tick, IsPublished, turn, run_turns, last_param, run_turns-IsPublished,
}

-- One write has a code, 0, and so have the empty map and the map of that write.
abbrev decode : List ℕ → Option Kv
decode (zero ∷ []) = some (record { key = "x"; val = "1" })
decode _ = none

marshal : KvApp → Option (List ℕ)
marshal [] = some []
marshal ((k, v) ∷ []) = if k == "x" && v == "1" then some (0 ∷ []) else none
marshal (e ∷ f ∷ rest) = none

unmarshal : List ℕ → Option KvApp
unmarshal [] = some []
unmarshal (_ ∷ _) = some (("x", "1") ∷ [])

abbrev unmarshal_conf_change : List ℕ → ConfChange
unmarshal_conf_change (zero ∷ id ∷ []) = record { type = remove_node; node_id = id; context = [] }
unmarshal_conf_change _ = record { type = add_node; node_id = 7; context = [] }

abbrev found_on : ℕ → Load ℕ
found_on zero = no_snapshot
found_on (suc n) = loaded (record { index = 2; term = 1; conf_state = 4; bytes = 0 ∷ [] })

abbrev library : Library ℕ ℕ ℕ ℕ ℕ ℕ
library = record {
  tick = suc;
  status = λ r. (2, r);
  role_name = λ s. if s == 2 then "StateLeader" else "StateFollower";
  decimal = λ n. if n == 1 then "1" else "?";
  advance = λ r. r;
  apply_conf_change = λ r cc. (r, cc.node_id);
  unmarshal_conf_change = unmarshal_conf_change;
  is_empty_snap = λ s. s.index == 0;
  append = λ t es. t + length es;
  apply_snapshot = λ t s. s.index;
  create_snapshot = λ t i c b. some (record { index = i; term = 1; conf_state = c; bytes = b }, t);
  compact = λ t i. some i;
  set_hard_state = λ t h. t;
  save = λ w h es. w;
  save_snap = λ w s. some 1;
  save_wal_snapshot = λ w i t c. some w;
  release_lock_to = λ w i. some w;
  load = found_on;
  decode = decode;
  marshal = marshal;
  unmarshal = unmarshal;
  make_dirs = some;
  wal_exists = λ w. false;
  valid_snapshots = λ w. some [];
  load_newest = λ w snaps. no_snapshot;
  create_wal = some;
  open_wal = λ w i t. some w;
  read_all = λ w. some (0, []);
  remove_all = λ w. some 0;
  restart_node = λ id t. 0;
  start_node = λ id t. 0;
}

abbrev node : ℕ → ℕ → KvApp → ℕ → Node ℕ ℕ ℕ ℕ ℕ
node snapshot_index commit kv disk = record {
  rn = 0;
  id = 5;
  state = record {
    snapshot_index = snapshot_index;
    commit_index = commit;
    conf_state = 0;
    term = 0;
    raft_state = 0;
    running = true;
  };
  storage = 0;
  disk = disk;
  kv_app = kv;
  published = [];
  sent = [];
}

-- The empty entry of a new leader, a write, and the addition of a replica.
abbrev log : List Entry
log =
    record { index = 1; type = normal; bytes = [] }
    ∷ record { index = 2; type = normal; bytes = 0 ∷ [] }
    ∷ record { index = 3; type = conf_change; bytes = 7 ∷ [] }
    ∷ []

log-IsLog : IsLog log
log-IsLog zero e h = cc
log-IsLog (suc zero) e h = cc
log-IsLog (suc (suc zero)) e h = cc
log-IsLog (suc (suc (suc i))) e h = absurd (cc)

-- Two batches of which the second repeats an entry of the first.
abbrev batches : List (ℕ × ℕ)
batches = (0, 2) ∷ (1, 2) ∷ []

behind-IsApplied : IsApplied library log (node 0 1 [] 0)
unfolding KvApp.get tendermint_testing.Base.GoMap.lookup replay
behind-IsApplied = (refl, ground arith)

apply_batches-IsApplied_example :
    (n' : Node ℕ ℕ ℕ ℕ ℕ) × (apply_batches library log (node 0 1 [] 0) batches ≡ done n')
    × IsApplied library log n'
    × (n'.state.commit_index ≡ 3)
    × (n'.id ≡ 5)
    × (apply_each library (node 0 1 [] 0) (between library log 1 n'.state.commit_index)
        ≡ done (with_storage library 0 n'))
    × (n'.storage ≡ stored library log 0 batches)
apply_batches-IsApplied_example =
    apply_batches-IsApplied library log log-IsLog (ground arith) (node 0 1 [] 0) batches
      behind-IsApplied (refl, (refl, (refl, tt)))
      ((ground arith, ground arith, ground arith), ((ground arith, ground arith, ground arith), tt))

abbrev removal : Entry
removal = record { index = 4; type = conf_change; bytes = 0 ∷ 5 ∷ [] }

apply_each-removed_example :
    apply_each library
      (node 0 1 [] 0)
      (record { index = 2; type = normal; bytes = 0 ∷ [] } ∷ removal ∷ [])
    ≡ blocked
apply_each-removed_example =
    apply_each-removed library (node 0 1 [] 0)
      (record { index = 2; type = normal; bytes = 0 ∷ [] } ∷ []) removal [] refl (refl, tt) refl

take_snapshot_bounds_example :
    (150 ≤ 10 + snap_count → take_snapshot library (node 10 150 [] 0) ≡ done (node 10 150 [] 0))
    × (10 + snap_count < 150
        → (take_snapshot library (node 10 150 [] 0) ≡ fatal)
          ⊎ ((n' : Node ℕ ℕ ℕ ℕ ℕ) × (take_snapshot library (node 10 150 [] 0) ≡ done n')
              × Taken library (node 10 150 [] 0) n'))
take_snapshot_bounds_example =
    take_snapshot_bounds library (node 10 150 [] 0) (ground arith) (ground arith)

library-ReadsBack : ReadsBack library
unfolding marshal unmarshal
library-ReadsBack [] bytes h = let is : bytes ≡ [] = cc in ([], rw is refl, refl)
library-ReadsBack ((k, v) ∷ []) bytes h = elim (Bool-cases (k == "x" && v == "1")) [
  | inl both ↦
      let is : bytes ≡ 0 ∷ [] = let h' : some (0 ∷ []) ≡ some bytes = rw both at h in cc in
      let kx : k ≡ "x" = (eq_iff k "x").0 (ground arith) in
      let v1 : v ≡ "1" = (eq_iff v "1").0 (ground arith) in
      (("x", "1") ∷ [], rw is refl, rw (kx, v1) refl)
  | inr either ↦ absurd (let gone : none ≡ some bytes = rw either at h in cc)
]
library-ReadsBack (e ∷ f ∷ rest) bytes h = absurd (cc)

-- The snapshot that stands on a disk that is not empty.
abbrev snapshot : Snapshot ℕ
snapshot = record { index = 2; term = 1; conf_state = 4; bytes = 0 ∷ [] }

abbrev ahead : Node ℕ ℕ ℕ ℕ ℕ
ahead = node 0 2 (("x", "1") ∷ []) 0

ahead-IsApplied : IsApplied library log ahead
unfolding KvApp.get tendermint_testing.Base.GoMap.lookup replay
ahead-IsApplied = (refl, ground arith)

made : KvApp.snapshot library.marshal ahead.kv_app ≡ some snapshot.bytes
unfolding KvApp.snapshot marshal
made = refl

restore_snapshot-snapshot_example :
    (1 ≤ 2
      → (m' : Node ℕ ℕ ℕ ℕ ℕ) × (restore_snapshot library (node 0 1 [] 1) ≡ done m')
        × IsApplied library log m'
        × (view m'.kv_app ≡ view ahead.kv_app)
        × (m'.state.commit_index ≡ 2)
        × (m'.state.snapshot_index ≡ 2)
        × (m'.state.conf_state ≡ 4))
    × (2 < 1 → restore_snapshot library (node 0 1 [] 1) ≡ fatal)
restore_snapshot-snapshot_example =
    restore_snapshot-snapshot library log ahead (node 0 1 [] 1) snapshot library-ReadsBack
      ahead-IsApplied made refl refl

abbrev wipes : Wipes library (node 0 3 [] 1)
wipes = record {
  wiped = 0;
  created = 0;
  dirs = 0;
  opened = 0;
  hard_state = 0;
  entries = [];
  removed = refl;
  made = refl;
  no_wal = refl;
  new_wal = refl;
  opens = refl;
  read = refl;
}

restart-apply_panics_example :
    (n' : Node ℕ ℕ ℕ ℕ ℕ) × (restart library (node 0 3 [] 1) ≡ done (n', true))
    × (n'.state.running ≡ true)
    × (n'.state.commit_index ≡ 3)
    × (n'.kv_app ≡ [])
    × ((first : Entry) (rest : List Entry)
        → first.index ≡ 1
        → length (first ∷ rest) < 3
        → apply_entries library n' (first ∷ rest) ≡ panicked)
restart-apply_panics_example =
    restart-apply_panics library (node 0 3 [] 1) refl (ground arith) wipes

abbrev ticked : Node ℕ ℕ ℕ ℕ ℕ
ticked = record (node 0 1 [] 0) {
  rn = 1;
  state = record (node 0 1 [] 0).state { raft_state = 2; term = 1 };
  published =
      ("StateChange", ("new_state", "StateLeader") ∷ ("term", "1") ∷ [])
      ∷ ("TermChange", ("term", "1") ∷ [])
      ∷ [];
}

one_tick : run_turns library (node 0 1 [] 0) (tick ∷ []) ≡ done ticked
unfolding run_turns turn on_tick tendermint_testing.Raft.State.update_raft_state
    tendermint_testing.Raft.State.update_term_state
one_tick = refl

run_turns-IsPublished_example : IsPublished library ticked
unfolding last_param
run_turns-IsPublished_example =
    run_turns-IsPublished library (node 0 1 [] 0) (tick ∷ []) (inr (refl, refl)) one_tick
