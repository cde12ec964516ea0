-- ===== src/Raft/Snapshots.antt =====
-- raft/raft/node.go: restoreSnapshot, saveSnapshot and takeSnapshot.
pub mod Bounds
pub mod RoundTrip
use tendermint_testing.Base.{
  ℕ, ◌-◌, Bool, true, false, List, Option, none, some, ltb, leb, if◌then◌else◌,
}
use tendermint_testing.Raft.State.{
  NodeState, update_snapshot_index, update_commit_index, update_conf_state,
}
use tendermint_testing.Raft.KvApp as KvApp
use tendermint_testing.Raft.Library.{Library, Snapshot, load_failed, no_snapshot, loaded}
use tendermint_testing.Raft.Node.{Node, Result, done, fatal, ◌>>=◌, or_fatal, sub_word}

abbrev pub snap_count : ℕ
snap_count = 100

abbrev pub compact_delay : ℕ
compact_delay = 100

-- int(commit) - compactDelay, and back to uint64.
abbrev pub compact_index : ℕ → ℕ
compact_index commit = if ltb compact_delay commit then commit - compact_delay else 1

module _ {R S C H T W : Type 0} (lib : Library R S C H T W) where
  unfoldable pub restore_snapshot : Node R S C T W → Result (Node R S C T W)
  unfolding update_snapshot_index update_commit_index update_conf_state KvApp.restore
  restore_snapshot n = elim (lib.load n.disk) [
    | load_failed ↦ fatal
    | no_snapshot ↦ done n
    | loaded s ↦
        let n' = record n { storage = lib.apply_snapshot n.storage s } in
        if ltb s.index n.state.commit_index then fatal else do
          kv ← or_fatal (KvApp.restore lib.unmarshal n.kv_app s.bytes)
          let state = (update_snapshot_index n.state s.index).0
          let state' = (update_commit_index state s.index).0
          done (record n' { kv_app = kv; state = update_conf_state state' s.conf_state })
  ]

  -- The Boolean says whether the last call, ReleaseLockTo, returned no error.
  unfoldable pub save_snapshot : Node R S C T W → Snapshot C → Result (Node R S C T W × Bool)
  save_snapshot n s = if lib.is_empty_snap s then done (n, true) else do
    w ← or_fatal (lib.save_snap n.disk s)
    w' ← or_fatal (lib.save_wal_snapshot w s.index s.term s.conf_state)
    elim (lib.release_lock_to w' s.index) [
      | none ↦ done (record n { disk = w' }, false)
      | some w'' ↦ done (record n { disk = w'' }, true)
    ]

  -- The end of takeSnapshot, where the save returned no error.
  abbrev pub compact_log : Node R S C T W × Bool → Result (Node R S C T W)
  compact_log (n, false) = fatal
  compact_log (n, true) = do
    t ← or_fatal (lib.compact n.storage (compact_index n.state.commit_index))
    done (record n { storage = t; state = (update_snapshot_index n.state n.state.commit_index).0 })

  unfoldable pub take_snapshot : Node R S C T W → Result (Node R S C T W)
  unfolding save_snapshot update_snapshot_index KvApp.snapshot
  take_snapshot n =
      if leb (sub_word n.state.commit_index n.state.snapshot_index) snap_count then done n else do
        bytes ← or_fatal (KvApp.snapshot lib.marshal n.kv_app)
        created ←
            or_fatal (lib.create_snapshot n.storage n.state.commit_index n.state.conf_state bytes)
        saved ← save_snapshot (record n { storage = created.1 }) created.0
        compact_log saved
