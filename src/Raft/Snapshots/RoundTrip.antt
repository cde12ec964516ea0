-- ===== src/Raft/Snapshots/RoundTrip.antt =====
-- A snapshot of one replica, restored by another.
use tendermint_testing.Base.{
  ℕ, ◌≤◌, ◌<◌, ◌≡◌, refl, sym, ◌∙◌, ap, true, false, none, some, arith, ltb, List, take,
}
use tendermint_testing.Raft.State.{update_snapshot_index, update_commit_index, update_conf_state}
use tendermint_testing.Raft.KvApp as KvApp
use tendermint_testing.Raft.KvApp.{KvApp}
use tendermint_testing.Raft.Library.{Library, Entry, Snapshot, loaded}
use tendermint_testing.Raft.Node.{Node, done, fatal}
use tendermint_testing.Raft.Snapshots.{restore_snapshot}
use tendermint_testing.Raft.Apply.Replay.{view, replay}
use tendermint_testing.Raft.Apply.Log.{IsApplied}

-- encoding/json reads back what it wrote of a map, up to the order of its keys.
abbrev pub ReadsBack : {R S C H T W : Type 0} → Library R S C H T W → Type 0
ReadsBack lib =
    (a : KvApp) (bytes : List ℕ)
    → lib.marshal a ≡ some bytes
    → (b : KvApp) × (lib.unmarshal bytes ≡ some b) × (view b ≡ view a)

module _ {R S C H T W : Type 0} (lib : Library R S C H T W) (log : List Entry) where
  -- Restoring a snapshot that another replica made of its store at its commit index, where that store
  -- reads as the log replayed: a replica that is behind takes over the store, the commit index and the
  -- configuration, and reads as the log replayed itself; one that is ahead exits. JSON is to read back
  -- the maps that it writes.
  pub restore_snapshot-snapshot :
      (n m : Node R S C T W) (s : Snapshot C)
      → ReadsBack lib
      → IsApplied lib log n
      → KvApp.snapshot lib.marshal n.kv_app ≡ some s.bytes
      → s.index ≡ n.state.commit_index
      → lib.load m.disk ≡ loaded s
      → (m.state.commit_index ≤ s.index
          → (m' : Node R S C T W) × (restore_snapshot lib m ≡ done m')
            × IsApplied lib log m'
            × (view m'.kv_app ≡ view n.kv_app)
            × (m'.state.commit_index ≡ n.state.commit_index)
            × (m'.state.snapshot_index ≡ n.state.commit_index)
            × (m'.state.conf_state ≡ s.conf_state))
        × (s.index < m.state.commit_index → restore_snapshot lib m ≡ fatal)
  unfolding restore_snapshot KvApp.restore KvApp.snapshot update_snapshot_index update_commit_index
      update_conf_state
  restore_snapshot-snapshot n m s back applied made at found =
      let (b, read, same) = back n.kv_app s.bytes made in
      (
        λ h.
            let behind : ltb s.index m.state.commit_index ≡ false = ground arith in
            rw (found, restore_snapshot, behind, read)
              (
                record m {
                  storage = lib.apply_snapshot m.storage s;
                  kv_app = b;
                  state = record m.state {
                    snapshot_index = s.index;
                    commit_index = s.index;
                    conf_state = s.conf_state;
                  };
                },
                refl,
                (
                  same
                      ∙ applied.0
                      ∙ ap (λ (i : ℕ). replay lib.decode (take i log) (λ key. none)) (sym at),
                  omega arith,
                ),
                same,
                at,
                at,
                refl,
              ),
        λ h.
            let ahead : ltb s.index m.state.commit_index ≡ true = ground arith in
            rw (found, restore_snapshot, ahead) refl,
      )
