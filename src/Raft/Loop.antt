-- ===== src/Raft/Loop.antt =====
-- raft/raft/node.go: the turns of the raft loop, and Start, Stop and Restart.
pub mod Restart
pub mod Quiet
pub mod Published
use tendermint_testing.Base.{
  ℕ, String, Bool, true, false, List, [], ◌∷◌, ◌++◌, map, Option, none, some, if◌then◌else◌, Key,
}
use tendermint_testing.Base.GoMap.{GoMap}
use tendermint_testing.Raft.State.{update_raft_state, update_term_state, set_running}
use tendermint_testing.Raft.Library.{
  Library, Snapshot, Message, Ready, Load, load_failed, no_snapshot, loaded,
}
use tendermint_testing.Raft.Node.{Node, Result, done, fatal, ◌>>=◌, or_fatal, stop, other_goroutine}
use tendermint_testing.Raft.Snapshots.{restore_snapshot, save_snapshot, take_snapshot}
use tendermint_testing.Raft.Apply.{apply_entries}

module _ {R S C T W : Type 0} where
  -- PublishEventToNetrix, with a client.
  abbrev pub publish : Node R S C T W → String → GoMap String String → Node R S C T W
  publish n t params = record n { published = n.published ++ (t, params) ∷ [] }

module _ {R S C H T W : Type 0} (lib : Library R S C H T W) where
  abbrev pub publish_term : Node R S C T W → ℕ → Bool → Node R S C T W
  publish_term n term new =
      if new then publish n "TermChange" (("term", lib.decimal term) ∷ []) else n

  abbrev pub set_term : Node R S C T W → ℕ → Node R S C T W
  set_term n term =
      let (state, new) = update_term_state n.state term in
      publish_term (record n { state = state }) term new

module _ {R S C H T W : Type 0} ⦃role : Key S⦄ (lib : Library R S C H T W) where
  abbrev pub publish_role : Node R S C T W → S → ℕ → Bool → Node R S C T W
  publish_role n s term new =
      if new
      then publish n "StateChange"
          (("new_state", lib.role_name s) ∷ ("term", lib.decimal term) ∷ [])
      else n

  abbrev pub set_role : Node R S C T W → S → ℕ → Node R S C T W
  set_role n s term =
      let (state, new) = update_raft_state n.state s in
      publish_role (record n { state = state }) s term new

  -- A turn at the ticker.
  unfoldable pub on_tick : Node R S C T W → Node R S C T W
  unfolding update_raft_state update_term_state
  on_tick n =
      let rn = lib.tick n.rn in
      let (s, term) = lib.status rn in set_term lib (set_role (record n { rn = rn }) s term) term

module _ {R S C H T W : Type 0} (lib : Library R S C H T W) where
  abbrev pub with_conf : C → Message C → Message C
  with_conf conf m =
      if m.is_snap then record m { snapshot = record m.snapshot { conf_state = conf } } else m

  unfoldable pub send_messages : Node R S C T W → List (Message C) → Node R S C T W
  send_messages n msgs = record n { sent = n.sent ++ map (with_conf n.state.conf_state) msgs }

  abbrev pub store_snapshot : Node R S C T W → Snapshot C → Result (Node R S C T W)
  store_snapshot n s =
      if lib.is_empty_snap s
      then done n
      else (do saved ← save_snapshot lib n s; restore_snapshot lib saved.0)

  -- A turn with what the library has ready.
  unfoldable pub on_ready : Node R S C T W → Ready H C → Result (Node R S C T W)
  unfolding update_term_state send_messages save_snapshot restore_snapshot apply_entries
      take_snapshot
  on_ready n rd = do
    let n1 = set_term lib n rd.term
    n2 ← store_snapshot (record n1 { disk = lib.save n1.disk rd.hard_state rd.entries }) rd.snapshot
    n3 ← apply_entries lib (send_messages n2 rd.messages) rd.committed_entries
    n4 ← take_snapshot lib n3
    done (record n4 { rn = lib.advance n4.rn })

  -- The newest snapshot on disk, if there is a log, and the disk.
  abbrev pub find_snapshot : W → Result (Option (Snapshot C) × W)
  find_snapshot w =
      if lib.wal_exists w
      then (do
        snaps ← or_fatal (lib.valid_snapshots w)
        elim (lib.load_newest w snaps) [
          | load_failed ↦ fatal
          | no_snapshot ↦ done (none, w)
          | loaded s ↦ done (some s, w)
        ])
      else (do w' ← or_fatal (lib.create_wal w); done (none, w'))

  abbrev pub snap_index : Option (Snapshot C) → ℕ
  snap_index none = 0
  snap_index (some s) = s.index

  abbrev pub snap_term : Option (Snapshot C) → ℕ
  snap_term none = 0
  snap_term (some s) = s.term

  abbrev pub restore_found : Option (Snapshot C) → Node R S C T W → Result (Node R S C T W × Bool)
  restore_found none n = done (n, false)
  restore_found (some s) n = do n' ← restore_snapshot lib n; done (n', true)

  -- The Boolean says whether there was a snapshot.
  unfoldable pub setup_wal : Node R S C T W → Result (Node R S C T W × Bool)
  unfolding restore_snapshot
  setup_wal n = do
    found ← find_snapshot n.disk
    w ← or_fatal (lib.open_wal found.1 (snap_index found.0) (snap_term found.0))
    log ← or_fatal (lib.read_all w)
    r ← restore_found found.0 (record n { disk = w })
    done (record r.0 { storage = lib.append (lib.set_hard_state r.0.storage log.0) log.1 }, r.1)

  unfoldable pub start : Node R S C T W → Result (Node R S C T W)
  unfolding setup_wal set_running
  start n = if n.state.running then done n else (do
    w ← or_fatal (lib.make_dirs n.disk)
    r ← setup_wal (record n { disk = w })
    let rn = if r.1 then lib.restart_node n.id r.0.storage else lib.start_node n.id r.0.storage
    done (record r.0 { rn = rn; state = set_running r.0.state true }))

  -- Restart is called by another goroutine. The Boolean says that the storage could be removed.
  unfoldable pub restart : Node R S C T W → Result (Node R S C T W × Bool)
  unfolding stop start
  restart n = do
    n' ← stop other_goroutine n
    elim (lib.remove_all n'.disk) [
      | none ↦ done (n', false)
      | some w ↦ do n'' ← start (record n' { disk = w }); done (n'', true)
    ]
