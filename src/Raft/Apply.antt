-- ===== src/Raft/Apply.antt =====
-- raft/raft/node.go and transport.go: how committed entries are applied.
pub mod Replay
pub mod Once
pub mod Batches
pub mod Log
pub mod Removal
use tendermint_testing.Base.{
  ℕ, ◌+◌, ◌%◌, Bool, true, false, List, [], ◌∷◌, Option, none, some, ltb, leb, drop, length,
  if◌then◌else◌, ◌==◌, nat_eq,
}
use tendermint_testing.Raft.State.{update_commit_index, update_conf_state}
use tendermint_testing.Raft.KvApp as KvApp
use tendermint_testing.Raft.Library.{
  Library, Entry, normal, conf_change, ConfChange, add_node, remove_node, other_change,
}
use tendermint_testing.Raft.Node.{
  Node, Result, done, fatal, panicked, ◌>>=◌, word, sub_word, stop, raft_loop,
}

module _ {R S C H T W : Type 0} (lib : Library R S C H T W) where
  -- AddPeer and RemovePeer of the transport do nothing.
  abbrev pub add_peer : Node R S C T W → ConfChange → Node R S C T W
  add_peer n cc = n

  abbrev pub remove_peer : Node R S C T W → ConfChange → Node R S C T W
  remove_peer n cc = n

  -- The configuration that a change gives, and what the transport is told: the Boolean says whether
  -- the loop over the entries goes on.
  abbrev pub change_conf : Node R S C T W → ConfChange → Result (Node R S C T W × Bool)
  change_conf n cc =
      let (rn, conf) = lib.apply_conf_change n.rn cc in
      let n' = record n { rn = rn; state = update_conf_state n.state conf } in
      elim cc.type [
        | add_node ↦ done (if ltb 0 (length cc.context) then add_peer n' cc else n', true)
        | remove_node ↦
            if cc.node_id == n.id
            then (do n'' ← stop raft_loop n'; done (n'', false))
            else done (remove_peer n' cc, true)
        | other_change ↦ done (n', true)
      ]

  unfoldable pub apply_entry : Node R S C T W → Entry → Result (Node R S C T W × Bool)
  unfolding update_commit_index update_conf_state KvApp.set stop
  apply_entry n e =
      let n' = record n { state = (update_commit_index n.state e.index).0 } in
      elim e.type [
        | normal ↦ elim e.bytes [
          | [] ↦ done (n', true)
          | _ ↦ done (record n' { kv_app = (KvApp.set lib.decode n.kv_app e.bytes).0 }, true)
        ]
        | conf_change ↦ change_conf n' (lib.unmarshal_conf_change e.bytes)
      ]

  unfoldable pub apply_each : Node R S C T W → List Entry → Result (Node R S C T W)
  unfolding apply_entry
  apply_each n [] = done n
  apply_each n (e ∷ es) = do
    r ← apply_entry n e
    elim r.1 [ true ↦ apply_each r.0 es | false ↦ done r.0 ]

  -- entries[from:]
  abbrev pub from_offset : ℕ → List Entry → Result (List Entry)
  from_offset from es = if leb from (length es) then done (drop from es) else panicked

  unfoldable pub apply_entries : Node R S C T W → List Entry → Result (Node R S C T W)
  unfolding apply_each
  apply_entries n entries =
      let n' = record n { storage = lib.append n.storage entries } in
      elim entries [
        | [] ↦ done n'
        | first ∷ rest ↦
            let commit = n'.state.commit_index in
            if ltb ((commit + 1) % word) first.index then fatal else do
              es ← from_offset ((sub_word commit first.index + 1) % word) (first ∷ rest)
              apply_each n' es
      ]
