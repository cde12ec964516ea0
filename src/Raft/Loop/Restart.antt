-- ===== src/Raft/Loop/Restart.antt =====
-- Restart wipes the disk and keeps what the replica has in memory.
use tendermint_testing.Base.{
  ◌+◌, ◌-◌, ◌%◌, ◌≤◌, ◌<◌, ◌≡◌, refl, true, false, List, ◌∷◌, some, arith, ltb, leb, length,
}
use tendermint_testing.Raft.State.{set_running}
use tendermint_testing.Raft.Library.{Library, Entry}
use tendermint_testing.Raft.Node.{Node, done, panicked, word, sub_word, stop}
use tendermint_testing.Raft.Apply.{apply_entries}
use tendermint_testing.Raft.Loop.{start, restart, setup_wal}

module _ {R S C H T W : Type 0} (lib : Library R S C H T W) where
  -- A batch that begins no later than behind the commit index and ends before it.
  apply_stale :
      (n : Node R S C T W) (first : Entry) (rest : List Entry)
      → n.state.commit_index + 1 < word
      → first.index + length (first ∷ rest) ≤ n.state.commit_index
      → apply_entries lib n (first ∷ rest) ≡ panicked
  unfolding apply_entries
  apply_stale n first rest small ends =
      let no_gap : ltb ((n.state.commit_index + 1) % word) first.index ≡ false = ground arith in
      let offset : (sub_word n.state.commit_index first.index + 1) % word
          ≡ n.state.commit_index + 1 - first.index =
        omega arith in
      let outside : leb (n.state.commit_index + 1 - first.index) (length (first ∷ rest)) ≡ false =
        ground arith in
      rw (no_gap, offset, outside) refl

  -- The calls that a restart makes succeed, and there is no log on the wiped disk.
  pub record Wipes (n : Node R S C T W) : Type 0 where
    pub wiped : W
    pub created : W
    pub dirs : W
    pub opened : W
    pub hard_state : H
    pub entries : List Entry
    pub removed : lib.remove_all n.disk ≡ some wiped
    pub made : lib.make_dirs wiped ≡ some dirs
    pub no_wal : lib.wal_exists dirs ≡ false
    pub new_wal : lib.create_wal dirs ≡ some created
    pub opens : lib.open_wal created 0 0 ≡ some opened
    pub read : lib.read_all opened ≡ some (hard_state, entries)

  -- Restart of a running replica by another goroutine succeeds, and the replica then starts with the
  -- commit index and the store that it had, though its log on disk is gone. When the new log's first
  -- entry is then handed over in a batch that ends before that commit index, the replica panics.
  pub restart-apply_panics :
      (n : Node R S C T W)
      → n.state.running ≡ true
      → n.state.commit_index + 1 < word
      → Wipes n
      → (n' : Node R S C T W) × (restart lib n ≡ done (n', true))
        × (n'.state.running ≡ true)
        × (n'.state.commit_index ≡ n.state.commit_index)
        × (n'.kv_app ≡ n.kv_app)
        × ((first : Entry) (rest : List Entry)
            → first.index ≡ 1
            → length (first ∷ rest) < n.state.commit_index
            → apply_entries lib n' (first ∷ rest) ≡ panicked)
  unfolding restart stop start setup_wal
  restart-apply_panics n running small w =
      let n' : Node R S C T W = record n {
        rn = lib.start_node n.id (lib.append (lib.set_hard_state n.storage w.hard_state) w.entries);
        storage = lib.append (lib.set_hard_state n.storage w.hard_state) w.entries;
        disk = w.opened;
        state = set_running (set_running n.state false) true;
      } in
      (
        n',
        rw (running, w.removed, w.made, w.no_wal, w.new_wal, w.opens, w.read) refl,
        refl,
        refl,
        refl,
        λ first rest one short. apply_stale n' first rest small (omega arith),
      )
