-- ===== src/Raft/Apply/Removal.antt =====
-- A replica that is taken out of the cluster.
use tendermint_testing.Base.{
  ℕ, ◌≡◌, refl, sym, subst, ◌∙◌, true, false, List, [], ◌∷◌, ◌++◌, All, nat_eq,
}
use tendermint_testing.Raft.State.{update_commit_index, update_conf_state}
use tendermint_testing.Raft.Library.{
  Library, Entry, EntryType, normal, conf_change, ConfChange, ConfChangeType, add_node, remove_node,
  other_change,
}
use tendermint_testing.Raft.Node.{Node, blocked, stop}
use tendermint_testing.Raft.Apply.{apply_entry, apply_each, change_conf}
use tendermint_testing.Raft.Apply.Replay.{removes, removes_by, apply_entry_lem}

module _ {R S C H T W : Type 0} (lib : Library R S C H T W) where
  removed_by_blocks :
      (n : Node R S C T W) (c : ConfChange)
      → removes_by lib n.id c ≡ true
      → n.state.running ≡ true
      → change_conf lib n c ≡ blocked
  unfolding stop update_conf_state
  removed_by_blocks n c h running = change c.type c.node_id c.context h
    where
      change :
          (t : ConfChangeType) (id : ℕ) (ctx : List ℕ)
          → removes_by lib n.id (record { type = t; node_id = id; context = ctx }) ≡ true
          → change_conf lib n (record { type = t; node_id = id; context = ctx }) ≡ blocked
      change add_node id ctx k = absurd (cc)
      change remove_node id ctx k = rw (k, running) refl
      change other_change id ctx k = absurd (cc)

  removed_blocks :
      (n : Node R S C T W) (e : Entry)
      → removes lib n.id e ≡ true
      → n.state.running ≡ true
      → apply_entry lib n e ≡ blocked
  unfolding apply_entry update_commit_index
  removed_blocks n e h running = apply e.index e.type e.bytes h
    where
      apply :
          (i : ℕ) (t : EntryType) (b : List ℕ)
          → removes lib n.id (record { index = i; type = t; bytes = b }) ≡ true
          → apply_entry lib n (record { index = i; type = t; bytes = b }) ≡ blocked
      apply i normal b k = absurd (cc)
      apply i conf_change b k =
          removed_by_blocks (record n { state = (update_commit_index n.state i).0 })
            (lib.unmarshal_conf_change b) k running

  -- When a running replica applies an entry that takes it out of the cluster, after any entries that
  -- do not, the loop never gets on: it waits for itself in Stop. The entries behind are not applied.
  pub apply_each-removed :
      (n : Node R S C T W) (pre : List Entry) (e : Entry) (post : List Entry)
      → n.state.running ≡ true
      → All (λ x. removes lib n.id x ≡ false) pre
      → removes lib n.id e ≡ true
      → apply_each lib n (pre ++ e ∷ post) ≡ blocked
  unfolding apply_each
  apply_each-removed n [] e post running h gone = rw (removed_blocks n e gone running) refl
  apply_each-removed n (x ∷ pre) e post running h gone =
      let (n1, done1, kv1, commit1, id1, running1) = apply_entry_lem lib n x h.0 in
      rw done1 (
        apply_each-removed n1 pre e post (running1 ∙ running)
          (subst (λ (id : ℕ). All (λ y. removes lib id y ≡ false) pre) (sym id1) h.1) (rw id1 gone))
