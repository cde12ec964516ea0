-- ===== src/Raft/Apply/Once.antt =====
-- Which entries a batch applies: those beyond the commit index, each once, as if the log were handed
-- over entry by entry.
use tendermint_testing.Base.{
  ℕ, ◌+◌, ◌%◌, ◌≤◌, ◌<◌, ◌≡◌, refl, sym, subst, ◌∙◌, ap, Bool, true, false, List, [], ◌∷◌, ◌++◌,
  arith, ltb, leb, drop, length, All, nat_eq, Bool-cases, inl, inr,
}
use tendermint_testing.Raft.State.{update_commit_index, update_conf_state}
use tendermint_testing.Raft.KvApp as KvApp
use tendermint_testing.Raft.Library.{
  Library, Entry, EntryType, normal, conf_change, ConfChangeType, add_node, remove_node,
  other_change,
}
use tendermint_testing.Raft.Node.{Node, Result, done, ◌>>=◌, word, sub_word}
use tendermint_testing.Raft.Apply.{apply_entry, apply_each, apply_entries, change_conf}
use tendermint_testing.Raft.Apply.Replay.{removes, removes_by, apply_entry_lem}

module _ {R S C H T W : Type 0} (lib : Library R S C H T W) where
  -- The node with another storage of the log.
  abbrev pub with_storage : T → Node R S C T W → Node R S C T W
  with_storage s n = record n { storage = s }

  abbrev with_storage_each : T → Result (Node R S C T W × Bool) → Result (Node R S C T W × Bool)
  with_storage_each s r = r >>= λ (x : Node R S C T W × Bool). done (with_storage s x.0, x.1)

  abbrev storage_of : T → Result (Node R S C T W) → T
  storage_of s (done n) = n.storage
  storage_of s r = s

  change_conf-with_storage :
      (s : T) (n : Node R S C T W) (t : ConfChangeType) (id : ℕ) (ctx : List ℕ)
      → removes_by lib n.id (record { type = t; node_id = id; context = ctx }) ≡ false
      → change_conf lib (with_storage s n) (record { type = t; node_id = id; context = ctx })
        ≡ with_storage_each s (change_conf lib n (record { type = t; node_id = id; context = ctx }))
  unfolding update_conf_state
  change_conf-with_storage s n add_node id ctx h = elim (Bool-cases (ltb 0 (length ctx))) [
    | inl e ↦ rw e refl
    | inr e ↦ rw e refl
  ]
  change_conf-with_storage s n remove_node id ctx h = rw h refl
  change_conf-with_storage s n other_change id ctx h = refl

  apply_entry-with_storage :
      (s : T) (n : Node R S C T W) (i : ℕ) (t : EntryType) (b : List ℕ)
      → removes lib n.id (record { index = i; type = t; bytes = b }) ≡ false
      → apply_entry lib (with_storage s n) (record { index = i; type = t; bytes = b })
        ≡ with_storage_each s (apply_entry lib n (record { index = i; type = t; bytes = b }))
  unfolding apply_entry update_commit_index KvApp.set
  apply_entry-with_storage s n i normal [] h = refl
  apply_entry-with_storage s n i normal (x ∷ b) h = refl
  apply_entry-with_storage s n i conf_change b h =
      let cc = lib.unmarshal_conf_change b in
      change_conf-with_storage s (record n { state = (update_commit_index n.state i).0 }) cc.type
        cc.node_id cc.context h

  -- Where no entry takes the replica out of the cluster, the storage does not matter.
  pub apply_each-with_storage :
      (s : T) (n : Node R S C T W) (es : List Entry) {n' : Node R S C T W}
      → All (λ e. removes lib n.id e ≡ false) es
      → apply_each lib n es ≡ done n'
      → apply_each lib (with_storage s n) es ≡ done (with_storage s n')
  unfolding apply_each
  apply_each-with_storage s n [] h ran =
      ap (λ r. r >>= λ (x : Node R S C T W). done (with_storage s x)) ran
  apply_each-with_storage s n (e ∷ es) h ran =
      let (n1, ran1, kv1, commit1, id1, running1) = apply_entry_lem lib n e h.0 in
      rw (apply_entry-with_storage s n e.index e.type e.bytes h.0, ran1)
        (apply_each-with_storage s n1 es
          (subst (λ (id : ℕ). All (λ e. removes lib id e ≡ false) es) (sym id1) h.1)
          (rw ran1 at ran))

  pub apply_each-append :
      (n : Node R S C T W) (xs ys : List Entry) {n' : Node R S C T W}
      → All (λ e. removes lib n.id e ≡ false) xs
      → apply_each lib n xs ≡ done n'
      → apply_each lib n (xs ++ ys) ≡ apply_each lib n' ys
  unfolding apply_each
  apply_each-append n [] ys h ran = ap (λ r. r >>= λ (x : Node R S C T W). apply_each lib x ys) ran
  apply_each-append n (e ∷ xs) ys h ran =
      let (n1, ran1, kv1, commit1, id1, running1) = apply_entry_lem lib n e h.0 in
      rw ran1 (
        apply_each-append n1 xs ys
          (subst (λ (id : ℕ). All (λ e. removes lib id e ≡ false) xs) (sym id1) h.1)
          (rw ran1 at ran))

  -- A batch comes to applying what it has beyond the commit index, and is kept in the storage whole.
  pub apply_entries-once :
      (n : Node R S C T W) (first : Entry) (rest : List Entry) (d : ℕ) {n' : Node R S C T W}
      → n.state.commit_index + 1 < word
      → n.state.commit_index + 1 ≡ first.index + d
      → d ≤ length (first ∷ rest)
      → All (λ e. removes lib n.id e ≡ false) (drop d (first ∷ rest))
      → apply_entries lib n (first ∷ rest) ≡ done n'
      → (apply_each lib n (drop d (first ∷ rest)) ≡ done (with_storage n.storage n'))
        × (n'.storage ≡ lib.append n.storage (first ∷ rest))
  unfolding apply_entries
  apply_entries-once n first rest d {n'} small start long stays ran =
      let no_gap : ltb ((n.state.commit_index + 1) % word) first.index ≡ false = ground arith in
      let offset : (sub_word n.state.commit_index first.index + 1) % word ≡ d = omega arith in
      let inside : leb d (length (first ∷ rest)) ≡ true = ground arith in
      let s = lib.append n.storage (first ∷ rest) in
      let each : apply_each lib (with_storage s n) (drop d (first ∷ rest)) ≡ done n' =
        rw (no_gap, offset, inside) at ran in
      let kept : done n' ≡ done (with_storage s n') =
        sym each
        ∙ apply_each-with_storage s (with_storage s n) (drop d (first ∷ rest)) stays each in
      (
        apply_each-with_storage n.storage (with_storage s n) (drop d (first ∷ rest)) stays each,
        ap (storage_of s) kept,
      )
