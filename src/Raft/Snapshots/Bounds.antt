-- ===== src/Raft/Snapshots/Bounds.antt =====
-- When a replica takes a snapshot, and what it compacts.
use tendermint_testing.Base.{
  ℕ, ◌+◌, ◌-◌, ◌≤◌, ◌<◌, ◌≡◌, refl, Bool, true, false, some, arith, leb, Option-cases, Bool-cases,
  inl, inr, ◌⊎◌,
}
use tendermint_testing.Raft.State.{update_snapshot_index}
use tendermint_testing.Raft.KvApp as KvApp
use tendermint_testing.Raft.Library.{Library, Snapshot}
use tendermint_testing.Raft.Node.{Node, Result, done, fatal, ◌>>=◌, word, sub_word}
use tendermint_testing.Raft.Snapshots.{
  save_snapshot, take_snapshot, compact_log, compact_index, snap_count,
}

module _ {R S C H T W : Type 0} (lib : Library R S C H T W) where
  -- What a save leaves alone.
  abbrev Saves : Node R S C T W → Result (Node R S C T W × Bool) → Type 0
  Saves n r = (r ≡ fatal) ⊎ ((w : W) × (ok : Bool) × (r ≡ done (record n { disk = w }, ok)))

  save_snapshot-Saves : (n : Node R S C T W) (s : Snapshot C) → Saves n (save_snapshot lib n s)
  unfolding save_snapshot
  save_snapshot-Saves n s = elim (Bool-cases (lib.is_empty_snap s)) [
    | inl e ↦ rw e (inr (n.disk, true, refl))
    | inr e ↦ rw e (elim (Option-cases (lib.save_snap n.disk s)) [
      | inl a ↦ rw a (inl refl)
      | inr (w, a) ↦
          rw a (elim (Option-cases (lib.save_wal_snapshot w s.index s.term s.conf_state)) [
            | inl b ↦ rw b (inl refl)
            | inr (w', b) ↦ rw b (elim (Option-cases (lib.release_lock_to w' s.index)) [
              | inl c ↦ rw c (inr (w', false, refl))
              | inr (w'', c) ↦ rw c (inr (w'', true, refl))
            ])
          ])
    ])
  ]

  -- The snapshot index is now the commit index, and the log was compacted between the old and the new.
  abbrev pub Taken : Node R S C T W → Node R S C T W → Type 0
  Taken n n' =
      (n'.state.snapshot_index ≡ n.state.commit_index)
      × (n'.state.commit_index ≡ n.state.commit_index)
      × (n'.kv_app ≡ n.kv_app)
      × ((t : T) × (i : ℕ) × (lib.compact t i ≡ some n'.storage)
          × (n.state.snapshot_index < i)
          × (i < n.state.commit_index))

  compact_index_bounds :
      (snapshot commit : ℕ)
      → snapshot + snap_count < commit
      → (snapshot < compact_index commit) × (compact_index commit < commit)
  compact_index_bounds snapshot commit h = ground arith

  due :
      (snapshot commit : ℕ)
      → commit < word
      → snapshot + 100 < commit
      → leb (sub_word commit snapshot) snap_count ≡ false
  due snapshot commit small h =
      let apart : sub_word commit snapshot ≡ commit - snapshot = omega arith in
      rw apart (ground arith)

  not_due :
      (snapshot commit : ℕ)
      → commit < word
      → snapshot ≤ commit
      → commit ≤ snapshot + 100
      → leb (sub_word commit snapshot) snap_count ≡ true
  not_due snapshot commit small le h =
      let apart : sub_word commit snapshot ≡ commit - snapshot = omega arith in
      rw apart (ground arith)

  -- A due snapshot ends the process or is taken.
  abbrev Ends : Node R S C T W → Result (Node R S C T W) → Type 0
  Ends n r = (r ≡ fatal) ⊎ ((n' : Node R S C T W) × (r ≡ done n') × Taken n n')

  compacted :
      (n : Node R S C T W) (t : T) (w : W) (ok : Bool)
      → n.state.snapshot_index + snap_count < n.state.commit_index
      → Ends n (compact_log lib (record n { storage = t; disk = w }, ok))
  unfolding update_snapshot_index
  compacted n t w false h = inl refl
  compacted n t w true h =
      elim (Option-cases (lib.compact t (compact_index n.state.commit_index))) [
        | inl e ↦ rw (e, compact_log) (inl refl)
        | inr (t', e) ↦
            rw (e, compact_log)
              (inr (
                record n {
                  storage = t';
                  disk = w;
                  state = record n.state { snapshot_index = n.state.commit_index };
                },
                refl,
                (
                  refl,
                  refl,
                  refl,
                  (
                    t,
                    compact_index n.state.commit_index,
                    e,
                    (compact_index_bounds n.state.snapshot_index n.state.commit_index h).0,
                    (compact_index_bounds n.state.snapshot_index n.state.commit_index h).1,
                  ),
                ),
              ))
      ]

  saved_then_compacted :
      (n : Node R S C T W) (t : T) (s : Snapshot C)
      → n.state.snapshot_index + snap_count < n.state.commit_index
      → Ends n (save_snapshot lib (record n { storage = t }) s >>= λ saved. compact_log lib saved)
  saved_then_compacted n t s h = elim (save_snapshot-Saves (record n { storage = t }) s) [
    | inl e ↦ rw e (inl refl)
    | inr (w, ok, e) ↦ rw e (compacted n t w ok h)
  ]

  -- Where the snapshot index is not above the commit index, takeSnapshot changes nothing while the
  -- commit index is at most 100 ahead. Otherwise it ends the process by one of its log.Fatalf calls,
  -- or it makes the commit index the snapshot index, leaves the commit index and the store as they
  -- are, and has compacted the log at an index above the old snapshot's and below the new one's: no
  -- subtraction of unsigned numbers wraps.
  pub take_snapshot_bounds :
      (n : Node R S C T W)
      → n.state.commit_index < word
      → n.state.snapshot_index ≤ n.state.commit_index
      → (n.state.commit_index ≤ n.state.snapshot_index + snap_count → take_snapshot lib n ≡ done n)
        × (n.state.snapshot_index + snap_count < n.state.commit_index
            → (take_snapshot lib n ≡ fatal)
              ⊎ ((n' : Node R S C T W) × (take_snapshot lib n ≡ done n') × Taken n n'))
  unfolding take_snapshot KvApp.snapshot
  take_snapshot_bounds n small le = (
    λ h. rw (not_due n.state.snapshot_index n.state.commit_index small le h) refl,
    λ h.
        rw (due n.state.snapshot_index n.state.commit_index small h)
          (elim (Option-cases (lib.marshal n.kv_app)) [
            | inl e ↦ rw e (inl refl)
            | inr (bytes, e) ↦
                rw e
                  (elim (Option-cases
                    (lib.create_snapshot n.storage n.state.commit_index n.state.conf_state bytes)) [
                      | inl f ↦ rw f (inl refl)
                      | inr ((s, t), f) ↦ rw f (saved_then_compacted n t s h)
                    ])
          ]),
  )
