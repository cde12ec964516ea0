-- ===== src/Raft/Apply/Log.antt =====
-- Batches of one log: whatever pieces the Raft library hands over, a replica's store reads as the
-- replay of the log up to its commit index.
use tendermint_testing.Base.{
  ℕ, ◌+◌, ◌-◌, ◌≤◌, ◌<◌, ◌≡◌, refl, sym, subst, ◌∙◌, ap, false, List, [], ◌∷◌, none, arith, drop,
  take, length, All, All-drop, All-take, take-splice, drop-take_split, drop-take_from,
  drop-take_self,
}
use tendermint_testing.Raft.Library.{Library, Entry}
use tendermint_testing.Raft.Node.{Node, Result, done, ◌>>=◌, word}
use tendermint_testing.Raft.Apply.{apply_each, apply_entries}
use tendermint_testing.Raft.Apply.Once.{
  with_storage, apply_each-with_storage, apply_each-append, apply_entries-once,
}
use tendermint_testing.Raft.Apply.Batches.{
  IsLog, segment, Fits, Continues, end_of, end_of-le, last_index-beyond, first_index,
  length-segment,
}
use tendermint_testing.Raft.Apply.Replay.{
  view, replay, replay-append, last_index, removes, Replays, apply_entries_lem,
}

module _ {R S C H T W : Type 0} (lib : Library R S C H T W) (log : List Entry) where
  -- The store reads as the log up to the commit index, replayed from the empty store.
  abbrev pub IsApplied : Node R S C T W → Type 0
  IsApplied n =
      (view n.kv_app ≡ replay lib.decode (take n.state.commit_index log) (λ key. none))
      × (n.state.commit_index ≤ length log)

  -- Nothing in the log takes the replica out of the cluster.
  abbrev pub Stays : ℕ → Type 0
  Stays id = All (λ e. removes lib id e ≡ false) log

  unfoldable pub apply_batches : Node R S C T W → List (ℕ × ℕ) → Result (Node R S C T W)
  apply_batches n [] = done n
  apply_batches n (b ∷ bs) = do n' ← apply_entries lib n (segment log b); apply_batches n' bs

  -- The storage with the batches appended, each whole.
  abbrev pub stored : T → List (ℕ × ℕ) → T
  stored s [] = s
  stored s (b ∷ bs) = stored (lib.append s (segment log b)) bs

  -- The entries of the log behind the first `from`, up to `to`.
  abbrev pub between : ℕ → ℕ → List Entry
  between from to = drop from (take to log)

  abbrev AppliedTo : Node R S C T W → Result (Node R S C T W) → ℕ → T → Type 0
  AppliedTo n r i s =
      (n' : Node R S C T W) × (r ≡ done n')
      × IsApplied n'
      × (n'.state.commit_index ≡ i)
      × (n'.id ≡ n.id)
      × (apply_each lib n (between n.state.commit_index i) ≡ done (with_storage lib n.storage n'))
      × (n'.storage ≡ s)

  All-between : (id from to : ℕ) → Stays id → All (λ e. removes lib id e ≡ false) (between from to)
  All-between id from to stays =
      All-drop (λ e. removes lib id e ≡ false) from (take to log)
        (All-take (λ e. removes lib id e ≡ false) to log stays)

  -- What one run applies and what a later run applies from there is what one run applies of both.
  apply_each-between :
      (n n1 n2 : Node R S C T W) (c m e : ℕ)
      → c ≤ m
      → m ≤ e
      → Stays n.id
      → n1.id ≡ n.id
      → apply_each lib n (between c m) ≡ done (with_storage lib n.storage n1)
      → apply_each lib n1 (between m e) ≡ done (with_storage lib n1.storage n2)
      → apply_each lib n (between c e) ≡ done (with_storage lib n.storage n2)
  apply_each-between n n1 n2 c m e h k stays same first_run second_run =
      ap (apply_each lib n) (drop-take_split log c m e h k)
      ∙ apply_each-append lib n (between c m) (between m e) (All-between n.id c m stays) first_run
      ∙ apply_each-with_storage lib n.storage n1 (between m e)
          (All-between n1.id m e (subst Stays (sym same) stays)) second_run

  module _ (is_log : IsLog log) (small : length log + 1 < word) where
    Replays-IsApplied :
        (n : Node R S C T W) (from d count : ℕ) {r : Result (Node R S C T W)} {s : T}
        → IsApplied n
        → n.state.commit_index ≡ from + d
        → d ≤ count
        → from + count ≤ length log
        → Replays lib n (drop d (segment log (from, count))) r (from + count)
        → ((n' : Node R S C T W)
            → r ≡ done n'
            → (apply_each lib n (drop d (segment log (from, count)))
                ≡ done (with_storage lib n.storage n'))
              × (n'.storage ≡ s))
        → AppliedTo n r (from + count) s
    Replays-IsApplied n from d count applied at inside within (n', ran, kv, commit, id, running)
          once =
        let beyond = drop d (segment log (from, count)) in
        let each = once n' ran in
        (
          n',
          ran,
          (
            kv
                ∙ ap (replay lib.decode beyond) applied.0
                ∙ sym
                    (replay-append lib.decode (take n.state.commit_index log) beyond (λ key. none))
                ∙ ap (λ (es : List Entry). replay lib.decode es (λ key. none))
                    (rw (at, commit) (take-splice log from d count inside)),
            omega arith,
          ),
          commit,
          id,
          ap (λ c. apply_each lib n (between c (from + count))) at
              ∙ ap (apply_each lib n) (drop-take_from log from d count)
              ∙ each.0,
          each.1,
        )

    nonempty_batch :
        (n : Node R S C T W) (from d count : ℕ) (first : Entry) (rest : List Entry)
        → segment log (from, count) ≡ first ∷ rest
        → IsApplied n
        → Stays n.id
        → n.state.commit_index ≡ from + d
        → d ≤ count
        → from + count ≤ length log
        → AppliedTo n
            (apply_entries lib n (first ∷ rest))
            (from + count)
            (lib.append n.storage (first ∷ rest))
    nonempty_batch n from d count first rest e applied stays at inside within =
        let counted = first_index log is_log from count e in
        let full = length-segment log is_log from count within in
        let same : length (segment log (from, count)) ≡ length (first ∷ rest) = ap length e in
        let stay : All (λ x. removes lib n.id x ≡ false) (first ∷ rest) = rw e at (
          All-take (λ x. removes lib n.id x ≡ false) count (drop from log)
            (All-drop (λ x. removes lib n.id x ≡ false) from log stays)) in
        let left : All (λ x. removes lib n.id x ≡ false) (drop d (first ∷ rest)) =
          All-drop (λ x. removes lib n.id x ≡ false) d (first ∷ rest) stay in
        let ends : last_index n.state.commit_index (drop d (segment log (from, count)))
            ≡ from + count =
          rw at (last_index-beyond log is_log from d count inside within) in
        Replays-IsApplied n from d count applied at inside within
          (rw e (
            rw (rw e at ends) at (
              apply_entries_lem lib n first rest d (omega arith) (omega arith) (omega arith) left)))
          (λ n' ran. rw e (
            apply_entries-once lib n first rest d (omega arith) (omega arith) (omega arith) left
              ran))

    empty_batch :
        (n : Node R S C T W) (i : ℕ)
        → IsApplied n
        → n.state.commit_index ≡ i
        → AppliedTo n (apply_entries lib n []) i (lib.append n.storage [])
    unfolding apply_entries apply_each
    empty_batch n i applied at = (
      record n { storage = lib.append n.storage [] },
      refl,
      applied,
      at,
      refl,
      ap (apply_each lib n) (ap (λ c. between c i) at ∙ drop-take_self log i),
      refl,
    )

    batch_lem :
        (n : Node R S C T W) (from count : ℕ) (es : List Entry)
        → segment log (from, count) ≡ es
        → IsApplied n
        → Stays n.id
        → Fits log n.state.commit_index (from, count)
        → AppliedTo n
            (apply_entries lib n (segment log (from, count)))
            (from + count)
            (lib.append n.storage (segment log (from, count)))
    batch_lem n from count [] e applied stays (behind, reached, within) =
        let none_left : length (segment log (from, count)) ≡ 0 = rw e refl in
        let full = length-segment log is_log from count within in
        rw e (empty_batch n (from + count) applied (omega arith))
    batch_lem n from count (first ∷ rest) e applied stays (behind, reached, within) = rw e (
        nonempty_batch n from (n.state.commit_index - from) count first rest e applied stays
          (omega arith) (omega arith) within)

    -- Let the entries of a log count up from 1, and be fewer than 2^64 - 1. Where a replica's store
    -- reads as the log up to its commit index, replayed, and nothing in the log takes the replica out
    -- of the cluster, it applies without a fault any batches of the log of
    -- which each leaves no gap behind the commit index and reaches it, overlapping or not. After
    -- them the commit index is the end of the last, and the store reads as the log up to there. But
    -- for the storage of the log, the node is the one that the entries of the log between the old and
    -- the new commit index give, applied one by one, each once and in order; the storage is the old
    -- one with every batch appended whole.
    pub apply_batches-IsApplied :
        (n : Node R S C T W) (bs : List (ℕ × ℕ))
        → IsApplied n
        → Stays n.id
        → Continues log n.state.commit_index bs
        → (n' : Node R S C T W) × (apply_batches n bs ≡ done n')
          × IsApplied n'
          × (n'.state.commit_index ≡ end_of n.state.commit_index bs)
          × (n'.id ≡ n.id)
          × (apply_each lib n (between n.state.commit_index n'.state.commit_index)
              ≡ done (with_storage lib n.storage n'))
          × (n'.storage ≡ stored n.storage bs)
    unfolding apply_batches apply_each
    apply_batches-IsApplied n [] applied stays go = (
      n,
      refl,
      applied,
      refl,
      refl,
      ap (apply_each lib n) (drop-take_self log n.state.commit_index),
      refl,
    )
    apply_batches-IsApplied n ((from, count) ∷ bs) applied stays go =
        let (n1, ran1, applied1, commit1, id1, each1, stored1) =
          batch_lem n from count (segment log (from, count)) refl applied stays go.0 in
        let go1 = subst (λ i. Continues log i bs) (sym commit1) go.1 in
        let (n2, ran2, applied2, commit2, id2, each2, stored2) =
          apply_batches-IsApplied n1 bs applied1 (subst Stays (sym id1) stays) go1 in
        let later = end_of-le log n1.state.commit_index bs go1 in
        (
          n2,
          rw ran1 ran2,
          applied2,
          commit2 ∙ ap (λ i. end_of i bs) commit1,
          id2 ∙ id1,
          apply_each-between n n1 n2 n.state.commit_index n1.state.commit_index
              n2.state.commit_index (omega (arith, go.0.1)) (omega arith) stays id1
              (rw commit1 each1) each2,
          stored2 ∙ ap (λ s. stored s bs) stored1,
        )
