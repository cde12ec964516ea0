-- ===== src/Raft/Loop/Quiet.antt =====
-- The calls of a turn of the raft loop that leave the term and the published events alone.
use tendermint_testing.Base.{
  ℕ, ◌≡◌, refl, ◌∙◌, Bool, true, false, List, [], ◌∷◌, Option, none, some, ltb, leb, drop, length,
  if◌then◌else◌, ◌==◌, string_eq, nat_eq, Bool-cases, inl, inr,
}
use tendermint_testing.Raft.State.{
  update_snapshot_index, update_commit_index, update_conf_state, set_running,
}
use tendermint_testing.Raft.KvApp as KvApp
use tendermint_testing.Raft.Library.{
  Library, Entry, EntryType, normal, conf_change, ConfChange, ConfChangeType, add_node, remove_node,
  other_change, Snapshot, Load, load_failed, no_snapshot, loaded,
}
use tendermint_testing.Raft.Node.{
  Node, Result, done, fatal, panicked, blocked, ◌>>=◌, or_fatal, stop,
}
use tendermint_testing.Raft.Snapshots.{restore_snapshot, save_snapshot, take_snapshot, compact_log}
use tendermint_testing.Raft.Apply.{apply_entry, apply_each, apply_entries, change_conf, from_offset}
use tendermint_testing.Raft.Loop.{store_snapshot}

module _ {R S C T W : Type 0} where
  abbrev pub Same : Node R S C T W → Node R S C T W → Type 0
  Same n m = (m.published ≡ n.published) × (m.state.term ≡ n.state.term)

  -- A call that returns a node, perhaps with more, leaves its term, and what was published, as they were.
  abbrev pub Quiet : {A : Type 0} → (A → Node R S C T W) → Node R S C T W → Result A → Type 0
  Quiet node n (done a) = Same n (node a)
  Quiet node n fatal = Unit
  Quiet node n panicked = Unit
  Quiet node n blocked = Unit

  pub Quiet-Same :
      {A : Type 0} (node : A → Node R S C T W) (n m : Node R S C T W) (r : Result A)
      → Same n m
      → Quiet node m r
      → Quiet node n r
  Quiet-Same node n m (done a) h k = (k.0 ∙ h.0, k.1 ∙ h.1)
  Quiet-Same node n m fatal h k = tt
  Quiet-Same node n m panicked h k = tt
  Quiet-Same node n m blocked h k = tt

  pub Quiet-bind :
      {A B : Type 0} (node : A → Node R S C T W) (node' : B → Node R S C T W) (n : Node R S C T W)
      (r : Result A) (f : A → Result B)
      → Quiet node n r
      → ((a : A) → Quiet node' (node a) (f a))
      → Quiet node' n (r >>= f)
  Quiet-bind node node' n (done a) f h k = Quiet-Same node' n (node a) (f a) h (k a)
  Quiet-bind node node' n fatal f h k = tt
  Quiet-bind node node' n panicked f h k = tt
  Quiet-bind node node' n blocked f h k = tt

  -- An or_fatal in front.
  pub Quiet-or_fatal :
      {A B : Type 0} (node : B → Node R S C T W) (n : Node R S C T W) (o : Option A)
      (f : A → Result B)
      → ((a : A) → Quiet node n (f a))
      → Quiet node n (or_fatal o >>= f)
  Quiet-or_fatal node n none f k = tt
  Quiet-or_fatal node n (some a) f k = k a

  pub Quiet-if :
      {B : Type 0} (node : B → Node R S C T W) (n : Node R S C T W) (b : Bool) (x y : Result B)
      → Quiet node n x
      → Quiet node n y
      → Quiet node n (if b then x else y)
  Quiet-if node n true x y h k = h
  Quiet-if node n false x y h k = k

  abbrev pub itself : Node R S C T W → Node R S C T W
  itself n = n

  abbrev pub first : {A : Type 0} → Node R S C T W × A → Node R S C T W
  first p = p.0

module _ {R S C H T W : Type 0} (lib : Library R S C H T W) where
  pub save_snapshot-Quiet :
      (n : Node R S C T W) (s : Snapshot C) → Quiet first n (save_snapshot lib n s)
  unfolding save_snapshot
  save_snapshot-Quiet n s =
      Quiet-if first n (lib.is_empty_snap s) _ _ (refl, refl)
        (Quiet-or_fatal first n (lib.save_snap n.disk s) _ λ w.
          Quiet-or_fatal first n (lib.save_wal_snapshot w s.index s.term s.conf_state) _
            λ w'. released w' (lib.release_lock_to w' s.index))
    where
      released :
          (w : W) (o : Option W)
          → Quiet first n (elim o as (λ x. Result (Node R S C T W × Bool)) [
            | none ↦ done (record n { disk = w }, false)
            | some w'' ↦ done (record n { disk = w'' }, true)
          ])
      released w none = (refl, refl)
      released w (some w'') = (refl, refl)

  pub restore_snapshot-Quiet : (n : Node R S C T W) → Quiet itself n (restore_snapshot lib n)
  unfolding restore_snapshot KvApp.restore update_snapshot_index update_commit_index
      update_conf_state
  restore_snapshot-Quiet n = restored (lib.load n.disk) refl
    where
      restored : (l : Load C) → lib.load n.disk ≡ l → Quiet itself n (restore_snapshot lib n)
      restored load_failed e = rw (e, restore_snapshot) tt
      restored no_snapshot e = rw (e, restore_snapshot) (refl, refl)
      restored (loaded s) e =
          rw (e, restore_snapshot)
            (Quiet-if itself n (ltb s.index n.state.commit_index) _ _ tt
              (Quiet-or_fatal itself n (lib.unmarshal s.bytes) _ (λ kv. (refl, refl))))

  pub store_snapshot-Quiet :
      (n : Node R S C T W) (s : Snapshot C) → Quiet itself n (store_snapshot lib n s)
  store_snapshot-Quiet n s =
      Quiet-if itself n (lib.is_empty_snap s) _ _ (refl, refl)
        (Quiet-bind first itself n (save_snapshot lib n s) _ (save_snapshot-Quiet n s)
          (λ saved. restore_snapshot-Quiet saved.0))

  pub compact_log-Quiet : (p : Node R S C T W × Bool) → Quiet itself p.0 (compact_log lib p)
  unfolding update_snapshot_index
  compact_log-Quiet (n, false) = tt
  compact_log-Quiet (n, true) =
      Quiet-or_fatal itself n (lib.compact n.storage _) _ (λ t. (refl, refl))

  pub take_snapshot-Quiet : (n : Node R S C T W) → Quiet itself n (take_snapshot lib n)
  unfolding take_snapshot KvApp.snapshot
  take_snapshot-Quiet n =
      Quiet-if itself n _ (done n) _ (refl, refl)
        (Quiet-or_fatal itself n (lib.marshal n.kv_app) _ λ bytes.
          Quiet-or_fatal itself n
            (lib.create_snapshot n.storage n.state.commit_index n.state.conf_state bytes) _
            λ made.
              Quiet-Same itself n (record n { storage = made.1 }) _ (refl, refl)
                (Quiet-bind first itself (record n { storage = made.1 })
                  (save_snapshot lib (record n { storage = made.1 }) made.0) _
                  (save_snapshot-Quiet (record n { storage = made.1 }) made.0)
                  (λ saved. compact_log-Quiet saved)))

  change_conf-Quiet : (n : Node R S C T W) (c : ConfChange) → Quiet first n (change_conf lib n c)
  unfolding update_conf_state stop set_running
  change_conf-Quiet n c = change c.type c.node_id c.context
    where
      change :
          (t : ConfChangeType) (id : ℕ) (ctx : List ℕ)
          → Quiet first n (change_conf lib n (record { type = t; node_id = id; context = ctx }))
      change add_node id ctx = elim (Bool-cases (ltb 0 (length ctx))) [
        | inl e ↦ rw e (refl, refl)
        | inr e ↦ rw e (refl, refl)
      ]
      change remove_node id ctx = elim (Bool-cases (id == n.id)) [
        | inr other ↦ rw other (refl, refl)
        | inl self ↦ elim (Bool-cases n.state.running) [
          | inl e ↦ rw (self, e) tt
          | inr e ↦ rw (self, e) (refl, refl)
        ]
      ]
      change other_change id ctx = (refl, refl)

  apply_entry-Quiet : (n : Node R S C T W) (e : Entry) → Quiet first n (apply_entry lib n e)
  unfolding apply_entry update_commit_index KvApp.set
  apply_entry-Quiet n e = apply e.index e.type e.bytes
    where
      apply :
          (i : ℕ) (t : EntryType) (b : List ℕ)
          → Quiet first n (apply_entry lib n (record { index = i; type = t; bytes = b }))
      apply i normal [] = (refl, refl)
      apply i normal (x ∷ b) = (refl, refl)
      apply i conf_change b =
          Quiet-Same first n (record n { state = (update_commit_index n.state i).0 }) _ (refl, refl)
            (change_conf-Quiet (record n { state = (update_commit_index n.state i).0 })
              (lib.unmarshal_conf_change b))

  apply_each-Quiet : (n : Node R S C T W) (es : List Entry) → Quiet itself n (apply_each lib n es)
  unfolding apply_each
  apply_each-Quiet n [] = (refl, refl)
  apply_each-Quiet n (e ∷ es) =
      Quiet-bind first itself n (apply_entry lib n e) _ (apply_entry-Quiet n e)
        (λ r. go r.0 r.1 (apply_each-Quiet r.0 es))
    where
      go :
          (m : Node R S C T W) (more : Bool)
          → Quiet itself m (apply_each lib m es)
          → Quiet itself m (elim more as (λ x. Result (Node R S C T W)) [
            | true ↦ apply_each lib m es
            | false ↦ done m
          ])
      go m true h = h
      go m false h = (refl, refl)

  from_offset-bind :
      (n : Node R S C T W) (from : ℕ) (es : List Entry) (f : List Entry → Result (Node R S C T W))
      → ((xs : List Entry) → Quiet itself n (f xs))
      → Quiet itself n (from_offset lib from es >>= f)
  from_offset-bind n from es f h = elim (Bool-cases (leb from (length es))) [
    | inl e ↦ rw e (h (drop from es))
    | inr e ↦ rw e tt
  ]

  pub apply_entries-Quiet :
      (n : Node R S C T W) (es : List Entry) → Quiet itself n (apply_entries lib n es)
  unfolding apply_entries
  apply_entries-Quiet n [] = (refl, refl)
  apply_entries-Quiet n (e ∷ es) = Quiet-if itself n _ fatal _ tt (
      from_offset-bind n _ (e ∷ es) _ λ xs.
        Quiet-Same itself n (record n { storage = lib.append n.storage (e ∷ es) }) _ (refl, refl)
          (apply_each-Quiet (record n { storage = lib.append n.storage (e ∷ es) }) xs))
