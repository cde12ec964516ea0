-- ===== src/Raft/Apply/Replay.antt =====
-- What applying committed entries comes to: the key-value store reads as the log up to the commit
-- index, replayed.
use tendermint_testing.Base.{
  ℕ, ◌+◌, ◌%◌, ◌≤◌, ◌<◌, ◌≡◌, refl, sym, subst, ◌∙◌, ap, String, Bool, true, false, List, [], ◌∷◌,
  ◌++◌, Option, none, some, arith, ltb, leb, drop, length, All, if◌then◌else◌, ◌==◌, nat_eq,
  string_eq, Bool-cases, inl, inr,
}
use mathlib.Core.Path.{fun_ext}
use tendermint_testing.Base.GoMap.{lookup-insert}
use tendermint_testing.Raft.State.{update_commit_index, update_conf_state}
use tendermint_testing.Raft.KvApp as KvApp
use tendermint_testing.Raft.KvApp.{Kv, KvApp, get, set_decoded}
use tendermint_testing.Raft.Library.{
  Library, Entry, EntryType, normal, conf_change, ConfChange, ConfChangeType, add_node, remove_node,
  other_change,
}
use tendermint_testing.Raft.Node.{Node, Result, done, word, sub_word}
use tendermint_testing.Raft.Apply.{apply_entry, apply_each, apply_entries, change_conf}

-- A store as what it says of each key.
abbrev pub View : Type 0
View = String → Option String

abbrev pub view : KvApp → View
view a key = get a key

abbrev pub write : Option Kv → View → View
write none f key = f key
write (some e) f key = if e.key == key then some e.val else f key

-- What an entry does to the store: the empty entry and a change of configuration do nothing.
abbrev pub replay_entry : (List ℕ → Option Kv) → Entry → View → View
replay_entry decode e f = elim e.type [
  | normal ↦ elim e.bytes [ [] ↦ f | _ ↦ write (decode e.bytes) f ]
  | conf_change ↦ f
]

unfoldable pub replay : (List ℕ → Option Kv) → List Entry → View → View
replay decode [] f = f
replay decode (e ∷ es) f = replay decode es (replay_entry decode e f)

pub replay-append :
    (decode : List ℕ → Option Kv) (xs ys : List Entry) (f : View)
    → replay decode (xs ++ ys) f ≡ replay decode ys (replay decode xs f)
unfolding replay
replay-append decode [] ys f = refl
replay-append decode (x ∷ xs) ys f = replay-append decode xs ys (replay_entry decode x f)

view-set_decoded : (o : Option Kv) (a : KvApp) → view (set_decoded a o).0 ≡ write o (view a)
unfolding get
view-set_decoded none a = refl
view-set_decoded (some e) a = fun_ext λ key. lookup-insert e.key key e.val a

unfoldable pub last_index : ℕ → List Entry → ℕ
last_index i [] = i
last_index i (e ∷ es) = last_index e.index es

module _ {R S C H T W : Type 0} (lib : Library R S C H T W) where
  abbrev pub removes_by : ℕ → ConfChange → Bool
  removes_by id cc = elim cc.type [ remove_node ↦ cc.node_id == id | _ ↦ false ]

  -- Whether the entry takes the replica out of the cluster.
  abbrev pub removes : ℕ → Entry → Bool
  removes id e = elim e.type [
    | normal ↦ false
    | conf_change ↦ removes_by id (lib.unmarshal_conf_change e.bytes)
  ]

  abbrev pub Applies : Node R S C T W → Entry → Type 0
  Applies n e =
      (n' : Node R S C T W) × (apply_entry lib n e ≡ done (n', true))
      × (view n'.kv_app ≡ replay_entry lib.decode e (view n.kv_app))
      × (n'.state.commit_index ≡ e.index)
      × (n'.id ≡ n.id)
      × (n'.state.running ≡ n.state.running)

  abbrev with_conf : Node R S C T W → ConfChange → Node R S C T W
  with_conf n c = record n {
    rn = (lib.apply_conf_change n.rn c).0;
    state = update_conf_state n.state (lib.apply_conf_change n.rn c).1;
  }

  change_conf_lem :
      (n : Node R S C T W) (cc : ConfChange)
      → removes_by n.id cc ≡ false
      → (n' : Node R S C T W) × (change_conf lib n cc ≡ done (n', true))
        × (n'.kv_app ≡ n.kv_app)
        × (n'.state.commit_index ≡ n.state.commit_index)
        × (n'.id ≡ n.id)
        × (n'.state.running ≡ n.state.running)
  unfolding update_conf_state
  change_conf_lem n c h = change c.type c.node_id c.context h
    where
      change :
          (t : ConfChangeType) (id : ℕ) (ctx : List ℕ)
          → removes_by n.id (record { type = t; node_id = id; context = ctx }) ≡ false
          → (n' : Node R S C T W) × (change_conf lib n
                (record { type = t; node_id = id; context = ctx })
              ≡ done (n', true))
            × (n'.kv_app ≡ n.kv_app)
            × (n'.state.commit_index ≡ n.state.commit_index)
            × (n'.id ≡ n.id)
            × (n'.state.running ≡ n.state.running)
      change add_node id ctx k = elim (Bool-cases (ltb 0 (length ctx))) [
        | inl e ↦ (
          with_conf n (record { type = add_node; node_id = id; context = ctx }),
          rw e refl,
          refl,
          refl,
          refl,
          refl,
        )
        | inr e ↦ (
          with_conf n (record { type = add_node; node_id = id; context = ctx }),
          rw e refl,
          refl,
          refl,
          refl,
          refl,
        )
      ]
      change remove_node id ctx k = (
        with_conf n (record { type = remove_node; node_id = id; context = ctx }),
        rw k,
        refl,
        refl,
        refl,
        refl,
      )
      change other_change id ctx k = (_, refl, refl, refl, refl, refl)

  pub apply_entry_lem : (n : Node R S C T W) (e : Entry) → removes n.id e ≡ false → Applies n e
  unfolding apply_entry update_commit_index KvApp.set
  apply_entry_lem n e h = apply e.index e.type e.bytes h
    where
      apply :
          (i : ℕ) (t : EntryType) (b : List ℕ)
          → removes n.id (record { index = i; type = t; bytes = b }) ≡ false
          → Applies n (record { index = i; type = t; bytes = b })
      apply i normal [] k = (_, refl, refl, refl, refl, refl)
      apply i normal (x ∷ b) k =
          (_, refl, view-set_decoded (lib.decode (x ∷ b)) n.kv_app, refl, refl, refl)
      apply i conf_change b k =
          let (n', e, kv, commit, id, running) =
            change_conf_lem (record n { state = (update_commit_index n.state i).0 })
              (lib.unmarshal_conf_change b) k in
          (n', e, ap view kv, commit, id, running)

  abbrev pub Replays : Node R S C T W → List Entry → Result (Node R S C T W) → ℕ → Type 0
  Replays n es r i =
      (n' : Node R S C T W) × (r ≡ done n')
      × (view n'.kv_app ≡ replay lib.decode es (view n.kv_app))
      × (n'.state.commit_index ≡ i)
      × (n'.id ≡ n.id)
      × (n'.state.running ≡ n.state.running)

  pub apply_each_lem :
      (n : Node R S C T W) (es : List Entry)
      → All (λ e. removes n.id e ≡ false) es
      → Replays n es (apply_each lib n es) (last_index n.state.commit_index es)
  unfolding apply_each last_index replay
  apply_each_lem n [] h = (n, refl, refl, refl, refl, refl)
  apply_each_lem n (e ∷ es) h =
      let (n1, done1, kv1, commit1, id1, running1) = apply_entry_lem n e h.0 in
      let (n2, done2, kv2, commit2, id2, running2) =
        apply_each_lem n1 es
          (subst (λ (id : ℕ). All (λ e. removes id e ≡ false) es) (sym id1) h.1) in
      (
        n2,
        rw done1 done2,
        kv2 ∙ ap (replay lib.decode es) kv1,
        commit2 ∙ ap (λ (i : ℕ). last_index i es) commit1,
        id2 ∙ id1,
        running2 ∙ running1,
      )

  -- Go's slice from the commit index on: what the batch has beyond it.
  pub apply_entries_lem :
      (n : Node R S C T W) (first : Entry) (rest : List Entry) (d : ℕ)
      → n.state.commit_index + 1 < word
      → n.state.commit_index + 1 ≡ first.index + d
      → d ≤ length (first ∷ rest)
      → All (λ e. removes n.id e ≡ false) (drop d (first ∷ rest))
      → Replays n
          (drop d (first ∷ rest))
          (apply_entries lib n (first ∷ rest))
          (last_index n.state.commit_index (drop d (first ∷ rest)))
  unfolding apply_entries
  apply_entries_lem n first rest d small start long stays =
      let no_gap : ltb ((n.state.commit_index + 1) % word) first.index ≡ false = ground arith in
      let offset : (sub_word n.state.commit_index first.index + 1) % word ≡ d = omega arith in
      let inside : leb d (length (first ∷ rest)) ≡ true = ground arith in
      rw (no_gap, offset, inside)
        (apply_each_lem (record n { storage = lib.append n.storage (first ∷ rest) })
          (drop d (first ∷ rest)) stays)
