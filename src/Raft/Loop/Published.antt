-- ===== src/Raft/Loop/Published.antt =====
-- What the tool has been told of a replica's term.
use tendermint_testing.Base.{
  ℕ, ◌≡◌, refl, subst, String, List, [], ◌∷◌, ◌++◌, Option, none, some, if◌then◌else◌, Key, ◌==◌,
  string_eq, nat_eq, Bool-cases, inl, inr, ◌⊎◌,
}
use tendermint_testing.Base.GoMap.{GoMap, lookup}
use tendermint_testing.Raft.State.{update_raft_state, update_term_state}
use tendermint_testing.Raft.Library.{Library, Ready}
use tendermint_testing.Raft.Node.{Node, Result, done, fatal, panicked, blocked, ◌>>=◌}
use tendermint_testing.Raft.Snapshots.{take_snapshot}
use tendermint_testing.Raft.Apply.{apply_entries}
use tendermint_testing.Raft.Loop.{
  on_tick, on_ready, send_messages, store_snapshot, set_term, set_role,
}
use tendermint_testing.Raft.Loop.Quiet.{
  Quiet, Quiet-bind, Quiet-Same, Same, itself, store_snapshot-Quiet, apply_entries-Quiet,
  take_snapshot-Quiet,
}

-- The parameter of the last event of the type, or what was before.
unfoldable pub last_param :
    String → String → List (String × GoMap String String) → Option String → Option String
last_param t p [] before = before
last_param t p (e ∷ es) before = last_param t p es (if e.0 == t then lookup p e.1 else before)

last_param-append :
    (t p : String) (xs : List (String × GoMap String String)) (e : String × GoMap String String)
    (before : Option String)
    → last_param t p (xs ++ e ∷ []) before
      ≡ (if e.0 == t then lookup p e.1 else last_param t p xs before)
unfolding last_param
last_param-append t p [] e before = refl
last_param-append t p (x ∷ xs) e before = last_param-append t p xs e _

-- What the raft loop selects: the ticker, or what the library has ready.
pub data Turn (H C : Type 0) : Type 0 where
  tick : Turn H C
  ready : Ready H C → Turn H C

module _ {R S C H T W : Type 0} (lib : Library R S C H T W) where
  -- The last change of term that was published is to the replica's term; with none published, it
  -- is in term 0.
  abbrev pub IsPublished : Node R S C T W → Type 0
  IsPublished n =
      (last_param "TermChange" "term" n.published none ≡ some (lib.decimal n.state.term))
      ⊎ ((last_param "TermChange" "term" n.published none ≡ none) × (n.state.term ≡ 0))

  Same-IsPublished : (n m : Node R S C T W) → Same n m → IsPublished n → IsPublished m
  Same-IsPublished n m (published, term) h = rw (published, term) h

  set_term-IsPublished :
      (n : Node R S C T W) (term : ℕ) → IsPublished n → IsPublished (set_term lib n term)
  unfolding update_term_state lookup
  set_term-IsPublished n term h = elim (Bool-cases (n.state.term == term)) [
    | inl same ↦ rw same (
        subst
          (λ (t : ℕ).
            (last_param "TermChange" "term" n.published none ≡ some (lib.decimal t))
            ⊎ ((last_param "TermChange" "term" n.published none ≡ none) × (t ≡ 0)))
          ((nat_eq.same_iff n.state.term term).0 same) h)
    | inr other ↦ rw other (
        inl (
          last_param-append "TermChange" "term" n.published
            ("TermChange", ("term", lib.decimal term) ∷ []) none))
  ]

  set_role-IsPublished :
      ⦃role : Key S⦄ (n : Node R S C T W) (s : S) (term : ℕ)
      → IsPublished n
      → IsPublished (set_role lib n s term)
  unfolding update_raft_state lookup
  set_role-IsPublished ⦃role⦄ n s term h = elim (Bool-cases (n.state.raft_state == s)) [
    | inl same ↦ rw same h
    | inr other ↦
        let event : String × GoMap String String =
          ("StateChange", ("new_state", lib.role_name s) ∷ ("term", lib.decimal term) ∷ []) in
        rw other (rw (last_param-append "TermChange" "term" n.published event none) h)
  ]

  on_tick-IsPublished :
      ⦃role : Key S⦄ (n : Node R S C T W) → IsPublished n → IsPublished (on_tick lib n)
  unfolding on_tick
  on_tick-IsPublished n h =
      let rn : R = lib.tick n.rn in
      set_term-IsPublished (set_role lib (record n { rn = rn }) (lib.status rn).0 (lib.status rn).1)
        (lib.status rn).1
        (set_role-IsPublished (record n { rn = rn }) (lib.status rn).0 (lib.status rn).1 h)

  -- What a turn with something ready leaves, if it returns.
  on_ready-Same :
      (n : Node R S C T W) (rd : Ready H C)
      → Quiet itself (set_term lib n rd.term) (on_ready lib n rd)
  unfolding on_ready send_messages
  on_ready-Same n rd =
      let n1 : Node R S C T W = set_term lib n rd.term in
      let n1' : Node R S C T W = record n1 { disk = lib.save n1.disk rd.hard_state rd.entries } in
      Quiet-Same itself n1 n1' _ (refl, refl)
        (Quiet-bind itself itself n1' (store_snapshot lib n1' rd.snapshot) _
          (store_snapshot-Quiet lib n1' rd.snapshot)
          λ n2.
            Quiet-Same itself n2 (send_messages lib n2 rd.messages) _ (refl, refl)
              (Quiet-bind itself itself (send_messages lib n2 rd.messages)
                (apply_entries lib (send_messages lib n2 rd.messages) rd.committed_entries) _
                (apply_entries-Quiet lib (send_messages lib n2 rd.messages) rd.committed_entries)
                λ n3.
                  Quiet-bind itself itself n3 (take_snapshot lib n3) _ (take_snapshot-Quiet lib n3)
                    (λ n4. (refl, refl))))

  unfoldable pub turn : ⦃role : Key S⦄ → Node R S C T W → Turn H C → Result (Node R S C T W)
  turn n tick = done (on_tick lib n)
  turn n (ready rd) = on_ready lib n rd

  unfoldable pub run_turns :
      ⦃role : Key S⦄ → Node R S C T W → List (Turn H C) → Result (Node R S C T W)
  run_turns n [] = done n
  run_turns n (t ∷ ts) = do n' ← turn n t; run_turns n' ts

  abbrev Told : Result (Node R S C T W) → Type 0
  Told (done n) = IsPublished n
  Told fatal = Unit
  Told panicked = Unit
  Told blocked = Unit

  Told-Quiet :
      (n : Node R S C T W) (r : Result (Node R S C T W)) → IsPublished n → Quiet itself n r → Told r
  Told-Quiet n (done m) h q = Same-IsPublished n m q h
  Told-Quiet n fatal h q = tt
  Told-Quiet n panicked h q = tt
  Told-Quiet n blocked h q = tt

  turn-Told : ⦃role : Key S⦄ (n : Node R S C T W) (t : Turn H C) → IsPublished n → Told (turn n t)
  unfolding turn
  turn-Told n tick h = on_tick-IsPublished n h
  turn-Told n (ready rd) h =
      Told-Quiet (set_term lib n rd.term) (on_ready lib n rd) (set_term-IsPublished n rd.term h)
        (on_ready-Same n rd)

  -- However the raft loop turns, at the ticker or with anything that the library has ready: if the
  -- last change of term that was published was to the replica's term (or none, in term 0), so it is
  -- after any turns that return.
  pub run_turns-IsPublished :
      ⦃role : Key S⦄ (n : Node R S C T W) (ts : List (Turn H C)) {n' : Node R S C T W}
      → IsPublished n
      → run_turns n ts ≡ done n'
      → IsPublished n'
  unfolding run_turns
  run_turns-IsPublished n [] h e = subst Told e h
  run_turns-IsPublished n (t ∷ ts) {n'} h e =
      go (turn n t) (λ m k q. run_turns-IsPublished m ts k q) (turn-Told n t h) e
    where
      go :
          (r : Result (Node R S C T W))
          → ((m : Node R S C T W) → IsPublished m → run_turns m ts ≡ done n' → IsPublished n')
          → Told r
          → (r >>= λ m. run_turns m ts) ≡ done n'
          → IsPublished n'
      go (done m) ih k q = ih m k q
      go fatal ih k q = subst Told q tt
      go panicked ih k q = subst Told q tt
      go blocked ih k q = subst Told q tt
