-- ===== src/Types/Dag/Searches.antt =====
-- GetSendNode, GetReceiveNode, GetTimeoutStart and GetTimeoutEnd: all four search the parents.
use mathlib.Core.Option
use tendermint_testing.Base.{
  ℕ, zero, suc, ◌≡◌, ◌≢◌, refl, sym, ap, subst, ◌∙◌, ◌⊎◌, inl, inr, Bool, true, false, List, [],
  ◌∷◌, Option, none, some, get_elem?, nat_eq, Bool-cases,
}
use tendermint_testing.Base.GoMap.{lookup}
use tendermint_testing.Base.Fallible.{>>=-eq-some}
use tendermint_testing.Types.Event.{
  Event, is_message_send, is_message_receive, is_timeout_start, is_timeout_end,
}
use tendermint_testing.Types.Replicas.{ReplicaStore}
use tendermint_testing.Types.Dag.{
  EventDag, EventNode, node_lt, get_node, find_parent, search_parents, is_send_of, is_receive_of,
  is_start_of, is_end_of, get_send_node, get_receive_node, get_timeout_start, get_timeout_end,
}
use tendermint_testing.Types.Dag.Parents.{Core, core}
use tendermint_testing.Types.Dag.History.{IsComplete, Built, Built-Inv, edges_go_up, same_value}

-- An event of one of the parents, which passes the test.
pub record Found (test : Event → Bool) (d : EventDag) (ps : List ℕ) (s : Event) : Type 0 where
  pub place : ℕ
  pub parent : ℕ
  pub node : EventNode
  pub place_eq : get_elem? ps place ≡ some parent
  pub node_eq : get_node d parent ≡ some node
  pub event_eq : node.event ≡ s
  pub passes : test s ≡ true

abbrev pub NoneFound : (Event → Bool) → EventDag → List ℕ → Type 0
NoneFound test d ps =
    (i q : ℕ) (n : EventNode)
    → get_elem? ps i ≡ some q
    → get_node d q ≡ some n
    → test n.event ≡ false

abbrev pub Outcome : (Event → Bool) → EventDag → List ℕ → Option (Option Event) → Type 0
Outcome test d ps r =
    ((s : Event) × (r ≡ some (some s)) × Found test d ps s)
    ⊎ ((r ≡ some none) × NoneFound test d ps)

later-Found :
    {test : Event → Bool} {d : EventDag} {p : ℕ} {ps : List ℕ} {s : Event}
    → Found test d ps s
    → Found test d (p ∷ ps) s
later-Found f = record {
  place = suc f.place;
  parent = f.parent;
  node = f.node;
  place_eq = f.place_eq;
  node_eq = f.node_eq;
  event_eq = f.event_eq;
  passes = f.passes;
}

NoneFound-cons :
    (test : Event → Bool) (d : EventDag) (p : ℕ) (ps : List ℕ) (n : EventNode)
    → get_node d p ≡ some n
    → test n.event ≡ false
    → NoneFound test d ps
    → NoneFound test d (p ∷ ps)
NoneFound-cons test d p ps n n_eq fails rest zero q m here m_eq =
    let q_p : p ≡ q = cc in
    let found : get_node d q ≡ some n = rw q_p at n_eq in let same : n ≡ m = cc in rw same at fails
NoneFound-cons test d p ps n n_eq fails rest (suc i) q m here m_eq = rest i q m here m_eq

-- Where every parent is a node, the loop ends with the first one that passes, or with none.
find_parent_lem :
    (test : Event → Bool) (d : EventDag) (ps : List ℕ)
    → ((i q : ℕ) → get_elem? ps i ≡ some q → (n : EventNode) × (get_node d q ≡ some n))
    → Outcome test d ps (find_parent test d ps)
unfolding find_parent
find_parent_lem test d [] known = inr (refl, λ i q n h. absurd (cc))
find_parent_lem test d (p ∷ ps) known =
    let (n, n_eq) = known 0 p refl in
    elim (Bool-cases (test n.event)) [
      | inl hit ↦ inl (
        n.event,
        rw (n_eq, hit),
        record {
          place = 0;
          parent = p;
          node = n;
          place_eq = refl;
          node_eq = n_eq;
          event_eq = refl;
          passes = hit;
        },
      )
      | inr miss ↦ elim (find_parent_lem test d ps (λ i q h. known (suc i) q h)) [
        | inl (s, s_eq, f) ↦ inl (s, rw (n_eq, miss) s_eq, later-Found f)
        | inr (none_eq, fails) ↦
            inr (rw (n_eq, miss) none_eq, NoneFound-cons test d p ps n n_eq miss fails)
      ]
    ]

module _ (store : ReplicaStore) (c : IsComplete store) {d : EventDag} (b : Built store d) where
  searched :
      (test : Event → Bool) (e : Event) (n : EventNode)
      → get_node d e.id ≡ some n
      → Outcome test d n.parents (search_parents test d e)
  searched test e n n_eq =
      rw (n_eq, search_parents)
        (find_parent_lem test d n.parents
          (λ i q at. let up = edges_go_up store c b e.id n i q n_eq at in (up.0, up.1)))

  -- With as many replicas registered as the store is made for, in a graph that AddNode built from
  -- events with new identifiers of registered replicas, GetSendNode of a receive whose identifier
  -- has a node does not panic: it returns the event of one of that node's parents that is a send
  -- of the same message, and reports none exactly when no parent is one.
  pub get_send_node-Outcome :
      (e : Event) (n : EventNode)
      → is_message_receive e ≡ true
      → get_node d e.id ≡ some n
      → Outcome (is_send_of e) d n.parents (get_send_node d e)
  unfolding get_send_node
  get_send_node-Outcome e n receive n_eq = rw receive (searched (is_send_of e) e n n_eq)

  -- The same of GetTimeoutStart for the end of a timeout.
  pub get_timeout_start-Outcome :
      (e : Event) (n : EventNode)
      → is_timeout_end e ≡ true
      → get_node d e.id ≡ some n
      → Outcome (is_start_of e) d n.parents (get_timeout_start d e)
  unfolding get_timeout_start
  get_timeout_start-Outcome e n ended n_eq = rw ended (searched (is_start_of e) e n n_eq)

  node_of_id : (q : ℕ) (m : EventNode) → get_node d q ≡ some m → m.event.id ≡ q
  unfolding get_node
  node_of_id q m h =
      let v = Built-Inv store c b in
      let (a, a_eq, m_eq) = >>=-eq-some (lookup q d.nodes) (get_elem? d.heap) h in
      let (k, k_eq, k_id) = v.placed q a a_eq in
      let same = sym (ap (Option.map core) m_eq) ∙ k_eq in
      ap (λ (y : Core). y.event.id) (let z : core m ≡ k = cc in z) ∙ k_id

  found_is_earlier :
      (test : Event → Bool) (e r : Event) (n m : EventNode) (i : ℕ)
      → get_node d e.id ≡ some n
      → search_parents test d e ≡ some (some r)
      → get_node d r.id ≡ some m
      → get_elem? m.parents i ≢ some e.id
  found_is_earlier test e r n m i n_eq h m_eq at = elim (searched test e n n_eq) [
    | inr (none_eq, fails) ↦ absurd (let both = sym none_eq ∙ h in cc)
    | inl (s, s_eq, f) ↦
        let same : s ≡ r = (let both = sym s_eq ∙ h in cc) in
        let parent_id : f.parent ≡ r.id =
          sym (node_of_id f.parent f.node f.node_eq)
          ∙ ap (λ (y : Event). y.id) (f.event_eq ∙ same) in
        let r_node : get_node d r.id ≡ some f.node =
          subst (λ q. get_node d q ≡ some f.node) parent_id f.node_eq in
        let m_node : f.node ≡ m = (let both = sym r_node ∙ m_eq in cc) in
        let up = edges_go_up store c b e.id n f.place f.parent n_eq f.place_eq in
        let down = edges_go_up store c b r.id m i e.id m_eq at in
        let up_node : up.0 ≡ m = same_value up.1 f.node_eq ∙ m_node in
        let down_node : down.0 ≡ n = same_value down.1 n_eq in
        let before : node_lt n m ≡ true = subst (λ y. node_lt y m ≡ true) down_node down.2 in
        let not_before : node_lt n m ≡ false = subst (λ y. node_lt n y ≡ false) up_node up.3 in cc
  ]

  -- With as many replicas registered as the store is made for, in a graph that AddNode built from
  -- events with new identifiers of registered replicas, what GetReceiveNode and GetTimeoutEnd
  -- return never has the event that was asked about among its own parents: they search the parents
  -- of its node, where no later event is.
  pub later_event_never_found :
      (e r : Event) (n m : EventNode) (i : ℕ)
      → get_node d e.id ≡ some n
      → (get_receive_node d e ≡ some (some r)) ⊎ (get_timeout_end d e ≡ some (some r))
      → get_node d r.id ≡ some m
      → get_elem? m.parents i ≢ some e.id
  unfolding get_receive_node get_timeout_end
  later_event_never_found e r n m i n_eq (inl h) m_eq = elim (Bool-cases (is_message_send e)) [
    | inl send ↦ found_is_earlier (is_receive_of e) e r n m i n_eq (rw send at h) m_eq
    | inr other ↦ absurd (let nothing = rw other at h in cc)
  ]
  later_event_never_found e r n m i n_eq (inr h) m_eq = elim (Bool-cases (is_timeout_start e)) [
    | inl started ↦ found_is_earlier (is_end_of e) e r n m i n_eq (rw started at h) m_eq
    | inr other ↦ absurd (let nothing = rw other at h in cc)
  ]
