-- ===== src/Types/Dag/AddNode.antt =====
-- AddNode of a new event: it cannot panic, and it keeps the invariant.
use mathlib.Core.Option
use tendermint_testing.Base.{
  ℕ, zero, suc, ◌≡◌, ◌≢◌, refl, sym, ap, subst, ◌∙◌, List, [], ◌∷◌, Option, none, some, arith,
  if◌then◌else◌, is_some, length, get_elem?, nat_eq, string_eq, All, All-map, All_of_get_elem?,
  All-get_elem?, Option_map-eq_some, modify, get_elem?-modify_self, get_elem?-modify_ne,
}
use tendermint_testing.Base.GoMap.{lookup, insert}
use tendermint_testing.Types.Event.{Event}
use tendermint_testing.Types.Clock.{ClockValue}
use tendermint_testing.Types.Replicas.{Replica, ReplicaStore, iter}
use tendermint_testing.Types.Dag.{
  EventDag, EventNode, new_event_node, parent_nodes, clocks_at, add_parents, next_clock, add_node,
  set_clock,
}
use tendermint_testing.Types.Dag.Parents.{Core, core, core_at, id_at, Linked, add_parents_lem}
use tendermint_testing.Types.Dag.Advance.{
  IsReached, IsTicking, IsNext, next_total, IsReached-after, next-IsReached, IsTicking-after,
  parent-lt,
}
use tendermint_testing.Types.Dag.Invariant.{
  Inv, Precedes, core_at_bound, id_at_of_core, parent_nodes_lem, IsMapped, core_at-grown,
  core_at-grown_new, Strand, link_strand_lem,
}

clocks_at_cons :
    (heap : List EventNode) (p : ℕ) (n : EventNode)
    → get_elem? heap p ≡ some n
    → (ps : List ℕ) (cs : List (Option ClockValue))
    → ((i q : ℕ) (k : Core)
        → get_elem? ps i ≡ some q
        → core_at heap q ≡ some k
        → get_elem? cs i ≡ some k.clock)
    → (i q : ℕ) (k : Core) → get_elem? (p ∷ ps) i ≡ some q
    → core_at heap q ≡ some k
    → get_elem? (n.clock ∷ cs) i ≡ some k.clock
clocks_at_cons heap p n n_eq ps cs at zero q k here k_eq =
    let p_q : q ≡ p = cc in
    let at_p : Option.map core (get_elem? heap p) ≡ some k = rw p_q at k_eq in
    let both : some (core n) ≡ some k = rw n_eq at at_p in
    ap (λ (c : Core). some c.clock) (let same : core n ≡ k = cc in same)
clocks_at_cons heap p n n_eq ps cs at (suc i) q k here k_eq = at i q k here k_eq

-- The clocks of nodes that are there, each with a property of its node's clock.
clocks_at_lem :
    (R : Option ClockValue → Type 0) (heap : List EventNode) (ps : List ℕ)
    → All (λ p. (k : Core) × (core_at heap p ≡ some k) × R k.clock) ps
    → (cs : List (Option ClockValue)) × (clocks_at heap ps ≡ some cs)
      × All R cs
      × ((i p : ℕ) (k : Core)
          → get_elem? ps i ≡ some p
          → core_at heap p ≡ some k
          → get_elem? cs i ≡ some k.clock)
unfolding clocks_at
clocks_at_lem R heap [] h = ([], refl, tt, λ i p k q r. absurd (cc))
clocks_at_lem R heap (p ∷ ps) h =
    let (k, k_eq, good) = h.0 in
    let (n, n_eq, same) = Option_map-eq_some core (get_elem? heap p) k_eq in
    let (cs, cs_eq, all, at) = clocks_at_lem R heap ps h.1 in
    (
      n.clock ∷ cs,
      rw (n_eq, cs_eq, clocks_at),
      (subst R (ap (λ (c : Core). c.clock) (sym same)) good, all),
      clocks_at_cons heap p n n_eq ps cs at,
    )

-- What AddNode makes of a graph: one new node, after nodes that were there.
pub record Added (store : ReplicaStore) (slots : List (Option Replica)) (d : EventDag) (e : Event)
    (parents : List Event) : Type 0 where
  pub after : EventDag
  pub result : add_node store d e parents ≡ some after
  pub next : ClockValue
  pub new_parents : List ℕ
  pub nodes_eq : after.nodes ≡ insert e.id (length d.heap) d.nodes
  pub latest_eq : after.latest ≡ insert e.replica e.id d.latest
  pub others : (j : ℕ) → j ≢ length d.heap → core_at after.heap j ≡ core_at d.heap j
  pub own :
      core_at after.heap (length d.heap)
      ≡ some (record { event = e; clock = some next; parents = new_parents })
  pub ticking : IsTicking slots after.latest_clocks
  pub reached : IsReached slots after.latest_clocks next
  pub kept :
      (c : ClockValue) → IsReached slots d.latest_clocks c → IsReached slots after.latest_clocks c
  pub below : All (Precedes d (some next)) new_parents

module _ (store : ReplicaStore) (slots : List (Option Replica)) (iter_eq : iter store ≡ some slots)
    (d : EventDag) (e : Event) (v : Inv slots d) (fresh : lookup e.id d.nodes ≡ none) (own : ℕ)
    (self : Replica) (own_eq : get_elem? slots own ≡ some (some self))
    (self_eq : self.id ≡ e.replica) (parents : List Event) where
  strand : Strand d e (parent_nodes d.nodes parents)
  strand =
      link_strand_lem d e slots v fresh (parent_nodes d.nodes parents)
        (parent_nodes_lem d.nodes parents)

  -- Identifiers of nodes at the addresses that the strand gave.
  abbrev Given : ℕ → Type 0
  Given q = (i : ℕ) × (p : ℕ) × (get_elem? strand.addrs i ≡ some p) × (lookup q d.nodes ≡ some p)

  not_new : {p : ℕ} {k : Core} → core_at d.heap p ≡ some k → p ≢ length d.heap
  not_new {p} h q = omega (arith, core_at_bound d.heap p h)

  linked_core : (p : ℕ) (k : Core) → core_at d.heap p ≡ some k → core_at strand.linked p ≡ some k
  linked_core p k h = strand.same_core p ∙ core_at-grown d e p (not_new h) ∙ h

  all_given : All (λ p. (q : ℕ) × (id_at strand.linked p ≡ some q) × Given q) strand.addrs
  all_given = All_of_get_elem? strand.addrs (λ i p at.
      let (q, q_eq) = All-get_elem? (IsMapped d.nodes) strand.addrs i strand.all_mapped at in
      let (k, k_eq, k_id) = v.placed q p q_eq in
      (q, id_at_of_core strand.linked p (linked_core p k k_eq) ∙ ap some k_id, (i, p, at, q_eq)))

  joined :
      (heap : List EventNode) × (add_parents (length d.heap) e.id strand.addrs strand.linked
        ≡ some heap)
      × Linked Given (length d.heap) (core (new_event_node e)) strand.linked heap
  unfolding new_event_node
  joined =
      add_parents_lem Given (length d.heap) e.id strand.addrs strand.linked
        (core (new_event_node e)) (strand.same_core (length d.heap) ∙ core_at-grown_new d e) tt
        all_given

  abbrev HasReached : Option ClockValue → Type 0
  HasReached pc = (c : ClockValue) × (pc ≡ some c) × IsReached slots d.latest_clocks c

  joined_core : (p : ℕ) (k : Core) → core_at d.heap p ≡ some k → core_at joined.0 p ≡ some k
  joined_core p k h = joined.2.others p (λ q. not_new h (sym q)) ∙ linked_core p k h

  read_clocks :
      (cs : List (Option ClockValue)) × (clocks_at joined.0 strand.addrs ≡ some cs)
      × All HasReached cs
      × ((i p : ℕ) (k : Core)
          → get_elem? strand.addrs i ≡ some p
          → core_at joined.0 p ≡ some k
          → get_elem? cs i ≡ some k.clock)
  read_clocks = clocks_at_lem HasReached joined.0 strand.addrs (
      All_of_get_elem? strand.addrs (λ i p at.
        let (q, q_eq) = All-get_elem? (IsMapped d.nodes) strand.addrs i strand.all_mapped at in
        let (k, k_eq, k_id) = v.placed q p q_eq in (k, joined_core p k k_eq, v.clocked p k k_eq)))

  ticked : (next : ClockValue) × IsNext slots d.latest_clocks e.replica read_clocks.0 next
  ticked =
      next_total slots d.latest_clocks e.replica v.ticking own self own_eq self_eq read_clocks.0
        read_clocks.2

  outcome : EventDag
  outcome = record {
    heap = modify (set_clock ticked.0) joined.0 (length d.heap);
    nodes = insert e.id (length d.heap) d.nodes;
    strands =
        if is_some (lookup e.replica d.strands) then d.strands else insert e.replica e.id d.strands;
    latest = insert e.replica e.id d.latest;
    latest_clocks = insert e.replica ticked.0 d.latest_clocks;
  }

  outcome_eq : add_node store d e parents ≡ some outcome
  unfolding add_node next_clock outcome
  outcome_eq = rw (strand.result, joined.1, read_clocks.1, iter_eq, ticked.1.computed)

  outcome_others : (j : ℕ) → j ≢ length d.heap → core_at outcome.heap j ≡ core_at d.heap j
  unfolding outcome
  outcome_others j h =
      ap (Option.map core)
        (get_elem?-modify_ne (set_clock ticked.0) joined.0 (length d.heap) j (λ q. h (sym q)))
      ∙ joined.2.others j (λ q. h (sym q))
      ∙ strand.same_core j
      ∙ core_at-grown d e j h

  outcome_own :
      core_at outcome.heap (length d.heap)
      ≡ some (record { event = e; clock = some ticked.0; parents = joined.2.parents })
  unfolding outcome new_event_node
  outcome_own =
      let (n, n_eq, same) =
        Option_map-eq_some core (get_elem? joined.0 (length d.heap)) joined.2.own in
      ap (Option.map core)
        (get_elem?-modify_self (set_clock ticked.0) joined.0 (length d.heap) n_eq)
      ∙ ap (λ (k : Core). some (record k { clock = some ticked.0 })) same

  given-Precedes : (q : ℕ) → Given q → Precedes d (some ticked.0) q
  given-Precedes q (i, p, at, q_eq) =
      let (k, k_eq, k_id) = v.placed q p q_eq in
      let (c, c_eq, c_reached) = v.clocked p k k_eq in
      record {
        addr = p;
        node = k;
        below = c;
        above = ticked.0;
        addr_eq = q_eq;
        node_eq = k_eq;
        below_eq = c_eq;
        above_eq = refl;
        before =
            parent-lt slots d.latest_clocks e.replica v.ticking ticked.1 own self own_eq self_eq i c
              (read_clocks.3 i p k at (joined_core p k k_eq) ∙ ap some c_eq) c_reached;
      }

  pub added : Added store slots d e parents
  unfolding outcome
  added = record {
    after = outcome;
    result = outcome_eq;
    next = ticked.0;
    new_parents = joined.2.parents;
    nodes_eq = refl;
    latest_eq = refl;
    others = outcome_others;
    own = outcome_own;
    ticking = IsTicking-after slots d.latest_clocks e.replica v.ticking ticked.1;
    reached = next-IsReached slots d.latest_clocks e.replica v.ticking ticked.1;
    kept = IsReached-after slots d.latest_clocks e.replica v.ticking ticked.1;
    below = All-map given-Precedes joined.2.parents joined.2.all;
  }
