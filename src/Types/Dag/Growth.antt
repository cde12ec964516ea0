-- ===== src/Types/Dag/Growth.antt =====
-- A graph that grows from the empty one by new events: the invariant holds throughout.
use tendermint_testing.Base.{
  ℕ, ◌≡◌, ◌≢◌, sym, ap, subst, ◌∙◌, ◌⊎◌, inl, inr, String, List, Option, none, some, arith, length,
  nat_eq, string_eq, All, All-map, Bool-cases, nat_beq_iff, ◌==◌,
}
use tendermint_testing.Base.GoMap.{
  lookup, lookup-insert_ne, lookup-insert_self, lookup-insert_cases,
}
use tendermint_testing.Types.Event.{Event}
use tendermint_testing.Types.Clock.{ClockValue}
use tendermint_testing.Types.Replicas.{Replica, ReplicaStore}
use tendermint_testing.Types.Dag.{EventDag}
use tendermint_testing.Types.Dag.Parents.{Core, core_at}
use tendermint_testing.Types.Dag.Advance.{IsReached}
use tendermint_testing.Types.Dag.Invariant.{Inv, Precedes, core_at_bound}
use tendermint_testing.Types.Dag.AddNode.{Added}

module _ {store : ReplicaStore} {slots : List (Option Replica)} (d : EventDag) (e : Event)
    (parents : List Event) (x : Added store slots d e parents) (v : Inv slots d)
    (fresh : lookup e.id d.nodes ≡ none) where
  new_core : Core
  new_core = record { event = e; clock = some x.next; parents = x.new_parents }

  -- A node after the event was there before, or is the event's.
  cores :
      (a : ℕ) (k : Core)
      → core_at x.after.heap a ≡ some k
      → (core_at d.heap a ≡ some k) ⊎ ((a ≡ length d.heap) × (k ≡ new_core))
  unfolding new_core
  cores a k h = elim (Bool-cases (a == length d.heap)) [
    | inl same ↦
        let a_new = (nat_beq_iff a (length d.heap)).0 same in
        let there : core_at x.after.heap (length d.heap) ≡ some k = rw a_new at h in
        let both = sym x.own ∙ there in inr (a_new, cc)
    | inr differ ↦
        let a_old : a ≢ length d.heap = ground (arith, nat_beq_iff a (length d.heap)) in
        inl (sym (x.others a a_old) ∙ h)
  ]

  old_ne : {q p : ℕ} → lookup q d.nodes ≡ some p → e.id ≢ q
  old_ne h same = absurd (let here = rw (sym same) at h in cc)

  old_kept : (q p : ℕ) → lookup q d.nodes ≡ some p → lookup q x.after.nodes ≡ some p
  old_kept q p h = rw x.nodes_eq (lookup-insert_ne e.id q (length d.heap) d.nodes (old_ne h) ∙ h)

  old_core : (p : ℕ) (k : Core) → core_at d.heap p ≡ some k → core_at x.after.heap p ≡ some k
  old_core p k h = x.others p (λ q. omega (arith, core_at_bound d.heap p h)) ∙ h

  Precedes-after : (c : Option ClockValue) (q : ℕ) → Precedes d c q → Precedes x.after c q
  Precedes-after c q h = record {
    addr = h.addr;
    node = h.node;
    below = h.below;
    above = h.above;
    addr_eq = old_kept q h.addr h.addr_eq;
    node_eq = old_core h.addr h.node h.node_eq;
    below_eq = h.below_eq;
    above_eq = h.above_eq;
    before = h.before;
  }

  after-placed :
      (id a : ℕ)
      → lookup id x.after.nodes ≡ some a
      → (k : Core) × (core_at x.after.heap a ≡ some k) × (k.event.id ≡ id)
  unfolding new_core
  after-placed id a h =
      elim (lookup-insert_cases e.id id (length d.heap) d.nodes (rw x.nodes_eq at h)) [
        | inl (same, new) ↦ (new_core, rw (sym new) x.own, same)
        | inr (differ, old) ↦
            let (k, k_eq, k_id) = v.placed id a old in (k, old_core a k k_eq, k_id)
      ]

  after-mapped :
      (a : ℕ) (k : Core)
      → core_at x.after.heap a ≡ some k
      → lookup k.event.id x.after.nodes ≡ some a
  unfolding new_core
  after-mapped a k h = elim (cores a k h) [
    | inl old ↦ old_kept k.event.id a (v.mapped a k old)
    | inr (new, k_new) ↦
        rw (k_new, new, x.nodes_eq) (lookup-insert_self e.id (length d.heap) d.nodes)
  ]

  after-clocked :
      (a : ℕ) (k : Core)
      → core_at x.after.heap a ≡ some k
      → (c : ClockValue) × (k.clock ≡ some c) × IsReached slots x.after.latest_clocks c
  unfolding new_core
  after-clocked a k h = elim (cores a k h) [
    | inl old ↦ let (c, c_eq, r) = v.clocked a k old in (c, c_eq, x.kept c r)
    | inr (new, k_new) ↦ (x.next, ap (λ (y : Core). y.clock) k_new, x.reached)
  ]

  after-strand :
      (r : String) (id : ℕ)
      → lookup r x.after.latest ≡ some id
      → (a : ℕ) × (lookup id x.after.nodes ≡ some a)
  after-strand r id h = elim (lookup-insert_cases e.replica r e.id d.latest (rw x.latest_eq at h)) [
    | inl (same, new) ↦
        (length d.heap, rw (sym new, x.nodes_eq) (lookup-insert_self e.id (length d.heap) d.nodes))
    | inr (differ, old) ↦ let (a, a_eq) = v.strand r id old in (a, old_kept id a a_eq)
  ]

  after-edges :
      (a : ℕ) (k : Core)
      → core_at x.after.heap a ≡ some k
      → All (Precedes x.after k.clock) k.parents
  unfolding new_core
  after-edges a k h = elim (cores a k h) [
    | inl old ↦ All-map (Precedes-after k.clock) k.parents (v.edges a k old)
    | inr (new, k_new) ↦
        subst (λ (y : Core). All (Precedes x.after y.clock) y.parents) (sym k_new)
          (All-map (Precedes-after (some x.next)) x.new_parents x.below)
  ]

  pub after-Inv : Inv slots x.after
  after-Inv = record {
    ticking = x.ticking;
    placed = after-placed;
    mapped = after-mapped;
    clocked = after-clocked;
    strand = after-strand;
    edges = after-edges;
  }
