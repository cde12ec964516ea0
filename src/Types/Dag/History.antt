-- ===== src/Types/Dag/History.antt =====
-- The graphs that a test run can reach: the empty one, and what AddNode makes of new events of
-- registered replicas.
use mathlib.Core.Option
use tendermint_testing.Base.{
  ℕ, ◌≡◌, refl, sym, ap, subst, ◌∙◌, inl, inr, String, true, false, List, [], ◌∷◌, Option, none,
  some, arith, length, length-replicate, get_elem?, get_elem?_total, get_elem?_bound, nat_eq,
  string_eq, All, All_of_get_elem?, All-get_elem?, Bool-cases, Option_map-eq_some,
}
use tendermint_testing.Base.GoMap.{GoMap, lookup, insert, lookup-insert, lookup-insert_self}
use tendermint_testing.Base.Fallible.{>>=-eq-some}
use tendermint_testing.Types.Event.{Event}
use tendermint_testing.Types.Clock.{ClockValue, lt, lt-strict_order, zero_clock}
use tendermint_testing.Types.Replicas.{Replica, ReplicaStore, iter}
use tendermint_testing.Types.Replicas.Invariant.{IsValid}
use tendermint_testing.Types.Replicas.Iteration.{iter-index}
use tendermint_testing.Types.Dag.{
  EventDag, EventNode, node_lt, get_node, zero_clocks, new_event_dag, add_node,
}
use tendermint_testing.Types.Dag.Parents.{Core, core, core_at}
use tendermint_testing.Types.Dag.Invariant.{Inv, Precedes}
use tendermint_testing.Types.Dag.AddNode.{Added, added}
use tendermint_testing.Types.Dag.Growth.{after-Inv}

pub same_value : {A : Type 0} {x : Option A} {a b : A} → x ≡ some a → x ≡ some b → a ≡ b
same_value p q = cc

node_lt_lem :
    (m n : EventNode) {c d : ClockValue}
    → m.clock ≡ some c
    → n.clock ≡ some d
    → node_lt m n ≡ lt c d
unfolding node_lt
node_lt_lem m n p q = ground arith

lt_asymm : (c d : ClockValue) → lt c d ≡ true → lt d c ≡ false
lt_asymm c d h = elim (Bool-cases (lt d c)) [
  | inl back ↦ absurd (let (irrefl, trans) = lt-strict_order c d c in let both = trans h back in cc)
  | inr fine ↦ fine
]

-- All the replicas that the store was made for have registered.
pub record IsComplete (store : ReplicaStore) : Type 0 where
  pub valid : IsValid store
  pub complete : store.size ≡ store.cap

pub record Slots (store : ReplicaStore) : Type 0 where
  pub slots : List (Option Replica)
  pub slots_eq : iter store ≡ some slots
  pub same_length : length slots ≡ store.cap
  pub full : All (λ o. (r : Replica) × (o ≡ some r)) slots
  pub placed :
      (id : String) (r : Replica)
      → lookup id store.replicas ≡ some r
      → get_elem? slots r.index ≡ some (some r)

pub slots_of : (store : ReplicaStore) → IsComplete store → Slots store
slots_of store c =
    let v = c.valid in
    let (l, l_eq, len, at) = iter-index store v (omega (arith, c.complete)) in
    record {
      slots = l;
      slots_eq = l_eq;
      same_length = len;
      full = All_of_get_elem? l (λ i o o_eq.
          let (id, id_eq) =
            get_elem?_total store.index i
              (omega (arith, get_elem?_bound l i o_eq, len, c.complete, v.size_index)) in
          let (r, r_eq, r_index, r_id) = v.listed i id id_eq in
          let here : get_elem? l i ≡ some (some r) =
            subst (λ k. get_elem? l k ≡ some (some r)) r_index (at id r r_eq) in
          (r, same_value o_eq here));
      placed = at;
    }

abbrev Zeroed : ℕ → GoMap String ClockValue → Option Replica → Type 0
Zeroed cap m o = (r : Replica) → o ≡ some r → lookup r.id m ≡ some (zero_clock cap)

zero_clocks_lem :
    (cap : ℕ) (slots : List (Option Replica)) (m : GoMap String ClockValue)
    → All (λ o. (r : Replica) × (o ≡ some r)) slots
    → (m' : GoMap String ClockValue) × (zero_clocks cap slots m ≡ some m')
      × All (Zeroed cap m') slots
      × ((id : String) → lookup id m ≡ some (zero_clock cap) → lookup id m' ≡ some (zero_clock cap))
zero_clocks_lem cap [] m h = (m, refl, tt, λ id e. e)
zero_clocks_lem cap (none ∷ rs) m h = absurd (let q = h.0.1 in cc)
zero_clocks_lem cap (some r ∷ rs) m h =
    let (m', m_eq, all, keep) = zero_clocks_lem cap rs (insert r.id (zero_clock cap) m) h.1 in
    (
      m',
      m_eq,
      (
        λ s e.
            let same : s ≡ r = cc in
            rw same (keep r.id (lookup-insert_self r.id (zero_clock cap) m)),
        all,
      ),
      λ id e. keep id (ground (arith, lookup-insert r.id id (zero_clock cap) m)),
    )

-- The empty graph can be made, and satisfies the invariant.
pub new_event_dag-Inv :
    (store : ReplicaStore) (s : Slots store)
    → (d : EventDag) × (new_event_dag store ≡ some d) × Inv s.slots d
unfolding new_event_dag zero_clock lookup
new_event_dag-Inv store s =
    let (m, m_eq, zeroed, keep) = zero_clocks_lem store.cap s.slots [] s.full in
    (
      record { heap = []; nodes = []; strands = []; latest = []; latest_clocks = m },
      rw (s.slots_eq, m_eq),
      record {
        ticking = record {
          full = s.full;
          clocks = λ j r there. (
            zero_clock store.cap,
            All-get_elem? (Zeroed store.cap m) s.slots j zeroed there r refl,
            length-replicate store.cap 0 ∙ sym s.same_length,
          );
        };
        placed = λ id a h. absurd (cc);
        mapped = λ a k h. absurd (cc);
        clocked = λ a k h. absurd (cc);
        strand = λ r id h. absurd (cc);
        edges = λ a k h. absurd (cc);
      },
    )

pub data Built (store : ReplicaStore) : EventDag → Type 0 where
  start : {d : EventDag} → new_event_dag store ≡ some d → Built store d
  grow :
      {d d' : EventDag} (e : Event) (parents : List Event) (self : Replica)
      → Built store d
      → lookup e.id d.nodes ≡ none
      → lookup e.replica store.replicas ≡ some self
      → add_node store d e parents ≡ some d'
      → Built store d'

module _ (store : ReplicaStore) (c : IsComplete store) where
  -- What AddNode does for a new event of a registered replica.
  pub addition :
      {d : EventDag}
      → Inv (slots_of store c).slots d
      → (e : Event) (parents : List Event) (self : Replica) → lookup e.id d.nodes ≡ none
      → lookup e.replica store.replicas ≡ some self
      → Added store (slots_of store c).slots d e parents
  addition {d} v e parents self fresh known =
      let s = slots_of store c in
      let listed = c.valid.listed self.index e.replica (c.valid.placed e.replica self known) in
      let same : listed.0 ≡ self = (let q = listed.1 in cc) in
      added store s.slots s.slots_eq d e v fresh self.index self (s.placed e.replica self known)
        (subst (λ r. r.id ≡ e.replica) same listed.3) parents

  pub Built-Inv : {d : EventDag} → Built store d → Inv (slots_of store c).slots d
  Built-Inv (start h) =
      let (d, d_eq, v) = new_event_dag-Inv store (slots_of store c) in
      let same = sym d_eq ∙ h in subst (Inv (slots_of store c).slots) (cc) v
  Built-Inv (grow {d} e parents self b fresh known h) =
      let v = Built-Inv b in
      let x = addition v e parents self fresh known in
      let same = sym x.result ∙ h in
      subst (Inv (slots_of store c).slots) (cc) (after-Inv d e parents x v fresh)

  -- With as many replicas registered as the store is made for, AddNode never panics on a graph that
  -- such calls built, for an event with a new identifier of a registered replica and whatever
  -- parents are named; its result is such a graph again.
  pub add_node_total :
      {d : EventDag}
      → Built store d
      → (e : Event) (parents : List Event) (self : Replica) → lookup e.id d.nodes ≡ none
      → lookup e.replica store.replicas ≡ some self
      → (d' : EventDag) × (add_node store d e parents ≡ some d') × Built store d'
  add_node_total b e parents self fresh known =
      let x = addition (Built-Inv b) e parents self fresh known in
      (x.after, x.result, grow e parents self b fresh known x.result)

  -- With as many replicas registered as the store is made for, in a graph that AddNode built from
  -- events with new identifiers of registered replicas, every parent of a node is a node, and its
  -- vector clock is strictly below: `Lt` holds along the edge and not against it.
  pub edges_go_up :
      {d : EventDag}
      → Built store d
      → (id : ℕ) (n : EventNode) (i q : ℕ) → get_node d id ≡ some n
      → get_elem? n.parents i ≡ some q
      → (m : EventNode) × (get_node d q ≡ some m) × (node_lt m n ≡ true) × (node_lt n m ≡ false)
  unfolding get_node
  edges_go_up {d} b id n i q found at =
      let v = Built-Inv b in
      let (a, a_eq, n_eq) = >>=-eq-some (lookup id d.nodes) (get_elem? d.heap) found in
      let n_core : core_at d.heap a ≡ some (core n) = ap (Option.map core) n_eq in
      let p = All-get_elem? (Precedes d n.clock) n.parents i (v.edges a (core n) n_core) at in
      let (m, m_eq, same) = Option_map-eq_some core (get_elem? d.heap p.addr) p.node_eq in
      let m_clock : m.clock ≡ some p.below = ap (λ (k : Core). k.clock) same ∙ p.below_eq in
      (
        m,
        rw p.addr_eq m_eq,
        node_lt_lem m n m_clock p.above_eq ∙ p.before,
        node_lt_lem n m p.above_eq m_clock ∙ lt_asymm p.below p.above p.before,
      )
