-- ===== src/Types/Dag/Grown.antt =====
-- By what AddNode lets a graph of events grow: the node of the event, and no other.
use mathlib.Core.Option
use tendermint_testing.Base.{
  ℕ, ◌≡◌, ◌≢◌, ap, subst, ◌∙◌, List, none, some, arith, length, get_elem?, nat_eq, string_eq,
  Option_map-eq_some,
}
use tendermint_testing.Base.GoMap.{lookup, lookup-insert_ne, lookup-insert_self}
use tendermint_testing.Base.Fallible.{>>=-eq-some}
use tendermint_testing.Types.Event.{Event}
use tendermint_testing.Types.Replicas.{Replica, ReplicaStore}
use tendermint_testing.Types.Dag.{EventDag, EventNode, get_node, add_node}
use tendermint_testing.Types.Dag.Parents.{Core, core, core_at}
use tendermint_testing.Types.Dag.Invariant.{core_at_bound}
use tendermint_testing.Types.Dag.History.{IsComplete, Built, Built-Inv, addition, same_value}

-- The graph has a node for the event, and else the nodes that it had, with their events, their
-- parents and their clocks.
pub record Grows (d : EventDag) (e : Event) (d' : EventDag) : Type 0 where
  pub own : (n : EventNode) × (get_node d' e.id ≡ some n) × (n.event ≡ e)
  pub kept :
      (id : ℕ) (n : EventNode)
      → get_node d id ≡ some n
      → (n' : EventNode) × (get_node d' id ≡ some n')
        × (n'.event ≡ n.event)
        × (n'.parents ≡ n.parents)
        × (n'.clock ≡ n.clock)
  pub no_others : (id : ℕ) → e.id ≢ id → lookup id d'.nodes ≡ lookup id d.nodes

node_of_core :
    (d : EventDag) (id a : ℕ) (k : Core)
    → lookup id d.nodes ≡ some a
    → core_at d.heap a ≡ some k
    → (n : EventNode) × (get_node d id ≡ some n) × (core n ≡ k)
unfolding get_node
node_of_core d id a k mapped at =
    let (n, there, same) = Option_map-eq_some core (get_elem? d.heap a) at in
    (n, rw mapped there, same)

core_of_node :
    (d : EventDag) (id : ℕ) (n : EventNode)
    → get_node d id ≡ some n
    → (a : ℕ) × (lookup id d.nodes ≡ some a) × (core_at d.heap a ≡ some (core n))
unfolding get_node
core_of_node d id n h =
    let (a, mapped, at) = >>=-eq-some (lookup id d.nodes) (get_elem? d.heap) h in
    (a, mapped, ap (Option.map core) at)

pub add_node-Grows :
    (store : ReplicaStore)
    → IsComplete store
    → {d d' : EventDag} → Built store d
    → (e : Event) (parents : List Event) (self : Replica) → lookup e.id d.nodes ≡ none
    → lookup e.replica store.replicas ≡ some self
    → add_node store d e parents ≡ some d'
    → Grows d e d'
add_node-Grows store c {d} {d'} b e parents self fresh known made =
    let x = addition store c (Built-Inv store c b) e parents self fresh known in
    let after : x.after ≡ d' = same_value x.result made in
    subst (Grows d e) after (record {
      own =
          let (n, there, same) =
            node_of_core x.after e.id (length d.heap) _
              (rw x.nodes_eq (lookup-insert_self e.id (length d.heap) d.nodes)) x.own in
          (n, there, ap (λ (k : Core). k.event) same);
      kept = λ id n h.
          let (a, mapped, at) = core_of_node d id n h in
          let differ : e.id ≢ id =
            λ q. absurd (let gone : lookup id d.nodes ≡ none = rw q at fresh in cc) in
          let (n', there, same) =
            node_of_core x.after id a (core n)
              (rw x.nodes_eq (lookup-insert_ne e.id id (length d.heap) d.nodes differ ∙ mapped))
              (x.others a (λ q. omega (arith, core_at_bound d.heap a at)) ∙ at) in
          (
            n',
            there,
            ap (λ (k : Core). k.event) same,
            ap (λ (k : Core). k.parents) same,
            ap (λ (k : Core). k.clock) same,
          );
      no_others =
          λ id differ. rw x.nodes_eq (lookup-insert_ne e.id id (length d.heap) d.nodes differ);
    })
