-- ===== src/Testlib/Driver/Pool.antt =====
-- What a step of the driver leaves in the message pool and in the graph of events.
use mathlib.Core.Option
use tendermint_testing.Base.{
  ◌≡◌, refl, sym, subst, ap, String, true, List, [], ◌∷◌, none, some, arith, Option-cases, inl, inr,
  All, string_eq, nat_eq,
}
use text.Mathlib.TextEquality.{eq_iff}
use tendermint_testing.Base.GoMap.{lookup, insert, lookup-insert, lookup-insert_self}
use tendermint_testing.Types.Event.{Event}
use tendermint_testing.Types.Replicas.{Replica}
use tendermint_testing.Types.Dag.History.{IsComplete, Built, add_node_total}
use tendermint_testing.Types.Dag.{add_node}
use tendermint_testing.Types.Dag.Grown.{Grows, add_node-Grows}
use tendermint_testing.Types.Messages as Messages
use tendermint_testing.Types.Messages.{Message, MessageStore}
use tendermint_testing.Testlib.Context.{Context, set_event, parents_of}
use tendermint_testing.Testlib.Filters.{FilterSet, handle_event}
use tendermint_testing.Testlib.Driver.{add_missing, reported, pool_messages, step}

module _ {P : Type 0} where
  add_missing-keeps :
      (pool : MessageStore P) (ms : List (Message P)) (id : String) {m : Message P}
      → Messages.get pool id ≡ some m
      → Messages.get (add_missing pool ms) id ≡ some m
  unfolding add_missing Messages.get
  add_missing-keeps pool [] id h = h
  add_missing-keeps pool (n ∷ ms) id h = elim (Option-cases (lookup n.id pool)) [
    | inl e ↦
        rw (e, add_missing)
          (add_missing-keeps (insert n.id n pool) ms id
            (ground (arith, lookup-insert n.id id n pool, eq_iff n.id id)))
    | inr (old, e) ↦ rw (e, add_missing) (add_missing-keeps pool ms id h)
  ]

  has_of_get :
      (pool : MessageStore P) (id : String) {m : Message P}
      → Messages.get pool id ≡ some m
      → Messages.exists pool id ≡ true
  unfolding Messages.exists Messages.get
  has_of_get pool id h = rw h

  add_missing-has :
      (pool : MessageStore P) (ms : List (Message P))
      → All (λ m. Messages.exists (add_missing pool ms) m.id ≡ true) ms
  unfolding add_missing Messages.exists Messages.get
  add_missing-has pool [] = tt
  add_missing-has pool (n ∷ ms) = elim (Option-cases (lookup n.id pool)) [
    | inl e ↦
        let q : add_missing pool (n ∷ ms) ≡ add_missing (insert n.id n pool) ms =
          rw (e, add_missing) in
        subst (λ s. All (λ m. Messages.exists s m.id ≡ true) (n ∷ ms)) (sym q)
          (
            has_of_get (add_missing (insert n.id n pool) ms) n.id
                (add_missing-keeps (insert n.id n pool) ms n.id (lookup-insert_self n.id n pool)),
            add_missing-has (insert n.id n pool) ms,
          )
    | inr (old, e) ↦
        let q : add_missing pool (n ∷ ms) ≡ add_missing pool ms = rw (e, add_missing) in
        subst (λ s. All (λ m. Messages.exists s m.id ≡ true) (n ∷ ms)) (sym q)
          (
            has_of_get (add_missing pool ms) n.id (add_missing-keeps pool ms n.id e),
            add_missing-has pool ms,
          )
  ]

  -- With as many replicas registered as the store is made for, on a graph that AddNode built, for
  -- an event with a new identifier of a registered replica, a step of the driver does not panic.
  -- The graph is what AddNode makes of it for the event and the parents that its message has: it
  -- has a node of the event and else its old nodes, with their parents and clocks, and is built so
  -- again. The filters see that graph, their messages are returned, every one of them is in the
  -- pool afterwards, and a message that the filters left in the pool stays.
  pub step_total :
      (f : FilterSet P) (c : Context P) (e : Event) (self : Replica)
      → IsComplete c.replicas
      → Built c.replicas c.event_dag
      → lookup e.id c.event_dag.nodes ≡ none
      → lookup e.replica c.replicas.replicas ≡ some self
      → (c1 : Context P) × (ms : List (Message P)) × (c2 : Context P) × (set_event
            (reported c.testcase.name c e)
            e
          ≡ some c1)
        × (add_node c.replicas c.event_dag e (parents_of c.sends e e.type).0 ≡ some c1.event_dag)
        × Grows c.event_dag e c1.event_dag
        × Built c1.replicas c1.event_dag
        × (step f c e ≡ some (ms, c2))
        × (ms ≡ (handle_event f e c1).0)
        × All (λ m. Messages.exists c2.message_pool m.id ≡ true) ms
        × ((id : String) (m : Message P)
            → Messages.get (handle_event f e c1).1.message_pool id ≡ some m
            → Messages.get c2.message_pool id ≡ some m)
  unfolding step set_event
  step_total f c e self complete built fresh known =
      let parents : List Event = (parents_of c.sends e e.type).0 in
      let (d, eq, built') = add_node_total c.replicas complete built e parents self fresh known in
      let c0 : Context P = reported c.testcase.name c e in
      let c1 : Context P = record c0 { event_dag = d; sends = (parents_of c.sends e e.type).1 } in
      let set_eq : set_event c0 e ≡ some c1 =
        ap
          (Option.map (λ d'. record c0 { event_dag = d'; sends = (parents_of c.sends e e.type).1 }))
          eq in
      let r : List (Message P) × Context P = handle_event f e c1 in
      (
        c1,
        r.0,
        record r.1 { message_pool = add_missing r.1.message_pool r.0 },
        set_eq,
        eq,
        add_node-Grows c.replicas complete built e parents self fresh known eq,
        built',
        ap (Option.map (λ c'. pool_messages (handle_event f e c'))) set_eq,
        refl,
        add_missing-has r.1.message_pool r.0,
        λ id m h. add_missing-keeps r.1.message_pool r.0 id h,
      )
