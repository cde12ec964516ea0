-- ===== src/Types/Dag/Invariant.antt =====
-- The invariant of the graph: the map and the heap agree, every node has a clock that the replicas
-- have reached, and every edge goes up in the order of the clocks.
use mathlib.Core.Option
use tendermint_testing.Base.{
  ℕ, ◌<◌, ◌≡◌, ◌≢◌, refl, ap, ◌∙◌, inl, inr, String, true, List, [], ◌∷◌, ◌++◌, Option, none, some,
  arith, length, get_elem?, nat_eq, string_eq, All, All-append, Option-cases, Option_map-eq_some,
  modify, get_elem?-modify_view, get_elem?-append_one_ne, get_elem?-append_length, get_elem?_bound,
}
use tendermint_testing.Base.GoMap.{GoMap, lookup, insert, lookup-insert_ne}
use tendermint_testing.Types.Event.{Event}
use tendermint_testing.Types.Clock.{ClockValue, lt}
use tendermint_testing.Types.Replicas.{Replica}
use tendermint_testing.Types.Dag.{
  EventDag, EventNode, new_event_node, parent_nodes, link_strand, set_next, set_prev,
}
use tendermint_testing.Types.Dag.Parents.{Core, core, core_at, id_at}
use tendermint_testing.Types.Dag.Advance.{IsReached, IsTicking}

-- The node of identifier `q` comes before a node with clock `c`.
pub record Precedes (d : EventDag) (c : Option ClockValue) (q : ℕ) : Type 0 where
  pub addr : ℕ
  pub node : Core
  pub below : ClockValue
  pub above : ClockValue
  pub addr_eq : lookup q d.nodes ≡ some addr
  pub node_eq : core_at d.heap addr ≡ some node
  pub below_eq : node.clock ≡ some below
  pub above_eq : c ≡ some above
  pub before : lt below above ≡ true

pub record Inv (slots : List (Option Replica)) (d : EventDag) : Type 0 where
  pub ticking : IsTicking slots d.latest_clocks
  -- The map leads to the node of the identifier, and to every node.
  pub placed :
      (id a : ℕ)
      → lookup id d.nodes ≡ some a
      → (k : Core) × (core_at d.heap a ≡ some k) × (k.event.id ≡ id)
  pub mapped : (a : ℕ) (k : Core) → core_at d.heap a ≡ some k → lookup k.event.id d.nodes ≡ some a
  pub clocked :
      (a : ℕ) (k : Core)
      → core_at d.heap a ≡ some k
      → (c : ClockValue) × (k.clock ≡ some c) × IsReached slots d.latest_clocks c
  pub strand :
      (r : String) (id : ℕ) → lookup r d.latest ≡ some id → (a : ℕ) × (lookup id d.nodes ≡ some a)
  -- An edge of the graph goes up.
  pub edges : (a : ℕ) (k : Core) → core_at d.heap a ≡ some k → All (Precedes d k.clock) k.parents

pub core_at_bound :
    (heap : List EventNode) (a : ℕ) {k : Core} → core_at heap a ≡ some k → a < length heap
core_at_bound heap a h =
    let (n, at_a, same) = Option_map-eq_some core (get_elem? heap a) h in
    get_elem?_bound heap a at_a

pub id_at_of_core :
    (heap : List EventNode) (a : ℕ) {k : Core}
    → core_at heap a ≡ some k
    → id_at heap a ≡ some k.event.id
id_at_of_core heap a {k} h =
    let (n, at_a, same) = Option_map-eq_some core (get_elem? heap a) h in
    ap (Option.map (λ x. x.event.id)) at_a ∙ ap (λ (c : Core). some c.event.id) same

-- The known parents are nodes of the map.
pub parent_nodes_lem :
    (nodes : GoMap ℕ ℕ) (ps : List Event)
    → All (λ p. (q : ℕ) × (lookup q nodes ≡ some p)) (parent_nodes nodes ps)
unfolding parent_nodes
parent_nodes_lem nodes [] = tt
parent_nodes_lem nodes (p ∷ ps) = elim (Option-cases (lookup p.id nodes)) [
  | inl e ↦ rw (e, parent_nodes) (parent_nodes_lem nodes ps)
  | inr (a, e) ↦ rw (e, parent_nodes) ((p.id, e), parent_nodes_lem nodes ps)
]

-- An address that the map leads to.
abbrev pub IsMapped : GoMap ℕ ℕ → ℕ → Type 0
IsMapped nodes p = (q : ℕ) × (lookup q nodes ≡ some p)

module _ (d : EventDag) (e : Event) where
  abbrev pub grown : List EventNode
  grown = d.heap ++ new_event_node e ∷ []

  abbrev pub entered : EventDag
  entered = record d { heap = grown; nodes = insert e.id (length d.heap) d.nodes }

  pub core_at-grown : (j : ℕ) → j ≢ length d.heap → core_at grown j ≡ core_at d.heap j
  core_at-grown j h = ap (Option.map core) (get_elem?-append_one_ne d.heap (new_event_node e) j h)

  pub core_at-grown_new : core_at grown (length d.heap) ≡ some (core (new_event_node e))
  core_at-grown_new = ap (Option.map core) (get_elem?-append_length d.heap [] (new_event_node e))

  -- What the strand adds: at most one parent, the replica's latest node.
  pub record Strand (known : List ℕ) : Type 0 where
    pub linked : List EventNode
    pub addrs : List ℕ
    pub result : link_strand entered (length d.heap) e known ≡ some (linked, addrs)
    pub same_core : (j : ℕ) → core_at linked j ≡ core_at grown j
    pub all_mapped : All (IsMapped d.nodes) addrs

  pub link_strand_lem :
      (slots : List (Option Replica))
      → Inv slots d
      → lookup e.id d.nodes ≡ none
      → (known : List ℕ) → All (IsMapped d.nodes) known
      → Strand known
  unfolding link_strand
  link_strand_lem slots v fresh known ks = elim (Option-cases (lookup e.replica d.latest)) [
    | inl none_yet ↦ record {
      linked = grown;
      addrs = known;
      result = rw (none_yet, link_strand);
      same_core = λ j. refl;
      all_mapped = ks;
    }
    | inr (l, latest_eq) ↦
        let (b, b_eq) = v.strand e.replica l latest_eq in
        let (k, k_eq, k_id) = v.placed l b b_eq in
        let (before, before_eq, same) =
          Option_map-eq_some core (get_elem? grown b)
            (core_at-grown b (λ q. omega (arith, core_at_bound d.heap b k_eq)) ∙ k_eq) in
        let kept : lookup l (insert e.id (length d.heap) d.nodes) ≡ some b =
          lookup-insert_ne e.id l (length d.heap) d.nodes
            (λ q. absurd (let here : lookup e.id d.nodes ≡ some b = rw q b_eq in cc))
          ∙ b_eq in
        record {
          linked =
              modify (set_prev before.event.id) (modify (set_next e.id) grown b) (length d.heap);
          addrs = known ++ b ∷ [];
          result = rw (latest_eq, link_strand, kept, before_eq);
          same_core = λ j.
              get_elem?-modify_view core (set_prev before.event.id) (λ n. refl) _ (length d.heap) j
              ∙ get_elem?-modify_view core (set_next e.id) (λ n. refl) grown b j;
          all_mapped = All-append (IsMapped d.nodes) known (b ∷ []) ks ((l, b_eq), tt);
        }
  ]
