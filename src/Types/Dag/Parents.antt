-- ===== src/Types/Dag/Parents.antt =====
-- AddParents and the strand: they change no node's event or clock, and give the new node alone new
-- parents, the identifiers of the nodes at the given addresses.
use mathlib.Core.Option
use tendermint_testing.Base.{
  ℕ, ◌≡◌, ◌≢◌, refl, ap, subst, ◌∙◌, inl, inr, List, [], ◌∷◌, Option, none, some, arith, length,
  length-modify, get_elem?, get_elem?-modify_self, get_elem?-modify_ne, get_elem?-modify_view,
  modify, nat_eq, All, All-map, Option-cases,
}
use tendermint_testing.Types.Event.{Event}
use tendermint_testing.Types.Clock.{ClockValue}
use tendermint_testing.Types.Dag.{EventNode, set_add, add_parent, add_child, add_parents}

-- What a node's identity, order and parents are, without its links along the strand and below.
pub record Core : Type 0 where
  pub event : Event
  pub clock : Option ClockValue
  pub parents : List ℕ

abbrev pub core : EventNode → Core
core n = record { event = n.event; clock = n.clock; parents = n.parents }

abbrev pub core_at : List EventNode → ℕ → Option Core
core_at heap j = Option.map core (get_elem? heap j)

abbrev pub id_at : List EventNode → ℕ → Option ℕ
id_at heap j = Option.map (λ n. n.event.id) (get_elem? heap j)

pub set_add-All :
    (P : ℕ → Type 0) (nid : ℕ) (xs : List ℕ) → P nid → All P xs → All P (set_add nid xs)
unfolding set_add
set_add-All P nid [] h hs = (h, tt)
set_add-All P nid (x ∷ xs) h hs = ground (arith, set_add-All P nid xs h hs.1)

add_parents_step : ℕ → ℕ → ℕ → ℕ → List EventNode → List EventNode
add_parents_step a id q p heap = modify (add_child id) (modify (add_parent q) heap a) p

id_at-step :
    (a id q p : ℕ) (heap : List EventNode) (j : ℕ)
    → id_at (add_parents_step a id q p heap) j ≡ id_at heap j
unfolding add_parents_step
id_at-step a id q p heap j =
    get_elem?-modify_view (λ n. n.event.id) (add_child id) (λ n. refl) _ p j
    ∙ get_elem?-modify_view (λ n. n.event.id) (add_parent q) (λ n. refl) heap a j

core_at-step_ne :
    (a id q p : ℕ) (heap : List EventNode) (j : ℕ)
    → a ≢ j
    → core_at (add_parents_step a id q p heap) j ≡ core_at heap j
unfolding add_parents_step
core_at-step_ne a id q p heap j h =
    get_elem?-modify_view core (add_child id) (λ n. refl) _ p j
    ∙ ap (Option.map core) (get_elem?-modify_ne (add_parent q) heap a j h)

core_at-step_self :
    (a id q p : ℕ) (heap : List EventNode) (n : EventNode)
    → get_elem? heap a ≡ some n
    → core_at (add_parents_step a id q p heap) a
      ≡ some (record { event = n.event; clock = n.clock; parents = set_add q n.parents })
unfolding add_parents_step
core_at-step_self a id q p heap n h =
    get_elem?-modify_view core (add_child id) (λ n. refl) _ p a
    ∙ ap (Option.map core) (get_elem?-modify_self (add_parent q) heap a h)

abbrev with_parents : Core → List ℕ → Core
with_parents k ps = record k { parents = ps }

core_at-step :
    (a id q p : ℕ) (heap : List EventNode) (k : Core)
    → core_at heap a ≡ some k
    → core_at (add_parents_step a id q p heap) a ≡ some (with_parents k (set_add q k.parents))
core_at-step a id q p heap k h = elim (Option-cases (get_elem? heap a)) [
  | inl e ↦ absurd (let gone : none ≡ some k = rw e at h in cc)
  | inr (n, e) ↦
      let here : some (core n) ≡ some k = rw e at h in
      let same : core n ≡ k = cc in rw (← same) (core_at-step_self a id q p heap n e)
]

-- What AddParents does, for a property `P` of the parents' identifiers.
pub record Linked (P : ℕ → Type 0) (a : ℕ) (k : Core) (heap heap' : List EventNode) : Type 0 where
  pub others : (j : ℕ) → a ≢ j → core_at heap' j ≡ core_at heap j
  pub parents : List ℕ
  pub own : core_at heap' a ≡ some (with_parents k parents)
  pub all : All P parents
  pub same_length : length heap' ≡ length heap

module _ (P : ℕ → Type 0) (a id : ℕ) where
  pub add_parents_lem :
      (ps : List ℕ) (heap : List EventNode) (k : Core)
      → core_at heap a ≡ some k
      → All P k.parents
      → All (λ p. (q : ℕ) × (id_at heap p ≡ some q) × P q) ps
      → (heap' : List EventNode) × (add_parents a id ps heap ≡ some heap') × Linked P a k heap heap'
  unfolding add_parents add_parents_step
  add_parents_lem [] heap k h hp hs = (
    heap,
    refl,
    record { others = λ j e. refl; parents = k.parents; own = h; all = hp; same_length = refl },
  )
  add_parents_lem (p ∷ ps) heap k h hp hs = elim (Option-cases (get_elem? heap p)) [
    | inl e ↦ absurd (let gone : none ≡ some hs.0.0 = rw e at (hs.0.1) in cc)
    | inr (n, e) ↦
        let q = n.event.id in
        let known : some n.event.id ≡ some hs.0.0 = rw e at (hs.0.1) in
        let good : P q = subst P (cc) hs.0.2 in
        let next = add_parents_step a id q p heap in
        let (heap', found, l) =
          add_parents_lem ps next (with_parents k (set_add q k.parents))
            (core_at-step a id q p heap k h) (set_add-All P q k.parents good hp)
            (All-map (λ s (t, at, g). (t, id_at-step a id q p heap s ∙ at, g)) ps hs.1) in
        (
          heap',
          rw (e, add_parents) found,
          record {
            others = λ j ne. l.others j ne ∙ core_at-step_ne a id q p heap j ne;
            parents = l.parents;
            own = l.own;
            all = l.all;
            same_length =
                l.same_length
                ∙ length-modify (add_child id) (modify (add_parent q) heap a) p
                ∙ length-modify (add_parent q) heap a;
          },
        )
  ]
