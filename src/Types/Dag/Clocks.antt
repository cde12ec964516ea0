-- ===== src/Types/Dag/Clocks.antt =====
-- nextClock: the new clock is total, above every parent's, and below a bound of all that went in.
use tendermint_testing.Base.{
  ℕ, zero, suc, ◌+◌, ◌≤◌, ◌≡◌, ◌≢◌, refl, inl, inr, String, List, [], ◌∷◌, Option, none, some,
  arith, ltb, if◌then◌else◌, length, get_elem?, ◌==◌, nat_eq, string_eq, All, All-map, ap,
  Bool-cases,
}
use text.Mathlib.TextEquality.{eq_iff}
use tendermint_testing.Types.Clock.{ClockValue}
use tendermint_testing.Types.Replicas.{Replica}
use tendermint_testing.Types.Dag.{max_parent, component, components}

-- A parent's clock has an entry at `i`, and it lies between 0 and `bound`.
pub record Entry (i bound : ℕ) (pc : Option ClockValue) : Type 0 where
  pub clock : ClockValue
  pub value : ℕ
  pub clock_eq : pc ≡ some clock
  pub value_eq : get_elem? clock i ≡ some value
  pub value_le : value ≤ bound

abbrev pub EntryLe : ℕ → ℕ → Option ClockValue → Type 0
EntryLe i x pc = (c : ClockValue) (v : ℕ) → pc ≡ some c → get_elem? c i ≡ some v → v ≤ x

abbrev MaxOf : List (Option ClockValue) → ℕ → ℕ → ℕ → ℕ → Type 0
MaxOf ps i m bound x = (m ≤ x) × (x ≤ bound) × All (EntryLe i x) ps

max_parent_lem :
    (ps : List (Option ClockValue)) (i m bound : ℕ)
    → m ≤ bound
    → All (Entry i bound) ps
    → (x : ℕ) × (max_parent ps i m ≡ some x) × MaxOf ps i m bound x
unfolding max_parent
max_parent_lem [] i m bound h es = (m, refl, (omega arith, h, tt))
max_parent_lem (none ∷ ps) i m bound h es = absurd (let q = es.0.clock_eq in cc)
max_parent_lem (some c ∷ ps) i m bound h es =
    let v = es.0.value in
    let q = es.0.clock_eq in
    let r = es.0.value_eq in
    let here : get_elem? c i ≡ some v = ground arith in
    let (x, found, (m_le, x_le, above)) =
      max_parent_lem ps i (if ltb m v then v else m) bound (ground (arith, es.0.value_le)) es.1 in
    (x, rw (here, max_parent) found, (ground arith, x_le, (λ d w dq wq. ground arith, above)))

-- The new entry at index `i`: at least every parent's, one more than `bound` at the event's own
-- replica, and at most `bound` elsewhere.
abbrev pub Advances : String → List (Option ClockValue) → ℕ → ℕ → Replica → ℕ → Type 0
Advances replica ps i bound r x =
    All (EntryLe i x) ps × (r.id ≡ replica → x ≡ suc bound) × (r.id ≢ replica → x ≤ bound)

module _ (replica : String) (latest : ClockValue) where
  -- The entry that nextClock computes at an index: a bound of the parents' entries, and past the
  -- replica's last entry where it is the replica's own.
  component_lem :
      (ps : List (Option ClockValue)) (i bound : ℕ) (r : Replica) (last : ℕ)
      → get_elem? latest i ≡ some last
      → (r.id ≡ replica → last ≡ bound)
      → All (Entry i bound) ps
      → (x : ℕ) × (component replica (some latest) ps i r ≡ some x)
        × Advances replica ps i bound r x
  unfolding component
  component_lem ps i bound r last h own es =
      let (m, found, (_, m_le, above)) = max_parent_lem ps i 0 bound (omega arith) es in
      elim (Bool-cases (r.id == replica)) [
        | inl same ↦
            let at_bound = own ((eq_iff r.id replica).0 same) in
            (
              suc bound,
              rw (found, component, same) (ground arith),
              (
                All-map (λ pc k c v p q. omega (arith, k c v p q, m_le)) ps above,
                λ e. refl,
                λ e. absurd (e ((eq_iff r.id replica).0 same)),
              ),
            )
        | inr differ ↦ (
          m,
          rw (found, component, differ),
          (above, λ e. ground (arith, eq_iff r.id replica), λ e. m_le),
        )
      ]

  abbrev pub Reads : List (Option ClockValue) → (ℕ → ℕ) → ℕ → Replica → Type 0
  Reads ps bound j r =
      (last : ℕ) × (get_elem? latest j ≡ some last)
      × (r.id ≡ replica → last ≡ bound j)
      × All (Entry j (bound j)) ps

  components_cases :
      (ps : List (Option ClockValue)) (bound : ℕ → ℕ) (i : ℕ) (r : Replica)
      (rs : List (Option Replica)) (x : ℕ) (xs : ClockValue)
      → Advances replica ps i (bound i) r x
      → ((j k : ℕ) (s : Replica)
          → j ≡ i + 1 + k
          → get_elem? rs k ≡ some (some s)
          → (y : ℕ) × (get_elem? xs k ≡ some y) × Advances replica ps j (bound j) s y)
      → (j k : ℕ) (s : Replica) → j ≡ i + k
      → get_elem? (some r ∷ rs) k ≡ some (some s)
      → (y : ℕ) × (get_elem? (x ∷ xs) k ≡ some y) × Advances replica ps j (bound j) s y
  components_cases ps bound i r rs x xs adv rest j zero s e h =
      let at_i : j ≡ i = omega arith in let same : s ≡ r = cc in rw at_i (rw same (x, refl, adv))
  components_cases ps bound i r rs x xs adv rest j (suc k) s e h = rest j k s (omega arith) h

  -- The same at every index from `i` on.
  pub components_lem :
      (ps : List (Option ClockValue)) (bound : ℕ → ℕ) (i : ℕ) (rs : List (Option Replica))
      → All (λ o. (r : Replica) × (o ≡ some r)) rs
      → ((j k : ℕ) (r : Replica) → j ≡ i + k → get_elem? rs k ≡ some (some r) → Reads ps bound j r)
      → (next : ClockValue) × (components replica (some latest) ps i rs ≡ some next)
        × (length next ≡ length rs)
        × ((j k : ℕ) (r : Replica)
            → j ≡ i + k
            → get_elem? rs k ≡ some (some r)
            → (x : ℕ) × (get_elem? next k ≡ some x) × Advances replica ps j (bound j) r x)
  unfolding components
  components_lem ps bound i [] full reads = ([], refl, refl, λ j k r e h. cc)
  components_lem ps bound i (none ∷ rs) full reads = absurd (let q = full.0.1 in cc)
  components_lem ps bound i (some r ∷ rs) full reads =
      let (last, at_i, own, es) = reads i 0 r (omega arith) refl in
      let (x, x_eq, adv) = component_lem ps i (bound i) r last at_i own es in
      let (xs, xs_eq, len, rest) =
        components_lem ps bound (i + 1) rs full.1
          (λ j k s e h. reads j (suc k) s (omega arith) h) in
      (
        x ∷ xs,
        rw (x_eq, xs_eq, components),
        ap suc len,
        components_cases ps bound i r rs x xs adv rest,
      )
