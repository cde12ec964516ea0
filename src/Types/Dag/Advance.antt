-- ===== src/Types/Dag/Advance.antt =====
-- A new event's clock, against what the replicas have reached so far.
use tendermint_testing.Base.{
  ℕ, ◌≤◌, ◌<◌, ◌≡◌, ◌≢◌, refl, sym, ap, ◌∙◌, inl, inr, String, true, List, Option, none, some,
  arith, length, get_elem?, get_elem?_total, get_elem?_bound, ◌==◌, nat_eq, string_eq, All, All-map,
  All-get_elem?, Bool-cases,
}
use text.Mathlib.TextEquality.{eq_iff}
use tendermint_testing.Base.GoMap.{GoMap, lookup, insert, lookup-insert}
use tendermint_testing.Types.Clock.{ClockValue, lt, lt_iff, PointwiseLe-of_get_elem?}
use tendermint_testing.Types.Replicas.{Replica}
use tendermint_testing.Types.Dag.{components}
use tendermint_testing.Types.Dag.Clocks.{Entry, EntryLe, Advances, components_lem}

abbrev or_zero : Option ℕ → ℕ
or_zero none = 0
or_zero (some v) = v

abbrev entry_of : Option ClockValue → ℕ → ℕ
entry_of none j = 0
entry_of (some c) j = or_zero (get_elem? c j)

abbrev reached : GoMap String ClockValue → Option (Option Replica) → ℕ → ℕ
reached m none j = 0
reached m (some none) j = 0
reached m (some (some r)) j = entry_of (lookup r.id m) j

-- The last count of the replica in slot `j`.
pub frontier : List (Option Replica) → GoMap String ClockValue → ℕ → ℕ
frontier slots m j = reached m (get_elem? slots j) j

-- As long as there are slots, and nowhere past what the replicas have reached.
pub record IsReached (slots : List (Option Replica)) (m : GoMap String ClockValue) (c : ClockValue)
    : Type 0 where
  pub same_length : length c ≡ length slots
  pub within : (j v : ℕ) → get_elem? c j ≡ some v → v ≤ frontier slots m j

-- Every slot is filled and has a clock.
pub record IsTicking (slots : List (Option Replica)) (m : GoMap String ClockValue) : Type 0 where
  pub full : All (λ o. (r : Replica) × (o ≡ some r)) slots
  pub clocks :
      (j : ℕ) (r : Replica)
      → get_elem? slots j ≡ some (some r)
      → (c : ClockValue) × (lookup r.id m ≡ some c) × (length c ≡ length slots)

frontier_at :
    (slots : List (Option Replica)) (m : GoMap String ClockValue) (j : ℕ) {r : Replica}
    {c : ClockValue} {v : ℕ}
    → get_elem? slots j ≡ some (some r)
    → lookup r.id m ≡ some c
    → get_elem? c j ≡ some v
    → frontier slots m j ≡ v
unfolding frontier
frontier_at slots m j p q h = rw (p, q, h)

frontier_kept :
    (slots : List (Option Replica)) (m m' : GoMap String ClockValue) (j : ℕ) {r : Replica}
    → get_elem? slots j ≡ some (some r)
    → lookup r.id m' ≡ lookup r.id m
    → frontier slots m' j ≡ frontier slots m j
unfolding frontier
frontier_kept slots m m' j p q = rw (p, q)

filled :
    (slots : List (Option Replica)) (j : ℕ)
    → All (λ o. (r : Replica) × (o ≡ some r)) slots
    → j < length slots
    → (r : Replica) × (get_elem? slots j ≡ some (some r))
filled slots j full h =
    let (o, at_j) = get_elem?_total slots j h in
    let (r, o_eq) = All-get_elem? _ slots j full at_j in (r, at_j ∙ ap some o_eq)

-- What nextClock returns.
pub record IsNext (slots : List (Option Replica)) (m : GoMap String ClockValue) (replica : String)
    (cs : List (Option ClockValue)) (next : ClockValue) : Type 0 where
  pub computed : components replica (lookup replica m) cs 0 slots ≡ some next
  pub same_length : length next ≡ length slots
  pub entry :
      (j : ℕ) (r : Replica)
      → get_elem? slots j ≡ some (some r)
      → (x : ℕ) × (get_elem? next j ≡ some x) × Advances replica cs j (frontier slots m j) r x

module _ (slots : List (Option Replica)) (m : GoMap String ClockValue) (replica : String)
    (ticking : IsTicking slots m) (own : ℕ) (self : Replica)
    (own_eq : get_elem? slots own ≡ some (some self)) (self_eq : self.id ≡ replica)
    (cs : List (Option ClockValue))
    (parents : All (λ pc. (c : ClockValue) × (pc ≡ some c) × IsReached slots m c) cs) where
  entries : (j : ℕ) → j < length slots → All (Entry j (frontier slots m j)) cs
  entries j h =
      All-map
        (λ pc (c, c_eq, r).
          let (v, v_eq) = get_elem?_total c j (omega (arith, r.same_length)) in
          record {
            clock = c;
            value = v;
            clock_eq = c_eq;
            value_eq = v_eq;
            value_le = r.within j v v_eq;
          })
        cs parents

  latest_clock : (c : ClockValue) × (lookup replica m ≡ some c) × (length c ≡ length slots)
  latest_clock = let (c, c_eq, len) = ticking.clocks own self own_eq in (c, rw self_eq at c_eq, len)

  pub next_total : (next : ClockValue) × IsNext slots m replica cs next
  next_total =
      let (c, c_eq, len) = latest_clock in
      let (next, next_eq, next_len, at_slot) =
        components_lem replica c cs (frontier slots m) 0 slots ticking.full (λ j k r e at_k.
          let same : j ≡ k = omega arith in
          let there : get_elem? slots j ≡ some (some r) = rw same at_k in
          let bound = get_elem?_bound slots j there in
          let (v, v_eq) = get_elem?_total c j (omega arith) in
          (
            v,
            v_eq,
            λ self_is. sym (frontier_at slots m j there (rw self_is c_eq) v_eq),
            entries j bound,
          )) in
      (
        next,
        record {
          computed = rw c_eq next_eq;
          same_length = next_len;
          entry = λ j r there. at_slot j j r (omega arith) there;
        },
      )

module _ (slots : List (Option Replica)) (m : GoMap String ClockValue) (replica : String)
    (ticking : IsTicking slots m) {cs : List (Option ClockValue)} {next : ClockValue}
    (is_next : IsNext slots m replica cs next) where
  -- The frontier after the event: one further at the event's replica, and the same elsewhere.
  frontier_after :
      (j : ℕ) (r : Replica) {x : ℕ}
      → get_elem? slots j ≡ some (some r)
      → get_elem? next j ≡ some x
      → (x ≤ frontier slots (insert replica next m) j)
        × (frontier slots m j ≤ frontier slots (insert replica next m) j)
  frontier_after j r {x} there x_eq =
      let (y, y_eq, (above, own_adv, other_adv)) = is_next.entry j r there in
      let same_entry : x ≡ y = cc in
      elim (Bool-cases (replica == r.id)) [
        | inl mine ↦
            let r_id : r.id ≡ replica = ground (arith, eq_iff replica r.id) in
            let found : lookup r.id (insert replica next m) ≡ some next =
              ground (arith, lookup-insert replica r.id next m) in
            omega
              (arith, frontier_at slots (insert replica next m) j there found x_eq, own_adv r_id)
        | inr other ↦
            let r_ne : r.id ≢ replica = ground (arith, eq_iff replica r.id) in
            let kept : lookup r.id (insert replica next m) ≡ lookup r.id m =
              ground (arith, lookup-insert replica r.id next m) in
            omega
              (arith, frontier_kept slots m (insert replica next m) j there kept, other_adv r_ne)
      ]

  pub IsReached-after :
      (c : ClockValue) → IsReached slots m c → IsReached slots (insert replica next m) c
  IsReached-after c h = record {
    same_length = h.same_length;
    within = λ j v at_j.
        let (r, there) =
          filled slots j ticking.full (omega (arith, get_elem?_bound c j at_j, h.same_length)) in
        let (x, x_eq) =
          get_elem?_total next j
            (omega (arith, get_elem?_bound c j at_j, h.same_length, is_next.same_length)) in
        omega (arith, h.within j v at_j, frontier_after j r there x_eq);
  }

  pub next-IsReached : IsReached slots (insert replica next m) next
  next-IsReached = record {
    same_length = is_next.same_length;
    within = λ j v at_j.
        let (r, there) =
          filled slots j ticking.full
            (omega (arith, get_elem?_bound next j at_j, is_next.same_length)) in
        (frontier_after j r there at_j).0;
  }

  pub IsTicking-after : IsTicking slots (insert replica next m)
  IsTicking-after = record {
    full = ticking.full;
    clocks = λ j r there. elim (Bool-cases (replica == r.id)) [
      | inl mine ↦ (next, ground (arith, lookup-insert replica r.id next m), is_next.same_length)
      | inr other ↦
          let (c, c_eq, len) = ticking.clocks j r there in
          (c, ground (arith, lookup-insert replica r.id next m), len)
    ];
  }

  entry-le :
      (i : ℕ) (c : ClockValue)
      → get_elem? cs i ≡ some (some c)
      → (j y z : ℕ) → get_elem? c j ≡ some y
      → get_elem? next j ≡ some z
      → j < length slots
      → y ≤ z
  entry-le i c at_i j y z c_j next_j h =
      let (r, there) = filled slots j ticking.full h in
      let (x, x_eq, (above, own_adv, other_adv)) = is_next.entry j r there in
      let same : x ≡ z = cc in
      omega (arith, All-get_elem? (EntryLe j x) cs i above at_i c y refl c_j)

  -- A parent's clock comes before the new one.
  pub parent-lt :
      (own : ℕ) (self : Replica)
      → get_elem? slots own ≡ some (some self)
      → self.id ≡ replica
      → (i : ℕ) (c : ClockValue) → get_elem? cs i ≡ some (some c)
      → IsReached slots m c
      → lt c next ≡ true
  parent-lt own self own_eq self_eq i c at_i reached_c =
      let (x, x_eq, (above, own_adv, other_adv)) = is_next.entry own self own_eq in
      let (v, v_eq) =
        get_elem?_total c own
          (omega (arith, get_elem?_bound slots own own_eq, reached_c.same_length)) in
      (lt_iff c next).1 (
        PointwiseLe-of_get_elem? c next (omega (arith, reached_c.same_length, is_next.same_length))
            (λ j y z p q.
              entry-le i c at_i j y z p q
                (omega (arith, get_elem?_bound next j q, is_next.same_length))),
        λ same.
            let too_far : v ≡ x = (let q : get_elem? next own ≡ some v = rw same at v_eq in cc) in
            omega (arith, reached_c.within own v v_eq, own_adv self_eq),
      )
