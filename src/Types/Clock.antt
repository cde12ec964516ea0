-- ===== src/Types/Clock.antt =====
-- netrix/types/vector_clocks.go: vector clocks. The entries are float64 in Go, but they only ever
-- start at 0, grow by 1 and take maxima, so natural numbers stand for them (exact below 2^53).
use tendermint_testing.Base.{
  ℕ, suc, ◌≤◌, ◌≡◌, ◌≢◌, ◌↔◌, ◌⊎◌, inl, inr, refl, ap, Bool-cases, Bool, true, false, ◌||◌, not,
  List, [], ◌∷◌, some, arith, ltb, if◌then◌else◌, length, replicate, get_elem?, ◌==◌, nat_eq,
}

abbrev pub ClockValue : Type 0
ClockValue = List ℕ

unfoldable pub zero_clock : ℕ → ClockValue
zero_clock replicas = replicate replicas 0

-- The loop of Lt, over the rest of both clocks.
abbrev lt_loop : Bool → ClockValue → ClockValue → Bool
lt_loop oneless [] d = oneless
lt_loop oneless (x ∷ c) [] = oneless
lt_loop oneless (x ∷ c) (y ∷ d) = if ltb y x then false else lt_loop (oneless || ltb x y) c d

unfoldable pub lt : ClockValue → ClockValue → Bool
lt c other = if not (length c == length other) then false else lt_loop false c other

abbrev eq_loop : ClockValue → ClockValue → Bool
eq_loop [] d = true
eq_loop (x ∷ c) [] = true
eq_loop (x ∷ c) (y ∷ d) = if not (x == y) then false else eq_loop c d

unfoldable pub eq : ClockValue → ClockValue → Bool
eq c other = if not (length c == length other) then false else eq_loop c other

-- The order that vector clocks stand for: as long, and nowhere above.
abbrev pub PointwiseLe : ClockValue → ClockValue → Type 0
PointwiseLe [] [] = Unit {0}
PointwiseLe [] (y ∷ d) = ⊥
PointwiseLe (x ∷ c) [] = ⊥
PointwiseLe (x ∷ c) (y ∷ d) = (x ≤ y) × PointwiseLe c d

lt_loop_sound :
    (b : Bool) (c d : ClockValue) → length c ≡ length d → lt_loop b c d ≡ true → PointwiseLe c d
lt_loop_sound b [] [] l h = tt
lt_loop_sound b [] (y ∷ d) l h = absurd (omega arith)
lt_loop_sound b (x ∷ c) [] l h = absurd (omega arith)
lt_loop_sound b (x ∷ c) (y ∷ d) l h = ground (arith, lt_loop_sound (b || ltb x y) c d)

lt_loop_refl : (c : ClockValue) → lt_loop false c c ≡ false
lt_loop_refl [] = refl
lt_loop_refl (x ∷ c) = ground (arith, lt_loop_refl c)

PointwiseLe-length : (c d : ClockValue) → PointwiseLe c d → length c ≡ length d
PointwiseLe-length [] [] h = refl
PointwiseLe-length [] (y ∷ d) h = absurd h
PointwiseLe-length (x ∷ c) [] h = absurd h
PointwiseLe-length (x ∷ c) (y ∷ d) h = ap suc (PointwiseLe-length c d h.1)

lt_loop_complete :
    (b : Bool) (c d : ClockValue) → PointwiseLe c d → (b ≡ true) ⊎ (c ≢ d) → lt_loop b c d ≡ true
lt_loop_complete b [] [] h (inl e) = e
lt_loop_complete b [] [] h (inr e) = absurd (e refl)
lt_loop_complete b [] (y ∷ d) h e = absurd h
lt_loop_complete b (x ∷ c) [] h e = absurd h
lt_loop_complete b (x ∷ c) (y ∷ d) h e = elim (Bool-cases (b || ltb x y)) [
  | inl less ↦ ground (arith, lt_loop_complete (b || ltb x y) c d h.1 (inl less))
  | inr same ↦
      ground (arith, lt_loop_complete (b || ltb x y) c d h.1 (inr (λ (q : c ≡ d). ground arith)))
]

lt-le : (c d : ClockValue) → lt c d ≡ true → PointwiseLe c d
unfolding lt
lt-le c d h = ground (arith, lt_loop_sound false c d)

-- `c.Lt(d)` holds exactly when `c` is nowhere above `d` and differs from it.
pub lt_iff : (c d : ClockValue) → (lt c d ≡ true) ↔ (PointwiseLe c d × (c ≢ d))
unfolding lt
lt_iff c d = (
  (λ h. (lt-le c d h, λ e. ground (arith, lt_loop_refl c))),
  (λ h. ground (arith, PointwiseLe-length c d h.0, lt_loop_complete false c d h.0 (inr h.1))),
)

PointwiseLe-trans : (c d e : ClockValue) → PointwiseLe c d → PointwiseLe d e → PointwiseLe c e
PointwiseLe-trans [] [] e h k = k
PointwiseLe-trans [] (y ∷ d) e h k = absurd h
PointwiseLe-trans (x ∷ c) [] e h k = absurd h
PointwiseLe-trans (x ∷ c) (y ∷ d) [] h k = absurd k
PointwiseLe-trans (x ∷ c) (y ∷ d) (z ∷ e) h k = (omega arith, PointwiseLe-trans c d e h.1 k.1)

PointwiseLe-antisymm : (c d : ClockValue) → PointwiseLe c d → PointwiseLe d c → c ≡ d
PointwiseLe-antisymm [] [] h k = refl
PointwiseLe-antisymm [] (y ∷ d) h k = absurd h
PointwiseLe-antisymm (x ∷ c) [] h k = absurd h
PointwiseLe-antisymm (x ∷ c) (y ∷ d) h k = ground (arith, PointwiseLe-antisymm c d h.1 k.1)

-- `Lt` is a strict partial order: no clock is below itself, and the order is transitive.
pub lt-strict_order :
    (c d e : ClockValue) → (lt c c ≡ false) × (lt c d ≡ true → lt d e ≡ true → lt c e ≡ true)
lt-strict_order c d e = (
  ground (arith, (lt_iff c c).0),
  λ h k.
      let (hle, hne) = (lt_iff c d).0 h in
      let (kle, kne) = (lt_iff d e).0 k in
      (lt_iff c e).1
        (PointwiseLe-trans c d e hle kle, λ q. hne (PointwiseLe-antisymm c d hle (rw q kle))),
)

eq_loop_iff : (c d : ClockValue) → length c ≡ length d → (eq_loop c d ≡ true) ↔ (c ≡ d)
eq_loop_iff [] [] l = ground arith
eq_loop_iff [] (y ∷ d) l = absurd (omega arith)
eq_loop_iff (x ∷ c) [] l = absurd (omega arith)
eq_loop_iff (x ∷ c) (y ∷ d) l = ground (arith, eq_loop_iff c d)

-- `Eq` decides equality of clocks.
pub eq_iff : (c d : ClockValue) → (eq c d ≡ true) ↔ (c ≡ d)
unfolding eq
eq_iff c d = ground (arith, eq_loop_iff c d)

-- The order, entry by entry.
pub PointwiseLe-of_get_elem? :
    (c d : ClockValue)
    → length c ≡ length d
    → ((i x y : ℕ) → get_elem? c i ≡ some x → get_elem? d i ≡ some y → x ≤ y)
    → PointwiseLe c d
PointwiseLe-of_get_elem? [] [] l h = tt
PointwiseLe-of_get_elem? [] (y ∷ d) l h = absurd (omega arith)
PointwiseLe-of_get_elem? (x ∷ c) [] l h = absurd (omega arith)
PointwiseLe-of_get_elem? (x ∷ c) (y ∷ d) l h =
    (h 0 x y refl refl, PointwiseLe-of_get_elem? c d (omega arith) (λ i v w p q. h (suc i) v w p q))
