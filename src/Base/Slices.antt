-- ===== src/Base/Slices.antt =====
-- Lemmas on take and drop: Go's slices.
use Prim.Native.Nat.{ℕ, zero, suc, ◌+◌, ◌≤◌}
use Prim.Native.Nat.add
use mathlib.Core.Path.{◌≡◌, refl, ap}
use mathlib.Core.List.{List, [], ◌∷◌, ◌++◌}
use mathlib.Core.Option.{some}
use native.Mathlib.Omega.{arith}
use tendermint_testing.Base.Lists.{length, get_elem?, take, drop, All}

module _ {ℓ} {A : Type ℓ} where
  pub take-nil : (n : ℕ) → take {A = A} n [] ≡ []
  take-nil zero = refl
  take-nil (suc n) = refl

  pub drop-nil : (n : ℕ) → drop {A = A} n [] ≡ []
  drop-nil zero = refl
  drop-nil (suc n) = refl

  pub All-take {κ} : (P : A → Type κ) (n : ℕ) (xs : List A) → All P xs → All P (take n xs)
  All-take P zero xs h = tt
  All-take P (suc n) [] h = tt
  All-take P (suc n) (x ∷ xs) h = (h.0, All-take P n xs h.1)

  pub All-drop {κ} : (P : A → Type κ) (n : ℕ) (xs : List A) → All P xs → All P (drop n xs)
  All-drop P zero xs h = h
  All-drop P (suc n) [] h = tt
  All-drop P (suc n) (x ∷ xs) h = All-drop P n xs h.1

  pub take-drop : (n : ℕ) (xs : List A) → take n xs ++ drop n xs ≡ xs
  take-drop zero xs = refl
  take-drop (suc n) [] = refl
  take-drop (suc n) (x ∷ xs) = ap (◌∷◌ x) (take-drop n xs)

  pub drop_all : (xs : List A) → drop (length xs) xs ≡ []
  drop_all [] = refl
  drop_all (x ∷ xs) = drop_all xs

  pub get_elem?-drop :
      (n : ℕ) (xs : List A) (i : ℕ) → get_elem? (drop n xs) i ≡ get_elem? xs (n + i)
  get_elem?-drop zero xs i = rw (add.zero i)
  get_elem?-drop (suc n) [] i = refl
  get_elem?-drop (suc n) (x ∷ xs) i = rw (add.suc n i) (get_elem?-drop n xs i)

  pub get_elem?-take :
      (n : ℕ) (xs : List A) (i : ℕ) {x : A}
      → get_elem? (take n xs) i ≡ some x
      → get_elem? xs i ≡ some x
  get_elem?-take zero xs i h = absurd (cc)
  get_elem?-take (suc n) [] i h = absurd (cc)
  get_elem?-take (suc n) (y ∷ xs) zero h = h
  get_elem?-take (suc n) (y ∷ xs) (suc i) h = get_elem?-take n xs i h

  pub length-drop : (n : ℕ) (xs : List A) → n ≤ length xs → length (drop n xs) + n ≡ length xs
  length-drop zero xs h = omega arith
  length-drop (suc n) [] h = absurd (omega arith)
  length-drop (suc n) (x ∷ xs) h = omega (arith, length-drop n xs)

  pub length-take : (n : ℕ) (xs : List A) → n ≤ length xs → length (take n xs) ≡ n
  length-take zero xs h = refl
  length-take (suc n) [] h = absurd (omega arith)
  length-take (suc n) (x ∷ xs) h = omega (arith, length-take n xs)

  -- A piece that starts inside what was taken, behind it, is what was taken further.
  pub take-splice :
      (xs : List A) (from d count : ℕ)
      → d ≤ count
      → take (from + d) xs ++ drop d (take count (drop from xs)) ≡ take (from + count) xs
  take-splice [] from d count h = simp (drop-nil, take-nil)
  take-splice (x ∷ xs) zero zero count h = rw (add.zero 0, add.zero count) refl
  take-splice (x ∷ xs) zero (suc d) zero h = absurd (omega arith)
  take-splice (x ∷ xs) zero (suc d) (suc count) h =
      rw (add.zero (suc d), add.zero (suc count))
        (ap (◌∷◌ x) (rw (add.zero d, add.zero count) at (take-splice xs 0 d count (omega arith))))
  take-splice (x ∷ xs) (suc from) d count h =
      rw (add.suc from d, add.suc from count) (ap (◌∷◌ x) (take-splice xs from d count h))

  -- What is taken, from a place inside on.
  pub drop-take_from :
      (xs : List A) (from d count : ℕ)
      → drop (from + d) (take (from + count) xs) ≡ drop d (take count (drop from xs))
  drop-take_from xs zero d count = rw (add.zero d, add.zero count) refl
  drop-take_from [] (suc from) d count = simp (drop-nil, take-nil)
  drop-take_from (x ∷ xs) (suc from) d count =
      rw (add.suc from d, add.suc from count) (drop-take_from xs from d count)

  pub drop-take_split :
      (xs : List A) (c m e : ℕ)
      → c ≤ m
      → m ≤ e
      → drop c (take e xs) ≡ drop c (take m xs) ++ drop m (take e xs)
  drop-take_split [] c m e h k = simp (drop-nil, take-nil)
  drop-take_split (x ∷ xs) zero zero e h k = refl
  drop-take_split (x ∷ xs) zero (suc m) zero h k = absurd (omega arith)
  drop-take_split (x ∷ xs) zero (suc m) (suc e) h k =
      ap (◌∷◌ x) (drop-take_split xs 0 m e (omega arith) (omega arith))
  drop-take_split (x ∷ xs) (suc c) zero e h k = absurd (omega arith)
  drop-take_split (x ∷ xs) (suc c) (suc m) zero h k = absurd (omega arith)
  drop-take_split (x ∷ xs) (suc c) (suc m) (suc e) h k =
      drop-take_split xs c m e (omega arith) (omega arith)

  pub drop-take_self : (xs : List A) (n : ℕ) → drop n (take n xs) ≡ []
  drop-take_self xs zero = refl
  drop-take_self [] (suc n) = refl
  drop-take_self (x ∷ xs) (suc n) = drop-take_self xs n
