-- ===== src/Tendermint/Rounds/Order.antt =====
-- Counts and rounds as Go's int.
use tendermint_testing.Base.{
  ℕ, suc, ◌<◌, ◌≡◌, ◌≢◌, refl, true, false, Option, none, some, arith, ◌==◌,
}
use tendermint_testing.Base.Int.{ℤ, pos, negsuc, max_int, incr_int, int_eq, ltb_ℤ}
use tendermint_testing.Tendermint.Rounds.{is_below}

pub incr_small : (n : ℕ) → n < max_int → incr_int (pos n) ≡ pos (suc n)
incr_small n h = ground arith

pub other_round : (m n : ℤ) → (m == n) ≡ false → m ≢ n
other_round m n other is = let same : (m == n) ≡ true = (int_eq.same_iff m n).1 is in cc

-- A round that is not above the current one is not above a higher one.
pub not_above_higher :
    (cur : Option ℤ) (m n : ℤ) → is_below cur n ≡ false → is_below cur m ≡ true → ltb_ℤ m n ≡ false
not_above_higher none m n h k = absurd (cc)
not_above_higher (some (pos c)) (pos m) (pos n) h k = ground arith
not_above_higher (some (pos c)) (pos m) (negsuc n) h k = refl
not_above_higher (some (pos c)) (negsuc m) n h k = absurd (cc)
not_above_higher (some (negsuc c)) (pos m) (pos n) h k = absurd (cc)
not_above_higher (some (negsuc c)) (pos m) (negsuc n) h k = refl
not_above_higher (some (negsuc c)) (negsuc m) (pos n) h k = absurd (cc)
not_above_higher (some (negsuc c)) (negsuc m) (negsuc n) h k = ground arith

pub not_below_self : (n : ℤ) → ltb_ℤ n n ≡ false
not_below_self (pos n) = ground arith
not_below_self (negsuc n) = ground arith
