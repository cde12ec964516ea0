-- ===== src/Base/Int.antt =====
-- Go's int: integers of 64 bits, over the native numbers. `negsuc n` is -(n + 1).
use Prim.Native.Nat.{ℕ, zero, suc, ◌+◌, ◌-◌, ◌%◌}
use mathlib.Core.Path.{◌≡◌}
use mathlib.Core.Logic.{◌↔◌}
use mathlib.Core.Bool.{Bool, true, false}
use mathlib.Core.Option.{Option, none, some}
use native.Mathlib.Omega.{arith}
use tendermint_testing.Base.Tests.{ltb, leb, nat_beq, if◌then◌else◌}
use tendermint_testing.Base.Keys.{Key}

pub data ℤ : Type 0 where
  pos : ℕ → ℤ
  negsuc : ℕ → ℤ

abbrev pub max_int : ℕ
max_int = 9223372036854775807

-- a < b
abbrev pub ltb_ℤ : ℤ → ℤ → Bool
ltb_ℤ (pos a) (pos b) = ltb a b
ltb_ℤ (pos a) (negsuc b) = false
ltb_ℤ (negsuc a) (pos b) = true
ltb_ℤ (negsuc a) (negsuc b) = ltb b a

-- a <= b
abbrev pub leb_ℤ : ℤ → ℤ → Bool
leb_ℤ (pos a) (pos b) = leb a b
leb_ℤ (pos a) (negsuc b) = false
leb_ℤ (negsuc a) (pos b) = true
leb_ℤ (negsuc a) (negsuc b) = leb b a

abbrev pub int_beq : ℤ → ℤ → Bool
int_beq (pos a) (pos b) = nat_beq a b
int_beq (pos a) (negsuc b) = false
int_beq (negsuc a) (pos b) = false
int_beq (negsuc a) (negsuc b) = nat_beq a b

pub int_beq_iff : (a b : ℤ) → (int_beq a b ≡ true) ↔ (a ≡ b)
int_beq_iff (pos a) (pos b) = ground arith
int_beq_iff (pos a) (negsuc b) = ground arith
int_beq_iff (negsuc a) (pos b) = ground arith
int_beq_iff (negsuc a) (negsuc b) = ground arith

instance abbrev pub int_eq : Key ℤ
int_eq = record { same = int_beq; same_iff = int_beq_iff }

-- x + 1, which wraps from the largest int to the smallest.
abbrev pub incr_int : ℤ → ℤ
incr_int (pos n) = if nat_beq n max_int then negsuc max_int else pos (n + 1)
incr_int (negsuc zero) = pos 0
incr_int (negsuc (suc n)) = negsuc n

abbrev pub word : ℕ
word = 18446744073709551616

-- int(n) of a uint64, and uint64(n) of an int: the bits stay.
abbrev pub of_word : ℕ → ℤ
of_word n = if leb n max_int then pos n else negsuc (word - n - 1)

abbrev pub to_word : ℤ → ℕ
to_word (pos n) = n
to_word (negsuc n) = word - n - 1

-- a + b and a - b, which wrap.
abbrev pub add_int : ℤ → ℤ → ℤ
add_int a b = of_word ((to_word a + to_word b) % word)

abbrev pub sub_int : ℤ → ℤ → ℤ
sub_int a b = of_word ((to_word a + word - to_word b) % word)

-- n, _ := of a read that may find nothing: 0 then.
abbrev pub or_zero : Option ℤ → ℤ
or_zero none = pos 0
or_zero (some n) = n
