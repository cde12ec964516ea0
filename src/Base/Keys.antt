-- ===== src/Base/Keys.antt =====
-- Decidable equality of keys, as an instance argument: native numbers and texts have it.
use Prim.Native.Nat.{ℕ}
use Prim.Native.String.{String}
use text.Mathlib.Text.{◌==◌ as text_same}
use text.Mathlib.TextEquality.{eq_iff}
use mathlib.Core.Path.{◌≡◌, refl}
use mathlib.Core.Logic.{◌≢◌, ◌↔◌}
use mathlib.Core.Bool.{Bool, true, false}
use native.Mathlib.Omega.{arith}
use tendermint_testing.Base.Tests.{nat_beq, nat_beq_iff}

-- What Go's == decides on a type of keys.
pub record Key {ℓ} (K : Type ℓ) : Type ℓ where
  pub same : K → K → Bool
  pub same_iff : (k j : K) → (same k j ≡ true) ↔ (k ≡ j)

instance abbrev pub string_eq : Key String
string_eq = record { same = text_same; same_iff = eq_iff }

instance abbrev pub nat_eq : Key ℕ
nat_eq = record { same = nat_beq; same_iff = nat_beq_iff }

module _ {ℓ} {K : Type ℓ} ⦃key : Key K⦄ where
  infix 50 ◌==◌
  abbrev pub ◌==◌ : K → K → Bool
  k == j = key.same k j

  pub eq_self : (k : K) → (k == k) ≡ true
  eq_self k = (key.same_iff k k).1 refl

  pub eq_ne : (k j : K) → k ≢ j → (k == j) ≡ false
  eq_ne k j h = ground (arith, key.same_iff k j)
