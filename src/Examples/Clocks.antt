-- ===== src/Examples/Clocks.antt =====
-- Vector clocks at small values (netrix/types/vector_clocks.go).
use tendermint_testing.Base.{ℕ, ◌≡◌, ◌↔◌, refl, true, false, List, [], ◌∷◌}
use tendermint_testing.Types.Clock.{lt, eq, eq_iff}

eq_iff_example : (eq (1 ∷ []) (1 ∷ 0 ∷ []) ≡ true) ↔ (◌≡◌ {A = List ℕ} (1 ∷ []) (1 ∷ 0 ∷ []))
eq_iff_example = eq_iff (1 ∷ []) (1 ∷ 0 ∷ [])

-- Concurrent clocks.
concurrent : lt (1 ∷ 0 ∷ []) (0 ∷ 1 ∷ []) ≡ false
unfolding lt
concurrent = refl
