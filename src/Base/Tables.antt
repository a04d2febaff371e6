-- ===== src/Base/Tables.antt =====
-- Checking a statement about every small number by evaluation.
use Prim.Native.Nat.{ℕ, zero, suc, ◌<◌}
use mathlib.Core.Path.{◌≡◌}
use mathlib.Core.Bool.{Bool, true, ◌&&◌}
use native.Mathlib.Omega.{arith}

module _ (test : ℕ → Bool) where
  unfoldable pub all_below : ℕ → Bool
  all_below zero = true
  all_below (suc bound) = all_below bound && test bound

  pub all_below_sound : (bound : ℕ) → all_below bound ≡ true → (k : ℕ) → k < bound → test k ≡ true
  unfolding all_below
  all_below_sound zero passed k inside = absurd (omega arith)
  all_below_sound (suc bound) passed k inside = ground (arith, all_below_sound bound _ k)
