-- ===== src/Common/Bits.antt =====
-- Facts over a finite range of numbers, by evaluation at each.
use Prim.Native.Nat.{ℕ, zero, suc, ◌<◌}
use mathlib.Core.Path.{◌≡◌}
use mathlib.Core.Bool.{Bool, true, ◌&&◌}
use native.Mathlib.Omega.{arith}

module _ (test : ℕ → Bool) where
  -- The test holds at every number below the bound.
  unfoldable pub holds_below : ℕ → Bool
  holds_below zero = true
  holds_below (suc bound) = holds_below bound && test bound

  pub holds_at : (bound x : ℕ) → x < bound → holds_below bound ≡ true → test x ≡ true
  unfolding holds_below
  holds_at zero x below all = absurd (omega arith)
  holds_at (suc bound) x below all = ground (arith, holds_at bound x)
