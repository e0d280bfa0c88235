-- ===== src/Base/Tables.antt =====
-- Facts about every number below a bound, checked by evaluation.
use Prim.Native.Nat.{ℕ, zero, suc, ◌<◌}
use mathlib.Core.Path.{◌≡◌}
use mathlib.Core.Bool.{Bool, true, ◌&&◌}
use native.Mathlib.Omega.{arith}

unfoldable pub all_below : ℕ → (ℕ → Bool) → Bool
all_below (suc bound) test = all_below bound test && test bound
all_below zero test = true

-- What a table that evaluates to `true` says of one of its rows.
pub all_below_sound :
    (bound : ℕ) (test : ℕ → Bool) (row : ℕ)
    → all_below bound test ≡ true
    → row < bound
    → test row ≡ true
unfolding all_below
all_below_sound (suc bound) test row table inside =
    ground (arith, table, inside, all_below_sound bound test row)
all_below_sound zero test row table inside = absurd (omega (arith, inside))
