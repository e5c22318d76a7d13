-- ===== src/Prelude/Tables.antt =====
-- A Boolean fact about all numbers of a small range, checked by running through them.
use Prim.Native.Nat.{ℕ, zero, suc, ◌<◌}
use mathlib.Core.Path.{◌≡◌}
use mathlib.Core.Bool.{Bool, true, ◌&&◌}
use native.Mathlib.Omega.{arith}

-- Whether the test holds at `0`, …, `bound - 1`.
unfoldable pub holds_below : (ℕ → Bool) → ℕ → Bool
holds_below test zero = true
holds_below test (suc bound) = holds_below test bound && test bound

-- It then holds at each of them.
pub holds_below_at :
    (test : ℕ → Bool) (bound i : ℕ) → i < bound → holds_below test bound ≡ true → test i ≡ true
unfolding holds_below
holds_below_at test zero i inside checked = absurd (omega arith)
holds_below_at test (suc bound) i inside checked = ground (arith, holds_below_at test bound i)
