-- ===== src/Base/Integers.antt =====
-- Go's int: integers over the native numbers, and their comparison with a bound.
use Prim.Native.Nat.{ℕ}
use mathlib.Core.Bool.{Bool, true, false, ◌&&◌}
use ssc_init.Base.Tests.{leb}

pub data ℤ : Type 0 where
  pos negsuc : ℕ → ℤ

unfoldable pub is_negative : ℤ → Bool
is_negative (pos n) = false
is_negative (negsuc n) = true

-- `value >= low && value <= high`, for bounds that are not negative.
unfoldable pub is_within : ℤ → ℕ → ℕ → Bool
is_within (pos n) low high = leb low n && leb n high
is_within (negsuc n) low high = false
