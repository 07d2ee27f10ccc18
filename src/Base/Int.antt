-- ===== src/Base/Int.antt =====
-- Signed integers of the source that a check may find negative.
use Prim.Native.Nat.{ℕ, ◌≤◌}
use mathlib.Core.Path.{◌≡◌}
use native.Mathlib.Omega.{arith}
use mathlib.Core.Option.{Option, none, some}
use maintenant.Base.Tests.{ltb, if◌then◌else◌}

-- `negsuc n` is -(n + 1).
pub data ℤ : Type 0 where
  pos : ℕ → ℤ
  negsuc : ℕ → ℤ

-- The number, unless it is below `low` or above `high`.
unfoldable pub in_range : ℕ → ℕ → ℤ → Option ℕ
in_range low high (negsuc n) = none
in_range low high (pos n) = if ltb n low then none else (if ltb high n then none else some n)

pub in_range-bounds :
    (low high : ℕ) (z : ℤ) (n : ℕ) → in_range low high z ≡ some n → (low ≤ n) × (n ≤ high)
unfolding in_range
in_range-bounds low high (negsuc m) n e = cc
in_range-bounds low high (pos m) n e = ground arith
