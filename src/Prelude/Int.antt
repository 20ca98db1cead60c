-- ===== src/Prelude/Int.antt =====
-- Whole numbers with a sign, over the native numbers.
use Prim.Native.Nat.{ℕ, suc, ◌+◌}
use mathlib.Core.Bool.{Bool}
use openeo_geopyspark_driver.Prelude.Tests.{ltb, leb, if◌then◌else◌}
use Prim.Native.Nat.{◌-◌}

-- `negsuc n` is -(n + 1).
pub data ℤ : Type 0 where
  pos : ℕ → ℤ
  negsuc : ℕ → ℤ

abbrev pub pos_part : ℤ → ℕ
pos_part (pos n) = n
pos_part (negsuc n) = 0

abbrev pub neg_part : ℤ → ℕ
neg_part (pos n) = 0
neg_part (negsuc n) = suc n

-- a - b
abbrev pub sub_ℕ : ℕ → ℕ → ℤ
sub_ℕ a b = if leb b a then pos (a - b) else negsuc (b - a - 1)

-- m < n + a
abbrev pub exceeds : ℕ → ℤ → ℕ → Bool
exceeds n a m = ltb (m + neg_part a) (n + pos_part a)
