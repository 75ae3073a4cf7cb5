-- ===== src/Prelude/Int.antt =====
-- Go's `int` where its sign matters.
use Prim.Native.Nat.{ℕ}
use mathlib.Core.Bool.{Bool}
use orchd.Prelude.Tests.{ltb}

-- `negsuc n` is -(n + 1).
pub data ℤ : Type 0 where
  pos : ℕ → ℤ
  negsuc : ℕ → ℤ

-- The number that a positive integer is, and 0 for any other: `pos_part n` is 0 where `n <= 0`.
abbrev pub pos_part : ℤ → ℕ
pos_part (pos n) = n
pos_part (negsuc n) = 0

abbrev pub is_positive : ℤ → Bool
is_positive n = ltb 0 (pos_part n)
