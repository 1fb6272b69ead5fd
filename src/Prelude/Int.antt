-- ===== src/Prelude/Int.antt =====
-- Go's signed integers, over the native numbers; values near the limits of 64 bits do not occur.
use Prim.Native.Nat.{ℕ, zero, suc}
use mathlib.Core.Bool.{Bool, true, false}
use go_saga_orchestration.Prelude.Tests.{leb}

-- `negsuc n` is -(n + 1).
pub data ℤ : Type 0 where
  pos : ℕ → ℤ
  negsuc : ℕ → ℤ

-- `n <= 0`
abbrev pub is_nonpositive : ℤ → Bool
is_nonpositive (pos zero) = true
is_nonpositive (pos (suc n)) = false
is_nonpositive (negsuc n) = true

-- `n` as a count, where negative values count as 0.
abbrev pub pos_part : ℤ → ℕ
pos_part (pos n) = n
pos_part (negsuc n) = 0

-- `z <= n` against a count.
abbrev pub leb_ℕ : ℤ → ℕ → Bool
leb_ℕ (pos m) n = leb m n
leb_ℕ (negsuc m) n = true
