-- ===== src/Base/Int.antt =====
-- Go's `int` and `time.Duration` as integers; `negsuc n` is -(n + 1).
use Prim.Native.Nat.{ℕ, zero, suc, ◌+◌, ◌/◌, ◌^◌, ◌<◌}
use mathlib.Core.Bool.{Bool, false}
use griffino_go.Base.Tests.{eqb}

pub data ℤ : Type 0 where
  pos : ℕ → ℤ
  negsuc : ℕ → ℤ

-- minus a natural number
abbrev pub neg : ℕ → ℤ
neg zero = pos 0
neg (suc n) = negsuc n

-- the range of a 64-bit int
abbrev pub IsInt64 : ℤ → Type 0
IsInt64 (pos n) = n < 2 ^ 63
IsInt64 (negsuc n) = n < 2 ^ 63

abbrev pub is_zero : ℤ → Bool
is_zero (pos n) = eqb n 0
is_zero (negsuc n) = false

-- `z / k` in Go: the quotient is cut off towards zero
abbrev pub quot : ℤ → ℕ → ℤ
quot (pos n) k = pos (n / k)
quot (negsuc n) k = neg ((n + 1) / k)
