-- ===== src/Prelude/Integers.antt =====
-- Python's `int` where it can be below zero: `pos n` is n and `negsuc n` is -(n + 1).
use Prim.Native.Nat.{ℕ}

pub data ℤ : Type 0 where
  pos : ℕ → ℤ
  negsuc : ℕ → ℤ

-- `a or b`
abbrev pub or_ℤ : ℤ → ℤ → ℤ
or_ℤ (pos Prim.Native.Nat.zero) b = b
or_ℤ (pos (Prim.Native.Nat.suc n)) b = pos (Prim.Native.Nat.suc n)
or_ℤ (negsuc n) b = negsuc n

-- `max(0, a)`
abbrev pub at_least_zero : ℤ → ℕ
at_least_zero (pos n) = n
at_least_zero (negsuc n) = 0
