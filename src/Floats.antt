-- ===== src/Floats.antt =====
-- Python's float: a type with the operations that the program uses, which every definition that
-- handles trust scores or costs takes as an instance. No law is assumed of them.
use cys_agi.Prelude.{ℕ, ◌+◌, ◌-◌, ◌*◌, ◌/◌, Bool, ltb, leb, max}

pub record FloatOps (F : Type 0) : Type 0 where
  pub of_ℕ : ℕ → F
  pub add : F → F → F
  pub sub : F → F → F
  pub mul : F → F → F
  pub div : F → F → F
  -- `max(a, b)`, `a > b` and `a >= b`
  pub fmax : F → F → F
  pub gt : F → F → Bool
  pub ge : F → F → Bool
  -- `int(x)` of a number that is not negative
  pub trunc : F → ℕ
  -- the literal `numerator / 10 ** places`
  pub decimal : (numerator places : ℕ) → F

-- Thousandths, rounded down and never below zero: a carrier at which the theorems are applied.
abbrev pub Milli : Type 0
Milli = ℕ

abbrev pow10 : ℕ → ℕ
pow10 Prim.Native.Nat.zero = 1
pow10 (Prim.Native.Nat.suc n) = 10 * pow10 n

abbrev pub milli : FloatOps Milli
milli = record {
  of_ℕ = λ n. n * 1000;
  add = λ a b. a + b;
  sub = λ a b. a - b;
  mul = λ a b. a * b / 1000;
  div = λ a b. a * 1000 / b;
  fmax = max;
  gt = λ a b. ltb b a;
  ge = λ a b. leb b a;
  trunc = λ a. a / 1000;
  decimal = λ n p. n * 1000 / pow10 p;
}
