-- ===== src/Prelude/Double.antt =====
-- What the program does with a `double`. Floating point is not modelled: the type and its
-- operations are a parameter, and a theorem names the laws of IEEE arithmetic that it uses.
use mathlib.Core.Bool.{Bool}
use Prim.Native.Nat.{ℕ}
use smart_quant.Prelude.Int.{ℤ}

pub record Double (F : Type 0) : Type 0 where
  -- a conversion from `int64_t`, and the one to it, which truncates
  pub of_int : ℤ → F
  pub to_int : F → ℤ
  -- a decimal literal: the value nearest to the quotient of the two numbers
  pub literal : ℕ → ℕ → F
  pub add : F → F → F
  pub sub : F → F → F
  pub mul : F → F → F
  pub div : F → F → F
  pub neg : F → F
  pub abs : F → F
  pub sqrt : F → F
  pub lt : F → F → Bool
