-- ===== src/Prelude/Fixed.antt =====
-- A concrete stand-in for `double` at which the theorems are instantiated: numbers with two decimal
-- places. It is not floating point; it meets the laws that the theorems name.
use smart_quant.Prelude.Tests.{leb, if◌then◌else◌}
use smart_quant.Prelude.Int.{ℤ, pos, pos_part, neg_part, sub_ℕ, ◌+ℤ◌, ◌-ℤ◌, neg, magnitude, ltb_ℤ}
use smart_quant.Prelude.Double.{Double}
use Prim.Native.Nat.{ℕ, zero, suc, ◌+◌, ◌*◌, ◌/◌}

-- Hundredths.
abbrev pub Fixed : Type 0
Fixed = ℤ

abbrev pub times : ℕ → ℤ → ℤ
times k a = sub_ℕ (k * pos_part a) (k * neg_part a)

-- Division of magnitudes, which truncates.
abbrev pub div_ℕ : ℤ → ℕ → ℤ
div_ℕ a k = sub_ℕ (pos_part a / k) (neg_part a / k)

abbrev pub product : ℤ → ℤ → ℤ
product a b =
    sub_ℕ (pos_part a * pos_part b + neg_part a * neg_part b)
      (pos_part a * neg_part b + neg_part a * pos_part b)

abbrev pub quotient : ℤ → ℤ → ℤ
quotient a b =
    if ltb_ℤ b (pos 0)
    then div_ℕ (sub_ℕ (neg_part a) (pos_part a)) (magnitude b)
    else div_ℕ a (magnitude b)

-- The largest number whose square is at most `n`, tried from `s` down.
abbrev pub root_from : ℕ → ℕ → ℕ
root_from zero n = 0
root_from (suc s) n = let rest = root_from s n in if leb (suc s * suc s) n then suc s else rest

instance abbrev pub fixed_double : Double Fixed
fixed_double = record {
  of_int = times 100;
  to_int = λ a. div_ℕ a 100;
  literal = λ n k. pos (n * 100 / k);
  add = ◌+ℤ◌;
  sub = ◌-ℤ◌;
  mul = λ a b. div_ℕ (product a b) 100;
  div = λ a b. quotient (times 100 a) b;
  neg = neg;
  abs = λ a. pos (magnitude a);
  sqrt = λ a. pos (root_from (pos_part a + 10) (100 * pos_part a));
  lt = ltb_ℤ;
}
