-- ===== src/Oms/Ids.antt =====
-- The ClOrdIDs of src/oms/order_manager.cpp.
use smart_quant.Prelude.{ℕ, ◌<◌, ◌^◌, ◌≡◌, All, arith, tail-cancel}
use smart_quant.Prelude.Text.{
  to_string, strncpy, strncpy_whole, NonZero, decimal-NonZero, length-decimal, to_string-injective,
}
use smart_quant.Oms.{clordid_of}

pub clordid_of-injective : (a b : ℕ) → a < 2 ^ 64 → b < 2 ^ 64 → clordid_of a ≡ clordid_of b → a ≡ b
unfolding clordid_of
clordid_of-injective a b ha hb e =
    to_string-injective a b ha hb (tail-cancel (tail-cancel (tail-cancel e)))

clordid_of-NonZero : (n : ℕ) → All NonZero (clordid_of n)
unfolding clordid_of to_string
clordid_of-NonZero n =
    ((λ e. omega arith), ((λ e. omega arith), ((λ e. omega arith), decimal-NonZero 20 n)))

-- Every ClOrdID fits in the array of an order.
pub clordid_of_whole : (n : ℕ) → strncpy 31 (clordid_of n) ≡ clordid_of n
unfolding clordid_of to_string
clordid_of_whole n =
    strncpy_whole 31 (clordid_of n) (clordid_of-NonZero n) (omega (arith, length-decimal 20 n))
