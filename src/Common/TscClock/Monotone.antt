-- ===== src/Common/TscClock/Monotone.antt =====
-- The time that include/smartquant/common/tsc_clock.hpp gives does not run backwards, from laws of
-- floating point: each operation rounds in an order-preserving way.
use smart_quant.Prelude.{ℕ, ◌+◌, ◌-◌, ◌^◌, ◌≤◌, ◌≡◌, true, ◌⊎◌, arith}
use smart_quant.Prelude.Int.{ℤ, pos, negsuc, ◌≤ℤ◌, ◌<ℤ◌}
use smart_quant.Prelude.Word.{IsWord, sub_64_of_le}
use smart_quant.Prelude.Double.{Double}
use smart_quant.Common.TscClock.{TscClock, to_word, elapsed_ns, now_ns}

module _ {F : Type 0} ⦃d : Double F⦄ where
  abbrev pub AtMost : F → F → Type 0
  AtMost x y = (d.lt x y ≡ true) ⊎ (x ≡ y)

  -- A value that `uint64_t` can hold, once truncated.
  abbrev pub InRange : F → Type 0
  InRange x = AtMost (d.of_int (pos 0)) x × (d.lt x (d.of_int (pos (2 ^ 64))) ≡ true)

-- Division of counts by a positive number, and truncation, keep the order.
pub record RoundsMonotone (F : Type 0) ⦃d : Double F⦄ : Type 0 where
  pub div_monotone :
      (a b : ℕ) (f : F)
      → a ≤ b
      → d.lt (d.of_int (pos 0)) f ≡ true
      → AtMost (d.div (d.of_int (pos a)) f) (d.div (d.of_int (pos b)) f)
  pub div_positive :
      (a : ℕ) (f : F)
      → d.lt (d.of_int (pos 0)) f ≡ true
      → AtMost (d.of_int (pos 0)) (d.div (d.of_int (pos a)) f)
  pub lt_of_at_most : (x y z : F) → AtMost x y → d.lt y z ≡ true → d.lt x z ≡ true
  pub to_int_monotone : (x y : F) → InRange x → InRange y → AtMost x y → d.to_int x ≤ℤ d.to_int y
  pub to_int_range : (x : F) → InRange x → (pos 0 ≤ℤ d.to_int x) × (d.to_int x <ℤ pos (2 ^ 64))

to_word_mono : (a b : ℤ) → pos 0 ≤ℤ a → a ≤ℤ b → b <ℤ pos (2 ^ 64) → to_word a ≤ to_word b
unfolding to_word
to_word_mono (pos a) (pos b) p le h = omega arith
to_word_mono (pos a) (negsuc b) p le h = absurd (omega arith)
to_word_mono (negsuc a) b p le h = absurd (omega arith)

module _ {F : Type 0} ⦃d : Double F⦄ (laws : RoundsMonotone F) (c : TscClock F) where
  elapsed_ns_mono :
      (a b : ℕ)
      → c.epoch_tsc ≤ a
      → a ≤ b
      → IsWord b
      → d.lt (d.of_int (pos 0)) c.tsc_freq_ghz ≡ true
      → d.lt (d.div (d.of_int (pos (b - c.epoch_tsc))) c.tsc_freq_ghz) (d.of_int (pos (2 ^ 64)))
        ≡ true
      → elapsed_ns c a ≤ elapsed_ns c b
  unfolding elapsed_ns
  elapsed_ns_mono a b from le w positive fits =
      let x = d.div (d.of_int (pos (a - c.epoch_tsc))) c.tsc_freq_ghz in
      let y = d.div (d.of_int (pos (b - c.epoch_tsc))) c.tsc_freq_ghz in
      let xy : AtMost x y = laws.div_monotone _ _ _ (omega arith) positive in
      let in_y : InRange y = (laws.div_positive _ _ positive, fits) in
      let in_x : InRange x = (laws.div_positive _ _ positive, laws.lt_of_at_most x y _ xy fits) in
      rw (sub_64_of_le a c.epoch_tsc from (omega arith)) (
        rw (sub_64_of_le b c.epoch_tsc (omega arith) w) (
          to_word_mono (d.to_int x) (d.to_int y) (laws.to_int_range x in_x).0
            (laws.to_int_monotone x y in_x in_y xy) (laws.to_int_range y in_y).1))

  -- With the laws of rounding, a positive frequency and two readings of the counter in order, not
  -- before the epoch's: as long as the nanoseconds since the epoch fit in 64 bits, also with the
  -- epoch's time added, `now_ns` gives no earlier time for the later reading, and never a time before
  -- the epoch's.
  pub now_ns_mono :
      (a b : ℕ)
      → c.epoch_tsc ≤ a
      → a ≤ b
      → IsWord b
      → d.lt (d.of_int (pos 0)) c.tsc_freq_ghz ≡ true
      → d.lt (d.div (d.of_int (pos (b - c.epoch_tsc))) c.tsc_freq_ghz) (d.of_int (pos (2 ^ 64)))
        ≡ true
      → IsWord (c.epoch_wall_ns + elapsed_ns c b)
      → (c.epoch_wall_ns ≤ now_ns c a) × (now_ns c a ≤ now_ns c b)
  unfolding now_ns
  now_ns_mono a b from le w positive fits room =
      let mono = elapsed_ns_mono a b from le w positive fits in omega arith
