-- ===== src/Common/TscClock/Tests.antt =====
-- A calibration over ten milliseconds with a counter of three ticks to the nanosecond.
use smart_quant.Prelude.{
  ℕ, zero, suc, ◌*◌, ◌/◌, ◌≤◌, ◌<◌, ◌≡◌, refl, true, Option, none, some, arith, ◌⊎◌,
}
use native.Mathlib.Nat.{le-div_iff_mul-le, div-mul-le_self, zero-div}
use smart_quant.Prelude.Int.{pos, negsuc}
use smart_quant.Prelude.Fixed.{Fixed, fixed_double}
use smart_quant.Common.TscClock.{TscClock, wall_ns, rdtsc, calibrate, now_ns, elapsed_ns}
use smart_quant.Common.TscClock.Time.{reading, calibrate-reading}
use smart_quant.Common.TscClock.Monotone.{RoundsMonotone, AtMost, now_ns_mono}

-- The second begins between the readings.
wall_value : wall_ns (reading 100 999_000_000) (reading 101 9_000_000) ≡ 10_000_000
unfolding wall_ns
wall_value = refl

rdtsc_value : rdtsc 1 5 ≡ 4_294_967_301
unfolding rdtsc
rdtsc_value = refl

abbrev clock : TscClock Fixed
clock = record {
  tsc_freq_ghz = pos 300;
  epoch_tsc = 1_000;
  epoch_wall_ns = 100_999_000_000;
  calibrated = true;
}

calibrate_value :
    calibrate (reading 100 999_000_000) 1_000 30_001_000 (reading 101 9_000_000) ≡ some clock
unfolding calibrate
calibrate_value = refl

now_value : now_ns clock 4_000 ≡ 100_999_001_000
unfolding now_ns
now_value = refl

calibrate-reading_example :
    let result : Option (TscClock Fixed) =
      calibrate (reading 100 999_000_000) 1_000 30_001_000 (reading 101 9_000_000) in
    (((◌≡◌ {A = ℕ} 10_000_000 0) ⊎ (30_001_000 ≤ 1_000)) × (result ≡ none))
    ⊎ ((0 < 10_000_000) × (1_000 < 30_001_000) × (result ≡ some clock))
calibrate-reading_example =
    calibrate-reading 100 999_000_000 101 9_000_000 1_000 30_001_000 (omega arith) (omega arith)
      (omega arith) (omega arith) (omega arith)

div_mono : (a b f : ℕ) → a ≤ b → 0 < f → a / f ≤ b / f
div_mono a b f le p = (le-div_iff_mul-le p).1 (omega (arith, div-mul-le_self a f))

AtMost-of_le : (a b : ℕ) → a ≤ b → AtMost ⦃d = fixed_double⦄ (pos a) (pos b)
AtMost-of_le a b le = ground arith

-- A fixed-point number by a positive one.
fixed_quotient :
    (a k : ℕ)
    → fixed_double.div (fixed_double.of_int (pos a)) (pos (suc k)) ≡ pos (10_000 * a / suc k)
fixed_quotient a k = ground (arith, zero-div (suc k))

div_mono_fixed :
    (a b : ℕ) (f : Fixed)
    → a ≤ b
    → fixed_double.lt (pos 0) f ≡ true
    → AtMost ⦃d = fixed_double⦄
        (fixed_double.div (fixed_double.of_int (pos a)) f)
        (fixed_double.div (fixed_double.of_int (pos b)) f)
div_mono_fixed a b (negsuc k) le p = absurd (ground arith)
div_mono_fixed a b (pos zero) le p = absurd (ground arith)
div_mono_fixed a b (pos (suc k)) le p = rw (fixed_quotient a k) (
    rw (fixed_quotient b k)
      (AtMost-of_le _ _ (div_mono (10_000 * a) (10_000 * b) (suc k) (omega arith) (omega arith))))

div_pos_fixed :
    (a : ℕ) (f : Fixed)
    → fixed_double.lt (pos 0) f ≡ true
    → AtMost ⦃d = fixed_double⦄ (pos 0) (fixed_double.div (fixed_double.of_int (pos a)) f)
div_pos_fixed a (negsuc k) p = absurd (ground arith)
div_pos_fixed a (pos zero) p = absurd (ground arith)
div_pos_fixed a (pos (suc k)) p = rw (fixed_quotient a k) (AtMost-of_le 0 _ (omega arith))

lt_of_AtMost_fixed :
    (x y z : Fixed)
    → AtMost ⦃d = fixed_double⦄ x y
    → fixed_double.lt y z ≡ true
    → fixed_double.lt x z ≡ true
lt_of_AtMost_fixed x y z le h = ground arith

fixed_rounds : RoundsMonotone Fixed
fixed_rounds = record {
  div_monotone = div_mono_fixed;
  div_positive = div_pos_fixed;
  lt_of_at_most = lt_of_AtMost_fixed;
  to_int_monotone = λ x y in_x in_y le. ground arith;
  to_int_range = λ x in_x. ground arith;
}

now_ns_mono_example :
    (clock.epoch_wall_ns ≤ now_ns clock 4_000) × (now_ns clock 4_000 ≤ now_ns clock 5_000)
unfolding elapsed_ns
now_ns_mono_example =
    now_ns_mono fixed_rounds clock 4_000 5_000 (omega arith) (omega arith) (omega arith) refl refl
      (omega arith)
