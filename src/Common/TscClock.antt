-- ===== src/Common/TscClock.antt =====
-- include/smartquant/common/tsc_clock.hpp: nanoseconds from the time stamp counter. What the counter
-- and the system's clocks read is an argument, and so is the arithmetic of `double`.
pub mod Time
pub mod Monotone
mod Tests
use smart_quant.Prelude.{
  ℕ, ◌+◌, ◌-◌, ◌*◌, ◌%◌, ◌^◌, Bool, true, false, ◌||◌, leb, ◌==◌, if◌then◌else◌, Option, none, some,
}
use Prim.Native.Nat.{bit_or}
use smart_quant.Prelude.Int.{ℤ, pos, negsuc, ◌-ℤ◌}
use smart_quant.Prelude.Word.{add_64, sub_64}
use smart_quant.Prelude.Double.{Double}

-- `struct timespec`
pub record Timespec : Type 0 where
  pub tv_sec : ℤ
  pub tv_nsec : ℤ

-- The conversion of a signed number to `uint64_t`.
unfoldable pub to_word : ℤ → ℕ
to_word (pos n) = n % 2 ^ 64
to_word (negsuc n) = 2 ^ 64 - 1 - n % 2 ^ 64

abbrev pub mul_64 : ℕ → ℕ → ℕ
mul_64 a b = a * b % 2 ^ 64

abbrev pub giga : ℕ
giga = 1_000_000_000

-- The time between two readings of the wall clock.
unfoldable pub wall_ns : Timespec → Timespec → ℕ
unfolding to_word ◌-ℤ◌
wall_ns t0 t1 =
    add_64 (mul_64 (to_word (t1.tv_sec -ℤ t0.tv_sec)) giga)
      (sub_64 (to_word t1.tv_nsec) (to_word t0.tv_nsec))

-- A reading of a clock in nanoseconds.
unfoldable pub unix_ns : Timespec → ℕ
unfolding to_word
unix_ns t = add_64 (mul_64 (to_word t.tv_sec) giga) (to_word t.tv_nsec)

-- The counter on x86, from the two registers that the instruction sets.
unfoldable pub rdtsc : ℕ → ℕ → ℕ
rdtsc hi lo = bit_or (hi * 2 ^ 32 % 2 ^ 64) lo

-- The counter elsewhere, from the monotonic clock.
unfoldable pub rdtsc_fallback : Timespec → ℕ
unfolding unix_ns
rdtsc_fallback ts = unix_ns ts

-- The static members.
pub record TscClock (F : Type 0) : Type 0 where
  pub tsc_freq_ghz : F
  pub epoch_tsc : ℕ
  pub epoch_wall_ns : ℕ
  pub calibrated : Bool

module _ {F : Type 0} where
  unfoldable pub is_calibrated : TscClock F → Bool
  is_calibrated c = c.calibrated

module _ {F : Type 0} ⦃d : Double F⦄ where
  abbrev pub uncalibrated : TscClock F
  uncalibrated = record {
    tsc_freq_ghz = d.of_int (pos 1);
    epoch_tsc = 0;
    epoch_wall_ns = 0;
    calibrated = false;
  }

  -- The readings before and after the sleep; `none` when it throws, and the members stay.
  unfoldable pub calibrate : Timespec → ℕ → ℕ → Timespec → Option (TscClock F)
  unfolding wall_ns unix_ns
  calibrate t0 tsc0 tsc1 t1 =
      let wall = wall_ns t0 t1 in
      if wall == 0 || leb tsc1 tsc0
      then none
      else some (record {
        tsc_freq_ghz = d.div (d.of_int (pos (sub_64 tsc1 tsc0))) (d.of_int (pos wall));
        epoch_tsc = tsc0;
        epoch_wall_ns = unix_ns t0;
        calibrated = true;
      })

  -- The time since the epoch, by a reading of the counter.
  unfoldable pub elapsed_ns : TscClock F → ℕ → ℕ
  unfolding to_word
  elapsed_ns c tsc =
      to_word (d.to_int (d.div (d.of_int (pos (sub_64 tsc c.epoch_tsc))) c.tsc_freq_ghz))

  unfoldable pub now_ns : TscClock F → ℕ → ℕ
  unfolding elapsed_ns
  now_ns c tsc = add_64 c.epoch_wall_ns (elapsed_ns c tsc)
