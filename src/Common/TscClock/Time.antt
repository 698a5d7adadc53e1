-- ===== src/Common/TscClock/Time.antt =====
-- What include/smartquant/common/tsc_clock.hpp makes of its readings.
use smart_quant.Prelude.{ℕ, ◌+◌, ◌-◌, ◌*◌, ◌≤◌, ◌<◌, ◌≡◌, true, Option, none, some, arith, ◌⊎◌}
use smart_quant.Prelude.Int.{pos, ◌-ℤ◌}
use smart_quant.Prelude.Word.{IsWord, sub_64_of_le}
use smart_quant.Prelude.Double.{Double}
use smart_quant.Common.TscClock.{Timespec, TscClock, giga, to_word, wall_ns, unix_ns, calibrate}

-- A reading of the system's clock, `n` nanoseconds after second `s`.
abbrev pub reading : ℕ → ℕ → Timespec
reading s n = record { tv_sec = pos s; tv_nsec = pos n }

-- The nanoseconds that a reading stands for.
abbrev pub total : ℕ → ℕ → ℕ
total s n = s * giga + n

unix_ns-reading : (s n : ℕ) → IsWord (total s n) → unix_ns (reading s n) ≡ total s n
unfolding unix_ns
unix_ns-reading s n w = omega arith

to_word-sub : (s0 s1 : ℕ) → s0 ≤ s1 → IsWord s1 → to_word (pos s1 -ℤ pos s0) ≡ s1 - s0
unfolding to_word ◌-ℤ◌
to_word-sub s0 s1 le w = ground arith

-- The unsigned arithmetic gives the difference, also where the nanoseconds are fewer than before.
wall_ns-reading :
    (s0 n0 s1 n1 : ℕ)
    → n0 < giga
    → n1 < giga
    → total s0 n0 ≤ total s1 n1
    → IsWord (total s1 n1)
    → wall_ns (reading s0 n0) (reading s1 n1) ≡ total s1 n1 - total s0 n0
unfolding wall_ns
wall_ns-reading s0 n0 s1 n1 h0 h1 le w =
    rw (to_word-sub s0 s1 (omega arith) (omega arith)) (omega arith)

module _ {F : Type 0} ⦃d : Double F⦄ where
  -- From two readings of the wall clock in order, whose nanoseconds fit in 64 bits: `calibrate` throws
  -- if the clock or the counter did not advance between them; otherwise it does not throw, and the
  -- members hold the ticks per nanosecond that went by and the first readings of both.
  pub calibrate-reading :
      (s0 n0 s1 n1 tsc0 tsc1 : ℕ)
      → n0 < giga
      → n1 < giga
      → total s0 n0 ≤ total s1 n1
      → IsWord (total s1 n1)
      → IsWord tsc1
      → let wall = total s1 n1 - total s0 n0 in
        let result : Option (TscClock F) = calibrate (reading s0 n0) tsc0 tsc1 (reading s1 n1) in
        (((wall ≡ 0) ⊎ (tsc1 ≤ tsc0)) × (result ≡ none))
        ⊎ ((0 < wall)
            × (tsc0 < tsc1)
            × (result
                ≡ some (record {
                  tsc_freq_ghz = d.div (d.of_int (pos (tsc1 - tsc0))) (d.of_int (pos wall));
                  epoch_tsc = tsc0;
                  epoch_wall_ns = total s0 n0;
                  calibrated = true;
                })))
  unfolding calibrate
  calibrate-reading s0 n0 s1 n1 tsc0 tsc1 h0 h1 le w wt =
      rw (wall_ns-reading s0 n0 s1 n1 h0 h1 le w)
        (rw (unix_ns-reading s0 n0 (omega arith)) (ground (arith, sub_64_of_le tsc1 tsc0)))
