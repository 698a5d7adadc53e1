-- ===== src/Risk/Tests.antt =====
-- Runs of src/risk/risk_manager.cpp, and its theorems at concrete states.
use smart_quant.Prelude.{ℕ, ◌≡◌, refl, true, false, none, some, [], ◌∷◌, arith, ◌+◌}
use smart_quant.Prelude.Int.{pos, ◌+ℤ◌, ◌-ℤ◌, neg}
use smart_quant.Prelude.Fixed.{Fixed, fixed_double}
use smart_quant.Types.{Order, Signal, Direction}
use smart_quant.Risk.{
  RiskManager, filled, rejected, timer, default_config, init, blank_order, check_signal,
  on_order_sent, on_fill, on_timer, risk_run, slippage_ticks, slip_cost,
}
use smart_quant.Risk.Gate.{fused_until_reset}
use smart_quant.Risk.Fuse.{hard_abort_skips_fuse, below_limit}
use smart_quant.Risk.Cooldown.{fill_all, cooldown_after_row}

abbrev fresh : RiskManager Fixed
fresh = init default_config

abbrev quiet : Signal Fixed
quiet = record {
  trigger_time_ns = 0;
  l1_price = pos 0;
  delta_val = pos 0;
  cancel_z = pos 0;
  direction = Direction.none;
}

-- An order wanted at 2000.00, filled `ticks` away from it.
abbrev fill_at : ℕ → Order
fill_at ticks = record blank_order { signal_l1 = pos 200_000; fill_price = pos (200_000 + ticks) }

slippage_values :
    (slippage_ticks (fill_at 300) ≡ pos 300)
    × (slip_cost fresh.cfg (fill_at 300) ≡ neg (pos 300))
    × (slippage_ticks {F = Fixed} blank_order ≡ pos 0)
unfolding slippage_ticks slip_cost ◌-ℤ◌ ◌+ℤ◌ neg
slippage_values = (refl, refl, refl)

-- Three fills with three ticks each start the cooldown, and a signal passes when it is over.
third_slip :
    let r = fill_all fresh ((fill_at 300, 10) ∷ (fill_at 300, 20) ∷ (fill_at 300, 30) ∷ []) in
    (r.cooldown_start_ns ≡ 30)
    × (check_signal r quiet 40 ≡ false)
    × (check_signal r quiet 60_000_000_030 ≡ true)
unfolding fill_all on_fill check_signal slippage_ticks ◌-ℤ◌ ◌+ℤ◌ neg
third_slip = (refl, refl, refl)

timeout_fires :
    (on_timer (on_order_sent fresh blank_order 7) 5_000_000_006 ≡ none)
    × (on_timer (on_order_sent fresh blank_order 7) 5_000_000_007 ≡ some blank_order)
unfolding on_timer on_order_sent
timeout_fires = (refl, refl)

abbrev cooling : RiskManager Fixed
cooling = record fresh { cooldown_start_ns = 1000 }

abbrev blown : RiskManager Fixed
blown = record fresh { fused = true }

fused_until_reset_example :
    check_signal
      (risk_run blown (filled blank_order 5 ∷ timer 6 ∷ rejected blank_order ∷ []))
      quiet
      9
    ≡ false
fused_until_reset_example =
    fused_until_reset blown (filled blank_order 5 ∷ timer 6 ∷ rejected blank_order ∷ []) quiet 9
      refl (tt, (tt, (tt, tt)))

-- A fill 60 ticks away costs 60 dollars of the 50 that may be lost.
hard_abort_skips_fuse_example :
    (below_limit fresh (on_fill fresh (fill_at 6_000) 10).daily_pnl ≡ true)
    × (check_signal (on_fill fresh (fill_at 6_000) 10) quiet 60_000_000_010 ≡ true)
unfolding slippage_ticks slip_cost ◌-ℤ◌ ◌+ℤ◌ neg
hard_abort_skips_fuse_example =
    hard_abort_skips_fuse fresh (fill_at 6_000) 10 quiet 60_000_000_010 refl refl refl (omega arith)
      (omega arith)

cooldown_after_row_example :
    let before = fill_all fresh ((fill_at 300, 10) ∷ (fill_at 300, 20) ∷ []) in
    let after = on_fill before (fill_at 400) 30 in
    (before.consec_slip_count + 1 ≡ 3)
    × (before.cooldown_start_ns ≡ 0)
    × (after.cooldown_start_ns ≡ 30)
    × (after.consec_slip_count ≡ 0)
    × (check_signal after quiet 40 ≡ false)
unfolding slippage_ticks ◌-ℤ◌
cooldown_after_row_example =
    cooldown_after_row fresh ((fill_at 300, 10) ∷ (fill_at 300, 20) ∷ []) (fill_at 400) 30 3 quiet
      40 refl ((refl, refl), ((refl, refl), tt)) (refl, refl) refl (omega arith) (omega arith)
      (omega arith) (omega arith)
