-- ===== src/Risk/Fuse.antt =====
-- The daily loss fuse of src/risk/risk_manager.cpp.
use smart_quant.Prelude.{
  ℕ, suc, ◌+◌, ◌≤◌, ◌≡◌, refl, Bool, true, false, not, ◌||◌, ◌&&◌, List, [], ◌∷◌, arith, inr, All,
}
use smart_quant.Prelude.Word.{IsWord, add_64}
use smart_quant.Prelude.Double.{Double}
use smart_quant.Types.{Order, Signal}
use smart_quant.Risk.{
  RiskManager, RiskCall, order_sent, filled, rejected, timer, daily_reset, check_signal, on_fill,
  book_fill, slippage_ticks, slip_cost, risk_step, risk_run,
}
use smart_quant.Risk.Gate.{check_signal_iff, IsIntraday}

module _ {F : Type 0} ⦃d : Double F⦄ where
  -- The profit after a fill, and whether it is below the limit.
  abbrev pub pnl_after : RiskManager F → Order → F
  pnl_after r o = d.add r.daily_pnl (slip_cost r.cfg o)

  abbrev pub below_limit : RiskManager F → F → Bool
  below_limit r pnl = d.lt pnl (d.neg r.cfg.max_daily_loss_usd)

  abbrev pub aborts : RiskManager F → Order → Bool
  aborts r o = d.lt r.cfg.single_slip_abort_ticks (slippage_ticks o)

  -- A fill always books its slippage cost, counts the trade and frees the slot; it blows the fuse
  -- exactly if the profit falls below the limit and the fill's own slippage is not above the limit
  -- for a single trade.
  pub on_fill-fused :
      (r : RiskManager F) (o : Order) (now_ns : ℕ)
      → let r' = on_fill r o now_ns in
        (r'.daily_pnl ≡ pnl_after r o)
        × (r'.total_trades ≡ add_64 r.total_trades 1)
        × (r'.has_position ≡ false)
        × (r'.fused ≡ (r.fused || (not (aborts r o) && below_limit r (pnl_after r o))))
  unfolding on_fill
  on_fill-fused r o now_ns = ground arith

  on_fill_abort :
      (r : RiskManager F) (o : Order) (now_ns : ℕ)
      → aborts r o ≡ true
      → on_fill r o now_ns
        ≡ record (book_fill r o) { cooldown_start_ns = now_ns; consec_slip_count = 0 }
  unfolding on_fill
  on_fill_abort r o now_ns big = rw big refl

  -- The loss that matters most goes unnoticed: a fill whose slippage is above the single-trade limit
  -- does not blow the fuse, however far the profit falls below the daily limit, and once its
  -- cooldown is over the next signal passes.
  pub hard_abort_skips_fuse :
      (r : RiskManager F) (o : Order) (fill_ns : ℕ) (sig : Signal F) (now_ns : ℕ)
      → r.fused ≡ false
      → aborts r o ≡ true
      → below_limit r (pnl_after r o) ≡ true
      → fill_ns + r.cfg.cooldown_duration_ns ≤ now_ns
      → IsWord now_ns
      → (below_limit r (on_fill r o fill_ns).daily_pnl ≡ true)
        × (check_signal (on_fill r o fill_ns) sig now_ns ≡ true)
  unfolding book_fill
  hard_abort_skips_fuse r o fill_ns sig now_ns whole big lost later w =
      rw (on_fill_abort r o fill_ns big)
        (lost, (check_signal_iff _ sig now_ns (omega arith) w).1 (whole, refl, inr later))

-- The fills that a list of calls reports.
abbrev pub fills : List RiskCall → ℕ
fills [] = 0
fills (filled o now_ns ∷ cs) = suc (fills cs)
fills (_ ∷ cs) = fills cs

module _ {F : Type 0} ⦃d : Double F⦄ where
  -- Between two daily resets the trade counter grows by the number of fills, modulo 2 ^ 64.
  pub total_trades-risk_run :
      (r : RiskManager F) (cs : List RiskCall)
      → IsWord r.total_trades
      → All IsIntraday cs
      → (risk_run r cs).total_trades ≡ add_64 r.total_trades (fills cs)
  unfolding risk_run
  total_trades-risk_run r [] w is = omega arith
  total_trades-risk_run r (order_sent o now_ns ∷ cs) w (i, is) =
      total_trades-risk_run (risk_step r (order_sent o now_ns)) cs w is
  total_trades-risk_run r (filled o now_ns ∷ cs) w (i, is) = omega (
    arith,
    total_trades-risk_run (risk_step r (filled o now_ns)) cs
        (rw (on_fill-fused r o now_ns).1 (omega arith)) is,
    (on_fill-fused r o now_ns).1,
  )
  total_trades-risk_run r (rejected o ∷ cs) w (i, is) =
      total_trades-risk_run (risk_step r (rejected o)) cs w is
  total_trades-risk_run r (timer now_ns ∷ cs) w (i, is) = total_trades-risk_run r cs w is
  total_trades-risk_run r (daily_reset ∷ cs) w (i, is) = absurd i
