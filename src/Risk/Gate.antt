-- ===== src/Risk/Gate.antt =====
-- When src/risk/risk_manager.cpp lets a signal through.
use smart_quant.Prelude.{
  ℕ, ◌+◌, ◌-◌, ◌≤◌, ◌<◌, ◌^◌, ◌≡◌, refl, true, false, List, [], ◌∷◌, arith, ◌↔◌, ◌⊎◌, All,
}
use smart_quant.Prelude.Word.{IsWord, sub_64_of_le, sub_64_of_lt}
use smart_quant.Prelude.{some, leb}
use smart_quant.Prelude.Double.{Double}
use smart_quant.Types.{Order, Signal}
use smart_quant.Risk.{
  RiskManager, RiskCall, order_sent, filled, rejected, timer, daily_reset, check_signal, on_fill,
  on_order_sent, on_timer, risk_step, risk_run,
}

module _ {F : Type 0} where
  -- Away from the wrap-around of the clock, a signal passes exactly if the fuse is whole, no order
  -- is outstanding, and there was no cooldown or its duration is over.
  pub check_signal_iff :
      (r : RiskManager F) (sig : Signal F) (now_ns : ℕ)
      → r.cooldown_start_ns ≤ now_ns
      → IsWord now_ns
      → (check_signal r sig now_ns ≡ true) ↔ (
          (r.fused ≡ false)
          × (r.has_position ≡ false)
          × ((r.cooldown_start_ns ≡ 0)
              ⊎ (r.cooldown_start_ns + r.cfg.cooldown_duration_ns ≤ now_ns)))
  unfolding check_signal
  check_signal_iff r sig now_ns le w = ground (arith, sub_64_of_le now_ns r.cooldown_start_ns)

  -- A clock reading from just before the cooldown began is taken for one long after it: the
  -- difference wraps, and the cooldown does not hold the signal back.
  pub check_signal_early_clock :
      (r : RiskManager F) (sig : Signal F) (now_ns : ℕ)
      → r.fused ≡ false
      → r.has_position ≡ false
      → now_ns < r.cooldown_start_ns
      → IsWord r.cooldown_start_ns
      → r.cooldown_start_ns - now_ns + r.cfg.cooldown_duration_ns ≤ 2 ^ 64
      → check_signal r sig now_ns ≡ true
  unfolding check_signal
  check_signal_early_clock r sig now_ns f p lt w small =
      ground (arith, sub_64_of_lt now_ns r.cooldown_start_ns)

-- A call that is no daily reset.
abbrev pub IsIntraday : RiskCall → Type 0
IsIntraday daily_reset = ⊥
IsIntraday _ = Unit {0}

-- A call that leaves an outstanding order outstanding.
abbrev pub IsUnsettled : RiskCall → Type 0
IsUnsettled (order_sent o now_ns) = Unit {0}
IsUnsettled (timer now_ns) = Unit {0}
IsUnsettled _ = ⊥

module _ {F : Type 0} ⦃d : Double F⦄ where
  fused-on_fill :
      (r : RiskManager F) (o : Order) (now_ns : ℕ)
      → r.fused ≡ true
      → (on_fill r o now_ns).fused ≡ true
  unfolding on_fill
  fused-on_fill r o now_ns h = ground arith

  fused-risk_step :
      (r : RiskManager F) (c : RiskCall)
      → IsIntraday c
      → r.fused ≡ true
      → (risk_step r c).fused ≡ true
  unfolding risk_step
  fused-risk_step r (order_sent o now_ns) i h = h
  fused-risk_step r (filled o now_ns) i h = fused-on_fill r o now_ns h
  fused-risk_step r (rejected o) i h = h
  fused-risk_step r (timer now_ns) i h = h
  fused-risk_step r daily_reset i h = absurd i

  fused-risk_run :
      (r : RiskManager F) (cs : List RiskCall)
      → All IsIntraday cs
      → r.fused ≡ true
      → (risk_run r cs).fused ≡ true
  unfolding risk_run
  fused-risk_run r [] i h = h
  fused-risk_run r (c ∷ cs) (i, is) h =
      fused-risk_run (risk_step r c) cs is (fused-risk_step r c i h)

  -- Once the fuse is blown, no signal passes at any time, whatever calls are made, until the daily
  -- reset.
  pub fused_until_reset :
      (r : RiskManager F) (cs : List RiskCall) (sig : Signal F) (now_ns : ℕ)
      → r.fused ≡ true
      → All IsIntraday cs
      → check_signal (risk_run r cs) sig now_ns ≡ false
  unfolding check_signal
  fused_until_reset r cs sig now_ns h is = rw (fused-risk_run r cs is h) refl

  position-risk_step :
      (r : RiskManager F) (c : RiskCall)
      → IsUnsettled c
      → r.has_position ≡ true
      → (risk_step r c).has_position ≡ true
  unfolding risk_step
  position-risk_step r (order_sent o now_ns) u h = refl
  position-risk_step r (filled o now_ns) u h = absurd u
  position-risk_step r (rejected o) u h = absurd u
  position-risk_step r (timer now_ns) u h = h
  position-risk_step r daily_reset u h = absurd u

  position-risk_run :
      (r : RiskManager F) (cs : List RiskCall)
      → All IsUnsettled cs
      → r.has_position ≡ true
      → (risk_run r cs).has_position ≡ true
  unfolding risk_run
  position-risk_run r [] u h = h
  position-risk_run r (c ∷ cs) (u, us) h =
      position-risk_run (risk_step r c) cs us (position-risk_step r c u h)

  -- After an order is sent no signal passes until a fill, a rejection or the daily reset is
  -- reported.
  one_order_at_a_time :
      (r : RiskManager F) (o : Order) (sent_ns : ℕ) (cs : List RiskCall) (sig : Signal F)
      (now_ns : ℕ)
      → All IsUnsettled cs
      → check_signal (risk_run r (order_sent o sent_ns ∷ cs)) sig now_ns ≡ false
  unfolding check_signal risk_run
  one_order_at_a_time r o sent_ns cs sig now_ns us =
      rw (position-risk_run (on_order_sent r o sent_ns) cs us refl) (ground arith)

module _ {F : Type 0} where
  -- The timer names the order once it has been out for the timeout.
  pub timer_fires :
      (r : RiskManager F) (now_ns : ℕ)
      → r.has_position ≡ true
      → r.position_open_ns + r.cfg.position_timeout_ns ≤ now_ns
      → IsWord now_ns
      → on_timer r now_ns ≡ some r.open_order
  unfolding on_timer
  timer_fires r now_ns held late w =
      rw held (rw (sub_64_of_le now_ns r.position_open_ns (omega arith) w) (rw due refl))
    where
      due : leb r.cfg.position_timeout_ns (now_ns - r.position_open_ns) ≡ true
      due = ground arith
