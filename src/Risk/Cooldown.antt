-- ===== src/Risk/Cooldown.antt =====
-- The cooldown of src/risk/risk_manager.cpp after fills with too much slippage.
use smart_quant.Prelude.{
  ℕ, ◌+◌, ◌≤◌, ◌<◌, ◌≡◌, refl, true, false, List, [], ◌∷◌, arith, ap, ◌∙◌, inl, inr, Bool-cases,
  All, length,
}
use smart_quant.Prelude.Int.{pos}
use smart_quant.Prelude.Word.{IsWord}
use smart_quant.Prelude.Double.{Double}
use smart_quant.Types.{Order, Signal}
use smart_quant.Risk.{RiskManager, Config, check_signal, on_fill, slippage_ticks}
use smart_quant.Risk.Gate.{check_signal_iff}

module _ {F : Type 0} ⦃d : Double F⦄ where
  -- Slippage above the limit for a trade in a row, and not above the one for a single trade.
  abbrev pub Slips : Config F → Order × ℕ → Type 0
  Slips cfg x =
      (d.lt cfg.cooldown_slip_ticks (slippage_ticks x.0) ≡ true)
      × (d.lt cfg.single_slip_abort_ticks (slippage_ticks x.0) ≡ false)

  -- Fills, each with the time of its report.
  unfoldable pub fill_all : RiskManager F → List (Order × ℕ) → RiskManager F
  fill_all r [] = r
  fill_all r ((o, now_ns) ∷ fs) = fill_all (on_fill r o now_ns) fs

  cfg-on_fill : (r : RiskManager F) (o : Order) (now_ns : ℕ) → (on_fill r o now_ns).cfg ≡ r.cfg
  unfolding on_fill
  cfg-on_fill r o now_ns = ground arith

  slip-on_fill :
      (r : RiskManager F) (o : Order) (now_ns k : ℕ)
      → r.cfg.cooldown_consec_slips ≡ pos k
      → Slips r.cfg (o, now_ns)
      → (r.consec_slip_count + 1 < k
          → ((on_fill r o now_ns).consec_slip_count ≡ r.consec_slip_count + 1)
            × ((on_fill r o now_ns).cooldown_start_ns ≡ r.cooldown_start_ns))
        × (k ≤ r.consec_slip_count + 1
            → ((on_fill r o now_ns).consec_slip_count ≡ 0)
              × ((on_fill r o now_ns).cooldown_start_ns ≡ now_ns))
  unfolding on_fill
  slip-on_fill r o now_ns k e (s, a) = ground arith

  -- Fills that all slip, too few to complete the row.
  short_row :
      (r : RiskManager F) (fs : List (Order × ℕ)) (k : ℕ)
      → r.cfg.cooldown_consec_slips ≡ pos k
      → All (Slips r.cfg) fs
      → r.consec_slip_count + length fs < k
      → ((fill_all r fs).consec_slip_count ≡ r.consec_slip_count + length fs)
        × ((fill_all r fs).cooldown_start_ns ≡ r.cooldown_start_ns)
        × ((fill_all r fs).cfg ≡ r.cfg)
  unfolding fill_all
  short_row r [] k e ss lt = (omega arith, refl, refl)
  short_row r ((o, now_ns) ∷ fs) k e (s, ss) lt =
      let same = cfg-on_fill r o now_ns in
      let step = (slip-on_fill r o now_ns k e s).0 (omega arith) in
      let rest =
        short_row (on_fill r o now_ns) fs k (rw same e) (rw same ss) (omega (arith, step.0)) in
      (omega (arith, rest.0, step.0), rest.1 ∙ step.1, rest.2 ∙ same)

  -- Fills that slip in a row: while they are too few to complete the row, they are counted and leave
  -- the cooldown alone; the fill that completes it starts the cooldown at its own time, starts a new
  -- row, and no signal passes before the cooldown's duration is over. The time 0 is not covered: the
  -- code reads it as no cooldown.
  pub cooldown_after_row :
      (r : RiskManager F) (fs : List (Order × ℕ)) (o : Order) (fill_ns k : ℕ) (sig : Signal F)
      (now_ns : ℕ)
      → r.cfg.cooldown_consec_slips ≡ pos k
      → All (Slips r.cfg) fs
      → Slips r.cfg (o, fill_ns)
      → r.consec_slip_count + length fs + 1 ≡ k
      → 0 < fill_ns
      → fill_ns ≤ now_ns
      → IsWord now_ns
      → now_ns < fill_ns + r.cfg.cooldown_duration_ns
      → let before = fill_all r fs in
        let after = on_fill before o fill_ns in
        (before.consec_slip_count + 1 ≡ k)
        × (before.cooldown_start_ns ≡ r.cooldown_start_ns)
        × (after.cooldown_start_ns ≡ fill_ns)
        × (after.consec_slip_count ≡ 0)
        × (check_signal after sig now_ns ≡ false)
  cooldown_after_row r fs o fill_ns k sig now_ns e ss s full started le w early =
      (omega (arith, row.0), row.1, last.1, last.0, blocked)
    where
      before : RiskManager F
      before = fill_all r fs

      after : RiskManager F
      after = on_fill before o fill_ns

      row :
          (before.consec_slip_count ≡ r.consec_slip_count + length fs)
          × (before.cooldown_start_ns ≡ r.cooldown_start_ns)
          × (before.cfg ≡ r.cfg)
      row = short_row r fs k e ss (omega arith)

      last : (after.consec_slip_count ≡ 0) × (after.cooldown_start_ns ≡ fill_ns)
      last = (slip-on_fill before o fill_ns k (rw row.2 e) (rw row.2 s)).1 (omega (arith, row.0))

      kept : after.cfg ≡ r.cfg
      kept = cfg-on_fill before o fill_ns ∙ row.2

      blocked : check_signal after sig now_ns ≡ false
      blocked = elim (Bool-cases (check_signal after sig now_ns)) [
        | inl t ↦
            let held = (check_signal_iff after sig now_ns (omega (arith, last.1)) w).0 t in
            absurd (elim held.2 [
              | inl z ↦ omega (arith, last.1)
              | inr over ↦
                  let dur : after.cfg.cooldown_duration_ns ≡ r.cfg.cooldown_duration_ns =
                    ap (λ c. c.cooldown_duration_ns) kept in
                  omega (arith, last.1)
            ])
        | inr f ↦ f
      ]
