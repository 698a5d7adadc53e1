-- ===== src/Oms/Reports.antt =====
-- What an execution report does to the open orders of src/oms/order_manager.cpp.
use smart_quant.Prelude.{
  ℕ, ◌≡◌, ◌≢◌, refl, ap, ◌∙◌, true, false, Option, none, some, [], arith, ◌⊎◌, inl, inr, ◌+◌, ◌≤◌,
}
use smart_quant.Prelude.Word.{IsWord, add_64}
use smart_quant.Prelude.Double.{Double}
use smart_quant.Prelude.Map.Hash
use smart_quant.Prelude.Text.{Text, text_eq}
use smart_quant.Types.{Price, Qty, Side, Order, OrderStatus, Signal}
use smart_quant.Risk.{RiskManager, check_signal, on_timer, on_order_sent}
use smart_quant.Risk.Gate.{timer_fires}
use smart_quant.Oms.Open.{WellFormed}
use smart_quant.Oms.Send.{send_ioc_delivered}
use smart_quant.Risk.Fuse.{on_fill-fused}
use smart_quant.Oms.{OrderManager, delivered, sent_order, send_ioc}
use smart_quant.Oms.Execution.{
  ExecType, ExecutionReport, or_else, filled_order, report_fill, report_end, on_fill_report, Ending,
  on_open_report, on_report, on_fields, on_execution_report,
}

-- The reports after which an order is over.
abbrev pub IsFinal : ExecType → Type 0
IsFinal ExecType.partial_fill = ⊥
IsFinal ExecType.canceled = ⊥
IsFinal ExecType.other = ⊥
IsFinal _ = Unit {0}

module _ {F : Type 0} ⦃d : Double F⦄ where
  abbrev pub report : Text → ExecType → Option F → ExecutionReport F
  report id et last_px = record { clordid = some id; exec_type = some et; last_px = last_px }

  known_report :
      (m : OrderManager F) (id : Text) (o : Order) (et : ExecType) (last_px unset_px : Option F)
      (now_ns : ℕ)
      → Hash.find id m.open_orders ≡ some o
      → on_execution_report m (report id et last_px) unset_px now_ns
        ≡ on_open_report m id o et last_px unset_px now_ns
  unfolding on_execution_report on_fields on_report
  known_report m id o et last_px unset_px now_ns e = rw e refl

  unknown_report :
      (m : OrderManager F) (id : Text) (et : ExecType) (last_px unset_px : Option F) (now_ns : ℕ)
      → Hash.find id m.open_orders ≡ none
      → let h = on_execution_report m (report id et last_px) unset_px now_ns in
        (h.oms ≡ m) × (h.calls ≡ [])
  unfolding on_execution_report on_fields on_report
  unknown_report m id et last_px unset_px now_ns e = rw e (refl, refl)

  -- The report ends the order: a fill only if a price can be read.
  abbrev pub Ends : ExecType → Option F → Type 0
  Ends ExecType.fill none = ⊥
  Ends et price = IsFinal et

  final_cases :
      (et : ExecType) (price : Option F)
      → IsFinal et
      → Ends et price ⊎ ((et ≡ ExecType.fill) × (price ≡ none))
  final_cases ExecType.fill none i = inr (refl, refl)
  final_cases ExecType.fill (some px) i = inl tt
  final_cases ExecType.partial_fill price i = absurd i
  final_cases ExecType.rejected price i = inl tt
  final_cases ExecType.expired price i = inl tt
  final_cases ExecType.canceled price i = absurd i
  final_cases ExecType.other price i = absurd i

  filled_orders :
      (m : OrderManager F) (id : Text) (o : Order) (price : Option F) (now_ns : ℕ)
      → Ends ExecType.fill price
      → let m' = (on_fill_report m id o ExecType.fill price now_ns).oms in
        ((o' : Order) × (m'.open_orders ≡ Hash.erase id (Hash.insert id o' m.open_orders)))
        × (m'.risk_mgr.has_position ≡ false)
  unfolding on_fill_report report_fill
  filled_orders m id o none now_ns i = absurd i
  filled_orders m id o (some px) now_ns i =
      ((_, refl), (on_fill-fused m.risk_mgr (filled_order o px now_ns OrderStatus.filled) now_ns).2)

  -- What a final report leaves of the map.
  final_orders :
      (m : OrderManager F) (id : Text) (o : Order) (et : ExecType) (last_px unset_px : Option F)
      (now_ns : ℕ)
      → Ends et (or_else last_px unset_px)
      → let m' = (on_open_report m id o et last_px unset_px now_ns).oms in
        ((o' : Order) × (m'.open_orders ≡ Hash.erase id (Hash.insert id o' m.open_orders)))
        × (m'.risk_mgr.has_position ≡ false)
  unfolding on_open_report report_end
  final_orders m id o ExecType.fill last_px unset_px now_ns i =
      filled_orders m id o (or_else last_px unset_px) now_ns i
  final_orders m id o ExecType.partial_fill last_px unset_px now_ns i = absurd i
  final_orders m id o ExecType.rejected last_px unset_px now_ns i = ((_, refl), refl)
  final_orders m id o ExecType.expired last_px unset_px now_ns i = ((_, refl), refl)
  final_orders m id o ExecType.canceled last_px unset_px now_ns i = absurd i
  final_orders m id o ExecType.other last_px unset_px now_ns i = absurd i

  -- The order is closed and no other, the position is free, and what is reported of it next does
  -- nothing.
  abbrev pub Closed :
      OrderManager F → OrderManager F → Text → ExecutionReport F → Option F → ℕ → Type 0
  Closed m m' id next unset_px now_ns =
      (Hash.find id m'.open_orders ≡ none)
      × ((j : Text) → id ≢ j → Hash.find j m'.open_orders ≡ Hash.find j m.open_orders)
      × (m'.risk_mgr.has_position ≡ false)
      × ((on_execution_report m' next unset_px now_ns).oms ≡ m')
      × ((on_execution_report m' next unset_px now_ns).calls ≡ [])

  final-Closed :
      (m : OrderManager F) (id : Text) (o : Order) (et : ExecType) (last_px unset_px : Option F)
      (now_ns : ℕ) (et' : ExecType) (last_px' : Option F) (now_ns' : ℕ)
      → Ends et (or_else last_px unset_px)
      → Closed m
          (on_open_report m id o et last_px unset_px now_ns).oms
          id
          (report id et' last_px')
          unset_px
          now_ns'
  final-Closed m id o et last_px unset_px now_ns et' last_px' now_ns' i =
      let ((o', left), slot) = final_orders m id o et last_px unset_px now_ns i in
      let gone : Hash.find id (on_open_report m id o et last_px unset_px now_ns).oms.open_orders
          ≡ none =
        rw left (Hash.find-erase_self id (Hash.insert id o' m.open_orders)) in
      let others : (j : Text)
          → id ≢ j
          → Hash.find j (on_open_report m id o et last_px unset_px now_ns).oms.open_orders
            ≡ Hash.find j m.open_orders =
        λ j ne. rw left (
          Hash.find-erase_ne id j (Hash.insert id o' m.open_orders) ne
          ∙ Hash.find-insert_ne id j o' m.open_orders ne) in
      let ignored =
        unknown_report (on_open_report m id o et last_px unset_px now_ns).oms id et' last_px'
          unset_px now_ns' gone in
      (gone, others, slot, ignored.0, ignored.1)

  unpriced_fill :
      (m : OrderManager F) (id : Text) (o : Order) (last_px unset_px : Option F) (now_ns : ℕ)
      → or_else last_px unset_px ≡ none
      → let h = on_open_report m id o ExecType.fill last_px unset_px now_ns in
        (h.oms ≡ m) × (h.calls ≡ []) × (h.ending ≡ Ending.escaped)
  unfolding on_open_report on_fill_report
  unpriced_fill m id o last_px unset_px now_ns e = rw e (refl, refl, refl)

  -- A rejection or an expiry of an open order, with or without a price, and a fill whose price can be
  -- read, closes that order and no other and lets the next signal pass the position test; the same
  -- report, or any other on the order, then changes nothing. A fill without a price, if reading the
  -- unset field throws, is the one other case: the exception escapes, no callback is called, and the
  -- order stays open as it was.
  pub final_report :
      (m : OrderManager F) (id : Text) (o : Order) (et : ExecType) (last_px unset_px : Option F)
      (now_ns : ℕ) (et' : ExecType) (last_px' : Option F) (now_ns' : ℕ)
      → Hash.find id m.open_orders ≡ some o
      → IsFinal et
      → let price = or_else last_px unset_px in
        let h = on_execution_report m (report id et last_px) unset_px now_ns in
        (Ends et price × Closed m h.oms id (report id et' last_px') unset_px now_ns')
        ⊎ ((et ≡ ExecType.fill)
            × (price ≡ none)
            × (h.oms ≡ m)
            × (h.calls ≡ [])
            × (h.ending ≡ Ending.escaped))
  final_report m id o et last_px unset_px now_ns et' last_px' now_ns' found i =
      rw (known_report m id o et last_px unset_px now_ns found)
        (elim (final_cases et (or_else last_px unset_px) i) [
          | inl ends ↦
              inl (ends, final-Closed m id o et last_px unset_px now_ns et' last_px' now_ns' ends)
          | inr (filled, unpriced) ↦
              (let (same, silent, out) = unpriced_fill m id o last_px unset_px now_ns unpriced in
                rw filled (inr (refl, unpriced, same, silent, out)))
        ])

  partial_report :
      (m : OrderManager F) (id : Text) (o : Order) (px : F) (unset_px : Option F) (now_ns : ℕ)
      → let m' = (on_open_report m id o ExecType.partial_fill (some px) unset_px now_ns).oms in
        (Hash.find id m'.open_orders ≡ some (filled_order o px now_ns OrderStatus.pending))
        × (m'.risk_mgr.has_position ≡ false)
        × (m'.risk_mgr.total_trades ≡ add_64 m.risk_mgr.total_trades 1)
  unfolding on_open_report on_fill_report report_fill
  partial_report m id o px unset_px now_ns =
      let part = filled_order o px now_ns OrderStatus.pending in
      let filled = on_fill-fused m.risk_mgr part part.fill_ts_ns in
      (Hash.find-insert_self id part m.open_orders, filled.2, filled.1)

  fill_report_trades :
      (m : OrderManager F) (id : Text) (o : Order) (px : F) (unset_px : Option F) (now_ns : ℕ)
      → (on_open_report m id o ExecType.fill (some px) unset_px now_ns).oms.risk_mgr.total_trades
        ≡ add_64 m.risk_mgr.total_trades 1
  unfolding on_open_report on_fill_report report_fill
  fill_report_trades m id o px unset_px now_ns =
      let whole = filled_order o px now_ns OrderStatus.filled in
      (on_fill-fused m.risk_mgr whole whole.fill_ts_ns).1

  -- A partial fill gives up the position while the order is still open, so the position test no
  -- longer holds back a second order; and the fill that ends the same order is counted as a second
  -- trade.
  pub partial_fill_frees_slot :
      (m : OrderManager F) (id : Text) (o : Order) (px px' : F) (unset_px : Option F)
      (now_ns now_ns' : ℕ)
      → Hash.find id m.open_orders ≡ some o
      → let part =
          (on_execution_report m (report id ExecType.partial_fill (some px)) unset_px now_ns).oms in
        let whole =
          (on_execution_report part (report id ExecType.fill (some px')) unset_px now_ns').oms in
        (Hash.find id part.open_orders ≡ some (filled_order o px now_ns OrderStatus.pending))
        × (part.risk_mgr.has_position ≡ false)
        × (whole.risk_mgr.total_trades ≡ add_64 (add_64 m.risk_mgr.total_trades 1) 1)
  partial_fill_frees_slot m id o px px' unset_px now_ns now_ns' found =
      let part = (on_open_report m id o ExecType.partial_fill (some px) unset_px now_ns).oms in
      let (still, free, counted) = partial_report m id o px unset_px now_ns in
      rw (known_report m id o ExecType.partial_fill (some px) unset_px now_ns found) (
        still,
        free,
        rw (known_report part id _ ExecType.fill (some px') unset_px now_ns' still)
            (fill_report_trades part id _ px' unset_px now_ns' ∙ ap (λ n. add_64 n 1) counted),
      )

  closed_gate :
      (r : RiskManager F) (sig : Signal F) (now_ns : ℕ)
      → r.has_position ≡ true
      → check_signal r sig now_ns ≡ false
  unfolding check_signal
  closed_gate r sig now_ns taken = ground arith

  -- After a send on a session that is logged on and that got through, a report that the order was
  -- cancelled, the usual end of an IOC order that finds no counterparty, changes nothing and calls
  -- no callback: the order stays open, no signal passes at any time, and once the timeout is over
  -- the timer still names the order to be closed.
  pub canceled_report :
      (m : OrderManager F) (side : Side) (qty : Qty) (l1 : Price) (ts_ns : ℕ)
      (last_px unset_px : Option F) (now_ns : ℕ) (sig : Signal F) (any_ns later_ns : ℕ)
      → WellFormed m
      → m.logged_on ≡ true
      → ts_ns + m.risk_mgr.cfg.position_timeout_ns ≤ later_ns
      → IsWord later_ns
      → let s = send_ioc m side qty l1 ts_ns delivered in
        let o = sent_order s.clordid side qty l1 ts_ns in
        let h =
          on_execution_report s.oms (report s.clordid ExecType.canceled last_px) unset_px now_ns in
        (h.oms ≡ s.oms)
        × (h.calls ≡ [])
        × (h.ending ≡ Ending.returned)
        × (Hash.find s.clordid h.oms.open_orders ≡ some o)
        × (check_signal h.oms.risk_mgr sig any_ns ≡ false)
        × (on_timer h.oms.risk_mgr later_ns ≡ some o)
  unfolding on_open_report on_order_sent
  canceled_report m side qty l1 ts_ns last_px unset_px now_ns sig any_ns later_ns w up late word =
      let s = send_ioc m side qty l1 ts_ns delivered in
      let o = sent_order s.clordid side qty l1 ts_ns in
      let (fresh, entered, others, sent, risk) = send_ioc_delivered m side qty l1 ts_ns w up in
      rw (known_report s.oms s.clordid o ExecType.canceled last_px unset_px now_ns entered) (
        refl,
        refl,
        refl,
        entered,
        closed_gate _ sig any_ns (ap (λ r. r.has_position) risk),
        rw risk (timer_fires (on_order_sent m.risk_mgr o ts_ns) later_ns refl late word),
      )
