-- ===== src/Oms/Single.antt =====
-- How many orders the trading thread of src/apps/engine/main.cpp can have open at a time in
-- src/oms/order_manager.cpp.
use smart_quant.Prelude.{
  ℕ, ◌≤◌, ◌≡◌, ◌≢◌, refl, ap, true, false, if◌then◌else◌, Option, none, some, List, [], ◌∷◌, All,
  length, arith, Bool-cases, Option-cases, inl, inr,
}
use smart_quant.Prelude.Double.{Double}
use smart_quant.Prelude.Map.Hash
use smart_quant.Prelude.Eq.{beq_refl}
use smart_quant.Prelude.Text.{Text, text_eq}
use smart_quant.Types.{Price, Qty, Side, Order, Signal}
use smart_quant.Risk.{check_signal, on_order_sent}
use smart_quant.Oms.{
  OrderManager, Delivery, delivered, session_not_found, clordid_of, on_logon, on_logout,
  next_clordid, enter_order, roll_back, send_order, send_ioc, cancel_order, cancel_found,
}
use smart_quant.Oms.Execution.{
  ExecType, AppMessage, execution_report, order_cancel_reject, other_message, or_else,
  on_open_report, on_report, on_fields, report_fill, report_end, on_fill_report,
  on_execution_report, on_cancel_reject, from_app,
}

-- What happens to the manager: the trading thread acts on a signal, if the risk manager lets it,
-- cancels an order, or the session comes, goes or reports.
pub data TradingInput (F : Type 0) : Type 0 where
  signal : Signal F → Side → Qty → Price → ℕ → Delivery → TradingInput F
  cancels : Text → Delivery → TradingInput F
  logs_on : Text → TradingInput F
  logs_out : TradingInput F
  message : AppMessage F → Option F → ℕ → TradingInput F

-- The only order is erased when its id is.
erase_only :
    (id : Text) (o o' : Order) (xs : List (Text × Order))
    → length xs ≤ 1
    → Hash.find id xs ≡ some o
    → Hash.erase id (Hash.insert id o' xs) ≡ []
unfolding Hash.find Hash.erase Hash.insert
erase_only id o o' [] l e = absurd (cc)
erase_only id o o' ((j, v) ∷ []) l e = elim (Bool-cases (text_eq.beq j id)) [
  | inl t ↦ rw (beq_refl id, t) refl
  | inr f ↦ let no : none ≡ some o = rw f at e in absurd (cc)
]
erase_only id o o' (x ∷ y ∷ xs) l e = absurd (omega arith)

erase-insert_nil :
    (id : Text) (o : Order) (xs : List (Text × Order))
    → xs ≡ []
    → (length (Hash.insert id o xs) ≤ 1) × (Hash.erase id (Hash.insert id o xs) ≡ [])
unfolding Hash.erase Hash.insert
erase-insert_nil id o [] e = (omega arith, rw (beq_refl id) refl)
erase-insert_nil id o (x ∷ xs) e = absurd (cc)

module _ {F : Type 0} ⦃d : Double F⦄ where
  unfoldable pub trading_step : OrderManager F → TradingInput F → OrderManager F
  unfolding check_signal send_ioc cancel_order on_logon on_logout from_app
  trading_step m (signal sig side qty l1 now_ns outcome) =
      if check_signal m.risk_mgr sig now_ns then (send_ioc m side qty l1 now_ns outcome).oms else m
  trading_step m (cancels id outcome) = (cancel_order m id outcome).0
  trading_step m (logs_on sid) = on_logon m sid
  trading_step m logs_out = on_logout m
  trading_step m (message msg unset_px now_ns) = (from_app m msg unset_px now_ns).oms

  unfoldable pub trading_run : OrderManager F → List (TradingInput F) → OrderManager F
  unfolding trading_step
  trading_run m [] = m
  trading_run m (c ∷ cs) = trading_run (trading_step m c) cs

  -- No message reports a partial fill.
  abbrev pub IsWhole : TradingInput F → Type 0
  IsWhole (message (execution_report msg) unset_px now_ns) =
      msg.exec_type ≢ some ExecType.partial_fill
  IsWhole _ = Unit {0}

  -- At most one order is open, and none unless the position is taken.
  pub record AtMostOne (m : OrderManager F) : Type 0 where
    pub few : length m.open_orders ≤ 1
    pub freed : m.risk_mgr.has_position ≡ false → m.open_orders ≡ []

  closed-AtMostOne : (m : OrderManager F) → m.open_orders ≡ [] → AtMostOne m
  closed-AtMostOne m e = record { few = rw e (omega arith); freed = λ _. e }

  send-AtMostOne :
      (m : OrderManager F) (side : Side) (qty : Qty) (l1 : Price) (ts_ns : ℕ) (outcome : Delivery)
      → m.open_orders ≡ []
      → AtMostOne (send_ioc m side qty l1 ts_ns outcome).oms
  unfolding send_ioc send_order enter_order next_clordid roll_back on_order_sent
  send-AtMostOne m side qty l1 ts_ns delivered e = elim (Bool-cases m.logged_on) [
    | inl t ↦ rw t (record {
      few = (erase-insert_nil (clordid_of m.order_seq) _ m.open_orders e).0;
      freed = λ f. absurd (cc);
    })
    | inr f ↦ rw f (closed-AtMostOne _ e)
  ]
  send-AtMostOne m side qty l1 ts_ns session_not_found e = elim (Bool-cases m.logged_on) [
    | inl t ↦
        rw t (closed-AtMostOne _ (erase-insert_nil (clordid_of m.order_seq) _ m.open_orders e).1)
    | inr f ↦ rw f (closed-AtMostOne _ e)
  ]

  admitted_free :
      (m : OrderManager F) (sig : Signal F) (now_ns : ℕ)
      → check_signal m.risk_mgr sig now_ns ≡ true
      → m.risk_mgr.has_position ≡ false
  unfolding check_signal
  admitted_free m sig now_ns h = ground arith

  cancel-AtMostOne :
      (m : OrderManager F) (id : Text) (found : Option Order) (outcome : Delivery)
      → AtMostOne m
      → AtMostOne (cancel_found m id found outcome).0
  unfolding cancel_found next_clordid
  cancel-AtMostOne m id none outcome v = v
  cancel-AtMostOne m id (some o) delivered v = record { few = v.few; freed = v.freed }
  cancel-AtMostOne m id (some o) session_not_found v = record { few = v.few; freed = v.freed }

  fill-AtMostOne :
      (m : OrderManager F) (id : Text) (o : Order) (px : Option F) (now_ns : ℕ)
      → AtMostOne m
      → Hash.find id m.open_orders ≡ some o
      → AtMostOne (on_fill_report m id o ExecType.fill px now_ns).oms
  unfolding on_fill_report report_fill
  fill-AtMostOne m id o none now_ns v e = v
  fill-AtMostOne m id o (some px) now_ns v e =
      closed-AtMostOne _ (erase_only id o _ m.open_orders v.few e)

  open_report-AtMostOne :
      (m : OrderManager F) (id : Text) (o : Order) (et : ExecType) (px unset_px : Option F)
      (now_ns : ℕ)
      → et ≢ ExecType.partial_fill
      → AtMostOne m
      → Hash.find id m.open_orders ≡ some o
      → AtMostOne (on_open_report m id o et px unset_px now_ns).oms
  unfolding on_open_report report_end
  open_report-AtMostOne m id o ExecType.fill px unset_px now_ns w v e =
      fill-AtMostOne m id o (or_else px unset_px) now_ns v e
  open_report-AtMostOne m id o ExecType.partial_fill px unset_px now_ns w v e = absurd (w refl)
  open_report-AtMostOne m id o ExecType.rejected px unset_px now_ns w v e =
      closed-AtMostOne _ (erase_only id o _ m.open_orders v.few e)
  open_report-AtMostOne m id o ExecType.expired px unset_px now_ns w v e =
      closed-AtMostOne _ (erase_only id o _ m.open_orders v.few e)
  open_report-AtMostOne m id o ExecType.canceled px unset_px now_ns w v e = v
  open_report-AtMostOne m id o ExecType.other px unset_px now_ns w v e = v

  fields-AtMostOne :
      (m : OrderManager F) (id : Option Text) (et : Option ExecType) (px unset_px : Option F)
      (now_ns : ℕ)
      → et ≢ some ExecType.partial_fill
      → AtMostOne m
      → AtMostOne (on_fields m id et px unset_px now_ns).oms
  unfolding on_fields on_report
  fields-AtMostOne m none et px unset_px now_ns w v = v
  fields-AtMostOne m (some id) none px unset_px now_ns w v = v
  fields-AtMostOne m (some id) (some et) px unset_px now_ns w v =
      elim (Option-cases (Hash.find id m.open_orders)) [
        | inl e ↦ rw e v
        | inr (o, e) ↦
            rw e (open_report-AtMostOne m id o et px unset_px now_ns (λ p. w (ap some p)) v e)
      ]

  trading_step-AtMostOne :
      (m : OrderManager F) (c : TradingInput F)
      → IsWhole c
      → AtMostOne m
      → AtMostOne (trading_step m c)
  unfolding trading_step cancel_order on_logon on_logout from_app on_execution_report
      on_cancel_reject
  trading_step-AtMostOne m (signal sig side qty l1 now_ns outcome) w v =
      elim (Bool-cases (check_signal m.risk_mgr sig now_ns)) [
        | inl t ↦
            rw t
              (send-AtMostOne m side qty l1 now_ns outcome (v.freed (admitted_free m sig now_ns t)))
        | inr f ↦ rw f v
      ]
  trading_step-AtMostOne m (cancels id outcome) w v =
      cancel-AtMostOne m id (Hash.find id m.open_orders) outcome v
  trading_step-AtMostOne m (logs_on sid) w v = record { few = v.few; freed = v.freed }
  trading_step-AtMostOne m logs_out w v = record { few = v.few; freed = v.freed }
  trading_step-AtMostOne m (message (execution_report msg) unset_px now_ns) w v =
      fields-AtMostOne m msg.clordid msg.exec_type msg.last_px unset_px now_ns w v
  trading_step-AtMostOne m (message (order_cancel_reject none) unset_px now_ns) w v = v
  trading_step-AtMostOne m (message (order_cancel_reject (some id)) unset_px now_ns) w v = v
  trading_step-AtMostOne m (message other_message unset_px now_ns) w v = v

  -- As long as no partial fill is reported, no position times out and the day is not reset, signals,
  -- cancellations, reports and failed sends in any order never leave more than one order open.
  pub trading_run-AtMostOne :
      (m : OrderManager F) (cs : List (TradingInput F))
      → All IsWhole cs
      → AtMostOne m
      → AtMostOne (trading_run m cs)
  unfolding trading_run
  trading_run-AtMostOne m [] w v = v
  trading_run-AtMostOne m (c ∷ cs) (w, ws) v =
      trading_run-AtMostOne (trading_step m c) cs ws (trading_step-AtMostOne m c w v)
