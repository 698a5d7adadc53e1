-- ===== src/Oms/Execution.antt =====
-- The reports that come back to src/oms/order_manager.cpp: fills, rejections, ends of orders, and
-- the dispatch of a message from the trading session.
use smart_quant.Prelude.{ℕ, Bool, if◌then◌else◌, Option, none, some, List, [], ◌∷◌}
use smart_quant.Prelude.Double.{Double}
use smart_quant.Prelude.Map.Hash
use smart_quant.Prelude.Text.{Text, text_eq}
use smart_quant.Types.{OrderStatus, Order, to_price}
use smart_quant.Risk.{on_fill, on_reject}
use smart_quant.Oms.{OrderManager}

pub data OmsCall : Type 0 where
  fill_call reject_call : Order → OmsCall

pub data ExecType : Type 0 where
  partial_fill fill rejected expired canceled other : ExecType

-- A field that is not set is `none`.
pub record ExecutionReport (F : Type 0) : Type 0 where
  pub clordid : Option Text
  pub exec_type : Option ExecType
  pub last_px : Option F

pub data AppMessage (F : Type 0) : Type 0 where
  execution_report : ExecutionReport F → AppMessage F
  order_cancel_reject : Option Text → AppMessage F
  other_message : AppMessage F

abbrev pub calls_if : Bool → OmsCall → List OmsCall
calls_if b call = if b then call ∷ [] else []

module _ {F : Type 0} ⦃d : Double F⦄ where
  -- The entry after a fill; it stays in the map, by reference.
  unfoldable pub filled_order : Order → F → ℕ → OrderStatus → Order
  filled_order o px now_ns status = record o {
    fill_price = to_price px;
    fill_ts_ns = now_ns;
    status = status;
  }

  -- Both kinds of fill, up to the erasure.
  unfoldable pub report_fill : OrderManager F → Text → Order → OrderManager F × List OmsCall
  unfolding on_fill
  report_fill m id o = (
    record m {
      open_orders = Hash.insert id o m.open_orders;
      risk_mgr = on_fill m.risk_mgr o o.fill_ts_ns;
    },
    calls_if m.has_on_fill (fill_call o),
  )

  -- A rejection or an expiry, up to the erasure.
  unfoldable pub report_end : OrderManager F → Text → Order → OrderManager F × List OmsCall
  unfolding on_reject
  report_end m id o = (
    record m { open_orders = Hash.insert id o m.open_orders; risk_mgr = on_reject m.risk_mgr o },
    calls_if m.has_on_reject (reject_call o),
  )

  abbrev pub erase_order : Text → OrderManager F × List OmsCall → OrderManager F × List OmsCall
  erase_order id (m, calls) = (record m { open_orders = Hash.erase id m.open_orders }, calls)

-- How a handler ends: an exception other than `FieldNotFound` leaves `fromApp`.
pub data Ending : Type 0 where
  returned field_not_found escaped : Ending

-- `FieldNotFound` is caught.
abbrev pub caught : Ending → Ending
caught Ending.field_not_found = Ending.returned
caught e = e

pub record Handled (F : Type 0) : Type 0 where
  pub oms : OrderManager F
  pub calls : List OmsCall
  pub ending : Ending

module _ {F : Type 0} ⦃d : Double F⦄ where
  abbrev pub handled : OrderManager F × List OmsCall → Handled F
  handled (m, calls) = record { oms = m; calls = calls; ending = Ending.returned }

  abbrev pub or_else : Option F → Option F → Option F
  or_else none y = y
  or_else (some x) y = some x

  -- The two branches of a fill; `px` is the price that is read, if reading it does not throw.
  unfoldable pub on_fill_report :
      OrderManager F → Text → Order → ExecType → Option F → ℕ → Handled F
  unfolding report_fill filled_order
  on_fill_report m id o et none now_ns = record { oms = m; calls = []; ending = Ending.escaped }
  on_fill_report m id o ExecType.fill (some px) now_ns =
      handled (erase_order id (report_fill m id (filled_order o px now_ns OrderStatus.filled)))
  on_fill_report m id o _ (some px) now_ns =
      handled (report_fill m id (filled_order o px now_ns OrderStatus.pending))

  -- The report on an open order. `unset_px` is what a `LastPx` gives that the message did not set.
  unfoldable pub on_open_report :
      OrderManager F → Text → Order → ExecType → Option F → Option F → ℕ → Handled F
  unfolding on_fill_report report_end
  on_open_report m id o ExecType.fill last_px unset_px now_ns =
      on_fill_report m id o ExecType.fill (or_else last_px unset_px) now_ns
  on_open_report m id o ExecType.partial_fill last_px unset_px now_ns =
      on_fill_report m id o ExecType.partial_fill (or_else last_px unset_px) now_ns
  on_open_report m id o ExecType.rejected last_px unset_px now_ns =
      handled (erase_order id (report_end m id (record o { status = OrderStatus.rejected })))
  on_open_report m id o ExecType.expired last_px unset_px now_ns =
      handled (erase_order id (report_end m id (record o { status = OrderStatus.cancelled })))
  on_open_report m id o ExecType.canceled last_px unset_px now_ns = handled (m, [])
  on_open_report m id o ExecType.other last_px unset_px now_ns = handled (m, [])

  -- The report, by what the lookup gives.
  unfoldable pub on_report :
      OrderManager F → Text → Option Order → ExecType → Option F → Option F → ℕ → Handled F
  unfolding on_open_report
  on_report m id none et last_px unset_px now_ns = handled (m, [])
  on_report m id (some o) et last_px unset_px now_ns =
      on_open_report m id o et last_px unset_px now_ns

  -- The handler, by the two fields that it must have.
  unfoldable pub on_fields :
      OrderManager F → Option Text → Option ExecType → Option F → Option F → ℕ → Handled F
  unfolding on_report
  on_fields m (some id) (some et) last_px unset_px now_ns =
      on_report m id (Hash.find id m.open_orders) et last_px unset_px now_ns
  on_fields m _ _ last_px unset_px now_ns = record {
    oms = m;
    calls = [];
    ending = Ending.field_not_found;
  }

  unfoldable pub on_execution_report : OrderManager F → ExecutionReport F → Option F → ℕ → Handled F
  unfolding on_fields
  on_execution_report m msg unset_px now_ns =
      on_fields m msg.clordid msg.exec_type msg.last_px unset_px now_ns

  -- It only logs.
  unfoldable pub on_cancel_reject : OrderManager F → Option Text → Handled F
  on_cancel_reject m none = record { oms = m; calls = []; ending = Ending.field_not_found }
  on_cancel_reject m (some id) = handled (m, [])

  unfoldable pub from_app : OrderManager F → AppMessage F → Option F → ℕ → Handled F
  unfolding on_execution_report on_cancel_reject
  from_app m (execution_report msg) unset_px now_ns =
      let h = on_execution_report m msg unset_px now_ns in record h { ending = caught h.ending }
  from_app m (order_cancel_reject id) unset_px now_ns =
      let h = on_cancel_reject m id in record h { ending = caught h.ending }
  from_app m other_message unset_px now_ns = handled (m, [])
