-- ===== src/Oms/Run.antt =====
-- The calls that src/oms/order_manager.cpp gets, from the trading thread and from QuickFIX, one after
-- another.
use smart_quant.Prelude.{ℕ, List, [], ◌∷◌, ◌++◌, Option, none, some}
use smart_quant.Prelude.Double.{Double}
use smart_quant.Prelude.Text.{Text}
use smart_quant.Types.{Price, Qty, Side}
use smart_quant.Oms.{
  OrderManager, Outgoing, new_order_single, order_cancel_request, Delivery, on_logon, on_logout,
  send_ioc, cancel_order,
}
use smart_quant.Oms.Execution.{AppMessage, from_app}

pub data OmsInput (F : Type 0) : Type 0 where
  logon : Text → OmsInput F
  logout : OmsInput F
  send : Side → Qty → Price → ℕ → Delivery → OmsInput F
  cancel : Text → Delivery → OmsInput F
  app : AppMessage F → Option F → ℕ → OmsInput F

module _ {F : Type 0} ⦃d : Double F⦄ where
  -- The state after a call, and the message it sent.
  unfoldable pub oms_step : OrderManager F → OmsInput F → OrderManager F × Option (Outgoing F)
  unfolding on_logon on_logout send_ioc cancel_order from_app
  oms_step m (logon sid) = (on_logon m sid, none)
  oms_step m logout = (on_logout m, none)
  oms_step m (send side qty l1 ts_ns outcome) =
      let s = send_ioc m side qty l1 ts_ns outcome in (s.oms, s.message)
  oms_step m (cancel id outcome) = cancel_order m id outcome
  oms_step m (app msg unset_px now_ns) = ((from_app m msg unset_px now_ns).oms, none)

  unfoldable pub oms_run : OrderManager F → List (OmsInput F) → OrderManager F
  unfolding oms_step
  oms_run m [] = m
  oms_run m (c ∷ cs) = oms_run (oms_step m c).0 cs

  abbrev pub id_of : Outgoing F → Text
  id_of (new_order_single id side qty) = id
  id_of (order_cancel_request orig id side) = id

  abbrev pub ids_of : Option (Outgoing F) → List Text
  ids_of none = []
  ids_of (some out) = id_of out ∷ []

  -- The ClOrdIDs of the messages sent, in order.
  unfoldable pub ids_sent : OrderManager F → List (OmsInput F) → List Text
  unfolding oms_step
  ids_sent m [] = []
  ids_sent m (c ∷ cs) = ids_of (oms_step m c).1 ++ ids_sent (oms_step m c).0 cs
