-- ===== src/Oms.antt =====
-- include/smartquant/oms/order_manager.hpp and src/oms/order_manager.cpp: the orders that are sent
-- and the reports that come back. QuickFIX is a parameter: whether a send finds its session, the
-- fields that a message has, the reading of the clock.
pub mod Ids
pub mod Open
pub mod Run
pub mod Unique
pub mod Execution
pub mod Admin
pub mod Reports
pub mod Send
pub mod Single
mod Tests
use smart_quant.Prelude.{
  ℕ, ◌+◌, ◌≡◌, Bool, true, false, if◌then◌else◌, Option, none, some, List, [], ◌∷◌, ◌++◌,
}
use smart_quant.Prelude.Int.{pos}
use smart_quant.Prelude.Word.{add_64}
use smart_quant.Prelude.Double.{Double}
use smart_quant.Prelude.Map.Hash
use smart_quant.Prelude.Text.{Text, text_eq, to_string, strncpy}
use smart_quant.Types.{Price, Qty, Side, OrderStatus, Order, to_price}
use smart_quant.Risk.{RiskManager, on_order_sent, on_fill, on_reject, blank_order}

pub record OrderManager (F : Type 0) : Type 0 where
  pub risk_mgr : RiskManager F
  pub session_id : Text
  pub logged_on : Bool
  pub order_seq : ℕ
  pub open_orders : List (Text × Order)
  pub has_on_fill : Bool
  pub has_on_reject : Bool

abbrev pub init : {F : Type 0} → RiskManager F → OrderManager F
init risk_mgr = record {
  risk_mgr = risk_mgr;
  session_id = [];
  logged_on = false;
  order_seq = 1;
  open_orders = [];
  has_on_fill = false;
  has_on_reject = false;
}

-- The messages sent, with the fields that the code sets; the symbol is always XAUUSD, an order is
-- always a market order that is immediate or cancelled, and QuickFIX stamps the time.
pub data Outgoing (F : Type 0) : Type 0 where
  new_order_single : Text → Side → F → Outgoing F
  order_cancel_request : Text → Text → Side → Outgoing F

-- What `sendToTarget` does.
pub data Delivery : Type 0 where
  delivered session_not_found : Delivery

-- "SQ_"
abbrev pub id_prefix : Text
id_prefix = 83 ∷ 81 ∷ 95 ∷ []

unfoldable pub clordid_of : ℕ → Text
clordid_of seq = id_prefix ++ to_string seq

-- What `send_ioc` returns, with the message that was handed to a session.
pub record Sent (F : Type 0) : Type 0 where
  pub oms : OrderManager F
  pub clordid : Text
  pub message : Option (Outgoing F)

-- The order entered for a send; `clordid` is a `char[32]`.
unfoldable pub sent_order : Text → Side → Qty → Price → ℕ → Order
sent_order clordid side qty signal_l1 ts_ns = record blank_order {
  clordid = strncpy 31 clordid;
  side = side;
  qty = qty;
  signal_l1 = signal_l1;
  sent_ts_ns = ts_ns;
  status = OrderStatus.sent;
}

module _ {F : Type 0} where
  unfoldable pub on_logon : OrderManager F → Text → OrderManager F
  on_logon m sid = record m { session_id = sid; logged_on = true }

  unfoldable pub on_logout : OrderManager F → OrderManager F
  on_logout m = record m { logged_on = false }

  pub set_fill_callback : OrderManager F → OrderManager F
  set_fill_callback m = record m { has_on_fill = true }

  pub set_reject_callback : OrderManager F → OrderManager F
  set_reject_callback m = record m { has_on_reject = true }

  unfoldable pub is_logged_on : OrderManager F → Bool
  is_logged_on m = m.logged_on

  unfoldable pub next_clordid : OrderManager F → OrderManager F × Text
  next_clordid m = (record m { order_seq = add_64 m.order_seq 1 }, clordid_of m.order_seq)

  -- The statements of `send_ioc` before the message goes out.
  unfoldable pub enter_order : OrderManager F → Text → Order → ℕ → OrderManager F
  unfolding on_order_sent
  enter_order m clordid o ts_ns = record m {
    open_orders = Hash.insert clordid o m.open_orders;
    risk_mgr = on_order_sent m.risk_mgr o ts_ns;
  }

  -- The handler of `SessionNotFound`.
  unfoldable pub roll_back : OrderManager F → Text → Order → OrderManager F
  unfolding on_reject
  roll_back m clordid o = record m {
    open_orders = Hash.erase clordid m.open_orders;
    risk_mgr = on_reject m.risk_mgr o;
  }

  -- `cancel_order`, by what the lookup gives.
  unfoldable pub cancel_found :
      OrderManager F → Text → Option Order → Delivery → OrderManager F × Option (Outgoing F)
  unfolding next_clordid
  cancel_found m clordid none outcome = (m, none)
  cancel_found m clordid (some o) delivered =
      let (m', id) = next_clordid m in (m', some (order_cancel_request clordid id o.side))
  cancel_found m clordid (some o) session_not_found = ((next_clordid m).0, none)

  unfoldable pub cancel_order :
      OrderManager F → Text → Delivery → OrderManager F × Option (Outgoing F)
  unfolding cancel_found
  cancel_order m clordid outcome = cancel_found m clordid (Hash.find clordid m.open_orders) outcome

module _ {F : Type 0} ⦃d : Double F⦄ where
  -- `send_ioc` once the session is known to be up.
  unfoldable pub send_order : OrderManager F → Side → Qty → Price → ℕ → Delivery → Sent F
  unfolding next_clordid sent_order enter_order roll_back
  send_order m side qty signal_l1 ts_ns outcome =
      let (m', clordid) = next_clordid m in
      let o = sent_order clordid side qty signal_l1 ts_ns in
      let entered = enter_order m' clordid o ts_ns in
      elim outcome [
        | delivered ↦ record {
          oms = entered;
          clordid = clordid;
          message = some (new_order_single clordid side (d.of_int qty));
        }
        | session_not_found ↦ record {
          oms = roll_back entered clordid o;
          clordid = [];
          message = none;
        }
      ]

  unfoldable pub send_ioc : OrderManager F → Side → Qty → Price → ℕ → Delivery → Sent F
  unfolding send_order
  send_ioc m side qty signal_l1 ts_ns outcome =
      if m.logged_on
      then send_order m side qty signal_l1 ts_ns outcome
      else record { oms = m; clordid = []; message = none }
