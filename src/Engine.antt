-- ===== src/Engine.antt =====
-- src/apps/engine/main.cpp: what the trading thread does with an event from the queue.
pub mod Timeout
pub mod Live
pub mod Pipeline
mod Tests
use smart_quant.Prelude.{ℕ, Bool, true, false, Option, none, some, if◌then◌else◌}
use smart_quant.Prelude.Int.{pos}
use smart_quant.Prelude.Double.{Double}
use smart_quant.Types.{Price, LobEvent, Side, Order, Signal, Direction}
use smart_quant.Md.OrderBook.{OrderBook, best_bid, best_ask}
use smart_quant.Risk.{check_signal, on_timer}
use smart_quant.Oms.{OrderManager, Delivery, cancel_order, send_ioc}
use smart_quant.Alpha.SignalEngine.{SignalEngine, on_event}

pub record Trader (F : Type 0) : Type 0 where
  pub oms : OrderManager F
  pub engine : SignalEngine F

abbrev pub opposite : Side → Side
opposite Side.buy = Side.sell
opposite Side.sell = Side.buy

-- The price that the closing order is measured against.
abbrev pub closing_price : OrderBook → Side → Price
closing_price book Side.buy = best_bid book
closing_price book Side.sell = best_ask book

abbrev pub side_of_signal : Direction → Side
side_of_signal Direction.buy = Side.buy
side_of_signal _ = Side.sell

module _ {F : Type 0} ⦃d : Double F⦄ where
  -- The callback of the timer: cancel the order and send one on the other side.
  unfoldable pub force_close :
      OrderManager F → OrderBook → Order → ℕ → Delivery → Delivery → OrderManager F
  unfolding cancel_order send_ioc
  force_close m book o now_ns cancelled closed =
      (send_ioc (cancel_order m o.clordid cancelled).0 (opposite o.side) o.qty
        (closing_price book o.side) now_ns closed).oms

  abbrev pub on_timeout :
      OrderManager F → OrderBook → Option Order → ℕ → Delivery → Delivery → OrderManager F
  on_timeout m book none now_ns cancelled closed = m
  on_timeout m book (some o) now_ns cancelled closed = force_close m book o now_ns cancelled closed

  unfoldable pub check_timeout :
      OrderManager F → OrderBook → ℕ → Delivery → Delivery → OrderManager F
  unfolding on_timer force_close
  check_timeout m book now_ns cancelled closed =
      on_timeout m book (on_timer m.risk_mgr now_ns) now_ns cancelled closed

  -- The order for a signal, if the risk manager lets it through.
  unfoldable pub act_on : OrderManager F → Signal F → ℕ → Delivery → OrderManager F
  unfolding check_signal send_ioc
  act_on m sig now_ns outcome =
      if check_signal m.risk_mgr sig now_ns
      then (send_ioc m (side_of_signal sig.direction) (pos 1) sig.l1_price now_ns outcome).oms
      else m

  -- One round of the loop for an event; the book is the gateway's at that time.
  unfoldable pub alpha_step :
      Trader F → LobEvent → OrderBook → ℕ → Delivery → Delivery → Delivery → Trader F
  unfolding check_timeout act_on on_event
  alpha_step s ev book now_ns cancelled closed outcome =
      let m = check_timeout s.oms book now_ns cancelled closed in
      let (engine, fired) = on_event s.engine ev book in
      record {
        oms = if fired then act_on m engine.last_signal now_ns outcome else m;
        engine = engine;
      }
