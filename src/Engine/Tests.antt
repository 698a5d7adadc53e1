-- ===== src/Engine/Tests.antt =====
-- The theorem on src/apps/engine/main.cpp at a concrete state.
use smart_quant.Prelude.{◌≡◌, ◌+◌, ◌<◌, ◌^◌, refl, true, some, List, [], ◌∷◌, map, length, arith}
use smart_quant.Prelude.Int.{pos}
use smart_quant.Prelude.Fixed.{Fixed, fixed_double}
use smart_quant.Prelude.Map.Hash
use smart_quant.Prelude.Text.{Text, text_eq, to_string, decimal}
use smart_quant.Types.{Side, Order, OrderStatus, bid, new, delete}
use smart_quant.Md.OrderBook.{empty_book}
use smart_quant.Risk.{RiskManager, default_config, blank_order, on_order_sent}
use smart_quant.Oms.{OrderManager, delivered, session_not_found, clordid_of}
use smart_quant.Oms.Open.{WellFormed}
use smart_quant.Engine.{check_timeout}
use smart_quant.Engine.Live.{Turn, LiveState, SameRun, live_run, live_run-replay}
use smart_quant.Alpha.SignalEngine
use smart_quant.Backtest.{begin, replay}
use smart_quant.Engine.Timeout.{BothOpen, timeout_two_orders}

abbrev first_id : Text
first_id = 83 ∷ 81 ∷ 95 ∷ 49 ∷ []

abbrev waiting : Order
waiting = record blank_order { clordid = first_id; qty = pos 1; status = OrderStatus.sent }

abbrev held : OrderManager Fixed
held = record (smart_quant.Oms.init (smart_quant.Risk.init default_config)) {
  logged_on = true;
  order_seq = 2;
  open_orders = (first_id, waiting) ∷ [];
  risk_mgr = record (smart_quant.Risk.init default_config) {
    has_position = true;
    open_order = waiting;
    position_open_ns = 100;
  };
}

held-WellFormed : WellFormed held
unfolding Hash.find clordid_of to_string decimal
held-WellFormed = record {
  one_each = (refl, tt);
  issued = ((1, omega arith, refl, refl), tt);
  in_range = omega arith;
}

still_open : Hash.find first_id held.open_orders ≡ some waiting
unfolding Hash.find
still_open = refl

-- Two timeouts, the second five seconds after the first.
timeout_two_orders_example :
    let m1 = check_timeout held empty_book 5_000_000_100 session_not_found delivered in
    let second = m1.risk_mgr.open_order in
    let m2 = check_timeout m1 empty_book 10_000_000_100 delivered delivered in
    BothOpen m1 first_id waiting Side.sell
    × BothOpen m2 second.clordid second Side.buy
    × BothOpen m2 first_id waiting Side.buy
timeout_two_orders_example =
    timeout_two_orders held empty_book empty_book waiting 5_000_000_100 10_000_000_100
      session_not_found delivered held-WellFormed (omega arith) refl refl (omega arith)
      (omega arith) (omega arith) still_open

-- Both programs start with the threshold of 50 and see an order come and go.
abbrev first_turn : Turn
first_turn = record {
  ev = record {
    timestamp_ns = 1_000;
    entry_id = 7;
    price = pos 200_000;
    qty = pos 5;
    action = new;
    side = bid;
  };
  now_ns = 2_000;
  cancelled = delivered;
  closed = delivered;
  outcome = delivered;
}

abbrev turns : List Turn
turns = first_turn ∷ record first_turn { ev = record first_turn.ev { action = delete } } ∷ []

live : LiveState Fixed
live = record {
  trader = record { oms = held; engine = SignalEngine.init (pos 5_000) (pos 150) };
  book = empty_book;
  signals = [];
}

same_start : SameRun live (begin (pos 5_000))
unfolding live begin
same_start = record { books = refl; engines = refl; counted = refl }

room : (begin (pos 5_000)).result.total_signals + length turns < 2 ^ 64
unfolding begin
room = omega arith

live_run-replay_example :
    SameRun (live_run live turns) (replay (begin (pos 5_000)) (map (λ (t : Turn). t.ev) turns))
live_run-replay_example = live_run-replay live (begin (pos 5_000)) turns room same_start
