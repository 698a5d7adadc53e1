-- ===== src/Backtest/Tests.antt =====
-- Runs of src/apps/backtest/main.cpp, and its theorem at a concrete log.
use smart_quant.Prelude.{◌≡◌, refl, false, some, List, [], ◌∷◌, arith}
use smart_quant.Prelude.Int.{pos, ◌+ℤ◌, ◌-ℤ◌, neg}
use smart_quant.Prelude.Fixed.{Fixed, fixed_double}
use smart_quant.Types.{LobEvent, Direction, bid, new}
use smart_quant.Md.OrderBook.{empty_book}
use smart_quant.Alpha.Buckets.{no_buckets}
use smart_quant.Alpha.SignalEngine.{SignalEngine, blank_signal}
use smart_quant.Backtest.{Backtest, no_result, PendingSignal, evaluate, replay}
use smart_quant.Backtest.Count.{InTally, replay-InTally}

abbrev engine : SignalEngine Fixed
engine = record {
  delta = record {
    window_ns = 100_000_000;
    bucket_ns = 10_000_000;
    num_buckets = 11;
    ring = no_buckets 64;
    midprice = pos 0;
    net_delta = pos 0;
    prev_delta = pos 0;
    prev_prev_delta = pos 0;
    acceleration = pos 0;
  };
  cancel = smart_quant.Alpha.CancelFactor.init;
  thresh_delta = pos 5_000;
  min_cancel_z = pos 150;
  last_signal = blank_signal;
}

-- A buy at 2000.00.
abbrev bought : PendingSignal Fixed
bought = record {
  sig = record blank_signal { direction = Direction.buy; l1_price = pos 200_000 };
  entry_price = pos 200_000;
  sf_fired = false;
}

-- A move of 100 price units wins and one of 99 loses.
evaluate_values :
    ((evaluate bought (some (record { ts_ns = 9; bid = pos 0; ask = pos 200_100 })) no_result).wins
      ≡ 1)
    × ((evaluate bought
          (some (record { ts_ns = 9; bid = pos 0; ask = pos 200_099 }))
          no_result).losses
        ≡ 1)
unfolding evaluate ◌-ℤ◌ ◌+ℤ◌ neg
evaluate_values = (refl, refl)

abbrev start : Backtest Fixed
start = record {
  book = empty_book;
  engine = engine;
  sf_engine = record engine { min_cancel_z = pos 100_000_000_000 };
  result = record no_result { total_signals = 1 };
  pending = bought ∷ [];
  price_history = [];
}

abbrev log : List LobEvent
log =
    record {
      timestamp_ns = 6_000_000_000;
      entry_id = 7;
      price = pos 200_000;
      qty = pos 5;
      action = new;
      side = bid;
    }
    ∷ []

replay-InTally_example : InTally (replay start log)
replay-InTally_example = replay-InTally start log (omega arith) (record {
  once = omega arith;
  single = omega arith;
  single_wins = omega arith;
  in_range = omega arith;
})
