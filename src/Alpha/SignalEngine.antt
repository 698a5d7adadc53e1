-- ===== src/Alpha/SignalEngine.antt =====
-- include/smartquant/alpha/signal_engine.hpp and src/alpha/signal_engine.cpp.
pub mod Signals
use smart_quant.Prelude.{ℕ, Bool, true, false, ◌&&◌, if◌then◌else◌}
use smart_quant.Prelude.Int.{ℤ, pos, ◌+ℤ◌, ltb_ℤ, pos_part}
use smart_quant.Prelude.{◌/◌}
use smart_quant.Prelude.Double.{Double}
use smart_quant.Types.{Price, LobEvent, Signal, Direction}
use smart_quant.Md.OrderBook.{OrderBook, best_bid, best_ask}
use smart_quant.Alpha.DeltaFactor.{
  DeltaFactor, set_midprice, value, with_windows, default_window_ns, default_bucket_ns,
}
use smart_quant.Alpha.DeltaFactor
use smart_quant.Alpha.CancelFactor.{CancelFactor, dynamic_threshold, max_of}
use smart_quant.Alpha.CancelFactor

pub record SignalEngine (F : Type 0) : Type 0 where
  pub delta : DeltaFactor F
  pub cancel : CancelFactor F
  pub thresh_delta : F
  pub min_cancel_z : F
  pub last_signal : Signal F

abbrev pub blank_signal : {F : Type 0} → ⦃d : Double F⦄ → Signal F
blank_signal ⦃d⦄ = record {
  trigger_time_ns = 0;
  l1_price = pos 0;
  delta_val = d.literal 0 1;
  cancel_z = d.literal 0 1;
  direction = Direction.none;
}

-- The middle of two positive prices.
abbrev pub middle : Price → Price → Price
middle bid ask = pos (pos_part (bid +ℤ ask) / 2)

module _ {F : Type 0} ⦃d : Double F⦄ where
  -- The constructor; the delta factor's has no reason to throw, since its bucket is not empty.
  unfoldable pub init : F → F → SignalEngine F
  unfolding with_windows
  init thresh_delta min_cancel_z = record {
    delta = with_windows default_window_ns default_bucket_ns;
    cancel = CancelFactor.init;
    thresh_delta = thresh_delta;
    min_cancel_z = min_cancel_z;
    last_signal = blank_signal;
  }

  unfoldable pub reset : SignalEngine F → SignalEngine F
  unfolding DeltaFactor.reset CancelFactor.reset
  reset s = record s {
    delta = DeltaFactor.reset s.delta;
    cancel = CancelFactor.reset s.cancel;
    last_signal = blank_signal;
  }

  pub set_thresh_delta : SignalEngine F → F → SignalEngine F
  set_thresh_delta s v = record s { thresh_delta = v }

  pub set_min_cancel_z : SignalEngine F → F → SignalEngine F
  set_min_cancel_z s v = record s { min_cancel_z = v }

  abbrev pub keep_midprice : DeltaFactor F → Price → Price → DeltaFactor F
  keep_midprice f bid ask =
      if ltb_ℤ (pos 0) bid && ltb_ℤ (pos 0) ask then set_midprice f (middle bid ask) else f

  -- Both factors take the event.
  unfoldable pub feed_factors : SignalEngine F → LobEvent → OrderBook → SignalEngine F
  unfolding DeltaFactor.on_event CancelFactor.on_event set_midprice
  feed_factors s ev book = record s {
    delta = DeltaFactor.on_event (keep_midprice s.delta (best_bid book) (best_ask book)) ev;
    cancel = CancelFactor.on_event s.cancel ev;
  }

  unfoldable pub thresh_cancel : SignalEngine F → F
  unfolding dynamic_threshold
  thresh_cancel s = max_of s.min_cancel_z (dynamic_threshold s.cancel)

  -- The direction that the factors give.
  unfoldable pub direction_of : SignalEngine F → Direction
  unfolding thresh_cancel value
  direction_of s =
      if d.lt s.thresh_delta (value s.delta) && d.lt (thresh_cancel s) s.cancel.z_ask
      then Direction.buy
      else (if d.lt (value s.delta) (d.neg s.thresh_delta) && d.lt (thresh_cancel s) s.cancel.z_bid
          then Direction.sell
          else Direction.none)

  -- The signal of a direction, and whether it is one.
  unfoldable pub emit : SignalEngine F → LobEvent → OrderBook → Direction → SignalEngine F × Bool
  emit s ev book Direction.none = (s, false)
  emit s ev book Direction.buy = (
    record s {
      last_signal = record {
        trigger_time_ns = ev.timestamp_ns;
        l1_price = best_ask book;
        delta_val = value s.delta;
        cancel_z = s.cancel.z_ask;
        direction = Direction.buy;
      };
    },
    true,
  )
  emit s ev book Direction.sell = (
    record s {
      last_signal = record {
        trigger_time_ns = ev.timestamp_ns;
        l1_price = best_bid book;
        delta_val = value s.delta;
        cancel_z = s.cancel.z_bid;
        direction = Direction.sell;
      };
    },
    true,
  )

  unfoldable pub on_event : SignalEngine F → LobEvent → OrderBook → SignalEngine F × Bool
  unfolding feed_factors direction_of emit
  on_event s ev book = let fed = feed_factors s ev book in emit fed ev book (direction_of fed)
