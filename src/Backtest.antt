-- ===== src/Backtest.antt =====
-- src/apps/backtest/main.cpp: the replay of a log through the book and two engines, and the
-- evaluation of each signal five seconds later.
pub mod Count
pub mod Search
mod Tests
use smart_quant.Prelude.{
  ℕ, zero, suc, ◌/◌, take, drop, length, ◌+◌, ◌^◌, Bool, true, false, ◌&&◌, ltb, leb, if◌then◌else◌,
  Option, none, some, List, [], ◌∷◌, ◌++◌,
}
use smart_quant.Prelude.Int.{ℤ, pos, ◌-ℤ◌, ltb_ℤ, leb_ℤ}
use smart_quant.Prelude.Word.{add_64, sub_64}
use smart_quant.Prelude.Double.{Double}
use smart_quant.Types.{Price, LobEvent, Signal, Direction, price_scale}
use smart_quant.Md.OrderBook.{OrderBook, empty_book, best_bid, best_ask, update}
use smart_quant.Alpha.SignalEngine.{SignalEngine, on_event}
use smart_quant.Alpha.SignalEngine

pub record PendingSignal (F : Type 0) : Type 0 where
  pub sig : Signal F
  pub entry_price : Price
  pub sf_fired : Bool

pub record PricePoint : Type 0 where
  pub ts_ns : ℕ
  pub bid : Price
  pub ask : Price

pub record BacktestResult (F : Type 0) : Type 0 where
  pub total_signals : ℕ
  pub buy_signals : ℕ
  pub sell_signals : ℕ
  pub wins : ℕ
  pub losses : ℕ
  pub sf_wins : ℕ
  pub sf_total : ℕ
  pub total_move_ticks : F

pub record Backtest (F : Type 0) : Type 0 where
  pub book : OrderBook
  pub engine : SignalEngine F
  pub sf_engine : SignalEngine F
  pub result : BacktestResult F
  pub pending : List (PendingSignal F)
  pub price_history : List PricePoint

-- `kLookForwardNs`
abbrev pub look_forward_ns : ℕ
look_forward_ns = 5_000_000_000

abbrev pub no_result : {F : Type 0} → ⦃d : Double F⦄ → BacktestResult F
no_result ⦃d⦄ = record {
  total_signals = 0;
  buy_signals = 0;
  sell_signals = 0;
  wins = 0;
  losses = 0;
  sf_wins = 0;
  sf_total = 0;
  total_move_ticks = d.literal 0 1;
}

-- The variables of `main` before the loop. The least score of a cancellation is 1.5 by default, and
-- 1e9 in the second engine.
unfoldable pub begin : {F : Type 0} → ⦃d : Double F⦄ → F → Backtest F
unfolding SignalEngine.init
begin ⦃d⦄ thresh_delta = record {
  book = empty_book;
  engine = SignalEngine.init thresh_delta (d.literal 3 2);
  sf_engine = SignalEngine.init thresh_delta (d.literal 1_000_000_000 1);
  result = no_result;
  pending = [];
  price_history = [];
}

abbrev pub or_point : Option PricePoint → PricePoint → Option PricePoint
or_point none p = some p
or_point (some q) p = some q

-- The middle point decides.
abbrev pub halve : ℕ → PricePoint → Option PricePoint → Option PricePoint → Option PricePoint
halve target mid earlier later = if ltb mid.ts_ns target then later else or_point earlier mid

-- `std::lower_bound`: the search halves what is left, which is the first point from the target on
-- only if the history is in order; `fuel` is the number of points.
unfoldable pub halving : ℕ → ℕ → List PricePoint → Option PricePoint
halving target zero ps = none
halving target (suc fuel) ps =
    let half = length ps / 2 in
    let earlier = halving target fuel (take half ps) in
    elim (drop half ps) [
      | [] ↦ none
      | (mid ∷ rest) ↦ (let later = halving target fuel rest in halve target mid earlier later)
    ]

unfoldable pub lower_bound : ℕ → List PricePoint → Option PricePoint
unfolding halving
lower_bound target ps = halving target (length ps) ps

-- The move in favour of the signal.
abbrev pub move_of : Direction → Price → PricePoint → ℤ
move_of Direction.buy entry p = p.ask -ℤ entry
move_of _ entry p = entry -ℤ p.bid

abbrev pub add_price : List PricePoint → LobEvent → OrderBook → List PricePoint
add_price history ev book =
    if ltb_ℤ (pos 0) (best_bid book) && ltb_ℤ (pos 0) (best_ask book)
    then history
      ++ record { ts_ns = ev.timestamp_ns; bid = best_bid book; ask = best_ask book } ∷ []
    else history

module _ {F : Type 0} ⦃d : Double F⦄ where
  abbrev pub count_sf : Bool → Bool → BacktestResult F → BacktestResult F
  count_sf fired win r =
      if fired
      then record r {
        sf_total = add_64 r.sf_total 1;
        sf_wins = if win then add_64 r.sf_wins 1 else r.sf_wins;
      }
      else r

  -- The outcome of a signal at the price point found for it, if there is one.
  unfoldable pub evaluate :
      PendingSignal F → Option PricePoint → BacktestResult F → BacktestResult F
  evaluate s none r = r
  evaluate s (some p) r =
      let diff = move_of s.sig.direction s.entry_price p in
      let win = leb_ℤ price_scale diff in
      count_sf s.sf_fired win (record r {
        total_move_ticks = d.add r.total_move_ticks (d.div (d.of_int diff) (d.of_int price_scale));
        wins = if win then add_64 r.wins 1 else r.wins;
        losses = if win then r.losses else add_64 r.losses 1;
      })

  abbrev pub is_due : ℕ → PendingSignal F → Bool
  is_due now_ns s = leb look_forward_ns (sub_64 now_ns s.sig.trigger_time_ns)

  -- The loop over the pending signals: what is left of them, and the result.
  unfoldable pub settle :
      ℕ
      → List PricePoint
      → List (PendingSignal F)
      → BacktestResult F
      → List (PendingSignal F) × BacktestResult F
  unfolding evaluate lower_bound
  settle now_ns history [] r = ([], r)
  settle now_ns history (s ∷ ss) r =
      let point = lower_bound (add_64 s.sig.trigger_time_ns look_forward_ns) history in
      let (kept, r') =
        settle now_ns history ss (if is_due now_ns s then evaluate s point r else r) in
      (if is_due now_ns s then kept else s ∷ kept, r')

  abbrev pub count_direction : Direction → BacktestResult F → BacktestResult F
  count_direction Direction.buy r = record r { buy_signals = add_64 r.buy_signals 1 }
  count_direction Direction.sell r = record r { sell_signals = add_64 r.sell_signals 1 }
  count_direction Direction.none r = r

  abbrev pub count_signal : Direction → BacktestResult F → BacktestResult F
  count_signal dir r = count_direction dir (record r { total_signals = add_64 r.total_signals 1 })

  -- Both engines take the event; a signal of the first waits for its evaluation.
  unfoldable pub run_engines : Backtest F → LobEvent → Backtest F
  unfolding on_event
  run_engines s ev =
      let (engine, fired) = on_event s.engine ev s.book in
      let (sf_engine, sf_fired) = on_event s.sf_engine ev s.book in
      let sig = engine.last_signal in
      let ran = record s { engine = engine; sf_engine = sf_engine } in
      if fired
      then record ran {
        result = count_signal sig.direction s.result;
        pending =
            s.pending ++ record { sig = sig; entry_price = sig.l1_price; sf_fired = sf_fired } ∷ [];
      }
      else ran

  -- The evaluation of what is due.
  unfoldable pub settle_due : Backtest F → LobEvent → Backtest F
  unfolding settle
  settle_due s ev =
      let (kept, r) = settle ev.timestamp_ns s.price_history s.pending s.result in
      record s { pending = kept; result = r }

  -- A record of the log.
  unfoldable pub replay_event : Backtest F → LobEvent → Backtest F
  unfolding update run_engines settle_due
  replay_event s ev =
      let book = (update s.book ev).book in
      run_engines
        (settle_due (record s { book = book; price_history = add_price s.price_history ev book })
          ev)
        ev

  unfoldable pub replay : Backtest F → List LobEvent → Backtest F
  unfolding replay_event
  replay s [] = s
  replay s (ev ∷ evs) = replay (replay_event s ev) evs

  -- The percentage of the signals that won.
  abbrev pub percent : ℕ → ℕ → F
  percent wins zero = d.literal 0 1
  percent wins n = d.div (d.mul (d.literal 100 1) (d.of_int (pos wins))) (d.of_int (pos n))

  unfoldable pub win_rate : BacktestResult F → F
  win_rate r = percent r.wins r.total_signals

  unfoldable pub avg_move : BacktestResult F → F
  avg_move r =
      if ltb 0 r.total_signals
      then d.div r.total_move_ticks (d.of_int (pos r.total_signals))
      else d.literal 0 1

  unfoldable pub sf_win_rate : BacktestResult F → F
  sf_win_rate r = percent r.sf_wins r.sf_total
