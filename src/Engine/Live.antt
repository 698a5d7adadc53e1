-- ===== src/Engine/Live.antt =====
-- The trading thread of src/apps/engine/main.cpp and the replay of src/apps/backtest/main.cpp see the
-- same signals, when the thread reads the book that the gateway has just brought up to date.
use smart_quant.Prelude.{
  ℕ, ◌+◌, ◌<◌, ◌^◌, ◌≡◌, refl, ap, ap₂, ◌≤◌, ◌∙◌, sym, Bool, if◌then◌else◌, Option, none, some,
  List, [], ◌∷◌, map, length, arith, Bool-cases, inl, inr,
}
use smart_quant.Prelude.Double.{Double}
use smart_quant.Types.{LobEvent, Signal, Direction}
use smart_quant.Md.OrderBook.{OrderBook, update}
use smart_quant.Oms.{Delivery}
use smart_quant.Alpha.SignalEngine.{SignalEngine, on_event}
use smart_quant.Engine.{Trader, alpha_step}
use smart_quant.Backtest.{
  Backtest, BacktestResult, PendingSignal, PricePoint, evaluate, settle, count_signal, run_engines,
  settle_due, replay_event, replay, add_price, is_due,
}

-- An event from the queue, what the clock reads then, and what its possible sends meet with.
pub record Turn : Type 0 where
  pub ev : LobEvent
  pub now_ns : ℕ
  pub cancelled : Delivery
  pub closed : Delivery
  pub outcome : Delivery

pub record LiveState (F : Type 0) : Type 0 where
  pub trader : Trader F
  pub book : OrderBook
  -- the signals that the engine fired, last first
  pub signals : List (Signal F)

module _ {F : Type 0} ⦃d : Double F⦄ where
  -- The gateway updates the book, and the thread takes the event.
  unfoldable pub live_step : LiveState F → Turn → LiveState F
  unfolding update alpha_step on_event
  live_step s t =
      let book = (update s.book t.ev).book in
      let (engine, fired) = on_event s.trader.engine t.ev book in
      record {
        trader = alpha_step s.trader t.ev book t.now_ns t.cancelled t.closed t.outcome;
        book = book;
        signals = if fired then engine.last_signal ∷ s.signals else s.signals;
      }

  unfoldable pub live_run : LiveState F → List Turn → LiveState F
  unfolding live_step
  live_run s [] = s
  live_run s (t ∷ ts) = live_run (live_step s t) ts

  -- The two programs at the same point of the log: the same book and engine, and as many signals.
  pub record SameRun (s : LiveState F) (b : Backtest F) : Type 0 where
    pub books : s.book ≡ b.book
    pub engines : s.trader.engine ≡ b.engine
    pub counted : length s.signals ≡ b.result.total_signals

  evaluate-total :
      (s : PendingSignal F) (p : Option PricePoint) (r : BacktestResult F)
      → (evaluate s p r).total_signals ≡ r.total_signals
  unfolding evaluate
  evaluate-total s none r = refl
  evaluate-total s (some p) r = ground arith

  settle-total :
      (now_ns : ℕ) (history : List PricePoint) (ss : List (PendingSignal F)) (r : BacktestResult F)
      → (settle now_ns history ss r).1.total_signals ≡ r.total_signals
  unfolding settle
  settle-total now_ns history [] r = refl
  settle-total now_ns history (s ∷ ss) r = elim (Bool-cases (is_due now_ns s)) [
    | inl due ↦ rw due (settle-total now_ns history ss (evaluate s _ r) ∙ evaluate-total s _ r)
    | inr waits ↦ rw waits (settle-total now_ns history ss r)
  ]

  count_signal-total :
      (dir : Direction) (r : BacktestResult F)
      → r.total_signals + 1 < 2 ^ 64
      → (count_signal dir r).total_signals ≡ r.total_signals + 1
  count_signal-total Direction.none r h = omega arith
  count_signal-total Direction.buy r h = omega arith
  count_signal-total Direction.sell r h = omega arith

  -- What the engine does with an event and the book after it.
  abbrev fires : SignalEngine F → LobEvent → OrderBook → SignalEngine F × Bool
  fires engine ev book = on_event engine ev (update book ev).book

  book-live_step : (s : LiveState F) (t : Turn) → (live_step s t).book ≡ (update s.book t.ev).book
  unfolding live_step
  book-live_step s t = refl

  engine-live_step :
      (s : LiveState F) (t : Turn)
      → (live_step s t).trader.engine ≡ (fires s.trader.engine t.ev s.book).0
  unfolding live_step alpha_step
  engine-live_step s t = refl

  length-live_step :
      (s : LiveState F) (t : Turn)
      → length (live_step s t).signals
        ≡ (if (fires s.trader.engine t.ev s.book).1 then length s.signals + 1 else length s.signals)
  unfolding live_step
  length-live_step s t = elim (Bool-cases (fires s.trader.engine t.ev s.book).1) [
    | inl yes_fired ↦ rw yes_fired (omega arith)
    | inr quiet ↦ rw quiet refl
  ]

  run_engines_state :
      (b : Backtest F) (ev : LobEvent)
      → b.result.total_signals + 1 < 2 ^ 64
      → let (engine, fired) = on_event b.engine ev b.book in
        ((run_engines b ev).book ≡ b.book)
        × ((run_engines b ev).engine ≡ engine)
        × ((run_engines b ev).result.total_signals
            ≡ (if fired then b.result.total_signals + 1 else b.result.total_signals))
  unfolding run_engines
  run_engines_state b ev h = elim (Bool-cases (on_event b.engine ev b.book).1) [
    | inl yes_fired ↦ rw yes_fired (
      refl,
      refl,
      count_signal-total (on_event b.engine ev b.book).0.last_signal.direction b.result h,
    )
    | inr quiet ↦ rw quiet (refl, refl, refl)
  ]

  replay_event_state :
      (b : Backtest F) (ev : LobEvent)
      → b.result.total_signals + 1 < 2 ^ 64
      → let (engine, fired) = fires b.engine ev b.book in
        ((replay_event b ev).book ≡ (update b.book ev).book)
        × ((replay_event b ev).engine ≡ engine)
        × ((replay_event b ev).result.total_signals
            ≡ (if fired then b.result.total_signals + 1 else b.result.total_signals))
  unfolding replay_event settle_due
  replay_event_state b ev h =
      let book = (update b.book ev).book in
      let priced = record b { book = book; price_history = add_price b.price_history ev book } in
      let total = settle-total ev.timestamp_ns priced.price_history b.pending b.result in
      let (books, engines, counted) = run_engines_state (settle_due priced ev) ev (omega arith) in
      (books, engines, counted ∙ ap (λ k. if (on_event b.engine ev book).1 then k + 1 else k) total)

  live_step-SameRun :
      (s : LiveState F) (b : Backtest F) (t : Turn)
      → b.result.total_signals + 1 < 2 ^ 64
      → SameRun s b
      → SameRun (live_step s t) (replay_event b t.ev)
  live_step-SameRun s b t h same =
      let (books, engines, counted) = replay_event_state b t.ev h in
      let together = ap₂ (λ e k. fires e t.ev k) same.engines same.books in
      record {
        books = book-live_step s t ∙ ap (λ k. (update k t.ev).book) same.books ∙ sym books;
        engines = engine-live_step s t ∙ ap (λ r. r.0) together ∙ sym engines;
        counted =
            length-live_step s t
            ∙ ap₂ (λ r k. if r.1 then k + 1 else k) together same.counted
            ∙ sym counted;
      }

  total-replay_event :
      (b : Backtest F) (ev : LobEvent)
      → b.result.total_signals + 1 < 2 ^ 64
      → (replay_event b ev).result.total_signals ≤ b.result.total_signals + 1
  total-replay_event b ev h = let (_, _, counted) = replay_event_state b ev h in ground arith

  -- From a trading thread and a backtest with the same book and the same engine, and as many signals
  -- fired as counted: if every event is taken from the queue when the book has just been updated with
  -- it, then after the same events, whatever the orders met with, they again have the same book and
  -- the same engine, with its last signal, and the thread's engine fired as many signals as the
  -- backtest counts, as long as that counter does not wrap.
  pub live_run-replay :
      (s : LiveState F) (b : Backtest F) (ts : List Turn)
      → b.result.total_signals + length ts < 2 ^ 64
      → SameRun s b
      → SameRun (live_run s ts) (replay b (map (λ (t : Turn). t.ev) ts))
  unfolding live_run replay
  live_run-replay s b [] h same = same
  live_run-replay s b (t ∷ ts) h same =
      live_run-replay (live_step s t) (replay_event b t.ev) ts
        (omega (arith, total-replay_event b t.ev)) (live_step-SameRun s b t (omega arith) same)
