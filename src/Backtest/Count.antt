-- ===== src/Backtest/Count.antt =====
-- What the counters of src/apps/backtest/main.cpp count.
use smart_quant.Prelude.{
  ℕ, suc, ◌+◌, ◌≤◌, ◌<◌, ◌^◌, ◌≡◌, refl, ◌∙◌, subst, Option, none, some, List, [], ◌∷◌, arith,
  length, length-append, Bool-cases, inl, inr,
}
use smart_quant.Prelude.Word.{add_64}
use smart_quant.Prelude.Double.{Double}
use smart_quant.Types.{LobEvent, Direction}
use smart_quant.Md.OrderBook.{update}
use smart_quant.Alpha.SignalEngine.{on_event}
use smart_quant.Backtest.{
  Backtest, BacktestResult, PendingSignal, PricePoint, evaluate, is_due, settle, count_signal,
  run_engines, settle_due, replay_event, replay, lower_bound, look_forward_ns, add_price,
}

-- Of the signals counted, `n` wait, and each of the others is evaluated at most once: it won or lost,
-- and the second engine's share is among them.
pub record Tallied {F : Type 0} (r : BacktestResult F) (n : ℕ) : Type 0 where
  pub once : r.wins + r.losses + n ≤ r.total_signals
  pub single : r.sf_total ≤ r.wins + r.losses
  pub single_wins : r.sf_wins ≤ r.sf_total
  pub in_range : r.total_signals < 2 ^ 64

module _ {F : Type 0} ⦃d : Double F⦄ where
  evaluate-Tallied :
      (s : PendingSignal F) (p : Option PricePoint) (r : BacktestResult F) (n : ℕ)
      → Tallied r (suc n)
      → (Tallied (evaluate s p r) n) × ((evaluate s p r).total_signals ≡ r.total_signals)
  unfolding evaluate
  evaluate-Tallied s none r n t =
      let once = t.once in
      (
        record {
          once = omega arith;
          single = t.single;
          single_wins = t.single_wins;
          in_range = t.in_range;
        },
        refl,
      )
  evaluate-Tallied s (some p) r n t =
      let once = t.once in
      let single = t.single in
      let single_wins = t.single_wins in
      let in_range = t.in_range in
      (
        record {
          once = ground arith;
          single = ground arith;
          single_wins = ground arith;
          in_range = ground arith;
        },
        ground arith,
      )

  settle-Tallied :
      (now_ns : ℕ) (history : List PricePoint) (ss : List (PendingSignal F)) (r : BacktestResult F)
      (n : ℕ)
      → Tallied r (length ss + n)
      → let (kept, r') = settle now_ns history ss r in
        Tallied r' (length kept + n) × (r'.total_signals ≡ r.total_signals)
  unfolding settle
  settle-Tallied now_ns history [] r n t = (t, refl)
  settle-Tallied now_ns history (s ∷ ss) r n t = elim (Bool-cases (is_due now_ns s)) [
    | inl due ↦
        let point = lower_bound (add_64 s.sig.trigger_time_ns look_forward_ns) history in
        let (t', same) =
          evaluate-Tallied s point r (length ss + n) (subst (Tallied r) (omega arith) t) in
        let (t'', same') = settle-Tallied now_ns history ss (evaluate s point r) n t' in
        rw due (t'', same' ∙ same)
    | inr waits ↦
        let (t', same) =
          settle-Tallied now_ns history ss r (suc n) (subst (Tallied r) (omega arith) t) in
        rw waits (subst (Tallied (settle now_ns history ss r).1) (omega arith) t', same)
  ]

  -- The state keeps its tally.
  abbrev pub InTally : Backtest F → Type 0
  InTally s = Tallied s.result (length s.pending)

  count_signal-Tallied :
      (dir : Direction) (r : BacktestResult F) (n : ℕ)
      → r.total_signals + 1 < 2 ^ 64
      → Tallied r n
      → Tallied (count_signal dir r) (suc n)
        × ((count_signal dir r).total_signals ≡ r.total_signals + 1)
  count_signal-Tallied Direction.none r n h t = (
    record {
      once = let once = t.once in omega arith;
      single = t.single;
      single_wins = t.single_wins;
      in_range = omega arith;
    },
    omega arith,
  )
  count_signal-Tallied Direction.buy r n h t = (
    record {
      once = let once = t.once in omega arith;
      single = t.single;
      single_wins = t.single_wins;
      in_range = omega arith;
    },
    omega arith,
  )
  count_signal-Tallied Direction.sell r n h t = (
    record {
      once = let once = t.once in omega arith;
      single = t.single;
      single_wins = t.single_wins;
      in_range = omega arith;
    },
    omega arith,
  )

  run_engines-InTally :
      (s : Backtest F) (ev : LobEvent)
      → s.result.total_signals + 1 < 2 ^ 64
      → InTally s
      → InTally (run_engines s ev)
        × ((run_engines s ev).result.total_signals ≤ s.result.total_signals + 1)
  unfolding run_engines
  run_engines-InTally s ev h t = elim (Bool-cases (on_event s.engine ev s.book).1) [
    | inl fired ↦
        let sig = (on_event s.engine ev s.book).0.last_signal in
        let (t', more) = count_signal-Tallied sig.direction s.result (length s.pending) h t in
        rw fired (
          subst (Tallied (count_signal sig.direction s.result))
              (omega (arith, length-append s.pending (_ ∷ []))) t',
          omega (arith, more),
        )
    | inr quiet ↦ rw quiet (t, omega arith)
  ]

  settle_due-InTally :
      (s : Backtest F) (ev : LobEvent)
      → InTally s
      → InTally (settle_due s ev)
        × ((settle_due s ev).result.total_signals ≡ s.result.total_signals)
  unfolding settle_due
  settle_due-InTally s ev t =
      let (t', same) =
        settle-Tallied ev.timestamp_ns s.price_history s.pending s.result 0
          (subst (Tallied s.result) (omega arith) t) in
      (
        subst (Tallied (settle ev.timestamp_ns s.price_history s.pending s.result).1) (omega arith)
            t',
        same,
      )

  replay_event-InTally :
      (s : Backtest F) (ev : LobEvent)
      → s.result.total_signals + 1 < 2 ^ 64
      → InTally s
      → InTally (replay_event s ev)
        × ((replay_event s ev).result.total_signals ≤ s.result.total_signals + 1)
  unfolding replay_event
  replay_event-InTally s ev h t =
      let book = (update s.book ev).book in
      let priced = record s { book = book; price_history = add_price s.price_history ev book } in
      let (t', same) = settle_due-InTally priced ev t in
      let (t'', more) = run_engines-InTally (settle_due priced ev) ev (omega arith) t' in
      (t'', omega arith)

  -- As long as the counter of signals cannot wrap, a replay evaluates each signal at most once: wins,
  -- losses and the signals still waiting are together no more than the signals counted, and what is
  -- counted for the second engine is among the signals evaluated, its wins among those.
  pub replay-InTally :
      (s : Backtest F) (evs : List LobEvent)
      → s.result.total_signals + length evs < 2 ^ 64
      → InTally s
      → InTally (replay s evs)
  unfolding replay
  replay-InTally s [] h t = t
  replay-InTally s (ev ∷ evs) h t =
      let (t', more) = replay_event-InTally s ev (omega arith) t in
      replay-InTally (replay_event s ev) evs (omega arith) t'
