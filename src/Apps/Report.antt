-- ===== src/Apps/Report.antt =====
-- What apps/backtest/main.cpp reports at its end: the lines of the CSV file, and the difference of the
-- two win rates that it prints.
use smart_quant.Prelude.{ℕ, Option, none, some, List, [], ◌∷◌, length}
use smart_quant.Prelude.Text.{Text}
use smart_quant.Prelude.Double.{Double}
use smart_quant.Types.{LobEvent}
use smart_quant.Backtest.{BacktestResult, win_rate, sf_win_rate, avg_move, begin, replay}
use smart_quant.Apps.Args.{BacktestOptions}

pub data Metric : Type 0 where
  records total_signals buy_signals sell_signals wins losses win_rate_pct sf_wins sf_total
        sf_win_rate_pct avg_move_ticks :
      Metric

pub data Value (F : Type 0) : Type 0 where
  number : ℕ → Value F
  rate : F → Value F

module _ {F : Type 0} ⦃d : Double F⦄ where
  -- The lines after the heading.
  unfoldable pub csv_rows : ℕ → BacktestResult F → List (Metric × Value F)
  unfolding win_rate sf_win_rate avg_move
  csv_rows rec r =
      (records, number rec)
      ∷ (total_signals, number r.total_signals)
      ∷ (buy_signals, number r.buy_signals)
      ∷ (sell_signals, number r.sell_signals)
      ∷ (wins, number r.wins)
      ∷ (losses, number r.losses)
      ∷ (win_rate_pct, rate (win_rate r))
      ∷ (sf_wins, number r.sf_wins)
      ∷ (sf_total, number r.sf_total)
      ∷ (sf_win_rate_pct, rate (sf_win_rate r))
      ∷ (avg_move_ticks, rate (avg_move r))
      ∷ []

  -- "Dual vs single improvement"
  unfoldable pub improvement : BacktestResult F → F
  unfolding win_rate sf_win_rate
  improvement r = d.sub (win_rate r) (sf_win_rate r)

  abbrev pub csv_at : Text → ℕ → BacktestResult F → Option (List (Metric × Value F))
  csv_at [] rec r = none
  csv_at (_ ∷ _) rec r = some (csv_rows rec r)

  -- No file is written without a path.
  unfoldable pub csv_of :
      BacktestOptions F → ℕ → BacktestResult F → Option (List (Metric × Value F))
  csv_of o rec r = csv_at o.csv_path rec r

  -- The whole of `main` once the log is open: the replay of its events, and the file written.
  unfoldable pub backtest_main :
      BacktestOptions F → List LobEvent → Option (List (Metric × Value F))
  unfolding begin replay csv_of
  backtest_main o evs = csv_of o (length evs) (replay (begin o.thresh_delta) evs).result
