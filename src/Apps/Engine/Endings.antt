-- ===== src/Apps/Engine/Endings.antt =====
-- How `main` of apps/engine/main.cpp ends, by the step that throws.
use smart_quant.Prelude.{ℕ, ◌≡◌, refl, Bool, true, false, List, [], ◌∷◌, ◌++◌, arith, ◌⊎◌}
use mathlib.Core.List.{append_assoc}
use smart_quant.Apps.{
  Stage, calibrate_clock, make_directories, open_log, make_oms, make_gateway, start_oms,
  start_alpha, start_md, log, order_manager, gateway, thread, Call, stop_md, stop_oms, join,
  flush_log, close_log, exit_success, exit_failure, terminated, all_ok,
}
use smart_quant.Apps.Engine.{stages, housekeeping, run_engine, engine_main}

-- Whether the trading session is stopped by these calls.
abbrev pub stops_oms : List Call → Bool
stops_oms [] = false
stops_oms (stop_oms ∷ cs) = true
stops_oms (_ ∷ cs) = stops_oms cs

-- The steps up to the making of the order manager, and those before the last.
abbrev pub to_oms : List Stage
to_oms = calibrate_clock ∷ make_directories ∷ open_log ∷ make_oms ∷ []

abbrev pub before_md : List Stage
before_md =
    calibrate_clock ∷ make_directories ∷ open_log ∷ make_oms ∷ make_gateway ∷ start_oms
    ∷ start_alpha ∷ []

-- With all its objects made, the engine runs and shuts down.
run_engine_all :
    (seconds : ℕ)
    → let o = run_engine seconds (thread ∷ gateway ∷ order_manager ∷ log ∷ []) in
      (o.calls
        ≡ housekeeping seconds
          ++ stop_md ∷ stop_oms ∷ join ∷ flush_log ∷ stop_md ∷ stop_oms ∷ close_log ∷ [])
      × (o.ending ≡ exit_success)
unfolding run_engine
run_engine_all seconds = (append_assoc (housekeeping seconds) _ _, refl)

-- Whatever the steps of the start-up meet with, the engine ends in one of three ways. If all return,
-- it runs for its seconds, flushing the log in each, then stops the market data session, the trading
-- session and the thread, in this order, flushes, and exits with success. If only the starting of the
-- market data session throws, the process is terminated by the destructor of the thread, and neither
-- session is stopped. Otherwise it exits with failure, and stops the trading session if the order
-- manager was made.
pub engine_main_endings :
    (ok : Stage → Bool) (seconds : ℕ)
    → let o = engine_main ok seconds in
      ((all_ok ok stages ≡ true)
        × (o.calls
            ≡ housekeeping seconds
              ++ stop_md ∷ stop_oms ∷ join ∷ flush_log ∷ stop_md ∷ stop_oms ∷ close_log ∷ [])
        × (o.ending ≡ exit_success))
      ⊎ ((all_ok ok before_md ≡ true)
          × (ok start_md ≡ false)
          × (o.calls ≡ [])
          × (o.ending ≡ terminated))
      ⊎ ((all_ok ok before_md ≡ false)
          × (o.ending ≡ exit_failure)
          × (stops_oms o.calls ≡ all_ok ok to_oms))
unfolding engine_main
engine_main_endings ok seconds = ground (arith, run_engine_all seconds)
