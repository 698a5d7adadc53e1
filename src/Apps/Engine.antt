-- ===== src/Apps/Engine.antt =====
-- `main` of apps/engine/main.cpp: the start-up, the seconds of housekeeping and the shutdown.
pub mod Endings
use smart_quant.Prelude.{
  ℕ, zero, suc, ◌≡◌, refl, Bool, true, false, ◌&&◌, if◌then◌else◌, List, [], ◌∷◌, ◌++◌, arith, ◌⊎◌,
  inl, inr,
}
use smart_quant.Apps.{
  Stage, calibrate_clock, make_directories, open_log, make_oms, make_gateway, start_oms,
  start_alpha, start_md, Object, Call, stop_md, stop_oms, join, flush_log, close_log, Ending,
  exit_success, exit_failure, terminated, Outcome, calls_then, destroy, start_up,
}

abbrev pub stages : List Stage
stages =
    calibrate_clock ∷ make_directories ∷ open_log ∷ make_oms ∷ make_gateway ∷ start_oms
    ∷ start_alpha ∷ start_md ∷ []

-- The main loop, for the seconds until a signal arrives.
unfoldable pub housekeeping : ℕ → List Call
housekeeping zero = []
housekeeping (suc n) = flush_log ∷ housekeeping n

-- The shutdown, and the destructors with the thread joined.
unfoldable pub run_engine : ℕ → List Object → Outcome
unfolding housekeeping destroy
run_engine seconds os =
    calls_then (housekeeping seconds ++ stop_md ∷ stop_oms ∷ join ∷ flush_log ∷ [])
      (destroy true exit_success os)

-- `ok` says of each step whether it returns, and `seconds` is how long the engine runs.
unfoldable pub engine_main : (Stage → Bool) → ℕ → Outcome
unfolding start_up run_engine
engine_main ok seconds = start_up ok stages [] (run_engine seconds)
