-- ===== src/Apps/Tests.antt =====
-- Runs of the programs in apps, and their theorems at them.
use smart_quant.Prelude.{◌≡◌, refl, Bool, true, false, Option, none, [], ◌∷◌, ◌++◌, ◌⊎◌}
use smart_quant.Prelude.Int.{ℤ, pos}
use smart_quant.Prelude.Text.{Text, to_string, decimal}
use smart_quant.Apps.{
  Stage, start_md, stop_md, stop_oms, join, flush_log, close_log, exit_success, exit_failure,
  terminated, all_ok, log_path,
}
use smart_quant.Apps.Args.{engine_args, started, usage, escaped}
use smart_quant.Apps.Engine
use smart_quant.Apps.Engine.{engine_main, housekeeping}
use smart_quant.Apps.Engine.Endings.{engine_main_endings, stops_oms, before_md, to_oms}
use smart_quant.Apps.Logger.{logger_main}

-- "./xauusd_12.loblog"
log_path_value :
    log_path (46 ∷ []) 12_345_678_901
    ≡ 46 ∷ 47 ∷ 120 ∷ 97 ∷ 117 ∷ 117 ∷ 115 ∷ 100 ∷ 95 ∷ 49 ∷ 50 ∷ 46 ∷ 108 ∷ 111 ∷ 98 ∷ 108 ∷ 111
      ∷ 103 ∷ []
unfolding log_path to_string decimal
log_path_value = refl

-- A number that cannot be read, and one that is not given.
no_number : Text → Option ℤ
no_number s = none

engine_args_values :
    (engine_args no_number ((1 ∷ []) ∷ []) ≡ usage)
    × (engine_args no_number ((1 ∷ []) ∷ (2 ∷ []) ∷ [] ∷ (120 ∷ []) ∷ []) ≡ escaped)
    × (engine_args no_number ((1 ∷ []) ∷ (2 ∷ []) ∷ (3 ∷ []) ∷ [])
        ≡ started
            (record { md_cfg = 1 ∷ []; trade_cfg = 2 ∷ []; log_dir = 3 ∷ []; alpha_core = pos 2 }))
unfolding engine_args no_number
engine_args_values = (refl, refl, refl)

abbrev all_but_md : Stage → Bool
all_but_md start_md = false
all_but_md _ = true

abbrev all_return : Stage → Bool
all_return _ = true

engine_main_endings_example :
    let o = engine_main all_but_md 3 in
    ((all_ok all_but_md Engine.stages ≡ true)
      × (o.calls
          ≡ housekeeping 3
            ++ stop_md ∷ stop_oms ∷ join ∷ flush_log ∷ stop_md ∷ stop_oms ∷ close_log ∷ [])
      × (o.ending ≡ exit_success))
    ⊎ ((all_ok all_but_md before_md ≡ true)
        × (all_but_md start_md ≡ false)
        × (o.calls ≡ [])
        × (o.ending ≡ terminated))
    ⊎ ((all_ok all_but_md before_md ≡ false)
        × (o.ending ≡ exit_failure)
        × (stops_oms o.calls ≡ all_ok all_but_md to_oms))
engine_main_endings_example = engine_main_endings all_but_md 3

-- Two good seconds, and the failure; the last reading is not made.
logger_value :
    (logger_main all_return (false ∷ false ∷ true ∷ false ∷ [])).calls
    ≡ flush_log ∷ flush_log ∷ flush_log ∷ stop_md ∷ flush_log ∷ stop_md ∷ close_log ∷ []
unfolding logger_main
logger_value = refl
