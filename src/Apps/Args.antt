-- ===== src/Apps/Args.antt =====
-- The arguments of the programs in apps, after the program's name. `std::stoi` and `std::stod` are
-- parameters, which give nothing when they throw; no handler is in force where they are called.
use smart_quant.Prelude.{Option, none, some, List, [], ◌∷◌}
use smart_quant.Prelude.Int.{ℤ, pos}
use smart_quant.Prelude.Text.{Text}
use smart_quant.Prelude.Double.{Double}

-- A usage message and a failure, the options, or an exception that leaves `main`.
pub data Started (A : Type 0) : Type 0 where
  usage escaped : Started A
  started : A → Started A

-- "./logs"
abbrev pub default_log_dir : Text
default_log_dir = 46 ∷ 47 ∷ 108 ∷ 111 ∷ 103 ∷ 115 ∷ []

-- "."
abbrev pub default_output_dir : Text
default_output_dir = 46 ∷ []

pub record EngineOptions : Type 0 where
  pub md_cfg : Text
  pub trade_cfg : Text
  pub log_dir : Text
  pub alpha_core : ℤ

abbrev pub engine_options : Text → Text → Text → Option ℤ → Option ℤ → Started EngineOptions
engine_options md_cfg trade_cfg log_dir none md_core = escaped
engine_options md_cfg trade_cfg log_dir (some alpha_core) none = escaped
engine_options md_cfg trade_cfg log_dir (some alpha_core) (some md_core) =
    started (record {
      md_cfg = md_cfg;
      trade_cfg = trade_cfg;
      log_dir = log_dir;
      alpha_core = alpha_core;
    })

-- The last number is read and not used.
unfoldable pub engine_args : (Text → Option ℤ) → List Text → Started EngineOptions
engine_args stoi [] = usage
engine_args stoi (md ∷ []) = usage
engine_args stoi (md ∷ trade ∷ []) =
    engine_options md trade default_log_dir (some (pos 2)) (some (pos 3))
engine_args stoi (md ∷ trade ∷ dir ∷ []) = engine_options md trade dir (some (pos 2)) (some (pos 3))
engine_args stoi (md ∷ trade ∷ dir ∷ core ∷ []) =
    engine_options md trade dir (stoi core) (some (pos 3))
engine_args stoi (md ∷ trade ∷ dir ∷ core ∷ md_core ∷ _) =
    engine_options md trade dir (stoi core) (stoi md_core)

pub record LoggerOptions : Type 0 where
  pub fix_cfg : Text
  pub output_dir : Text

unfoldable pub logger_args : List Text → Started LoggerOptions
logger_args [] = usage
logger_args (cfg ∷ []) = started (record { fix_cfg = cfg; output_dir = default_output_dir })
logger_args (cfg ∷ dir ∷ _) = started (record { fix_cfg = cfg; output_dir = dir })

pub record BacktestOptions (F : Type 0) : Type 0 where
  pub log_path : Text
  pub thresh_delta : F
  pub csv_path : Text

abbrev pub backtest_options : {F : Type 0} → Text → Option F → Text → Started (BacktestOptions F)
backtest_options log_path none csv_path = escaped
backtest_options log_path (some thresh_delta) csv_path =
    started (record { log_path = log_path; thresh_delta = thresh_delta; csv_path = csv_path })

module _ {F : Type 0} ⦃d : Double F⦄ where
  unfoldable pub backtest_args : (Text → Option F) → List Text → Started (BacktestOptions F)
  backtest_args stod [] = usage
  backtest_args stod (log ∷ []) = backtest_options log (some (d.literal 50 1)) []
  backtest_args stod (log ∷ thresh ∷ []) = backtest_options log (stod thresh) []
  backtest_args stod (log ∷ thresh ∷ csv ∷ _) = backtest_options log (stod thresh) csv
