-- ===== src/Apps/Logger.antt =====
-- `main` of apps/logger/main.cpp: the same start-up without a trading session, and a loop that gives
-- up when the gateway's authentication failed.
use smart_quant.Prelude.{
  ℕ, zero, suc, ◌≡◌, refl, ap, ◌∙◌, Bool, true, false, if◌then◌else◌, List, [], ◌∷◌, ◌++◌,
  replicate, arith,
}
use mathlib.Core.List.{append_assoc}
use smart_quant.Apps.{
  Stage, calibrate_clock, make_directories, open_log, make_gateway, start_md, Object, log, gateway,
  Call, stop_md, flush_log, close_log, exit_success, Outcome, calls_then, destroy, start_up, all_ok,
}

abbrev pub stages : List Stage
stages = calibrate_clock ∷ make_directories ∷ open_log ∷ make_gateway ∷ start_md ∷ []

-- The main loop: what `auth_failed` gives in each second until a signal arrives.
unfoldable pub watch : List Bool → List Call
watch [] = []
watch (failed ∷ rest) = let others = watch rest in flush_log ∷ (if failed then [] else others)

unfoldable pub run_logger : List Bool → List Object → Outcome
unfolding watch destroy
run_logger readings os =
    calls_then (watch readings ++ stop_md ∷ flush_log ∷ []) (destroy true exit_success os)

unfoldable pub logger_main : (Stage → Bool) → List Bool → Outcome
unfolding start_up run_logger
logger_main ok readings = start_up ok stages [] (run_logger readings)

watch_failure :
    (n : ℕ) (rest : List Bool)
    → watch (replicate n false ++ true ∷ rest) ≡ replicate (suc n) flush_log
unfolding watch
watch_failure zero rest = refl
watch_failure (suc n) rest = ap (λ cs. flush_log ∷ cs) (watch_failure n rest)

run_logger_failure :
    (n : ℕ) (rest : List Bool)
    → let o = run_logger (replicate n false ++ true ∷ rest) (gateway ∷ log ∷ []) in
      (o.calls ≡ replicate (suc n) flush_log ++ stop_md ∷ flush_log ∷ stop_md ∷ close_log ∷ [])
      × (o.ending ≡ exit_success)
unfolding run_logger
run_logger_failure n rest = (
  append_assoc (watch (replicate n false ++ true ∷ rest)) _ _
      ∙ ap (λ cs. cs ++ stop_md ∷ flush_log ∷ stop_md ∷ close_log ∷ []) (watch_failure n rest),
  refl,
)

-- If the steps of the start-up return and the authentication is seen to have failed after `n` seconds
-- in which it had not, then whatever would have followed the logger flushes its log in each of these
-- `n + 1` seconds and no more, stops the session, flushes and closes the log, and exits with success.
pub logger_auth_failure :
    (ok : Stage → Bool) (n : ℕ) (rest : List Bool)
    → all_ok ok stages ≡ true
    → let o = logger_main ok (replicate n false ++ true ∷ rest) in
      (o.calls ≡ replicate (suc n) flush_log ++ stop_md ∷ flush_log ∷ stop_md ∷ close_log ∷ [])
      × (o.ending ≡ exit_success)
unfolding logger_main
logger_auth_failure ok n rest h = ground (arith, run_logger_failure n rest)
