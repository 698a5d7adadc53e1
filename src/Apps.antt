-- ===== src/Apps.antt =====
-- The programs in apps: their arguments, how they start and how they end. What a step of the start-up
-- meets with, the seconds that pass and the reading of a number are arguments; what is printed is left
-- out.
pub mod Args
pub mod Engine
pub mod Logger
pub mod Report
mod Tests
use smart_quant.Prelude.{ℕ, ◌+◌, ◌/◌, Bool, true, false, if◌then◌else◌, List, [], ◌∷◌, ◌++◌}
use smart_quant.Prelude.Text.{Text, to_string}

-- "/xauusd_"
abbrev pub text_xauusd : Text
text_xauusd = 47 ∷ 120 ∷ 97 ∷ 117 ∷ 117 ∷ 115 ∷ 100 ∷ 95 ∷ []

-- ".loblog"
abbrev pub text_loblog : Text
text_loblog = 46 ∷ 108 ∷ 111 ∷ 98 ∷ 108 ∷ 111 ∷ 103 ∷ []

-- The log file, named after the second in which it is opened.
unfoldable pub log_path : Text → ℕ → Text
log_path dir now_ns = dir ++ (text_xauusd ++ (to_string (now_ns / 1_000_000_000) ++ text_loblog))

-- The steps of the two `try` blocks that can throw.
pub data Stage : Type 0 where
  calibrate_clock make_directories open_log make_oms make_gateway start_oms start_alpha start_md :
      Stage

-- The local objects whose destructors do something.
pub data Object : Type 0 where
  log order_manager gateway thread : Object

-- What the programs do to the sessions, the thread and the log.
pub data Call : Type 0 where
  stop_md stop_oms join flush_log close_log : Call

pub data Ending : Type 0 where
  exit_success exit_failure terminated : Ending

pub record Outcome : Type 0 where
  pub calls : List Call
  pub ending : Ending

-- The object that a stage leaves on the stack.
abbrev pub pushed : Stage → List Object → List Object
pushed open_log os = log ∷ os
pushed make_oms os = order_manager ∷ os
pushed make_gateway os = gateway ∷ os
pushed start_alpha os = thread ∷ os
pushed _ os = os

abbrev pub calls_then : List Call → Outcome → Outcome
calls_then cs o = record o { calls = cs ++ o.calls }

-- The destructors, last object first. That of a thread that was not joined ends the process.
unfoldable pub destroy : Bool → Ending → List Object → Outcome
destroy joined end [] = record { calls = []; ending = end }
destroy joined end (log ∷ os) = calls_then (close_log ∷ []) (destroy joined end os)
destroy joined end (order_manager ∷ os) = calls_then (stop_oms ∷ []) (destroy joined end os)
destroy joined end (gateway ∷ os) = calls_then (stop_md ∷ []) (destroy joined end os)
destroy true end (thread ∷ os) = destroy true end os
destroy false end (thread ∷ os) = record { calls = []; ending = terminated }

-- The stages in order, up to the first that throws; then the handler returns `EXIT_FAILURE`, after
-- the destructors. If none does, the rest of `main` goes on with the objects there are.
unfoldable pub start_up :
    (Stage → Bool) → List Stage → List Object → (List Object → Outcome) → Outcome
unfolding destroy
start_up ok [] os rest = rest os
start_up ok (g ∷ gs) os rest =
    let others = start_up ok gs (pushed g os) rest in
    if ok g then others else destroy false exit_failure os

-- All of these steps return.
abbrev pub all_ok : (Stage → Bool) → List Stage → Bool
all_ok ok [] = true
all_ok ok (g ∷ gs) = if ok g then all_ok ok gs else false
