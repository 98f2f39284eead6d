-- ===== src/Examples/Running.antt =====
-- A run in which the server cannot listen, and what the service does then.
use april_homework.Common.{ℕ, ◌≤◌, ◌≡◌, refl, List, [], ◌∷◌, Text, codes, none, some, true, false}
use april_homework.Service.{
  Returned, waiting, shutting, stopped, Run, run_start, listen_failed, RunStep, listen_returns,
  shutdown_begins, shutdown_returns, RunSteps, here, next, listen_result, group_return, IsReturned,
}
use april_homework.Service.Lifecycle.{run_returns}

abbrev pub in_use : Text
in_use = codes "address already in use"

abbrev pub failed : Run
failed = record { listening = false; phase = waiting; cancelled = true; error = some in_use }

abbrev pub all_over : Run
all_over = record failed { phase = stopped }

listening_failed : RunSteps run_start 1 (in_use ∷ []) failed
unfolding run_start listen_result group_return
listening_failed =
    next here (listen_returns (listen_failed in_use) refl (λ h. cc) refl refl) refl refl

abbrev closing : Run
closing = record failed { phase = shutting }

shut : RunStep closing none all_over
unfolding group_return
shut = shutdown_returns refl refl

pub all_ended : RunSteps run_start 3 (in_use ∷ []) all_over
all_ended =
    next (next listening_failed (shutdown_begins refl refl refl refl) refl refl) shut refl refl

run_returns_example :
    (1 ≤ 4)
    × (true ≡ false → (false ≡ true) × (waiting ≡ waiting) × ((in_use ∷ []) ≡ []))
    × (true ≡ true → (m : ℕ) × (fs : List Text) × (t : Run) × RunSteps failed m fs t × IsReturned t)
run_returns_example = run_returns 1 (in_use ∷ []) failed listening_failed

-- Run returned the error of the listener.
abbrev pub failed_run : Returned
failed_run = record {
  steps = 3;
  errors = in_use ∷ [];
  end = all_over;
  run = all_ended;
  returned = (refl, refl);
}
