-- ===== src/Worker/Runs.antt =====
-- The transaction worker at work: deliveries, monitors, the re-poll, failures for good and the sweep
-- of stranded rows, one after the other in any order.
use agentfi.Base.{ℕ, Bool, Option, List, [], ◌∷◌}
use agentfi.Volume.{Db}
use agentfi.Worker.{Env, World}
use agentfi.Worker.Process.{SubmitRun, process_transaction_job, handle_failed_transaction_job}
use agentfi.Worker.Outcome.{
  RepollAnswers, RepollOptions, wait_for_confirmation, repoll_submitted_transactions,
}
use agentfi.Worker.Stranded.{QueueAnswers, recover_stranded_queued_transactions}

-- One step, with what it asked and was answered. A delivery may have decided on an older database.
pub data WorkerStep : Type 0 where
  deliver : (env lane_env : Env) (run : SubmitRun) (id : ℕ) (seen : Db) → WorkerStep
  monitor : (env : Env) (id : ℕ) (polls : List (Option Bool)) → WorkerStep
  repoll : (env : Env) (answers : RepollAnswers) (opts : RepollOptions) (error : ℕ) → WorkerStep
  give_up_job : (env : Env) (attempts_made attempts id error : ℕ) → WorkerStep
  recover : (env : Env) (queue : QueueAnswers) (error older_than limit : ℕ) → WorkerStep

unfoldable pub run_step : WorkerStep → World → World
unfolding process_transaction_job wait_for_confirmation repoll_submitted_transactions
    handle_failed_transaction_job recover_stranded_queued_transactions
run_step (deliver env lane_env run id seen) w =
    (process_transaction_job env lane_env run id seen w).0
run_step (monitor env id polls) w = wait_for_confirmation env id polls w
run_step (repoll env answers opts error) w = repoll_submitted_transactions env answers opts error w
run_step (give_up_job env attempts_made attempts id error) w =
    handle_failed_transaction_job env attempts_made attempts id error w
run_step (recover env queue error older_than limit) w =
    (recover_stranded_queued_transactions env queue error older_than limit w).0

unfoldable pub run_steps : List WorkerStep → World → World
unfolding run_step
run_steps [] w = w
run_steps (step ∷ steps) w = run_steps steps (run_step step w)
