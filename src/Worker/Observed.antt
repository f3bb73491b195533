-- ===== src/Worker/Observed.antt =====
-- The worker's sweep, and its steps in any order, against what may still be told of each transaction.
use agentfi.Base.{
  ℕ, ◌+◌, ◌≤◌, refl, inl, inr, ◌&&◌, ◌||◌, Option, none, some, List, [], ◌∷◌, arith, Bool-cases,
  is_some, leb, take,
}
use agentfi.Volume.{Tx, Db}
use agentfi.Worker.{Env, remove_job, enqueue, World}
use agentfi.Worker.Open.{open_row}
use agentfi.Worker.Process.{process_transaction_job, handle_failed_transaction_job}
use agentfi.Worker.Outcome.{
  wait_for_confirmation, RepollAnswers, RepollOptions, repoll_submitted_transactions,
  submitted_rows,
}
use agentfi.Worker.Stranded.{
  JobState, QueueAnswers, StrandedSweepSummary, requeue, recover_idle, recover_state, recover_row,
  recover_rows, no_row_counted, recover_stranded_queued_transactions, is_live_state,
  is_failed_state, is_given, stranded_rows,
}
use agentfi.Volume.Counted.{Conserves}
use agentfi.Worker.Runs.{
  WorkerStep, deliver, monitor, repoll, give_up_job, recover, run_step, run_steps,
}
use agentfi.Worker.Once.{guard-Calm}
use agentfi.Worker.Calm.{told, Calm, Calm-refl, Calm-trans, quiet-Calm}
use agentfi.Worker.Told.{settle_permanent_failure-Calm, after_guard-Calm}
use agentfi.Worker.Replayed.{observe_found-Calm, repoll_rows-Calm}

requeue-Calm :
    (env : Env) (queue : QueueAnswers) (error id : ℕ) (w : World)
    → Calm w (requeue env queue error id w).0
unfolding requeue
requeue-Calm env queue error id w =
    elim (Bool-cases
      (is_given (env.metadata id).payload_to && is_given (env.metadata id).payload_data)) [
        | inr e ↦ rw (e, requeue) (settle_permanent_failure-Calm env id error w)
        | inl e ↦ elim (Bool-cases (queue.adds id)) [
          | inl f ↦ rw (e, f, requeue) (quiet-Calm (enqueue id) w (λ i. refl) (λ i. refl))
          | inr f ↦ rw (e, f, requeue) (Calm-refl w)
        ]
      ]

recover_idle-Calm :
    (env : Env) (queue : QueueAnswers) (error id : ℕ) (state : JobState) (w : World)
    → Calm w (recover_idle env queue error id state w).0
unfolding recover_idle
recover_idle-Calm env queue error id JobState.completed w = elim (Bool-cases (queue.removes id)) [
  | inl e ↦
      rw (e, recover_idle)
        (Calm-trans (quiet-Calm (remove_job id) w (λ i. refl) (λ i. refl))
          (requeue-Calm env queue error id _))
  | inr e ↦ rw (e, recover_idle) (Calm-refl w)
]
recover_idle-Calm env queue error id JobState.missing w = requeue-Calm env queue error id w
recover_idle-Calm env queue error id _ w = Calm-refl w

recover_state-Calm :
    (env : Env) (queue : QueueAnswers) (error : ℕ) (row : Tx) (o : Option JobState) (w : World)
    → Calm w (recover_state env queue error row o w).0
unfolding recover_state
recover_state-Calm env queue error row none w = Calm-refl w
recover_state-Calm env queue error row (some state) w = elim (Bool-cases (is_live_state state)) [
  | inl e ↦ rw (e, recover_state) (Calm-refl w)
  | inr e ↦ elim (Bool-cases (is_some row.broadcast_attempted_at || is_failed_state state)) [
    | inl f ↦ rw (e, f, recover_state) (settle_permanent_failure-Calm env row.id error w)
    | inr f ↦ rw (e, f, recover_state) (recover_idle-Calm env queue error row.id state w)
  ]
]

recover_row-Calm :
    (env : Env) (queue : QueueAnswers) (error : ℕ) (row : Tx) (w : World)
    → Calm w (recover_row env queue error row w).0
unfolding recover_row
recover_row-Calm env queue error row w = elim (Bool-cases (env.metadata row.id).erc8183) [
  | inl e ↦ rw (e, recover_row) (Calm-refl w)
  | inr e ↦ rw (e, recover_row) (recover_state-Calm env queue error row _ w)
]

recover_rows-Calm :
    (env : Env) (queue : QueueAnswers) (error : ℕ) (rows : List Tx) (w : World)
    (s : StrandedSweepSummary)
    → Calm w (recover_rows env queue error rows w s).0
unfolding recover_rows
recover_rows-Calm env queue error [] w s = Calm-refl w
recover_rows-Calm env queue error (row ∷ rows) w s =
    Calm-trans (recover_row-Calm env queue error row w) (recover_rows-Calm env queue error rows _ _)

fail_job-Calm :
    (env : Env) (made attempts id error : ℕ) (w : World)
    → Calm w (handle_failed_transaction_job env made attempts id error w)
unfolding handle_failed_transaction_job
fail_job-Calm env made attempts id error w = elim (Bool-cases (leb attempts made)) [
  | inl e ↦ rw (e, handle_failed_transaction_job) (settle_permanent_failure-Calm env id error w)
  | inr e ↦ rw (e, handle_failed_transaction_job) (Calm-refl w)
]

repoll-Calm :
    (env : Env) (answers : RepollAnswers) (opts : RepollOptions) (error : ℕ) (w : World)
    → Calm w (repoll_submitted_transactions env answers opts error w)
unfolding repoll_submitted_transactions
repoll-Calm env answers opts error w =
    repoll_rows-Calm env answers opts error
      (take opts.limit (submitted_rows env.now opts.older_than_ms w.db.txs)) w

sweep-Calm :
    (env : Env) (queue : QueueAnswers) (error older_than limit : ℕ) (w : World)
    → Calm w (recover_stranded_queued_transactions env queue error older_than limit w).0
unfolding recover_stranded_queued_transactions
sweep-Calm env queue error older_than limit w =
    let rows = take limit (stranded_rows env older_than w.db.txs) in
    recover_rows-Calm env queue error rows w (no_row_counted rows)

run_step-Calm : (step : WorkerStep) (w : World) → Calm w (run_step step w)
unfolding run_step process_transaction_job wait_for_confirmation repoll_submitted_transactions
    recover_stranded_queued_transactions
run_step-Calm (deliver env lane_env run id seen) w =
    after_guard-Calm lane_env run id w _ (guard-Calm env id seen w)
run_step-Calm (monitor env id polls) w = observe_found-Calm env id _ w
run_step-Calm (repoll env answers opts error) w = repoll-Calm env answers opts error w
run_step-Calm (give_up_job env made attempts id error) w =
    fail_job-Calm env made attempts id error w
run_step-Calm (recover env queue error older_than limit) w =
    sweep-Calm env queue error older_than limit w

pub run_steps-Calm : (steps : List WorkerStep) (w : World) → Calm w (run_steps steps w)
unfolding run_steps
run_steps-Calm [] w = Calm-refl w
run_steps-Calm (step ∷ steps) w =
    Calm-trans (run_step-Calm step w) (run_steps-Calm steps (run_step step w))

open-le : (id : ℕ) (db : Db) → open_row id db ≤ 1
open-le id db = ground arith

-- Over any steps of the worker, on however old reads, the job behind a transaction is told of its
-- outcome at most once, and only with the transaction's row closed.
pub run_steps-told_once :
    (steps : List WorkerStep) (id : ℕ) (db : Db)
    → told id (run_steps steps (record { db = db; calls = [] })).calls
        + open_row id (run_steps steps (record { db = db; calls = [] })).db
      ≤ 1
run_steps-told_once steps id db =
    let w : World = record { db = db; calls = [] } in
    omega (arith, (run_steps-Calm steps w).all id, open-le id db)

-- Any steps of the worker keep the stored volume of each agent and day equal to what the rows
-- count on it.
pub run_steps-Conserves :
    (steps : List WorkerStep) (w : World) (base : ℕ → ℕ → ℕ)
    → Conserves base w.db
    → Conserves base (run_steps steps w).db
run_steps-Conserves steps w = (run_steps-Calm steps w).conserves
