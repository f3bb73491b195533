-- ===== src/Tests/Workers.antt =====
-- The theorems on the transaction worker at sample inputs.
use agentfi.Base.{
  ◌+◌, ◌<◌, ◌≤◌, ◌≡◌, refl, ◌⊎◌, true, false, none, some, List, [], ◌∷◌, codes, arith,
}
use agentfi.Volume
use agentfi.Volume.Settle
use agentfi.Worker
use agentfi.Volume.{Tx, Db, TxStatus, queued, micro_or_zero}
use agentfi.Volume.Counted.{counted, Conserves}
use agentfi.Worker.{Metadata, ChainGate, Env, World, Call}
use agentfi.Worker.Guard.{pre_submit_guard, proceed}
use agentfi.Worker.Process.{SubmitRun, process_transaction_job, settle_permanent_failure}
use agentfi.Worker.Stranded.{JobState, QueueAnswers, recover_row, was_requeued}
use agentfi.Worker.Runs.{WorkerStep, deliver, monitor, give_up_job, run_steps}
use agentfi.Worker.Open.{open_row}
use agentfi.Worker.Calm.{told, last_sent}
use agentfi.Worker.Observed.{run_steps-told_once, run_steps-Conserves}
use agentfi.Worker.Vetted.{broadcasts, IsLive, guard-IsLive}
use agentfi.Worker.Sends.{Sent, process-Sent, after_steps, process-no_second}
use agentfi.Worker.Refunds.{refunds, failure-refunds, pre_submit_guard-refunds}
use agentfi.Worker.Swept.{Requeued, recover_row-Requeued}
use agentfi.Tests.Volumes.{row_one, empty_db}

-- The queued payment of an A2A job.
abbrev queued_payment : Tx
queued_payment = record row_one { status = queued; a2a_payment = true }

abbrev worker_db : Db
worker_db = record empty_db { txs = queued_payment ∷ [] }

-- The same, after a pause of the agent.
abbrev paused_db : Db
paused_db = record worker_db { agent_active = λ a. some false }

abbrev open_gate : ChainGate
open_gate = record { allowed = true; retry_after_seconds = 30 }

abbrev payment_metadata : Metadata
payment_metadata = record {
  chain_id = 1;
  job_id = some 9;
  erc8183 = false;
  routed_via_executor = true;
  binds_agent = false;
  policy_sync = none;
  tx_type = codes "TRANSFER";
  payload_to = some (codes "0xb2");
  payload_data = some (codes "0x");
}

abbrev worker_env : Env
worker_env = record {
  now = 5000;
  metadata = λ id. payment_metadata;
  escrow_config_gate = λ chain. open_gate;
  policy_stack_gate = λ chain. open_gate;
  policy_module = λ chain. none;
  vet_bind = λ job. none;
  safe_address = λ agent. codes "0xA1";
  get_address = λ a. a;
  finalizer_throws = false;
  fees_throw = false;
  text = λ why. 3;
}

-- A submit whose broadcast times out.
abbrev timed_out : SubmitRun
timed_out = record { signed = some 500; returned = none; is_known_transaction = λ hash. none }

-- A later one, once no node knows the first transaction.
abbrev replaced : SubmitRun
replaced = record {
  signed = some 501;
  returned = some 501;
  is_known_transaction = λ hash. some false;
}

abbrev first_delivery : WorkerStep
first_delivery = deliver worker_env worker_env timed_out 1 worker_db

abbrev second_delivery : WorkerStep
second_delivery = deliver worker_env worker_env replaced 1 worker_db

-- Both deliveries, two observers of the receipt, a late failure and a sweep.
abbrev sample_steps : List WorkerStep
sample_steps =
    first_delivery
    ∷ second_delivery
    ∷ monitor worker_env 1 (none ∷ some true ∷ [])
    ∷ monitor worker_env 1 (some true ∷ [])
    ∷ give_up_job worker_env 3 3 1 8
    ∷ []

run_steps-told_once_example :
    told 1 (run_steps sample_steps (record { db = worker_db; calls = [] })).calls
      + open_row 1 (run_steps sample_steps (record { db = worker_db; calls = [] })).db
    ≤ 1
run_steps-told_once_example = run_steps-told_once sample_steps 1 worker_db

worker_db-Conserves : Conserves (λ a d. 0) worker_db
unfolding counted agentfi.Volume.Counted.counts_on
worker_db-Conserves a d = ground arith

run_steps-Conserves_example :
    micro_or_zero ((run_steps sample_steps (record { db = worker_db; calls = [] })).db.volume 1 20)
    ≡ 0 + counted 1 20 (run_steps sample_steps (record { db = worker_db; calls = [] })).db.txs
run_steps-Conserves_example =
    run_steps-Conserves sample_steps (record { db = worker_db; calls = [] }) (λ a d. 0)
      worker_db-Conserves 1 20

first_sent : last_sent 1 (after_steps (first_delivery ∷ []) worker_db).calls ≡ some 500
unfolding run_steps Volume.find_tx Settle.mark_broadcast_attempt
first_sent = refl

first_count : broadcasts (after_steps (first_delivery ∷ []) worker_db).calls ≡ 1
unfolding run_steps Volume.find_tx Settle.mark_broadcast_attempt
first_count = refl

second_count :
    broadcasts
      (process_transaction_job worker_env worker_env replaced 1 worker_db
        (after_steps (first_delivery ∷ []) worker_db)).0.calls
    ≡ 2
unfolding process_transaction_job Volume.find_tx run_steps Settle.mark_broadcast_attempt
    Volume.set_tx
second_count = refl

second_sends :
    broadcasts (after_steps (first_delivery ∷ []) worker_db).calls
    < broadcasts
        (process_transaction_job worker_env worker_env replaced 1 worker_db
          (after_steps (first_delivery ∷ []) worker_db)).0.calls
second_sends = omega (arith, first_count, second_count)

process-no_second_example :
    (replaced.signed ≡ some 500) ⊎ (replaced.is_known_transaction 500 ≡ some false)
process-no_second_example =
    process-no_second (first_delivery ∷ []) worker_db worker_env worker_env replaced 1 worker_db 500
      first_sent second_sends

first_sends :
    0
    < broadcasts
        (process_transaction_job worker_env worker_env timed_out 1 worker_db
          (record { db = worker_db; calls = [] })).0.calls
unfolding process_transaction_job Volume.find_tx Settle.mark_broadcast_attempt
first_sends = omega arith

process-Sent_example :
    Sent worker_env worker_env timed_out 1 worker_db
      (record { db = worker_db; calls = [] })
      (process_transaction_job worker_env worker_env timed_out 1 worker_db
        (record { db = worker_db; calls = [] })).0
process-Sent_example =
    process-Sent worker_env worker_env timed_out 1 worker_db (record { db = worker_db; calls = [] })
      first_sends

failure_refunded :
    refunds 1 (after_steps [] worker_db).calls
    < refunds 1 (settle_permanent_failure worker_env 1 8 (after_steps [] worker_db)).calls
unfolding run_steps settle_permanent_failure Volume.find_tx Worker.finish_failed
failure_refunded = omega arith

failure-refunds_example : last_sent 1 (after_steps [] worker_db).calls ≡ none
failure-refunds_example = failure-refunds [] worker_db worker_env 1 8 failure_refunded

pause_refunded :
    refunds 1 (after_steps [] worker_db).calls
    < refunds 1 (pre_submit_guard worker_env 1 paused_db (after_steps [] worker_db)).0.calls
unfolding run_steps pre_submit_guard Volume.find_tx Worker.finish_failed
pause_refunded = omega arith

pre_submit_guard-refunds_example : last_sent 1 (after_steps [] worker_db).calls ≡ none
pre_submit_guard-refunds_example =
    pre_submit_guard-refunds [] worker_db worker_env 1 paused_db pause_refunded

guarded :
    (pre_submit_guard worker_env 1 worker_db (record { db = worker_db; calls = [] })).1 ≡ proceed
unfolding pre_submit_guard Volume.find_tx
guarded = refl

guard-IsLive_example : IsLive worker_env 1 worker_db
guard-IsLive_example =
    guard-IsLive worker_env 1 worker_db (record { db = worker_db; calls = [] }) refl guarded

-- A queue that lost the job of every row.
abbrev empty_queue : QueueAnswers
empty_queue = record {
  job_state = λ id. some JobState.missing;
  removes = λ id. true;
  adds = λ id. true;
}

requeued :
    (recover_row worker_env empty_queue 8 queued_payment (record { db = worker_db; calls = [] })).1
    ≡ was_requeued
unfolding recover_row
requeued = refl

recover_row-Requeued_example : Requeued worker_env empty_queue queued_payment
recover_row-Requeued_example =
    recover_row-Requeued worker_env empty_queue 8 queued_payment
      (record { db = worker_db; calls = [] }) requeued
