-- ===== src/Worker/Stranded.antt =====
-- packages/backend/src/services/transaction/stranded-queued.ts: the sweep of rows that are QUEUED
-- without a job that will run.
use agentfi.Base.{
  ℕ, ◌+◌, Bool, true, false, not, ◌&&◌, ◌||◌, Option, none, some, List, [], ◌∷◌, Text, codes,
  text_eq, leb, if◌then◌else◌, is_some, is_empty, any, take, length,
}
use agentfi.Volume.{Tx}
use agentfi.Volume.Settle.{is_unsent, insert_by_age}
use agentfi.Worker.{Env, remove_job, enqueue, World, log_call}
use agentfi.Worker.Process.{settle_permanent_failure}

unfoldable pub swept_types : List Text
swept_types =
    codes "SWAP"
    ∷ codes "TRANSFER"
    ∷ codes "DEPOSIT"
    ∷ codes "WITHDRAW"
    ∷ codes "APPROVE"
    ∷ codes "BATCH"
    ∷ codes "GMX_OPEN"
    ∷ codes "GMX_CLOSE"
    ∷ []

-- The state of a row's BullMQ job, `missing` where there is none.
pub data JobState : Type 0 where
  waiting wait active delayed prioritized waiting_children paused : JobState
  completed failed unknown missing : JobState

-- `LIVE_STATES`.
unfoldable pub is_live_state : JobState → Bool
is_live_state completed = false
is_live_state failed = false
is_live_state unknown = false
is_live_state missing = false
is_live_state _ = true

abbrev pub is_failed_state : JobState → Bool
is_failed_state failed = true
is_failed_state _ = false

pub record StrandedSweepSummary : Type 0 where
  pub scanned : ℕ
  pub live : ℕ
  pub requeued : ℕ
  pub settled : ℕ
  pub left_alone : ℕ
  pub errors : ℕ

-- The queue's answers: the state of a row's job, unless it throws; whether a removal, and whether
-- the build and the addition of a job, succeed.
pub record QueueAnswers : Type 0 where
  pub job_state : ℕ → Option JobState
  pub removes : ℕ → Bool
  pub adds : ℕ → Bool

-- What is done with one row.
pub data RowOutcome : Type 0 where
  is_live was_requeued was_settled was_left had_error : RowOutcome

unfoldable pub count_row : RowOutcome → StrandedSweepSummary → StrandedSweepSummary
count_row is_live s = record s { live = s.live + 1 }
count_row was_requeued s = record s { requeued = s.requeued + 1 }
count_row was_settled s = record s { settled = s.settled + 1 }
count_row was_left s = record s { left_alone = s.left_alone + 1 }
count_row had_error s = record s { errors = s.errors + 1 }

-- A text that is there and not empty.
abbrev pub is_given : Option Text → Bool
is_given none = false
is_given (some s) = not (is_empty s)

-- A row without a job: added again, or failed where its job cannot be rebuilt.
unfoldable pub requeue : Env → QueueAnswers → (error id : ℕ) → World → World × RowOutcome
requeue env queue error id w =
    let m = env.metadata id in
    if is_given m.payload_to && is_given m.payload_data
    then if queue.adds id then (log_call (enqueue id) w, was_requeued) else (w, had_error)
    else (settle_permanent_failure env id error w, was_settled)

-- By the state of a job that is not live.
unfoldable pub recover_idle :
    Env → QueueAnswers → (error id : ℕ) → JobState → World → World × RowOutcome
unfolding requeue
recover_idle env queue error id completed w =
    if queue.removes id
    then requeue env queue error id (log_call (remove_job id) w)
    else (w, had_error)
recover_idle env queue error id missing w = requeue env queue error id w
recover_idle env queue error id _ w = (w, was_left)

unfoldable pub recover_state :
    Env → QueueAnswers → (error : ℕ) → Tx → Option JobState → World → World × RowOutcome
unfolding recover_idle is_live_state
recover_state env queue error row none w = (w, had_error)
recover_state env queue error row (some state) w =
    if is_live_state state
    then (w, is_live)
    else if is_some row.broadcast_attempted_at || is_failed_state state
    then (settle_permanent_failure env row.id error w, was_settled)
    else recover_idle env queue error row.id state w

unfoldable pub recover_row : Env → QueueAnswers → (error : ℕ) → Tx → World → World × RowOutcome
unfolding recover_state
recover_row env queue error row w =
    if (env.metadata row.id).erc8183
    then (w, was_left)
    else recover_state env queue error row (queue.job_state row.id) w

unfoldable pub is_stranded : Env → (older_than : ℕ) → Tx → Bool
unfolding swept_types
is_stranded env older_than t =
    is_unsent t
    && (any (text_eq (env.metadata t.id).tx_type) swept_types && leb t.updated_at older_than)

unfoldable pub stranded_rows : Env → (older_than : ℕ) → List Tx → List Tx
unfolding is_stranded insert_by_age
stranded_rows env older_than [] = []
stranded_rows env older_than (t ∷ ts) =
    let rest = stranded_rows env older_than ts in
    if is_stranded env older_than t then insert_by_age t rest else rest

unfoldable pub recover_rows :
    Env
    → QueueAnswers
    → (error : ℕ) → List Tx
    → World
    → StrandedSweepSummary
    → World × StrandedSweepSummary
unfolding recover_row count_row
recover_rows env queue error [] w s = (w, s)
recover_rows env queue error (row ∷ rows) w s =
    let (w', how) = recover_row env queue error row w in
    recover_rows env queue error rows w' (count_row how s)

abbrev pub no_row_counted : List Tx → StrandedSweepSummary
no_row_counted rows = record {
  scanned = length rows;
  live = 0;
  requeued = 0;
  settled = 0;
  left_alone = 0;
  errors = 0;
}

-- `recoverStrandedQueuedTransactions`.
unfoldable pub recover_stranded_queued_transactions :
    Env → QueueAnswers → (error older_than limit : ℕ) → World → World × StrandedSweepSummary
unfolding recover_rows stranded_rows
recover_stranded_queued_transactions env queue error older_than limit w =
    let rows = take limit (stranded_rows env older_than w.db.txs) in
    recover_rows env queue error rows w (no_row_counted rows)
