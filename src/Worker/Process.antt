-- ===== src/Worker/Process.antt =====
-- packages/backend/src/queues/transaction.processor.ts: one delivery of a transaction job, and the
-- settlement of a job that has failed for good.
use agentfi.Base.{ℕ, Bool, true, false, ◌||◌, Option, none, some, ◌==◌, opt_eq, if◌then◌else◌, leb}
use agentfi.Volume.{Tx, Db, submitted, find_tx}
use agentfi.Volume.Settle.{
  update_where, is_unsent, mark_broadcast_attempt, StampedStop, handed_to_chain, stopped_failed,
  not_queued,
}
use agentfi.Worker.{
  SyncBlock, BlockReason, sync_blocked, Env, broadcast, World, log_call, never_stamped,
  never_stamped_unsent, stop_or_hand, settle_failed, finish_failed,
}
use agentfi.Worker.Guard.{
  SkipReason, PreSubmitDecision, proceed, skip, fail, defer, pre_submit_guard,
}
use agentfi.Worker.Recheck.{
  BroadcastRecheck, send_superseded, send_deferred, recheck_before_broadcast,
}

-- The submit of one delivery: the hash of what was signed, unless it threw before; the hash that the
-- broadcast returned, unless it threw; and whether any node knows an earlier transaction, unless
-- that could not be told.
pub record SubmitRun : Type 0 where
  pub signed : Option ℕ
  pub returned : Option ℕ
  pub is_known_transaction : ℕ → Option Bool

-- How the hook before the broadcast ends: the stamp is written, or it throws.
pub data HookResult : Type 0 where
  stamped : Db → HookResult
  earlier_live : ℕ → HookResult
  hook_superseded : SyncBlock → HookResult
  hook_deferred : ℕ → HookResult
  aborted : HookResult

-- `refuseIfEarlierBroadcastLive`: `none` goes on.
unfoldable pub live_answer : ℕ → Option Bool → Option HookResult
live_answer earlier none = some aborted
live_answer earlier (some true) = some (earlier_live earlier)
live_answer earlier (some false) = none

unfoldable pub earlier_broadcast : SubmitRun → ℕ → Option ℕ → Option HookResult
unfolding live_answer
earlier_broadcast run signed none = none
earlier_broadcast run signed (some earlier) =
    if earlier == signed then none else live_answer earlier (run.is_known_transaction earlier)

abbrev pub stamped_hash : Option Tx → Option ℕ
stamped_hash none = none
stamped_hash (some t) = t.broadcast_tx_hash

unfoldable pub refuse_if_earlier_broadcast_live : SubmitRun → ℕ → ℕ → Db → Option HookResult
unfolding earlier_broadcast
refuse_if_earlier_broadcast_live run id signed db =
    earlier_broadcast run signed (stamped_hash (find_tx id db.txs))

-- `none` is a stamp that is refused: the hook throws.
abbrev pub stamp_result : Option Db → HookResult
stamp_result none = aborted
stamp_result (some db) = stamped db

unfoldable pub hook_recheck : Env → ℕ → ℕ → Db → Option BroadcastRecheck → HookResult
hook_recheck env id signed db (some (send_superseded why)) = hook_superseded why
hook_recheck env id signed db (some (send_deferred delay)) = hook_deferred delay
hook_recheck env id signed db none =
    stamp_result (mark_broadcast_attempt env.now id (some signed) db)

unfoldable pub hook_from : Env → ℕ → ℕ → Db → Option HookResult → HookResult
unfolding hook_recheck recheck_before_broadcast
hook_from env id signed db (some refused) = refused
hook_from env id signed db none = hook_recheck env id signed db (recheck_before_broadcast env id db)

-- `onBeforeBroadcast`.
unfoldable pub on_before_broadcast : Env → SubmitRun → ℕ → ℕ → Db → HookResult
unfolding hook_from refuse_if_earlier_broadcast_live
on_before_broadcast env run id signed db =
    hook_from env id signed db (refuse_if_earlier_broadcast_live run id signed db)

pub data TransactionJobResult : Type 0 where
  sent : (hash : ℕ) (monitored : Bool) → TransactionJobResult
  skipped : SkipReason → TransactionJobResult
  blocked : BlockReason → TransactionJobResult
  deferred : (delay_ms : ℕ) → TransactionJobResult
  threw : TransactionJobResult

abbrev pub as_submitted : ℕ → ℕ → Tx → Tx
as_submitted now hash t = record t { status = submitted; tx_hash = some hash; updated_at = now }

abbrev pub tx_hash_of : Option Tx → Option ℕ
tx_hash_of none = none
tx_hash_of (some t) = t.tx_hash

-- The one write of SUBMITTED with its hash, and whether the row is to be observed.
unfoldable pub record_submitted : Env → ℕ → ℕ → World → World × TransactionJobResult
unfolding update_where
record_submitted env id hash w =
    let (db, written) = update_where id is_unsent (as_submitted env.now hash) w.db in
    (
      record w { db = db },
      sent hash (written || opt_eq (tx_hash_of (find_tx id db.txs)) (some hash)),
    )

-- A policy sync that the stored policy has moved past in the lane.
unfoldable pub stop_superseded : Env → ℕ → SyncBlock → World → World × TransactionJobResult
unfolding stop_or_hand
stop_superseded env id why w = (
  record w {
    db = (stop_or_hand never_stamped_unsent env.now id (env.text (sync_blocked why)) w.db).0;
  },
  blocked (sync_blocked why),
)

-- What follows the hook. After the stamp the signed transaction is sent, whatever the send answers.
unfoldable pub after_hook :
    Env → SubmitRun → ℕ → ℕ → World → HookResult → World × TransactionJobResult
unfolding record_submitted stop_superseded
after_hook env run id signed w (stamped db) =
    let out = log_call (broadcast id signed) (record w { db = db }) in
    elim run.returned [ some hash ↦ record_submitted env id hash out | none ↦ (out, threw) ]
after_hook env run id signed w (earlier_live hash) = record_submitted env id hash w
after_hook env run id signed w (hook_superseded why) = stop_superseded env id why w
after_hook env run id signed w (hook_deferred delay) = (w, deferred delay)
after_hook env run id signed w aborted = (w, threw)

unfoldable pub submit_row : Env → SubmitRun → ℕ → World → Option ℕ → World × TransactionJobResult
unfolding after_hook on_before_broadcast
submit_row env run id w none = (w, threw)
submit_row env run id w (some signed) =
    after_hook env run id signed w (on_before_broadcast env run id signed w.db)

unfoldable pub after_guard :
    Env → SubmitRun → ℕ → World × PreSubmitDecision → World × TransactionJobResult
unfolding submit_row
after_guard env run id (w, proceed) = submit_row env run id w run.signed
after_guard env run id (w, skip why) = (w, skipped why)
after_guard env run id (w, fail why finalizer_error) = (w, blocked why)
after_guard env run id (w, defer delay) = (w, deferred delay)

-- `processTransactionJob` up to the monitor. The guard asks `env` about the database `seen`; what the
-- hook asks may have changed by then, `lane_env`. The hook and the send run inside the wallet's lane.
unfoldable pub process_transaction_job :
    Env → Env → SubmitRun → ℕ → (seen : Db) → World → World × TransactionJobResult
unfolding after_guard pre_submit_guard
process_transaction_job env lane_env run id seen w =
    after_guard lane_env run id (pre_submit_guard env id seen w)

abbrev pub a2a_of : Option Tx → Bool
a2a_of none = false
a2a_of (some t) = t.a2a_payment

unfoldable pub after_stop : Env → ℕ → Bool → World → Db × StampedStop → World
after_stop env id a2a w (db, not_queued) = record w { db = db }
after_stop env id a2a w (db, handed_to_chain hash) = record w { db = db }
after_stop env id a2a w (db, stopped_failed attempted) =
    finish_failed id (env.metadata id).job_id a2a attempted (env.metadata id).erc8183
      (settle_failed env.now id (record w { db = db }))

-- `settlePermanentFailure`.
unfoldable pub settle_permanent_failure : Env → ℕ → (error : ℕ) → World → World
unfolding after_stop stop_or_hand
settle_permanent_failure env id error w =
    after_stop env id (a2a_of (find_tx id w.db.txs)) w
      (stop_or_hand never_stamped env.now id error w.db)

-- `handleFailedTransactionJob`: on the last attempt only.
unfoldable pub handle_failed_transaction_job :
    Env → (attempts_made attempts : ℕ) → ℕ → (error : ℕ) → World → World
unfolding settle_permanent_failure
handle_failed_transaction_job env attempts_made attempts id error w =
    if leb attempts attempts_made then settle_permanent_failure env id error w else w
