-- ===== src/Worker.antt =====
-- packages/backend/src/queues/transaction.processor.ts and services/transaction/pre-submit-guard.ts:
-- what the transaction worker reads and what it does. The database is that of daily-volume.ts; what
-- the worker does outside of it is a log, the newest first.
pub mod Guard
pub mod Open
pub mod Settled
pub mod Stops
pub mod Runs
pub mod Calm
pub mod Once
pub mod Told
pub mod Replayed
pub mod Observed
pub mod Vetted
pub mod Recheck
pub mod Rechecked
pub mod Resolved
pub mod Sends
pub mod Refunds
pub mod Swept
pub mod Process
pub mod Outcome
pub mod Stranded
use agentfi.Base.{
  ℕ, ◌*◌, Bool, true, false, not, ◌&&◌, ◌||◌, Option, none, some, List, [], ◌∷◌, Text, is_some,
  if◌then◌else◌,
}
use agentfi.Sync.{Problem}
use agentfi.Sync.Superseded.{PolicySyncMetadata, Supersession}
use agentfi.Volume.{Tx, Db, TxStatus, failed}
use agentfi.Volume.Settle.{
  update_where, is_queued, settle_volume_after_failure, stop_stamped_transaction, StampedStop,
  handed_to_chain, stopped_failed, not_queued,
}

-- `metadata.policySync`, with the module that it was queued for.
pub record QueuedSync : Type 0 where
  pub call : PolicySyncMetadata
  pub sync_module : Text

-- What the worker reads of a row's `metadata` and chain. The A2A flag is the row's own.
pub record Metadata : Type 0 where
  pub chain_id : ℕ
  pub job_id : Option ℕ
  pub erc8183 : Bool
  pub routed_via_executor : Bool
  pub binds_agent : Bool  -- `escrowStep === 'bindAgent'`
  pub policy_sync : Option QueuedSync
  pub tx_type : Text
  pub payload_to : Option Text  -- of `queuePayload`
  pub payload_data : Option Text

pub record ChainGate : Type 0 where
  pub allowed : Bool
  pub retry_after_seconds : ℕ

pub data SyncBlock : Type 0 where
  no_policy : SyncBlock
  other_module : SyncBlock
  not_storable : List Problem → SyncBlock
  superseded : Supersession → SyncBlock

-- Why a row is blocked before its submission.
pub data BlockReason : Type 0 where
  paused : BlockReason
  expired : BlockReason
  sync_blocked : SyncBlock → BlockReason
  bind_skipped : ℕ → BlockReason

-- What the worker asks besides the database: the clock, the metadata of the rows, the gates of a
-- chain's verified configuration, the configured module, the vet of a bind, the checksum of an
-- address, and whether the finalizers and the fee service throw. `text` is the wording of an error.
pub record Env : Type 0 where
  pub now : ℕ
  pub metadata : ℕ → Metadata
  pub escrow_config_gate : ℕ → ChainGate
  pub policy_stack_gate : ℕ → ChainGate
  pub policy_module : ℕ → Option Text
  pub vet_bind : ℕ → Option ℕ
  pub safe_address : ℕ → Text
  pub get_address : Text → Text
  pub finalizer_throws : Bool
  pub fees_throw : Bool
  pub text : BlockReason → ℕ

-- What is done outside the database, for a transaction: its signed hash is broadcast, the job of an
-- A2A payment is finalized, an escrow step is told its outcome, the fees are counted, its finished
-- queue job is removed, a job is added for it.
pub data Call : Type 0 where
  broadcast : (id hash : ℕ) → Call
  finalize_a2a : (id job : ℕ) (confirmed : Bool) → Call
  escrow_outcome : (id : ℕ) (status : TxStatus) → Call
  count_fees : (id : ℕ) → Call
  remove_job : (id : ℕ) → Call
  enqueue : (id : ℕ) → Call

pub record World : Type 0 where
  pub db : Db
  pub calls : List Call

abbrev pub log_call : Call → World → World
log_call c w = record w { calls = c ∷ w.calls }

abbrev pub never_stamped : Tx → Bool
never_stamped t = is_queued t.status && not (is_some t.broadcast_attempted_at)

abbrev pub never_stamped_unsent : Tx → Bool
never_stamped_unsent t = never_stamped t && not (is_some t.tx_hash)

abbrev pub fail_row : ℕ → ℕ → Tx → Tx
fail_row now err t = record t { status = failed; error = some err; updated_at = now }

-- After the conditional write: its answer, or the stop of the row as it is.
unfoldable pub or_stop : ℕ → ℕ → ℕ → Db × Bool → Db × StampedStop
or_stop now id err (db, true) = (db, stopped_failed false)
or_stop now id err (db, false) = stop_stamped_transaction now id err true db

-- A row that is not to be sent: FAILED where it was never stamped, by the condition given; else
-- handed to the chain, FAILED where no hash can be handed over, or left where it is not QUEUED.
unfoldable pub stop_or_hand : (Tx → Bool) → ℕ → ℕ → ℕ → Db → Db × StampedStop
unfolding update_where or_stop
stop_or_hand condition now id err db =
    or_stop now id err (update_where id condition (fail_row now err) db)

-- The volume of a row that has failed.
unfoldable pub settle_failed : (now id : ℕ) → World → World
settle_failed now id w = record w { db = (settle_volume_after_failure now id w.db).0 }

abbrev pub tell_escrow : Bool → ℕ → TxStatus → World → World
tell_escrow erc8183 id status w = if erc8183 then log_call (escrow_outcome id status) w else w

-- The job behind a row that has failed: an A2A payment is refunded unless an attempt of it was
-- stamped; an escrow step is told.
unfoldable pub finish_failed : ℕ → Option ℕ → (a2a attempted erc8183 : Bool) → World → World
finish_failed id (some job) true attempted erc8183 w =
    if attempted then w else log_call (finalize_a2a id job false) w
finish_failed id (some job) false attempted erc8183 w = tell_escrow erc8183 id failed w
finish_failed id none a2a attempted erc8183 w = tell_escrow erc8183 id failed w

-- Whether that calls a finalizer.
unfoldable pub tells_failed : Option ℕ → (a2a attempted erc8183 : Bool) → Bool
tells_failed (some job) true attempted erc8183 = not attempted
tells_failed (some job) false attempted erc8183 = erc8183
tells_failed none a2a attempted erc8183 = erc8183
