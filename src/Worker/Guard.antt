-- ===== src/Worker/Guard.antt =====
-- packages/backend/src/services/transaction/pre-submit-guard.ts: the last validation of a queued
-- transaction before it is signed.
use agentfi.Base.{
  ℕ, ◌*◌, Bool, true, false, not, ◌&&◌, ◌||◌, Option, none, some, Text, is_some, if◌then◌else◌,
  lower, text_eq, is_empty,
}
use agentfi.Policy.{AgentPolicy, is_expired}
use agentfi.Sync.{DesiredPolicyResult, ok, not_ok, DbPolicyInput, desired_on_chain_policy}
use agentfi.Sync.Superseded.{superseded_reason, Supersession}
use agentfi.Volume.{Tx, Db, TxStatus, failed, find_tx}
use agentfi.Volume.Settle.{is_unsent, StampedStop, handed_to_chain, stopped_failed, not_queued}
use agentfi.Worker.{
  Metadata, QueuedSync, ChainGate, SyncBlock, no_policy, other_module, not_storable, superseded,
  BlockReason, paused, expired, sync_blocked, bind_skipped, Env, escrow_outcome, World, log_call,
  never_stamped_unsent, stop_or_hand, settle_failed, finish_failed, tells_failed,
}

pub data SkipReason : Type 0 where
  not_found : SkipReason
  already_left : TxStatus → Option ℕ → SkipReason
  left_meanwhile : SkipReason
  left_to_chain : ℕ → SkipReason

-- `PreSubmitDecision`. A failure says whether the finalizer threw.
pub data PreSubmitDecision : Type 0 where
  proceed : PreSubmitDecision
  skip : SkipReason → PreSubmitDecision
  fail : BlockReason → (finalizer_error : Bool) → PreSubmitDecision
  defer : (delay_ms : ℕ) → PreSubmitDecision

abbrev pub gate_delay : ChainGate → Option ℕ
gate_delay gate = if gate.allowed then none else some (gate.retry_after_seconds * 1000)

unfoldable pub escrow_config_deferral : Env → Metadata → Option ℕ
escrow_config_deferral env m =
    if m.erc8183 then gate_delay (env.escrow_config_gate m.chain_id) else none

unfoldable pub contracts_deferral : Env → Metadata → (is_policy_sync : Bool) → Option ℕ
contracts_deferral env m is_policy_sync =
    if m.routed_via_executor || is_policy_sync
    then gate_delay (env.policy_stack_gate m.chain_id)
    else none

abbrev pub first_of : Option ℕ → Option ℕ → Option ℕ
first_of none o = o
first_of (some d) o = some d

-- The deferral of a policy sync, or of any other row.
unfoldable pub deferral_by : Env → Metadata → (is_policy_sync : Bool) → Option ℕ
unfolding escrow_config_deferral contracts_deferral
deferral_by env m true = contracts_deferral env m true
deferral_by env m false = first_of (escrow_config_deferral env m) (contracts_deferral env m false)

unfoldable pub deferral : Env → Metadata → Option ℕ
unfolding deferral_by
deferral env m = deferral_by env m (is_some m.policy_sync)

abbrev pub is_active : Option Bool → Bool
is_active none = false
is_active (some b) = b

unfoldable pub policy_block : ℕ → Option AgentPolicy → Option BlockReason
policy_block now none = none
policy_block now (some policy) =
    if not policy.active
    then some paused
    else if is_expired policy.expires_at now
    then some expired
    else none

unfoldable pub resolve_block_reason : ℕ → Option Bool → Option AgentPolicy → Option BlockReason
unfolding policy_block
resolve_block_reason now agent_active policy =
    if is_active agent_active then policy_block now policy else some paused

-- The module that a chain is configured with, where it is the given one.
unfoldable pub is_configured : Text → Option Text → Bool
is_configured sync_module none = false
is_configured sync_module (some configured) =
    not (is_empty configured) && text_eq (lower configured) (lower sync_module)

abbrev pub block_of : Option Supersession → Option SyncBlock
block_of none = none
block_of (some why) = some (superseded why)

unfoldable pub derived_block : QueuedSync → DesiredPolicyResult → Option SyncBlock
unfolding superseded_reason
derived_block sync (ok desired) = block_of (superseded_reason sync.call desired)
derived_block sync (not_ok problems) = some (not_storable problems)

-- `select` of the agent and its policy, as the sync derives from it.
abbrev pub policy_input : Env → ℕ → Bool → AgentPolicy → DbPolicyInput
policy_input env agent agent_active policy = record {
  safe_address = env.safe_address agent;
  agent_active = agent_active;
  policy = record {
    max_value_per_tx_eth = policy.max_value_per_tx_eth;
    cooldown_seconds = policy.cooldown_seconds;
    active = policy.active;
    expires_at = policy.expires_at;
    allowed_contracts = policy.allowed_contracts;
    allowed_tokens = policy.allowed_tokens;
  };
}

unfoldable pub policy_sync_block_reason :
    Env → ℕ → ℕ → Option Bool → Option AgentPolicy → QueuedSync → Option SyncBlock
unfolding is_configured derived_block desired_on_chain_policy
policy_sync_block_reason env chain agent agent_active none sync = some no_policy
policy_sync_block_reason env chain agent agent_active (some policy) sync =
    if is_configured sync.sync_module (env.policy_module chain)
    then derived_block sync (
        desired_on_chain_policy env.get_address
          (policy_input env agent (is_active agent_active) policy))
    else some other_module

abbrev pub sync_reason : Option SyncBlock → Option BlockReason
sync_reason none = none
sync_reason (some why) = some (sync_blocked why)

-- Why the row is blocked: a policy sync by the stored policy, any other by a pause or an expiry.
unfoldable pub block_by : Env → Metadata → Tx → Db → Option QueuedSync → Option BlockReason
unfolding policy_sync_block_reason resolve_block_reason
block_by env m t db (some sync) = sync_reason (
    policy_sync_block_reason env m.chain_id t.agent (db.agent_active t.agent) (db.policy t.agent)
      sync)
block_by env m t db none =
    resolve_block_reason env.now (db.agent_active t.agent) (db.policy t.agent)

unfoldable pub block_reason : Env → Metadata → Tx → Db → Option BlockReason
unfolding block_by
block_reason env m t db = block_by env m t db m.policy_sync

-- What follows the stop of a blocked row.
unfoldable pub after_block :
    Env → ℕ → BlockReason → Bool → World → Db × StampedStop → World × PreSubmitDecision
after_block env id reason a2a w (db, not_queued) = (record w { db = db }, skip left_meanwhile)
after_block env id reason a2a w (db, handed_to_chain h) =
    (record w { db = db }, skip (left_to_chain h))
after_block env id reason a2a w (db, stopped_failed attempted) =
    let m = env.metadata id in
    (
      finish_failed id m.job_id a2a attempted m.erc8183
          (settle_failed env.now id (record w { db = db })),
      fail reason (tells_failed m.job_id a2a attempted m.erc8183 && env.finalizer_throws),
    )

unfoldable pub block_row : Env → ℕ → BlockReason → Bool → World → World × PreSubmitDecision
unfolding after_block stop_or_hand
block_row env id reason a2a w =
    after_block env id reason a2a w
      (stop_or_hand never_stamped_unsent env.now id (env.text reason) w.db)

-- A bind that is skipped: its volume is left alone, and the escrow is told.
unfoldable pub after_skipped_bind :
    Env → ℕ → BlockReason → World → Db × StampedStop → World × PreSubmitDecision
after_skipped_bind env id reason w (db, not_queued) = (record w { db = db }, skip left_meanwhile)
after_skipped_bind env id reason w (db, handed_to_chain h) =
    (record w { db = db }, skip (left_to_chain h))
after_skipped_bind env id reason w (db, stopped_failed attempted) =
    (log_call (escrow_outcome id failed) (record w { db = db }), fail reason env.finalizer_throws)

unfoldable pub skip_bind : Env → ℕ → BlockReason → World → World × PreSubmitDecision
unfolding after_skipped_bind stop_or_hand
skip_bind env id reason w =
    after_skipped_bind env id reason w
      (stop_or_hand never_stamped_unsent env.now id (env.text reason) w.db)

-- Why a bind is not to be sent, where the row is one of a job.
unfoldable pub bind_reason : Env → Metadata → Option ℕ
bind_reason env m = elim m.job_id [
  | none ↦ none
  | some job ↦ if m.binds_agent then env.vet_bind job else none
]

-- A row that is not blocked and not deferred.
unfoldable pub last_vet : Env → ℕ → Metadata → World → World × PreSubmitDecision
unfolding bind_reason skip_bind
last_vet env id m w = if is_some m.policy_sync then (w, proceed) else elim (bind_reason env m) [
  | none ↦ (w, proceed)
  | some why ↦ skip_bind env id (bind_skipped why) w
]

unfoldable pub vet_row :
    Env → ℕ → Metadata → Option BlockReason → Option ℕ → Bool → World → World × PreSubmitDecision
unfolding last_vet block_row
vet_row env id m (some reason) delay a2a w = block_row env id reason a2a w
vet_row env id m none (some delay) a2a w = (w, defer delay)
vet_row env id m none none a2a w = last_vet env id m w

unfoldable pub guard_row : Env → ℕ → Db → Option Tx → World → World × PreSubmitDecision
unfolding vet_row block_reason deferral
guard_row env id seen none w = (w, skip not_found)
guard_row env id seen (some t) w =
    let m = env.metadata id in
    if is_unsent t
    then vet_row env id m (block_reason env m t seen) (deferral env m) t.a2a_payment w
    else (w, skip (already_left t.status t.tx_hash))

-- `preSubmitGuard`: it decides on the database that it has read, and writes to the one of `w`,
-- which other processes may have changed since.
unfoldable pub pre_submit_guard : Env → ℕ → (seen : Db) → World → World × PreSubmitDecision
unfolding guard_row
pre_submit_guard env id seen w = guard_row env id seen (find_tx id seen.txs) w
