-- ===== src/Worker/Recheck.antt =====
-- packages/backend/src/services/transaction/pre-submit-guard.ts: the validation after the signature.
use agentfi.Base.{ℕ, Option, none, some}
use agentfi.Volume.{Tx, Db, find_tx}
use agentfi.Worker.{Metadata, QueuedSync, SyncBlock, Env}
use agentfi.Worker.Guard.{policy_sync_block_reason, deferral}

-- `recheckBeforeBroadcast`.
pub data BroadcastRecheck : Type 0 where
  send_superseded : SyncBlock → BroadcastRecheck
  send_deferred : (delay_ms : ℕ) → BroadcastRecheck

abbrev pub deferred_send : Option ℕ → Option BroadcastRecheck
deferred_send none = none
deferred_send (some delay) = some (send_deferred delay)

-- Why the stored policy has moved past a row's policy sync, if it is one.
unfoldable pub sync_block : Env → Metadata → Tx → Db → Option QueuedSync → Option SyncBlock
unfolding policy_sync_block_reason
sync_block env m t db none = none
sync_block env m t db (some sync) =
    policy_sync_block_reason env m.chain_id t.agent (db.agent_active t.agent) (db.policy t.agent)
      sync

unfoldable pub recheck_sync : Env → Metadata → Option SyncBlock → Option BroadcastRecheck
unfolding deferral
recheck_sync env m (some why) = some (send_superseded why)
recheck_sync env m none = deferred_send (deferral env m)

unfoldable pub recheck_row : Env → Metadata → Tx → Db → Option BroadcastRecheck
unfolding sync_block recheck_sync
recheck_row env m t db = recheck_sync env m (sync_block env m t db m.policy_sync)

unfoldable pub recheck_before_broadcast : Env → ℕ → Db → Option BroadcastRecheck
unfolding recheck_row
recheck_before_broadcast env id db = elim (find_tx id db.txs) [
  | none ↦ none
  | some t ↦ recheck_row env (env.metadata id) t db
]
