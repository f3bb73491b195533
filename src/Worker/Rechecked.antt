-- ===== src/Worker/Rechecked.antt =====
-- packages/backend/src/services/transaction/pre-submit-guard.ts: what recheckBeforeBroadcast has found
-- where it lets a row through.
use agentfi.Base.{ℕ, ◌≡◌, refl, Bool, true, false, not, ◌&&◌, ◌||◌, Option, none, some, is_some}
use agentfi.Volume.{Tx, Db, find_tx}
use agentfi.Worker.{Env, Metadata, SyncBlock}
use agentfi.Worker.Guard.{escrow_config_deferral, contracts_deferral, deferral_by, deferral}
use agentfi.Worker.Recheck.{
  sync_block, recheck_sync, deferred_send, recheck_row, recheck_before_broadcast,
}
use agentfi.Worker.Vetted.{passes, gate-passes, first_of-none}

-- The row's policy sync, if it is one, still moves the module to the stored policy, and the gates
-- that the row depends on are open.
pub record StillAllowed (env : Env) (id : ℕ) (db : Db) : Type 0 where
  pub row : Tx
  pub found : find_tx id db.txs ≡ some row
  pub not_superseded : sync_block env (env.metadata id) row db (env.metadata id).policy_sync ≡ none
  pub escrow_verified :
      passes
        (not (is_some (env.metadata id).policy_sync) && (env.metadata id).erc8183)
        (env.escrow_config_gate (env.metadata id).chain_id)
      ≡ true
  pub contracts_verified :
      passes
        ((env.metadata id).routed_via_executor || is_some (env.metadata id).policy_sync)
        (env.policy_stack_gate (env.metadata id).chain_id)
      ≡ true

module _ (env : Env) (m : Metadata) where
  deferral-passes :
      (is_sync : Bool)
      → deferral_by env m is_sync ≡ none
      → (passes (not is_sync && m.erc8183) (env.escrow_config_gate m.chain_id) ≡ true)
        × (passes (m.routed_via_executor || is_sync) (env.policy_stack_gate m.chain_id) ≡ true)
  unfolding deferral_by escrow_config_deferral contracts_deferral
  deferral-passes true h =
      (refl, gate-passes (m.routed_via_executor || true) (env.policy_stack_gate m.chain_id) h)
  deferral-passes false h =
      let (p, q) =
        first_of-none (escrow_config_deferral env m) (contracts_deferral env m false) h in
      (
        gate-passes m.erc8183 (env.escrow_config_gate m.chain_id) p,
        gate-passes (m.routed_via_executor || false) (env.policy_stack_gate m.chain_id) q,
      )

  deferred_send-none : (o : Option ℕ) → deferred_send o ≡ none → o ≡ none
  deferred_send-none none h = refl
  deferred_send-none (some delay) h = cc

  recheck-none :
      (o : Option SyncBlock) → recheck_sync env m o ≡ none → (o ≡ none) × (deferral env m ≡ none)
  unfolding recheck_sync
  recheck-none none h = (refl, deferred_send-none (deferral env m) h)
  recheck-none (some why) h = absurd (cc)

pub recheck-StillAllowed :
    (env : Env) (id : ℕ) (db : Db) (t : Tx)
    → find_tx id db.txs ≡ some t
    → recheck_before_broadcast env id db ≡ none
    → StillAllowed env id db
unfolding recheck_before_broadcast recheck_row deferral
recheck-StillAllowed env id db t found h =
    let m = env.metadata id in
    let (sync, open_gates) =
      recheck-none env m (sync_block env m t db m.policy_sync)
        (rw (found, recheck_before_broadcast) at h) in
    let (escrow, contracts) = deferral-passes env m (is_some m.policy_sync) open_gates in
    record {
      row = t;
      found = found;
      not_superseded = sync;
      escrow_verified = escrow;
      contracts_verified = contracts;
    }
