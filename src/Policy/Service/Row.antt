-- ===== src/Policy/Service/Row.antt =====
-- The writes of packages/backend/src/services/policy/policy.service.ts to an agent's policy row.
pub mod Pause
use agentfi.Base.{
  ℕ, Bool, true, false, not, ◌&&◌, Option, none, some, List, [], Text, codes, is_some,
  if◌then◌else◌,
}
use agentfi.Policy.{AgentPolicy, Timestamp, ℤ, pos}
use agentfi.Policy.Authority.{PolicyPatch}

abbrev pub get_or {ℓ} : {A : Type ℓ} → A → Option A → A
get_or old none = old
get_or old (some new) = new

-- The schema's defaults of a new row.
unfoldable pub default_policy : AgentPolicy
default_policy = record {
  max_value_per_tx_eth = codes "1.0";
  max_value_per_tx_usd = codes "1.0";
  max_outflow_per_tx_usd = none;
  max_value_for_auto_approval_eth = codes "0.1";
  max_daily_volume_usd = codes "10000";
  allowed_contracts = [];
  allowed_recipients = [];
  allowed_tokens = [];
  cooldown_seconds = pos 60;
  active = true;
  expires_at = none;
  paused_by_operator_at = none;
}

-- An explicit write of `active` clears the stamp of the operator's pause.
unfoldable pub write_patch : AgentPolicy → PolicyPatch → AgentPolicy
write_patch row patch = record {
  max_value_per_tx_eth = get_or row.max_value_per_tx_eth patch.max_value_per_tx_eth;
  max_value_per_tx_usd = get_or row.max_value_per_tx_usd patch.max_value_per_tx_usd;
  max_outflow_per_tx_usd = get_or row.max_outflow_per_tx_usd patch.max_outflow_per_tx_usd;
  max_value_for_auto_approval_eth = row.max_value_for_auto_approval_eth;
  max_daily_volume_usd = get_or row.max_daily_volume_usd patch.max_daily_volume_usd;
  allowed_contracts = get_or row.allowed_contracts patch.allowed_contracts;
  allowed_recipients = get_or row.allowed_recipients patch.allowed_recipients;
  allowed_tokens = get_or row.allowed_tokens patch.allowed_tokens;
  cooldown_seconds = get_or row.cooldown_seconds patch.cooldown_seconds;
  active = get_or row.active patch.active;
  expires_at = get_or row.expires_at patch.expires_at;
  paused_by_operator_at = if is_some patch.active then none else row.paused_by_operator_at;
}

-- `setPolicy`: an upsert.
unfoldable pub set_policy : Option AgentPolicy → PolicyPatch → AgentPolicy
unfolding write_patch default_policy
set_policy none patch = write_patch default_policy patch
set_policy (some row) patch = write_patch row patch

-- `emergencyPause`.
unfoldable pub emergency_pause : Option AgentPolicy → Option AgentPolicy
emergency_pause none = none
emergency_pause (some row) = some (record row { active = false; paused_by_operator_at = none })

-- `pauseByOperator`: the row, and whether this call deactivated it.
unfoldable pub pause_by_operator : ℕ → Option AgentPolicy → Option AgentPolicy × Bool
pause_by_operator now none = (none, false)
pause_by_operator now (some row) =
    if row.active
    then (some (record row { active = false; paused_by_operator_at = some now }), true)
    else (some row, false)

pub data OperatorResumeOutcome : Type 0 where
  reactivated already_active left_inactive no_policy : OperatorResumeOutcome

-- `resumeByOperator`: one conditional write, then the reason when nothing changed.
unfoldable pub resume_by_operator : Option AgentPolicy → Option AgentPolicy × OperatorResumeOutcome
resume_by_operator none = (none, no_policy)
resume_by_operator (some row) =
    if not row.active && is_some row.paused_by_operator_at
    then (some (record row { active = true; paused_by_operator_at = none }), reactivated)
    else (some row, if row.active then already_active else left_inactive)
