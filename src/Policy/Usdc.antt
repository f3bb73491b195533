-- ===== src/Policy/Usdc.antt =====
-- packages/backend/src/services/policy/usdc-spend-policy.ts: the policy of a USDC spend (an x402
-- payment or an escrow budget), one USDC counted as one dollar.
pub mod Exact
use agentfi.Base.{
  ℕ, ◌+◌, Bool, true, false, not, ◌&&◌, Option, none, some, List, [], Text, ltb, if◌then◌else◌, any,
  is_empty,
}
use agentfi.Decimal.{policy_decimal_to_micro}
use agentfi.Policy.{AgentPolicy, is_expired, same_address}

pub record UsdcSpendRequest : Type 0 where
  pub amount : ℕ
  pub token : Text
  pub recipient : Text
  pub spent_today_micro_usd : ℕ
  pub now : ℕ

pub data UsdcSpendRule : Type 0 where
  policy_paused policy_expired max_value_per_tx_usd max_daily_volume allowed_tokens : UsdcSpendRule
  allowed_recipients : UsdcSpendRule

-- A refusal names its rule and the stored limit that refused, where there is one.
pub data UsdcSpendVerdict : Type 0 where
  allowed : UsdcSpendVerdict
  refused : UsdcSpendRule → Option Text → UsdcSpendVerdict

unfoldable pub listed : List Text → Text → Bool
listed list address = any (λ entry. same_address entry address) list

-- An empty list restricts nothing.
unfoldable pub refuses : List Text → Text → Bool
refuses list address = not (is_empty list) && not (listed list address)

-- `perTx !== null && amount > perTx`.
unfoldable pub exceeds : Option ℕ → ℕ → Bool
exceeds none amount = false
exceeds (some limit) amount = ltb limit amount

-- `daily !== null && daily > 0n && total > daily`.
unfoldable pub exceeds_daily : Option ℕ → ℕ → Bool
exceeds_daily none total = false
exceeds_daily (some limit) total = ltb 0 limit && ltb limit total

unfoldable pub evaluate_usdc_row : AgentPolicy → UsdcSpendRequest → UsdcSpendVerdict
evaluate_usdc_row policy request =
    if not policy.active
    then refused policy_paused none
    else if is_expired policy.expires_at request.now
    then refused policy_expired none
    else if refuses policy.allowed_tokens request.token
    then refused allowed_tokens none
    else if refuses policy.allowed_recipients request.recipient
    then refused allowed_recipients none
    else if exceeds (policy_decimal_to_micro (some policy.max_value_per_tx_usd)) request.amount
    then refused max_value_per_tx_usd (some policy.max_value_per_tx_usd)
    else if exceeds_daily (policy_decimal_to_micro (some policy.max_daily_volume_usd))
        (request.spent_today_micro_usd + request.amount)
    then refused max_daily_volume (some policy.max_daily_volume_usd)
    else allowed

-- No policy row, no restriction.
unfoldable pub evaluate_usdc_spend : Option AgentPolicy → UsdcSpendRequest → UsdcSpendVerdict
unfolding evaluate_usdc_row
evaluate_usdc_spend none request = allowed
evaluate_usdc_spend (some policy) request = evaluate_usdc_row policy request
