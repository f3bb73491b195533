-- ===== src/Policy/Outflow.antt =====
-- packages/backend/src/services/policy/outflow-cap.ts: the dollar cap on ordinary outflows.
pub mod Cap
use agentfi.Base.{ℕ, Bool, true, false, Option, none, some, List, [], ◌∷◌, Text, ltb, if◌then◌else◌}
use agentfi.Decimal.{policy_decimal_to_micro, usd_text_to_micro_ceil}
use agentfi.Policy.{AgentPolicy}
use agentfi.Policy.Pricing.{SpendPricing, priced, zero_spend, unpriced}

pub data OutflowCode : Type 0 where
  usd_cap_not_configured price_unavailable policy_violation : OutflowCode

-- A refusal carries its code and the stored cap, where one is configured.
pub data OutflowCapVerdict : Type 0 where
  allowed : OutflowCapVerdict
  refused : OutflowCode → Option Text → OutflowCapVerdict

-- The comparison of a priced outflow; `none` is the exception on an unreadable price.
unfoldable pub judge_priced : Text → ℕ → Text → Option OutflowCapVerdict
judge_priced raw cap usd = elim (usd_text_to_micro_ceil (some usd)) [
  | none ↦ none
  | some micro ↦ some (if ltb cap micro then refused policy_violation (some raw) else allowed)
]

-- An outflow with no pricing counts as unpriced.
unfoldable pub judge_capped : Text → Option ℕ → Option SpendPricing → Option OutflowCapVerdict
unfolding judge_priced
judge_capped raw none pricing = some allowed
judge_capped raw (some cap) none = some (refused price_unavailable (some raw))
judge_capped raw (some cap) (some (unpriced reason)) = some (refused price_unavailable (some raw))
judge_capped raw (some cap) (some (priced usd source)) = judge_priced raw cap usd
judge_capped raw (some cap) (some zero_spend) = some allowed

unfoldable pub judge_cap_field : Option Text → Option SpendPricing → Option OutflowCapVerdict
unfolding judge_capped
judge_cap_field none pricing = some (refused usd_cap_not_configured none)
judge_cap_field (some raw) pricing = judge_capped raw (policy_decimal_to_micro (some raw)) pricing

abbrev pub is_zero_spend : Option SpendPricing → Bool
is_zero_spend (some zero_spend) = true
is_zero_spend (some (priced usd source)) = false
is_zero_spend (some (unpriced reason)) = false
is_zero_spend none = false

-- No policy row, or nothing that flows out: nothing to cap.
unfoldable pub judge_outflow_cap :
    Option AgentPolicy → Option SpendPricing → Option OutflowCapVerdict
unfolding judge_cap_field
judge_outflow_cap none pricing = some allowed
judge_outflow_cap (some policy) pricing =
    if is_zero_spend pricing
    then some allowed
    else judge_cap_field policy.max_outflow_per_tx_usd pricing
