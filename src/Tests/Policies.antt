-- ===== src/Tests/Policies.antt =====
-- The theorems on policies, decimals and prices at sample inputs.
use agentfi.Base.{
  ℕ, ◌≡◌, ◌≢◌, ◌↔◌, ◌⊎◌, ◌≤◌, ◌+◌, ◌*◌, refl, inl, inr, Bool, true, false, not, Option, none, some,
  List, [], ◌∷◌, Text, codes, split, length, arith, lower, trim, text_eq, if◌then◌else◌,
}
use agentfi.Decimal
use agentfi.Decimal.{
  dot, is_policy_decimal, policy_decimal_to_micro, usd_text_to_micro_ceil, micro_to_usd6,
  fraction_part,
}
use agentfi.Decimal.Rounding.{IsFloor, IsCeil, numerator, scale, policy_decimal_to_micro-IsFloor}
use agentfi.Decimal.Trim.{usd_text_to_micro_ceil_lem}
use agentfi.Decimal.Print.{usd_text_to_micro_ceil-micro_to_usd6}
use agentfi.Policy
use agentfi.Policy.{AgentPolicy, pos}
use agentfi.Policy.Usdc
use agentfi.Policy.Usdc.{UsdcSpendRequest, evaluate_usdc_row, evaluate_usdc_spend}
use agentfi.Policy.Usdc.Exact.{Permits, evaluate_usdc_row_iff}
use agentfi.Policy.Authority
use agentfi.Policy.Authority.{PolicyPatch, classify_policy_change}
use agentfi.Policy.Service
use agentfi.Policy.Service.{TransactionParams, Reads, validate_transaction, PolicyValidationResult}
use agentfi.Policy.Service.Row.{set_policy}
use agentfi.Policy.Tighten.Usdc.{CleanLists, evaluate_usdc_spend-tightens}
use agentfi.Policy.Tighten.Transaction.{Assumptions, validate_transaction-tightens}
use agentfi.Policy.Outflow
use agentfi.Policy.Outflow.{judge_outflow_cap}
use agentfi.Policy.Outflow.Cap.{DecimalLe, judge_outflow_cap_exact}
use agentfi.Policy.Pricing.{
  oracle, synthetic, SpendPricing, priced, zero_spend, unpriced, UnpricedReason, counted_usd,
  sum_spend_pricings,
}
use agentfi.Policy.Pricing.Sum.{
  AddsUp, FirstUnpriced, is_unpriced, prevailing, sum_spend_pricings_total,
}
use agentfi.Policy.Pricing.{price_source_of}
use agentfi.Policy.Service.Row
use agentfi.Policy.Service.Row.{resume_by_operator, reactivated}
use agentfi.Policy.Service.Row.Pause.{PausedLast, pauses, run, resume_by_operator_reactivated}
use agentfi.Tests.{
  micro_floats, micro_floats-OrderLaws, plain_address, plain_address-ChecksumLaw, token_a, token_b,
  sample_policy,
}

abbrev sample_spend : UsdcSpendRequest
sample_spend = record {
  amount = 5_000_000;
  token = token_a;
  recipient = token_b;
  spent_today_micro_usd = 1_000_000;
  now = 7;
}

-- A patch that lowers the daily limit and drops a token.
abbrev narrower : PolicyPatch
narrower = record {
  max_value_per_tx_eth = none;
  max_value_per_tx_usd = none;
  max_outflow_per_tx_usd = none;
  max_daily_volume_usd = some (codes "30");
  allowed_contracts = none;
  allowed_recipients = none;
  allowed_tokens = some (token_a ∷ []);
  cooldown_seconds = none;
  active = none;
  expires_at = none;
}

trimmed_a : trim token_a ≡ token_a
unfolding trim
trimmed_a = refl

trimmed_b : trim token_b ≡ token_b
unfolding trim
trimmed_b = refl

narrower-CleanLists : CleanLists sample_policy narrower
narrower-CleanLists = record {
  tokens = (trimmed_a, (trimmed_b, tt));
  recipients = tt;
  new_tokens = (trimmed_a, tt);
  new_recipients = tt;
}

narrower_tightens :
    (classify_policy_change micro_floats (some sample_policy) narrower).tightens ≡ true
unfolding classify_policy_change Authority.loosens_float agentfi.Policy.Floats.parse_policy_decimal
    is_policy_decimal Decimal.decimal_shape split Decimal.digits1 Decimal.is_digit
    Decimal.fixed_point Decimal.fixed_parts Decimal.big_int Authority.loosens_at
    Authority.whitelist_loosens Authority.admits trim agentfi.Base.lower_unit
narrower_tightens = refl

evaluate_usdc_spend-tightens_example :
    evaluate_usdc_spend (some sample_policy) sample_spend ≡ Usdc.UsdcSpendVerdict.allowed
unfolding evaluate_usdc_spend set_policy Usdc.refuses Usdc.listed agentfi.Base.lower_unit
    Usdc.exceeds policy_decimal_to_micro is_policy_decimal Decimal.decimal_shape split
    Decimal.digits1 Decimal.is_digit Decimal.fixed_point Decimal.fixed_parts Decimal.big_int
    Usdc.exceeds_daily
evaluate_usdc_spend-tightens_example =
    evaluate_usdc_spend-tightens micro_floats sample_policy narrower sample_spend narrower_tightens
      narrower-CleanLists refl

abbrev sample_params : TransactionParams
sample_params = record {
  target_contract = token_b;
  recipient = some token_b;
  token_address = some token_a;
  value_eth = codes "0.5";
  value_usd = some (codes "3.5");
  pricing = none;
  outflow = false;
  last_tx_timestamp = none;
  daily_volume_accounted = false;
}

abbrev sample_reads : Reads
sample_reads = record { now = 7; x402_today_micro = 500_000; committed = some (codes "20.000001") }

sample_daily_value :
    policy_decimal_to_micro (some sample_policy.max_daily_volume_usd) ≡ some 50_500_000
unfolding policy_decimal_to_micro is_policy_decimal Decimal.decimal_shape split Decimal.digits1
    Decimal.is_digit Decimal.fixed_point Decimal.fixed_parts Decimal.big_int
sample_daily_value = refl

plain_a : plain_address token_a ≡ some token_a
unfolding trim agentfi.Base.lower_unit
plain_a = refl

plain_b : plain_address token_b ≡ some token_b
unfolding trim agentfi.Base.lower_unit
plain_b = refl

narrowed_allows :
    validate_transaction micro_floats plain_address
      (some (set_policy (some sample_policy) narrower))
      sample_params
      sample_reads
    ≡ some (PolicyValidationResult.allowed false)
unfolding validate_transaction Service.checks set_policy agentfi.Policy.Floats.parse_policy_decimal
    is_policy_decimal Decimal.decimal_shape split Decimal.digits1 Decimal.is_digit
    Decimal.fixed_point Decimal.fixed_parts Decimal.big_int trim agentfi.Base.lower_unit
    Service.cooldown_left usd_text_to_micro_ceil policy_decimal_to_micro agentfi.Base.is_space
    agentfi.Base.trim_start Decimal.big_int_from Decimal.ceil_parts Decimal.ceil_trimmed
    Decimal.has_nonzero agentfi.Policy.Floats.above agentfi.Policy.Floats.is_positive
    Outflow.judge_cap_field Outflow.judge_capped judge_outflow_cap Outflow.judge_priced counted_usd
    Row.default_policy Row.write_patch Service.cooldown_check Service.daily_check
    Service.get_addresses Service.list_check Service.needs_approval Service.outflow_check
    Service.recipient_refused Service.token_check Service.total_check
narrowed_allows = refl

at_the_cap :
    judge_outflow_cap (some sample_policy) (some (priced (codes "10.25") oracle))
    ≡ some Outflow.OutflowCapVerdict.allowed
unfolding judge_outflow_cap policy_decimal_to_micro is_policy_decimal Decimal.decimal_shape split
    Decimal.digits1 Decimal.is_digit usd_text_to_micro_ceil trim Decimal.fixed_point
    Decimal.fixed_parts Decimal.big_int Decimal.ceil_parts Decimal.has_nonzero
at_the_cap = refl

ten_decimal : is_policy_decimal (codes "10.25") ≡ true
unfolding is_policy_decimal Decimal.decimal_shape split Decimal.digits1 Decimal.is_digit
ten_decimal = refl

seven_decimals : is_policy_decimal (codes "0.1234567") ≡ true
unfolding is_policy_decimal Decimal.decimal_shape split Decimal.digits1 Decimal.is_digit
seven_decimals = refl

resumed : (resume_by_operator (run (some sample_policy) (pauses 9 ∷ []))).1 ≡ reactivated
unfolding resume_by_operator run agentfi.Policy.Service.Row.Pause.write
resumed = refl

sample_daily : policy_decimal_to_micro (some sample_policy.max_daily_volume_usd) ≢ some 0
sample_daily h = cc (h, sample_daily_value)

sample-Assumptions : Assumptions micro_floats plain_address sample_policy
sample-Assumptions = record {
  order = micro_floats-OrderLaws;
  checksum = plain_address-ChecksumLaw;
  contracts = tt;
  tokens = ((token_a, plain_a), ((token_b, plain_b), tt));
  daily = inl sample_daily;
}

validate_transaction-tightens_example :
    validate_transaction micro_floats plain_address (some sample_policy) sample_params sample_reads
    ≡ some (PolicyValidationResult.allowed false)
validate_transaction-tightens_example =
    validate_transaction-tightens micro_floats plain_address sample_policy narrower sample_params
      sample_reads false sample-Assumptions narrower_tightens narrowed_allows

evaluate_usdc_row_iff_example :
    (evaluate_usdc_row sample_policy sample_spend ≡ Usdc.UsdcSpendVerdict.allowed)
    ↔ Permits sample_policy sample_spend
evaluate_usdc_row_iff_example = evaluate_usdc_row_iff sample_policy sample_spend

judge_outflow_cap_exact_example : DecimalLe (codes "10.25") (codes "10.25")
judge_outflow_cap_exact_example =
    judge_outflow_cap_exact sample_policy (codes "10.25") (codes "10.25") oracle refl ten_decimal
      ten_decimal at_the_cap

-- A testnet spend, an oracle's spend and nothing.
abbrev sample_parts : List SpendPricing
sample_parts =
    priced (codes "1.000001") synthetic ∷ zero_spend ∷ priced (codes "2.5000001") oracle ∷ []

sum_spend_pricings_total_example :
    ((m : ℕ) × AddsUp sample_parts m
      × (is_unpriced (sum_spend_pricings sample_parts) ≡ false)
      × (usd_text_to_micro_ceil (some (counted_usd (sum_spend_pricings sample_parts))) ≡ some m)
      × (price_source_of (sum_spend_pricings sample_parts) ≡ prevailing sample_parts))
    ⊎ ((r : UnpricedReason) × FirstUnpriced sample_parts r
        × (sum_spend_pricings sample_parts ≡ unpriced r))
sum_spend_pricings_total_example = sum_spend_pricings_total sample_parts

policy_decimal_to_micro-IsFloor_example :
    (m : ℕ) × (policy_decimal_to_micro (some (codes "0.1234567")) ≡ some m)
    × IsFloor m
        (numerator (split dot (codes "0.1234567")) * 1_000_000)
        (scale (split dot (codes "0.1234567")))
policy_decimal_to_micro-IsFloor_example =
    policy_decimal_to_micro-IsFloor (codes "0.1234567") seven_decimals

usd_text_to_micro_ceil_lem_example :
    (m : ℕ) × (usd_text_to_micro_ceil (some (codes "0.1234567")) ≡ some m)
    × IsCeil m
        (numerator (split dot (codes "0.1234567")) * 1_000_000)
        (scale (split dot (codes "0.1234567")))
usd_text_to_micro_ceil_lem_example = usd_text_to_micro_ceil_lem (codes "0.1234567") seven_decimals

usd_text_to_micro_ceil-micro_to_usd6_example :
    (usd_text_to_micro_ceil (some (micro_to_usd6 12_000_034)) ≡ some 12_000_034)
    × (policy_decimal_to_micro (some (micro_to_usd6 12_000_034)) ≡ some 12_000_034)
usd_text_to_micro_ceil-micro_to_usd6_example = usd_text_to_micro_ceil-micro_to_usd6 12_000_034

resume_by_operator_reactivated_example : PausedLast (some sample_policy) (pauses 9 ∷ [])
resume_by_operator_reactivated_example =
    resume_by_operator_reactivated (some sample_policy) (pauses 9 ∷ []) refl resumed
