-- ===== src/Policy/Service.antt =====
-- packages/backend/src/services/policy/policy.service.ts: the check of a proposed transaction and
-- the writes to the policy row. The row is an `Option`: an agent may have none.
pub mod Row
use agentfi.Base.{
  ℕ, ◌+◌, ◌-◌, ◌/◌, Bool, true, false, not, ◌&&◌, ◌||◌, Option, none, some, List, [], ◌∷◌, Text,
  ltb, ◌==◌, if◌then◌else◌, any, is_empty, is_some, text_eq, lower, trim,
}
use agentfi.Decimal.{policy_decimal_to_micro, usd_text_to_micro_ceil}
use agentfi.Policy.{AgentPolicy, is_expired, ℤ, pos, negsuc}
use agentfi.Policy.Floats.{Floats, parse_policy_decimal, above, is_positive}
use agentfi.Policy.Pricing.{SpendPricing, priced, zero_spend, unpriced, counted_usd}
use agentfi.Policy.Outflow.{OutflowCode, judge_outflow_cap}
use agentfi.Policy.Outflow

pub record TransactionParams : Type 0 where
  pub target_contract : Text
  pub recipient : Option Text
  pub token_address : Option Text
  pub value_eth : Text
  pub value_usd : Option Text
  pub pricing : Option SpendPricing
  pub outflow : Bool
  pub last_tx_timestamp : Option ℕ
  pub daily_volume_accounted : Bool

-- What the check reads beside the policy: the clock, in milliseconds, what x402 payments committed
-- today, and the stored daily volume.
pub record Reads : Type 0 where
  pub now : ℕ
  pub x402_today_micro : ℕ
  pub committed : Option Text

pub data Refusal : Type 0 where
  policy_paused policy_expired value_over_limit contract_not_listed : Refusal
  recipient_not_listed token_not_listed price_unavailable daily_limit : Refusal
  outflow_refused : OutflowCode → Option Text → Refusal
  cooldown_active : ℕ → Refusal

pub data PolicyValidationResult : Type 0 where
  allowed : (requires_approval : Bool) → PolicyValidationResult
  refused : Refusal → PolicyValidationResult

-- One check: an exception, a refusal, or nothing to object.
abbrev pub Check : Type 0
Check = Option (Option Refusal)

abbrev pub pass : Check
pass = some none

infixl 5 ◌>>◌
abbrev pub ◌>>◌ : Check → Check → Check
none >> next = none
some (some refusal) >> next = some (some refusal)
some none >> next = next

abbrev pub refuse_if : Bool → Refusal → Check
refuse_if true refusal = some (some refusal)
refuse_if false refusal = some none

-- Seconds left of a cooldown: `elapsed < cooldown`, where the elapsed time may be negative.
unfoldable pub cooldown_left : ℤ → Option ℕ → ℕ → Option ℕ
cooldown_left (negsuc n) last now_s = none
cooldown_left (pos n) none now_s = none
cooldown_left (pos n) (some last) now_s =
    if not (last == 0) && ltb 0 n && ltb now_s (last + n) then some (last + n - now_s) else none

unfoldable pub cooldown_check : Option ℕ → Check
cooldown_check none = pass
cooldown_check (some left) = some (some (cooldown_active left))

-- The recipients are compared trimmed and in lower case, with no checksum; an absent or empty
-- recipient is not checked.
unfoldable pub recipient_refused : List Text → Option Text → Bool
recipient_refused list none = false
recipient_refused list (some []) = false
recipient_refused list (some (c ∷ r)) =
    not (is_empty list) && not (any (λ entry. text_eq (lower (trim entry)) (lower (c ∷ r))) list)

unfoldable pub outflow_check : Bool → AgentPolicy → Option SpendPricing → Check
outflow_check false policy pricing = pass
outflow_check true policy pricing = elim (judge_outflow_cap (some policy) pricing) [
  | none ↦ none
  | some Outflow.OutflowCapVerdict.allowed ↦ pass
  | some (Outflow.OutflowCapVerdict.refused code limit) ↦ some (some (outflow_refused code limit))
]

-- What the request would add to the day.
abbrev pub incoming_usd : Option SpendPricing → Option Text → Option Text
incoming_usd (some pricing) value_usd = some (counted_usd pricing)
incoming_usd none (some usd) = some usd
incoming_usd none none = some (b'0' ∷ [])

abbrev pub is_unpriced : Option SpendPricing → Bool
is_unpriced none = false
is_unpriced (some zero_spend) = false
is_unpriced (some (priced usd source)) = false
is_unpriced (some (unpriced reason)) = true

abbrev pub or_zero : Option ℕ → ℕ
or_zero none = 0
or_zero (some n) = n

-- `current + incoming > limit` in micro-dollars; an unreadable amount is an exception.
unfoldable pub total_check : Option ℕ → Option ℕ → ℕ → Option ℕ → Check
total_check none committed x402 limit = none
total_check (some incoming) none x402 limit = none
total_check (some incoming) (some committed) x402 limit =
    refuse_if (ltb (or_zero limit) (committed + x402 + incoming)) daily_limit

module _ (fl : Floats) (get_address : Text → Option Text) where
  open fl use {parse_float}

  -- `list.map(getAddress)`, which throws on an entry that is no address.
  unfoldable pub get_addresses : List Text → Option (List Text)
  get_addresses [] = some []
  get_addresses (a ∷ as') = elim (get_address a) [
    | none ↦ none
    | some x ↦ elim (get_addresses as') [ none ↦ none | some xs ↦ some (x ∷ xs) ]
  ]

  unfoldable pub list_check : List Text → Text → Refusal → Check
  unfolding get_addresses
  list_check [] target refusal = pass
  list_check (a ∷ as') target refusal = elim (get_address target) [
    | none ↦ none
    | some t ↦ elim (get_addresses (a ∷ as')) [
      | none ↦ none
      | some list ↦ refuse_if (not (any (λ x. text_eq x t) list)) refusal
    ]
  ]

  unfoldable pub token_check : List Text → Option Text → Check
  unfolding list_check
  token_check list none = pass
  token_check list (some []) = pass
  token_check list (some (c ∷ t)) = list_check list (c ∷ t) token_not_listed

  unfoldable pub daily_check : AgentPolicy → TransactionParams → Reads → Check
  unfolding total_check is_positive
  daily_check policy params reads =
      if is_positive fl (parse_policy_decimal fl (some policy.max_daily_volume_usd))
        && not params.daily_volume_accounted
      then if is_unpriced params.pricing
        then some (some price_unavailable)
        else total_check (usd_text_to_micro_ceil (incoming_usd params.pricing params.value_usd))
            (usd_text_to_micro_ceil reads.committed) reads.x402_today_micro
            (policy_decimal_to_micro (some policy.max_daily_volume_usd))
      else pass

  -- The checks of a policy row, in the order in which they refuse.
  unfoldable pub checks : AgentPolicy → TransactionParams → Reads → Check
  unfolding daily_check token_check list_check recipient_refused outflow_check cooldown_check above
  checks policy params reads = do
    refuse_if (not policy.active) policy_paused
    refuse_if (is_expired policy.expires_at reads.now) policy_expired
    refuse_if
        (above fl (parse_policy_decimal fl (some policy.max_value_per_tx_eth))
          (parse_float params.value_eth))
        value_over_limit
    outflow_check params.outflow policy params.pricing
    list_check policy.allowed_contracts params.target_contract contract_not_listed
    refuse_if (recipient_refused policy.allowed_recipients params.recipient) recipient_not_listed
    token_check policy.allowed_tokens params.token_address
    cooldown_check
        (cooldown_left policy.cooldown_seconds params.last_tx_timestamp (reads.now / 1000))
    daily_check policy params reads

  unfoldable pub needs_approval : AgentPolicy → TransactionParams → Bool
  unfolding above
  needs_approval policy params =
      above fl (parse_policy_decimal fl (some policy.max_value_for_auto_approval_eth))
        (parse_float params.value_eth)

  -- `validateTransaction`; `none` is an exception. It writes nothing.
  unfoldable pub validate_transaction :
      Option AgentPolicy → TransactionParams → Reads → Option PolicyValidationResult
  validate_transaction none params reads = some (allowed false)
  validate_transaction (some policy) params reads = elim (checks policy params reads) [
    | none ↦ none
    | some (some refusal) ↦ some (refused refusal)
    | some none ↦ some (allowed (needs_approval policy params))
  ]
