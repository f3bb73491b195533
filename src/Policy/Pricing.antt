-- ===== src/Policy/Pricing.antt =====
-- packages/backend/src/services/policy/spend-pricing.ts: the result of pricing a spend.
pub mod Sum
pub mod Sources
use agentfi.Base.{
  ℕ, ◌+◌, ◌-◌, ◌*◌, ◌/◌, Bool, true, false, Option, none, some, List, [], ◌∷◌, ◌++◌, Text, ◌==◌,
  if◌then◌else◌, any, length, split, codes, not, text_eq,
}
use agentfi.Decimal.{dot, big_int, whole_part, fraction_part, ceil_parts, micro_to_usd6}
use agentfi.Decimal.Digits.{pow10}

pub data SpendPriceSource : Type 0 where
  oracle synthetic usdc_peg : SpendPriceSource

-- Why a spend has no price; the texts differ by these cases.
pub data UnpricedReason : Type 0 where
  no_synthetic_price no_trusted_source oracle_silent unknown_amount : UnpricedReason

pub data SpendPricing : Type 0 where
  priced : Text → SpendPriceSource → SpendPricing
  zero_spend : SpendPricing
  unpriced : UnpricedReason → SpendPricing

-- Amount in base units times a price per whole unit, as micro-dollars rounded up.
unfoldable pub synthetic_micro : ℕ → ℕ → Text → ℕ
synthetic_micro amount decimals price =
    let parts = split dot price in
    let price_scaled = big_int (whole_part parts ++ fraction_part parts) in
    let denominator = pow10 (decimals + length (fraction_part parts)) in
    (amount * price_scaled * 1_000_000 + denominator - 1) / denominator

unfoldable pub synthetic_usd : ℕ → ℕ → Text → Text
unfolding synthetic_micro
synthetic_usd amount decimals price = micro_to_usd6 (synthetic_micro amount decimals price)

-- Called on decimals only.
unfoldable pub usd_to_micro : Text → ℕ
usd_to_micro usd = ceil_parts (split dot usd)

unfoldable pub is_testnet_chain : ℕ → Bool
is_testnet_chain chain = any (λ id. id == chain) (84532 ∷ [])

unfoldable pub is_mainnet_chain : ℕ → Bool
is_mainnet_chain chain = any (λ id. id == chain) (1 ∷ 8453 ∷ 42161 ∷ 137 ∷ [])

-- What prices come from: the configured synthetic table and the oracle, which answers "0" where it
-- has none. Both are read at the call.
pub record PriceSources : Type 0 where
  pub synthetic_price : ℕ → Text → Option Text
  pub wei_to_usd : ℕ → ℕ → Text
  pub token_amount_to_usd : ℕ → Text → ℕ → ℕ → Text

abbrev pub native_asset : Text
native_asset = codes "native"

unfoldable pub price_synthetic : Option Text → ℕ → ℕ → SpendPricing
price_synthetic none amount decimals = unpriced no_synthetic_price
price_synthetic (some price) amount decimals =
    priced (synthetic_usd amount decimals price) synthetic

unfoldable pub price_oracle : Text → SpendPricing
price_oracle usd = if text_eq usd (b'0' ∷ []) then unpriced oracle_silent else priced usd oracle

-- `priceNativeSpend`.
unfoldable pub price_native_spend : PriceSources → ℕ → ℕ → SpendPricing
unfolding price_synthetic price_oracle
price_native_spend sources amount chain =
    if amount == 0
    then zero_spend
    else if is_testnet_chain chain
    then price_synthetic (sources.synthetic_price chain native_asset) amount 18
    else if not (is_mainnet_chain chain)
    then unpriced no_trusted_source
    else price_oracle (sources.wei_to_usd amount chain)

-- `priceTokenSpend`.
unfoldable pub price_token_spend : PriceSources → ℕ → Text → ℕ → ℕ → SpendPricing
unfolding price_synthetic price_oracle
price_token_spend sources amount token decimals chain =
    if amount == 0
    then zero_spend
    else if is_testnet_chain chain
    then price_synthetic (sources.synthetic_price chain token) amount decimals
    else if not (is_mainnet_chain chain)
    then unpriced no_trusted_source
    else price_oracle (sources.token_amount_to_usd amount token decimals chain)

-- `unknownAmountSpend`.
unfoldable pub unknown_amount_spend : SpendPricing
unknown_amount_spend = unpriced unknown_amount

-- `parts.find((p) => p.status === 'unpriced')`.
unfoldable pub find_unpriced : List SpendPricing → Option UnpricedReason
find_unpriced [] = none
find_unpriced (unpriced reason ∷ parts) = some reason
find_unpriced (priced usd source ∷ parts) = find_unpriced parts
find_unpriced (zero_spend ∷ parts) = find_unpriced parts

-- The priced components: their texts with their sources.
unfoldable pub priced_parts : List SpendPricing → List (Text × SpendPriceSource)
priced_parts [] = []
priced_parts (priced usd source ∷ parts) = (usd, source) ∷ priced_parts parts
priced_parts (unpriced reason ∷ parts) = priced_parts parts
priced_parts (zero_spend ∷ parts) = priced_parts parts

unfoldable pub sum_micro : List (Text × SpendPriceSource) → ℕ
sum_micro [] = 0
sum_micro ((usd, source) ∷ parts) = usd_to_micro usd + sum_micro parts

abbrev pub is_synthetic : SpendPriceSource → Bool
is_synthetic synthetic = true
is_synthetic _ = false

abbrev pub is_oracle : SpendPriceSource → Bool
is_oracle oracle = true
is_oracle _ = false

unfoldable pub sum_source : List (Text × SpendPriceSource) → SpendPriceSource
sum_source parts =
    if any (λ p. is_synthetic (p.1)) parts
    then synthetic
    else if any (λ p. is_oracle (p.1)) parts
    then oracle
    else usdc_peg

unfoldable pub sum_priced : List (Text × SpendPriceSource) → SpendPricing
sum_priced [] = zero_spend
sum_priced (p ∷ parts) = priced (micro_to_usd6 (sum_micro (p ∷ parts))) (sum_source (p ∷ parts))

-- `sumSpendPricings`.
unfoldable pub sum_spend_pricings : List SpendPricing → SpendPricing
unfolding find_unpriced priced_parts sum_priced sum_source
sum_spend_pricings parts = elim (find_unpriced parts) [
  | some reason ↦ unpriced reason
  | none ↦ sum_priced (priced_parts parts)
]

unfoldable pub counted_usd : SpendPricing → Text
counted_usd (priced usd source) = usd
counted_usd zero_spend = b'0' ∷ []
counted_usd (unpriced reason) = b'0' ∷ []

unfoldable pub price_source_of : SpendPricing → Option SpendPriceSource
price_source_of (priced usd source) = some source
price_source_of zero_spend = none
price_source_of (unpriced reason) = none
