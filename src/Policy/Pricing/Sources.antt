-- ===== src/Policy/Pricing/Sources.antt =====
-- Where a price may come from, and how a synthetic one is rounded.
use agentfi.Base.{
  ℕ, ◌+◌, ◌-◌, ◌*◌, ◌/◌, ◌<◌, ◌≡◌, ◌≢◌, Bool, true, false, Text, arith, length, split,
}
use agentfi.Decimal.{dot, fraction_part}
use agentfi.Decimal.Digits.{pow10, pow10_pos}
use agentfi.Decimal.Rounding.{IsCeil, numerator}
use agentfi.Policy.Pricing.{
  SpendPricing, priced, zero_spend, unpriced, oracle, synthetic, PriceSources, price_native_spend,
  price_token_spend, is_testnet_chain, is_mainnet_chain, synthetic_micro,
}

IsCeil-div : (n d : ℕ) → 0 < d → IsCeil ((n + d - 1) / d) n d
IsCeil-div n d pos = grind arith

-- A synthetic price never under-counts: the micro-dollars are the exact product of amount and price,
-- rounded up.
pub synthetic_micro-IsCeil :
    (amount decimals : ℕ) (price : Text)
    → IsCeil
        (synthetic_micro amount decimals price)
        (amount * numerator (split dot price) * 1_000_000)
        (pow10 (decimals + length (fraction_part (split dot price))))
unfolding synthetic_micro
synthetic_micro-IsCeil amount decimals price = IsCeil-div _ _ (pow10_pos _)

-- What a pricing may be, by the chain's kind.
abbrev pub FromChain : Bool → Bool → SpendPricing → Type 0
FromChain testnet mainnet zero_spend = ⊥
FromChain testnet mainnet (unpriced r) = Unit {0}
FromChain true mainnet (priced usd s) = s ≡ synthetic
FromChain false true (priced usd s) = s ≡ oracle
FromChain false false (priced usd s) = ⊥

-- A native amount that is not zero is priced by the synthetic table alone on a testnet, by the oracle
-- alone on a mainnet, and not at all on any other chain; it is never a zero spend.
pub price_native_spend-FromChain :
    (s : PriceSources) (amount chain : ℕ)
    → amount ≢ 0
    → FromChain
        (is_testnet_chain chain)
        (is_mainnet_chain chain)
        (price_native_spend s amount chain)
unfolding price_native_spend
price_native_spend-FromChain s amount chain h = ground arith

-- A token amount that is not zero is priced by the synthetic table alone on a testnet, by the oracle
-- alone on a mainnet, and not at all on any other chain; it is never a zero spend.
pub price_token_spend-FromChain :
    (s : PriceSources) (amount : ℕ) (token : Text) (decimals chain : ℕ)
    → amount ≢ 0
    → FromChain
        (is_testnet_chain chain)
        (is_mainnet_chain chain)
        (price_token_spend s amount token decimals chain)
unfolding price_token_spend
price_token_spend-FromChain s amount token decimals chain h = ground arith
