-- ===== src/Policy/Pricing/Sum.antt =====
-- The sum of several priced components against the sum of their micro-dollars.
use agentfi.Base.{
  ℕ, ◌+◌, ◌≡◌, refl, Bool, true, false, Option, any, ap, ◌∙◌, ◌⊎◌, inl, inr, none, some, List, [],
  ◌∷◌, Text, Option-cases, Bool-cases, split,
}
use agentfi.Decimal.{
  is_policy_decimal, decimal_shape, digits1, is_digit, has_nonzero, fixed_parts, big_int,
  usd_text_to_micro_ceil, ceil_parts,
}
use agentfi.Decimal.Print.{usd_text_to_micro_ceil-micro_to_usd6}
use agentfi.Decimal.Trim.{usd_text_decimal}
use agentfi.Policy.Pricing.{
  SpendPricing, UnpricedReason, SpendPriceSource, priced, zero_spend, unpriced, find_unpriced,
  priced_parts, sum_micro, sum_priced, sum_source, sum_spend_pricings, counted_usd, usd_to_micro,
  price_source_of, oracle, synthetic, usdc_peg, is_synthetic, is_oracle,
}

-- Each component is priced or nothing, and their micro-dollars add up to a total.
pub data AddsUp : List SpendPricing → ℕ → Type 0 where
  nothing : AddsUp [] 0
  add_priced :
      (usd : Text) (source : SpendPriceSource) (ps : List SpendPricing) (m : ℕ)
      → AddsUp ps m
      → AddsUp (priced usd source ∷ ps) (usd_to_micro usd + m)
  add_zero : (ps : List SpendPricing) (m : ℕ) → AddsUp ps m → AddsUp (zero_spend ∷ ps) m

-- The first component without a price, with its reason.
pub data FirstUnpriced : List SpendPricing → UnpricedReason → Type 0 where
  here :
      (reason : UnpricedReason) (ps : List SpendPricing)
      → FirstUnpriced (unpriced reason ∷ ps) reason
  after_priced :
      (usd : Text) (source : SpendPriceSource) (ps : List SpendPricing) (reason : UnpricedReason)
      → FirstUnpriced ps reason
      → FirstUnpriced (priced usd source ∷ ps) reason
  after_zero :
      (ps : List SpendPricing) (reason : UnpricedReason)
      → FirstUnpriced ps reason
      → FirstUnpriced (zero_spend ∷ ps) reason

-- Of two sources, the one that a sum has: synthetic before oracle before the peg.
abbrev pub prevail : SpendPriceSource → Option SpendPriceSource → SpendPriceSource
prevail source none = source
prevail synthetic (some other) = synthetic
prevail oracle (some synthetic) = synthetic
prevail oracle (some oracle) = oracle
prevail oracle (some usdc_peg) = oracle
prevail usdc_peg (some other) = other

abbrev pub prevailing : List SpendPricing → Option SpendPriceSource
prevailing [] = none
prevailing (priced usd source ∷ ps) = some (prevail source (prevailing ps))
prevailing (zero_spend ∷ ps) = prevailing ps
prevailing (unpriced reason ∷ ps) = prevailing ps

find_unpriced-First :
    (ps : List SpendPricing) (reason : UnpricedReason)
    → find_unpriced ps ≡ some reason
    → FirstUnpriced ps reason
unfolding find_unpriced
find_unpriced-First [] reason h = cc
find_unpriced-First (priced usd source ∷ ps) reason h =
    after_priced usd source ps reason (find_unpriced-First ps reason h)
find_unpriced-First (zero_spend ∷ ps) reason h =
    after_zero ps reason (find_unpriced-First ps reason h)
find_unpriced-First (unpriced why ∷ ps) reason h =
    let same : why ≡ reason = cc in rw same (here reason ps)

parts-AddsUp :
    (ps : List SpendPricing) → find_unpriced ps ≡ none → AddsUp ps (sum_micro (priced_parts ps))
unfolding find_unpriced sum_micro priced_parts
parts-AddsUp [] h = nothing
parts-AddsUp (priced usd source ∷ ps) h = add_priced usd source ps _ (parts-AddsUp ps h)
parts-AddsUp (zero_spend ∷ ps) h = add_zero ps _ (parts-AddsUp ps h)
parts-AddsUp (unpriced reason ∷ ps) h = cc

-- Over a list of priced components that is not empty.
sum_source-more :
    (usd : Text) (source : SpendPriceSource) (ps : List (Text × SpendPriceSource))
    → sum_source ((usd, source) ∷ ps) ≡ prevail source (some (sum_source ps))
unfolding sum_source
sum_source-more usd synthetic ps = refl
sum_source-more usd oracle ps = elim (Bool-cases (any (λ p. is_synthetic (p.1)) ps)) [
  | inl e ↦ rw e refl
  | inr e ↦ elim (Bool-cases (any (λ p. is_oracle (p.1)) ps)) [
    | inl f ↦ rw (e, f) refl
    | inr f ↦ rw (e, f) refl
  ]
]
sum_source-more usd usdc_peg ps = refl

sum_source-cons :
    (usd : Text) (source : SpendPriceSource) (ps : List (Text × SpendPriceSource))
    → sum_source ((usd, source) ∷ ps) ≡ prevail source (price_source_of (sum_priced ps))
unfolding price_source_of sum_priced sum_source
sum_source-cons usd synthetic [] = refl
sum_source-cons usd oracle [] = refl
sum_source-cons usd usdc_peg [] = refl
sum_source-cons usd source (p ∷ ps) = sum_source-more usd source (p ∷ ps)

parts-prevailing :
    (ps : List SpendPricing) → price_source_of (sum_priced (priced_parts ps)) ≡ prevailing ps
unfolding price_source_of sum_priced sum_source priced_parts
parts-prevailing [] = refl
parts-prevailing (zero_spend ∷ ps) = parts-prevailing ps
parts-prevailing (unpriced reason ∷ ps) = parts-prevailing ps
parts-prevailing (priced usd source ∷ ps) =
    ap some
      (sum_source-cons usd source (priced_parts ps) ∙ ap (prevail source) (parts-prevailing ps))

zero_text : usd_text_to_micro_ceil (some (b'0' ∷ [])) ≡ some 0
unfolding is_policy_decimal decimal_shape digits1 is_digit split ceil_parts has_nonzero fixed_parts
    big_int
zero_text = usd_text_decimal (b'0' ∷ []) refl

sum_priced_value :
    (ps : List (Text × SpendPriceSource))
    → usd_text_to_micro_ceil (some (counted_usd (sum_priced ps))) ≡ some (sum_micro ps)
unfolding sum_priced counted_usd sum_micro
sum_priced_value [] = zero_text
sum_priced_value (p ∷ ps) = (usd_text_to_micro_ceil-micro_to_usd6 (sum_micro (p ∷ ps))).0

abbrev pub is_unpriced : SpendPricing → Bool
is_unpriced (unpriced reason) = true
is_unpriced _ = false

sum_priced-not-unpriced :
    (ps : List (Text × SpendPriceSource)) → is_unpriced (sum_priced ps) ≡ false
unfolding sum_priced
sum_priced-not-unpriced [] = refl
sum_priced-not-unpriced (p ∷ ps) = refl

-- Either each component is priced or nothing; then the sum is no unpriced one, what it counts is
-- exactly the total of the components' micro-dollars, and its source is synthetic where one of
-- theirs is, else the oracle where one of theirs is, else the peg. Or the sum is unpriced, with the
-- reason of the first component without a price.
pub sum_spend_pricings_total :
    (ps : List SpendPricing)
    → ((m : ℕ) × AddsUp ps m
        × (is_unpriced (sum_spend_pricings ps) ≡ false)
        × (usd_text_to_micro_ceil (some (counted_usd (sum_spend_pricings ps))) ≡ some m)
        × (price_source_of (sum_spend_pricings ps) ≡ prevailing ps))
      ⊎ ((r : UnpricedReason) × FirstUnpriced ps r × (sum_spend_pricings ps ≡ unpriced r))
unfolding sum_spend_pricings
sum_spend_pricings_total ps = elim (Option-cases (find_unpriced ps)) [
  | inl e ↦ inl (
    sum_micro (priced_parts ps),
    parts-AddsUp ps e,
    rw (e, sum_spend_pricings) (sum_priced-not-unpriced (priced_parts ps)),
    rw (e, sum_spend_pricings) (sum_priced_value (priced_parts ps)),
    rw (e, sum_spend_pricings) (parts-prevailing ps),
  )
  | inr (r, e) ↦ inr (r, find_unpriced-First ps r e, rw (e, sum_spend_pricings))
]
