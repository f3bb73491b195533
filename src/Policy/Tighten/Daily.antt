-- ===== src/Policy/Tighten/Daily.antt =====
-- Tightening and the float limits, the outflow cap, the cooldown and the daily limit of an ordinary
-- transaction.
use agentfi.Base.{
  ℕ, ◌≤◌, ◌≡◌, refl, ◌≢◌, ◌⊎◌, inl, inr, Bool, true, false, Option, none, some, Text, arith, ltb,
  Option-cases,
}
use agentfi.Decimal.{is_policy_decimal, policy_decimal_to_micro, usd_text_to_micro_ceil}
use agentfi.Policy.{AgentPolicy, ℤ, pos, negsuc}
use agentfi.Policy.Floats.{Floats, OrderLaws, parse_policy_decimal, above, is_positive}
use agentfi.Policy.Pricing.{SpendPricing, priced, zero_spend, unpriced}
use agentfi.Policy.Outflow.{
  OutflowCapVerdict, judge_outflow_cap, judge_cap_field, judge_capped, judge_priced,
}
use agentfi.Policy.Authority.{
  loosens_at, loosens_float, plain, zero_unlimited, null_blocked, effective_cooldown,
}
use agentfi.Policy.Service.{pass, outflow_check, cooldown_left, total_check, or_zero}

module _ (fl : Floats) where
  parse_finite :
      (raw : Text) (n : fl.Float)
      → parse_policy_decimal fl (some raw) ≡ some n
      → (fl.is_finite n ≡ true) × (is_policy_decimal raw ≡ true)
  unfolding parse_policy_decimal
  parse_finite raw n h = ground arith

  pub above_mono :
      (laws : OrderLaws fl) (cur next : Text) (v : fl.Float)
      → loosens_float fl plain (some next) (some cur) true ≡ false
      → above fl (parse_policy_decimal fl (some cur)) v ≡ true
      → above fl (parse_policy_decimal fl (some next)) v ≡ true
  unfolding loosens_float above
  above_mono laws cur next v h e = elim (Option-cases (parse_policy_decimal fl (some cur))) [
    | inl gone ↦ absurd (ground arith)
    | inr (c, ec) ↦ elim (Option-cases (parse_policy_decimal fl (some next))) [
      | inl free ↦ absurd (ground arith)
      | inr (n, en) ↦
          ground (arith, laws.gt_trans v c n (parse_finite cur c ec).0 (parse_finite next n en).0)
    ]
  ]

  -- Where the current daily limit is positive, so is one that does not loosen it.
  pub is_positive_mono :
      (laws : OrderLaws fl) (cur next : Text)
      → loosens_float fl zero_unlimited (some next) (some cur) true ≡ false
      → is_positive fl (parse_policy_decimal fl (some cur)) ≡ true
      → is_positive fl (parse_policy_decimal fl (some next)) ≡ true
  unfolding loosens_float is_positive
  is_positive_mono laws cur next h e = elim (Option-cases (parse_policy_decimal fl (some cur))) [
    | inl gone ↦ absurd (ground (arith, laws.zero_not_above))
    | inr (c, ec) ↦ elim (Option-cases (parse_policy_decimal fl (some next))) [
      | inl free ↦ absurd (ground arith)
      | inr (n, en) ↦ ground arith
    ]
  ]

  pub positive_micro :
      (laws : OrderLaws fl) (cur : Text)
      → is_positive fl (parse_policy_decimal fl (some cur)) ≡ true
      → policy_decimal_to_micro (some cur) ≢ none
  unfolding is_positive policy_decimal_to_micro
  positive_micro laws cur e = elim (Option-cases (parse_policy_decimal fl (some cur))) [
    | inl gone ↦ absurd (ground (arith, laws.zero_not_above))
    | inr (c, ec) ↦ ground (arith, (parse_finite cur c ec).1)
  ]

-- The micro-dollar limits where both texts are decimals and the current limit is not zero.
pub micro_mono :
    (cur next : Text)
    → loosens_at 6 zero_unlimited (some next) (some cur) true ≡ false
    → policy_decimal_to_micro (some cur) ≢ some 0
    → policy_decimal_to_micro (some cur) ≢ none
    → or_zero (policy_decimal_to_micro (some next)) ≤ or_zero (policy_decimal_to_micro (some cur))
unfolding loosens_at policy_decimal_to_micro
micro_mono cur next h nz nn = ground arith

pub total_check_mono :
    (incoming committed : Option ℕ) (x402 : ℕ) (cur next : Option ℕ)
    → or_zero next ≤ or_zero cur
    → total_check incoming committed x402 next ≡ pass
    → total_check incoming committed x402 cur ≡ pass
unfolding total_check
total_check_mono none committed x402 cur next le h = cc
total_check_mono (some i) none x402 cur next le h = cc
total_check_mono (some i) (some c) x402 cur next le h = ground arith

pub cooldown_left_mono :
    (cur next : ℤ) (last : Option ℕ) (now_s : ℕ)
    → ltb (effective_cooldown (some next)) (effective_cooldown (some cur)) ≡ false
    → cooldown_left next last now_s ≡ none
    → cooldown_left cur last now_s ≡ none
unfolding effective_cooldown cooldown_left
cooldown_left_mono (negsuc m) next last now_s h e = refl
cooldown_left_mono (pos m) next none now_s h e = refl
cooldown_left_mono (pos m) (negsuc n) (some l) now_s h e = ground arith
cooldown_left_mono (pos m) (pos n) (some l) now_s h e = ground arith

priced_mono :
    (cur next : Text) (usd : Text) (c n : ℕ)
    → n ≤ c
    → judge_priced next n usd ≡ some OutflowCapVerdict.allowed
    → judge_priced cur c usd ≡ some OutflowCapVerdict.allowed
unfolding judge_priced
priced_mono cur next usd c n le h = elim (Option-cases (usd_text_to_micro_ceil (some usd))) [
  | inl e ↦ absurd (ground arith)
  | inr (u, e) ↦ ground arith
]

unlimited-looser :
    (cur next : Text) {c : ℕ}
    → policy_decimal_to_micro (some cur) ≡ some c
    → policy_decimal_to_micro (some next) ≡ none
    → loosens_at 6 null_blocked (some next) (some cur) true ≡ false
    → ⊥
unfolding policy_decimal_to_micro loosens_at
unlimited-looser cur next ec en h = ground arith

cap_le :
    (cur next : Text) (c n : ℕ)
    → policy_decimal_to_micro (some cur) ≡ some c
    → policy_decimal_to_micro (some next) ≡ some n
    → loosens_at 6 null_blocked (some next) (some cur) true ≡ false
    → n ≤ c
unfolding policy_decimal_to_micro loosens_at
cap_le cur next c n ec en h = ground arith

capped_values :
    (cur next : Text) (pricing : Option SpendPricing) (c n : ℕ)
    → n ≤ c
    → judge_capped next (some n) pricing ≡ some OutflowCapVerdict.allowed
    → judge_capped cur (some c) pricing ≡ some OutflowCapVerdict.allowed
unfolding judge_capped
capped_values cur next none c n le e = absurd (ground arith)
capped_values cur next (some zero_spend) c n le e = refl
capped_values cur next (some (unpriced r)) c n le e = absurd (ground arith)
capped_values cur next (some (priced usd s)) c n le e = priced_mono cur next usd c n le e

capped_free :
    (cur : Text) (pricing : Option SpendPricing)
    → judge_capped cur none pricing ≡ some OutflowCapVerdict.allowed
unfolding judge_capped
capped_free cur pricing = refl

-- Both caps configured, the new one not above the current one.
capped_mono :
    (cur next : Text) (pricing : Option SpendPricing)
    → loosens_at 6 null_blocked (some next) (some cur) true ≡ false
    → judge_capped next (policy_decimal_to_micro (some next)) pricing
      ≡ some OutflowCapVerdict.allowed
    → judge_capped cur (policy_decimal_to_micro (some cur)) pricing ≡ some OutflowCapVerdict.allowed
capped_mono cur next pricing h e = elim (Option-cases (policy_decimal_to_micro (some cur))) [
  | inl free ↦ rw free (capped_free cur pricing)
  | inr (c, ec) ↦ elim (Option-cases (policy_decimal_to_micro (some next))) [
    | inl free ↦ absurd (unlimited-looser cur next ec free h)
    | inr (n, en) ↦
        rw ec (capped_values cur next pricing c n (cap_le cur next c n ec en h) (rw en at e))
  ]
]

unblocked-looser : (next : Text) → loosens_at 6 null_blocked (some next) none true ≡ false → ⊥
unfolding loosens_at
unblocked-looser next h = ground arith

-- A cap that is not configured blocks, so a patch that keeps or sets one from there would loosen.
field_mono :
    (cur next : Option Text) (pricing : Option SpendPricing)
    → loosens_at 6 null_blocked next cur true ≡ false
    → judge_cap_field next pricing ≡ some OutflowCapVerdict.allowed
    → judge_cap_field cur pricing ≡ some OutflowCapVerdict.allowed
unfolding judge_cap_field
field_mono cur none pricing h e = absurd (ground arith)
field_mono none (some next) pricing h e = absurd (unblocked-looser next h)
field_mono (some cur) (some next) pricing h e = capped_mono cur next pricing h e

judge_mono :
    (cur next : AgentPolicy) (pricing : Option SpendPricing)
    → ((cur.max_outflow_per_tx_usd ≡ next.max_outflow_per_tx_usd)
        ⊎ (loosens_at 6 null_blocked next.max_outflow_per_tx_usd cur.max_outflow_per_tx_usd true
            ≡ false))
    → judge_outflow_cap (some next) pricing ≡ some OutflowCapVerdict.allowed
    → judge_outflow_cap (some cur) pricing ≡ some OutflowCapVerdict.allowed
unfolding judge_outflow_cap
judge_mono cur next pricing (inl e) h = ground arith
judge_mono cur next pricing (inr kept) h =
    ground (arith, field_mono cur.max_outflow_per_tx_usd next.max_outflow_per_tx_usd pricing kept)

judge_of_check :
    (policy : AgentPolicy) (pricing : Option SpendPricing)
    → outflow_check true policy pricing ≡ pass
    → judge_outflow_cap (some policy) pricing ≡ some OutflowCapVerdict.allowed
unfolding outflow_check
judge_of_check policy pricing h = go (judge_outflow_cap (some policy) pricing) refl
  where
    go :
        (v : Option OutflowCapVerdict)
        → judge_outflow_cap (some policy) pricing ≡ v
        → judge_outflow_cap (some policy) pricing ≡ some OutflowCapVerdict.allowed
    go none e = absurd (ground arith)
    go (some OutflowCapVerdict.allowed) e = e
    go (some (OutflowCapVerdict.refused c l)) e = absurd (ground arith)

pub outflow_check_mono :
    (outflow : Bool) (cur next : AgentPolicy) (pricing : Option SpendPricing)
    → ((cur.max_outflow_per_tx_usd ≡ next.max_outflow_per_tx_usd)
        ⊎ (loosens_at 6 null_blocked next.max_outflow_per_tx_usd cur.max_outflow_per_tx_usd true
            ≡ false))
    → outflow_check outflow next pricing ≡ pass
    → outflow_check outflow cur pricing ≡ pass
unfolding outflow_check judge_outflow_cap
outflow_check_mono false cur next pricing h e = refl
outflow_check_mono true cur next pricing h e =
    let judged = judge_of_check next pricing e in
    let cap : judge_outflow_cap (some cur) pricing ≡ some OutflowCapVerdict.allowed =
      judge_mono cur next pricing h judged in
    rw (cap, outflow_check)
