-- ===== src/Policy/Outflow/Cap.antt =====
-- What the outflow cap lets through, in dollars and not only in micro-dollars.
use native.Mathlib.Nat.{mul-le-mul_right}
use agentfi.Base.{
  ℕ, ◌*◌, ◌≤◌, ◌≡◌, refl, ◌⊎◌, inl, inr, true, Option, none, some, Text, arith, Option-cases, split,
}
use agentfi.Decimal.{dot, is_policy_decimal, policy_decimal_to_micro, usd_text_to_micro_ceil}
use agentfi.Decimal.Rounding.{numerator, scale, IsFloor, IsCeil, policy_decimal_to_micro-IsFloor}
use agentfi.Decimal.Trim.{usd_text_to_micro_ceil_lem}
use agentfi.Policy.{AgentPolicy}
use agentfi.Policy.Pricing.{SpendPricing, SpendPriceSource, priced, zero_spend, unpriced}
use agentfi.Policy.Outflow.{allowed, judge_outflow_cap, judge_cap_field, judge_capped, judge_priced}

-- The decimal `a` is at most the decimal `b`, as rational numbers.
abbrev pub DecimalLe : Text → Text → Type 0
DecimalLe a b =
    numerator (split dot a) * scale (split dot b) ≤ numerator (split dot b) * scale (split dot a)

le_of_ceil-le-floor :
    (u v n s m t : ℕ)
    → IsCeil u (n * 1_000_000) s
    → IsFloor v (m * 1_000_000) t
    → u ≤ v
    → n * t ≤ m * s
le_of_ceil-le-floor u v n s m t hu hv h = omega (
  arith,
  mul-le-mul_right t hu.0,
  mul-le-mul_right s (mul-le-mul_right t h),
  mul-le-mul_right s hv.0,
)

judge_priced_allowed :
    (raw usd : Text) (cap : ℕ)
    → judge_priced raw cap usd ≡ some allowed
    → (u : ℕ) × (usd_text_to_micro_ceil (some usd) ≡ some u) × (u ≤ cap)
unfolding judge_priced
judge_priced_allowed raw usd cap h = elim (Option-cases (usd_text_to_micro_ceil (some usd))) [
  | inl e ↦ absurd (ground arith)
  | inr (u, e) ↦ (u, e, ground arith)
]

-- What an allowed outflow is: nothing flows out, or the cap is configured and either is no plain
-- decimal, or the outflow is priced at no more micro-dollars than the cap.
abbrev pub OutflowOk : AgentPolicy → Option SpendPricing → Type 0
OutflowOk p pricing =
    (pricing ≡ some zero_spend)
    ⊎ ((raw : Text) × (p.max_outflow_per_tx_usd ≡ some raw)
        × ((policy_decimal_to_micro (some raw) ≡ none)
            ⊎ ((usd : Text) × (source : SpendPriceSource) × (cap u : ℕ) × (pricing
                  ≡ some (priced usd source))
                × (policy_decimal_to_micro (some raw) ≡ some cap)
                × (usd_text_to_micro_ceil (some usd) ≡ some u)
                × (u ≤ cap))))

capped_allowed :
    (p : AgentPolicy) (raw : Text) (o : Option ℕ) (pricing : Option SpendPricing)
    → p.max_outflow_per_tx_usd ≡ some raw
    → policy_decimal_to_micro (some raw) ≡ o
    → judge_capped raw o pricing ≡ some allowed
    → OutflowOk p pricing
unfolding judge_capped
capped_allowed p raw none pricing f e h = inr (raw, f, inl e)
capped_allowed p raw (some cap) none f e h = absurd (ground arith)
capped_allowed p raw (some cap) (some (unpriced r)) f e h = absurd (ground arith)
capped_allowed p raw (some cap) (some zero_spend) f e h = inl refl
capped_allowed p raw (some cap) (some (priced usd source)) f e h =
    let (u, eu, le) = judge_priced_allowed raw usd cap h in
    inr (raw, f, inr (usd, source, cap, u, refl, e, eu, le))

field_allowed :
    (p : AgentPolicy) (pricing : Option SpendPricing)
    → judge_cap_field p.max_outflow_per_tx_usd pricing ≡ some allowed
    → OutflowOk p pricing
unfolding judge_cap_field
field_allowed p pricing h = elim (Option-cases p.max_outflow_per_tx_usd) [
  | inl e ↦ absurd (ground arith)
  | inr (raw, e) ↦ capped_allowed p raw _ pricing e refl (rw (e, judge_cap_field) at h)
]

-- An outflow under a policy row is allowed only if nothing flows out, or the cap is configured and is
-- no plain decimal, or it is configured and the outflow has a price whose micro-dollars, rounded up,
-- are at most those of the cap, rounded down. So a missing cap and a missing price both refuse.
pub judge_outflow_cap_allowed :
    (p : AgentPolicy) (pricing : Option SpendPricing)
    → judge_outflow_cap (some p) pricing ≡ some allowed
    → OutflowOk p pricing
unfolding judge_outflow_cap
judge_outflow_cap_allowed p (some zero_spend) h = inl refl
judge_outflow_cap_allowed p none h = field_allowed p none h
judge_outflow_cap_allowed p (some (priced usd source)) h = field_allowed p _ h
judge_outflow_cap_allowed p (some (unpriced r)) h = field_allowed p _ h

-- A priced outflow that is allowed under a cap that is a plain decimal is at most the cap, compared
-- exactly as decimals and not only after rounding.
pub judge_outflow_cap_exact :
    (p : AgentPolicy) (raw usd : Text) (source : SpendPriceSource)
    → p.max_outflow_per_tx_usd ≡ some raw
    → is_policy_decimal raw ≡ true
    → is_policy_decimal usd ≡ true
    → judge_outflow_cap (some p) (some (priced usd source)) ≡ some allowed
    → DecimalLe usd raw
unfolding judge_outflow_cap judge_cap_field judge_capped
judge_outflow_cap_exact p raw usd source f draw dusd h =
    let (v, ev, fv) = policy_decimal_to_micro-IsFloor raw draw in
    let (w, ew, cw) = usd_text_to_micro_ceil_lem usd dusd in
    let (u, eu, le) =
      judge_priced_allowed raw usd v (rw (f, ev, judge_cap_field, judge_capped) at h) in
    le_of_ceil-le-floor w v _ _ _ _ cw fv (ground arith)
