-- ===== src/Policy/Usdc/Exact.antt =====
-- The USDC verdict against a description of what the policy permits.
use agentfi.Base.{
  ℕ, ◌+◌, ◌≤◌, ◌≡◌, refl, ◌↔◌, ◌⊎◌, inl, true, false, Option, none, some, List, [], ◌∷◌, Text,
  arith,
}
use agentfi.Decimal.{policy_decimal_to_micro}
use agentfi.Policy.{AgentPolicy, is_expired}
use agentfi.Policy.Usdc.{
  UsdcSpendRequest, allowed, listed, refuses, exceeds, exceeds_daily, evaluate_usdc_row,
}

-- An unset limit, or one at least as large as the amount.
abbrev pub Within : Option ℕ → ℕ → Type 0
Within none amount = Unit {0}
Within (some limit) amount = amount ≤ limit

-- The same, where a limit of zero is no limit either.
abbrev pub WithinDaily : Option ℕ → ℕ → Type 0
WithinDaily none total = Unit {0}
WithinDaily (some limit) total = (limit ≡ 0) ⊎ (total ≤ limit)

pub record Permits (p : AgentPolicy) (r : UsdcSpendRequest) : Type 0 where
  pub running : p.active ≡ true
  pub current : is_expired p.expires_at r.now ≡ false
  pub token_listed : (p.allowed_tokens ≡ []) ⊎ (listed p.allowed_tokens r.token ≡ true)
  pub recipient_listed :
      (p.allowed_recipients ≡ []) ⊎ (listed p.allowed_recipients r.recipient ≡ true)
  pub in_cap : Within (policy_decimal_to_micro (some p.max_value_per_tx_usd)) r.amount
  pub in_day :
      WithinDaily
        (policy_decimal_to_micro (some p.max_daily_volume_usd))
        (r.spent_today_micro_usd + r.amount)

refuses_iff : (l : List Text) (a : Text) → (refuses l a ≡ false) ↔ ((l ≡ []) ⊎ (listed l a ≡ true))
unfolding refuses
refuses_iff [] a = (λ h. inl refl, λ h. refl)
refuses_iff (x ∷ l) a = ground arith

exceeds_iff : (o : Option ℕ) (a : ℕ) → (exceeds o a ≡ false) ↔ Within o a
unfolding exceeds
exceeds_iff none a = (λ h. tt, λ h. refl)
exceeds_iff (some l) a = ground arith

exceeds_daily_iff : (o : Option ℕ) (a : ℕ) → (exceeds_daily o a ≡ false) ↔ WithinDaily o a
unfolding exceeds_daily
exceeds_daily_iff none a = (λ h. tt, λ h. refl)
exceeds_daily_iff (some l) a = ground arith

abbrev pub PassesAll : AgentPolicy → UsdcSpendRequest → Type 0
PassesAll p r =
    (p.active ≡ true)
    × (is_expired p.expires_at r.now ≡ false)
    × (refuses p.allowed_tokens r.token ≡ false)
    × (refuses p.allowed_recipients r.recipient ≡ false)
    × (exceeds (policy_decimal_to_micro (some p.max_value_per_tx_usd)) r.amount ≡ false)
    × (exceeds_daily (policy_decimal_to_micro (some p.max_daily_volume_usd))
          (r.spent_today_micro_usd + r.amount)
        ≡ false)

pub allowed-PassesAll :
    (p : AgentPolicy) (r : UsdcSpendRequest) → evaluate_usdc_row p r ≡ allowed → PassesAll p r
unfolding evaluate_usdc_row
allowed-PassesAll p r h = ground arith

pub PassesAll-allowed :
    (p : AgentPolicy) (r : UsdcSpendRequest) → PassesAll p r → evaluate_usdc_row p r ≡ allowed
unfolding evaluate_usdc_row
PassesAll-allowed p r h = ground arith

-- A USDC spend under a policy row is allowed exactly when the row is active and not expired, the
-- token and the recipient are on their lists where these are not empty, the amount is within the
-- per-transaction cap, and the day's total with it is within the daily limit, where a limit that is
-- not a plain decimal, and a daily limit of zero, is no limit.
pub evaluate_usdc_row_iff :
    (p : AgentPolicy) (r : UsdcSpendRequest) → (evaluate_usdc_row p r ≡ allowed) ↔ Permits p r
evaluate_usdc_row_iff p r = (λ h. to (allowed-PassesAll p r h), λ s. PassesAll-allowed p r (from s))
  where
    to : PassesAll p r → Permits p r
    to q = record {
      running = q.0;
      current = q.1;
      token_listed = (refuses_iff p.allowed_tokens r.token).0 q.2;
      recipient_listed = (refuses_iff p.allowed_recipients r.recipient).0 q.3;
      in_cap = (exceeds_iff (policy_decimal_to_micro (some p.max_value_per_tx_usd)) r.amount).0 q.4;
      in_day =
          (exceeds_daily_iff (policy_decimal_to_micro (some p.max_daily_volume_usd))
              (r.spent_today_micro_usd + r.amount)).0
            q.5;
    }

    from : Permits p r → PassesAll p r
    from s = (
      s.running,
      s.current,
      (refuses_iff p.allowed_tokens r.token).1 s.token_listed,
      (refuses_iff p.allowed_recipients r.recipient).1 s.recipient_listed,
      (exceeds_iff (policy_decimal_to_micro (some p.max_value_per_tx_usd)) r.amount).1 s.in_cap,
      (exceeds_daily_iff (policy_decimal_to_micro (some p.max_daily_volume_usd))
            (r.spent_today_micro_usd + r.amount)).1
          s.in_day,
    )
