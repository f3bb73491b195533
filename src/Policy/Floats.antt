-- ===== src/Policy/Floats.antt =====
-- ECMAScript numbers, where packages/backend/src/services/policy/policy-numbers.ts and its users
-- compare limits as floats: a parameter, since a float is no number of the model.
use agentfi.Base.{ℕ, ◌≡◌, Bool, true, false, Option, none, some, Text, if◌then◌else◌}
use agentfi.Decimal.{is_policy_decimal}

-- `Number(s)`, `parseFloat(s)` (not-a-number included), `Number.isFinite(x)`, `x > y`, `0`,
-- and the micro-dollars of `x.toFixed(6)`, for a number that is not negative.
pub record Floats : Type 1 where
  pub Float : Type 0
  pub number : Text → Float
  pub parse_float : Text → Float
  pub is_finite : Float → Bool
  pub gt : Float → Float → Bool
  pub zero_float : Float
  pub to_fixed_micro : Float → ℕ

module _ (fl : Floats) where
  open fl use {Float, number, is_finite, gt, zero_float}

  -- `null` (no limit) for anything that is no plain finite decimal.
  unfoldable pub parse_policy_decimal : Option Text → Option Float
  parse_policy_decimal none = none
  parse_policy_decimal (some raw) =
      if is_policy_decimal raw
      then if is_finite (number raw) then some (number raw) else none
      else none

  -- `limit !== null && value > limit`.
  unfoldable pub above : Option Float → Float → Bool
  above none value = false
  above (some limit) value = gt value limit

  -- `(parsePolicyDecimal(raw) ?? 0) > 0`.
  unfoldable pub is_positive : Option Float → Bool
  is_positive none = gt zero_float zero_float
  is_positive (some limit) = gt limit zero_float

-- What IEEE comparison gives: a value above a finite number is above every finite number that is not
-- above that one, and zero is not above zero.
pub record OrderLaws (fl : Floats) : Type 0 where
  pub gt_trans :
      (v a b : fl.Float)
      → fl.is_finite a ≡ true
      → fl.is_finite b ≡ true
      → fl.gt v a ≡ true
      → fl.gt b a ≡ false
      → fl.gt v b ≡ true
  pub zero_not_above : fl.gt fl.zero_float fl.zero_float ≡ false
