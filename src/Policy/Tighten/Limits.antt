-- ===== src/Policy/Tighten/Limits.antt =====
-- Limits, as the classifier and the checks read them.
use agentfi.Base.{ℕ, ◌≡◌, Bool, true, false, Option, none, some, Text, arith}
use agentfi.Decimal.{policy_decimal_to_micro}
use agentfi.Policy.{Timestamp, at, invalid, is_expired}
use agentfi.Policy.Usdc.{exceeds, exceeds_daily}
use agentfi.Policy.Authority.{
  loosens_at, plain, zero_unlimited, effective_expiry, expiry_gt, on_patch,
}
use agentfi.Policy.Service.Row.{get_or}

-- The per-transaction cap in micro-dollars.
pub exceeds_mono :
    (cur next : Text) (amount : ℕ)
    → loosens_at 6 plain (some next) (some cur) true ≡ false
    → exceeds (policy_decimal_to_micro (some cur)) amount ≡ true
    → exceeds (policy_decimal_to_micro (some next)) amount ≡ true
unfolding loosens_at exceeds policy_decimal_to_micro
exceeds_mono cur next amount h e = ground arith

pub exceeds_daily_mono :
    (cur next : Text) (total : ℕ)
    → loosens_at 6 zero_unlimited (some next) (some cur) true ≡ false
    → exceeds_daily (policy_decimal_to_micro (some cur)) total ≡ true
    → exceeds_daily (policy_decimal_to_micro (some next)) total ≡ true
unfolding loosens_at exceeds_daily policy_decimal_to_micro
exceeds_daily_mono cur next total h e = ground arith

pub is_expired_mono :
    (cur next : Option Timestamp) (now : ℕ)
    → expiry_gt (effective_expiry next) (effective_expiry cur) ≡ false
    → is_expired cur now ≡ true
    → is_expired next now ≡ true
unfolding effective_expiry
is_expired_mono none next now h e = cc
is_expired_mono (some invalid) next now h e = cc
is_expired_mono (some (at t)) none now h e = cc
is_expired_mono (some (at t)) (some invalid) now h e = cc
is_expired_mono (some (at t)) (some (at u)) now h e = ground arith

-- A field that is absent from the patch keeps its value.
pub patched {ℓ κ} :
    {A : Type ℓ} (P : A → Type κ) (cur : A) (p : Option A) (test : A → Bool)
    → on_patch p test ≡ false
    → P cur
    → ((a : A) → test a ≡ false → P a)
    → P (get_or cur p)
patched P cur none test h keep change = keep
patched P cur (some a) test h keep change = change a h
