-- ===== src/Policy.antt =====
-- The agent policy row (packages/backend/src/db/schema.prisma, AgentPolicy) as the checks under
-- packages/backend/src/services/policy read it.
pub mod Usdc
pub mod Pricing
pub mod Outflow
pub mod Floats
pub mod Authority
pub mod Service
pub mod Tighten
use agentfi.Base.{
  ℕ, ◌+◌, ◌≡◌, refl, Bool, true, false, Option, none, some, List, Text, ltb, text_eq, any, lower,
}

-- A `Date`: milliseconds since the epoch, or the invalid date, which compares as false.
pub data Timestamp : Type 0 where
  at : ℕ → Timestamp
  invalid : Timestamp

-- `date < now`.
abbrev pub is_before : Timestamp → ℕ → Bool
is_before (at t) now = ltb t now
is_before invalid now = false

-- A signed integer column; `negsuc n` is -(n + 1).
pub data ℤ : Type 0 where
  pos : ℕ → ℤ
  negsuc : ℕ → ℤ

pub record AgentPolicy : Type 0 where
  pub max_value_per_tx_eth : Text
  pub max_value_per_tx_usd : Text
  pub max_outflow_per_tx_usd : Option Text
  pub max_value_for_auto_approval_eth : Text
  pub max_daily_volume_usd : Text
  pub allowed_contracts : List Text
  pub allowed_recipients : List Text
  pub allowed_tokens : List Text
  pub cooldown_seconds : ℤ
  pub active : Bool
  pub expires_at : Option Timestamp
  pub paused_by_operator_at : Option ℕ

-- `policy.expiresAt && policy.expiresAt < now`.
abbrev pub is_expired : Option Timestamp → ℕ → Bool
is_expired none now = false
is_expired (some t) now = is_before t now

-- Both texts in lower case.
abbrev pub same_address : Text → Text → Bool
same_address a b = text_eq (lower a) (lower b)
