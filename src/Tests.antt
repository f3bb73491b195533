-- ===== src/Tests.antt =====
-- Sample rows, policies and parameters on which the theorems of the other modules are run.
pub mod Policies
pub mod Volumes
pub mod Syncs
pub mod Lanes
pub mod Workers
use agentfi.Base.{
  ℕ, ◌≡◌, refl, Bool, true, false, Option, none, some, List, [], ◌∷◌, Text, codes, ltb, lower, trim,
  arith,
}
use agentfi.Decimal.{fixed_point}
use agentfi.Policy.{AgentPolicy, Timestamp, at, pos}
use agentfi.Policy.Floats.{Floats, OrderLaws}
use agentfi.Policy.Tighten.Addresses.{ChecksumLaw}

-- Numbers of six decimals in place of floats.
abbrev pub micro_floats : Floats
micro_floats = record {
  Float = ℕ;
  number = λ s. fixed_point s 6;
  parse_float = λ s. fixed_point s 6;
  is_finite = λ x. true;
  gt = λ a b. ltb b a;
  zero_float = 0;
  to_fixed_micro = λ x. x;
}

pub micro_floats-OrderLaws : OrderLaws micro_floats
micro_floats-OrderLaws = record { gt_trans = λ v a b f g h k. ground arith; zero_not_above = refl }

-- `getAddress` without a checksum.
abbrev pub plain_address : Text → Option Text
plain_address a = some (lower (trim a))

pub plain_address-ChecksumLaw : ChecksumLaw micro_floats plain_address
plain_address-ChecksumLaw a b x y e f h = ground arith

abbrev pub token_a : Text
token_a = codes "0xa1"

abbrev pub token_b : Text
token_b = codes "0xb2"

-- A policy that lists two tokens and caps what it can.
abbrev pub sample_policy : AgentPolicy
sample_policy = record {
  max_value_per_tx_eth = codes "1.5";
  max_value_per_tx_usd = codes "20";
  max_outflow_per_tx_usd = some (codes "10.25");
  max_value_for_auto_approval_eth = codes "1";
  max_daily_volume_usd = codes "50.5";
  allowed_contracts = [];
  allowed_recipients = [];
  allowed_tokens = token_a ∷ token_b ∷ [];
  cooldown_seconds = pos 0;
  active = true;
  expires_at = some (at 100_000_000_000);
  paused_by_operator_at = none;
}
