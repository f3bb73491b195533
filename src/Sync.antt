-- ===== src/Sync.antt =====
-- packages/backend/src/services/policy/policy-sync.ts: the policy that the on-chain module should
-- hold, derived from the database. An address is its text; on the chain, its text in lower case.
pub mod Exact
pub mod Plan
pub mod Module
pub mod Reading
pub mod Applied
pub mod Ran
pub mod Brought
pub mod Superseded
pub mod History
use agentfi.Base.{
  ℕ, zero, suc, ◌+◌, ◌-◌, ◌*◌, ◌/◌, Bool, true, false, not, ◌&&◌, ◌||◌, Option, none, some, List,
  [], ◌∷◌, ◌++◌, Text, ltb, leb, ◌==◌, if◌then◌else◌, length, all, any, drop, is_empty, lower,
  split, text_eq,
}
use agentfi.Decimal.{dot, is_digit, is_policy_decimal, whole_part, fraction_part, big_int, pad_end}
use agentfi.Policy.{ℤ, pos, negsuc, Timestamp, at, invalid}

pub record DesiredOnChainPolicy : Type 0 where
  pub safe : Text
  pub max_value_per_tx_wei : ℕ
  pub cooldown_seconds : ℕ
  pub active : Bool
  pub expires_at : ℕ
  pub allowed_contracts : List Text
  pub allowed_tokens : List Text

pub record DbPolicy : Type 0 where
  pub max_value_per_tx_eth : Text
  pub cooldown_seconds : ℤ
  pub active : Bool
  pub expires_at : Option Timestamp
  pub allowed_contracts : List Text
  pub allowed_tokens : List Text

pub record DbPolicyInput : Type 0 where
  pub safe_address : Text
  pub agent_active : Bool
  pub policy : DbPolicy

-- Why the module cannot hold the policy; the texts of the problems, without their wording.
pub data Problem : Type 0 where
  bad_safe bad_max_value max_value_too_large max_value_zero bad_cooldown bad_expiry : Problem
  bad_entry : Text → Problem

pub data DesiredPolicyResult : Type 0 where
  ok : DesiredOnChainPolicy → DesiredPolicyResult
  not_ok : List Problem → DesiredPolicyResult

unfoldable pub is_hex : ℕ → Bool
unfolding is_digit
is_hex c = is_digit c || leb b'a' c && leb c b'f' || leb b'A' c && leb c b'F'

-- `/^0x[0-9a-fA-F]{40}$/`.
unfoldable pub is_address : Text → Bool
unfolding is_hex
is_address (z ∷ x ∷ s) = z == b'0' && (x == b'x' && (length s == 40 && all is_hex s))
is_address _ = false

-- `10n ** 18n` and `2n ** 256n - 1n`.
abbrev pub wei_per_eth : ℕ
wei_per_eth = 1_000_000_000_000_000_000

abbrev pub max_uint256 : ℕ
max_uint256 = 115792089237316195423570985008687907853269984665640564039457584007913129639935

unfoldable pub wei_parts : List Text → Option ℕ
wei_parts parts =
    if ltb 18 (length (fraction_part parts))
    then none
    else some
        (big_int (whole_part parts) * wei_per_eth + big_int (pad_end 18 (fraction_part parts)))

-- Exactly, or not at all.
unfoldable pub eth_decimal_to_wei : Text → Option ℕ
unfolding wei_parts
eth_decimal_to_wei raw = if is_policy_decimal raw then wei_parts (split dot raw) else none

abbrev pub when : Bool → Problem → List Problem
when true problem = problem ∷ []
when false problem = []

-- A `Set` of texts.
abbrev pub mem_text : Text → List Text → Bool
mem_text a seen = any (λ s. text_eq s a) seen

abbrev pub value_problems : Option ℕ → List Problem
value_problems none = bad_max_value ∷ []
value_problems (some wei) =
    if ltb max_uint256 wei then max_value_too_large ∷ [] else when (wei == 0) max_value_zero

-- A column of 32 bits is always a safe integer.
abbrev pub cooldown_problems : ℤ → List Problem
cooldown_problems (pos n) = []
cooldown_problems (negsuc n) = bad_cooldown ∷ []

-- A time before the epoch is no `Timestamp`.
abbrev pub expiry_problems : Option Timestamp → List Problem
expiry_problems none = []
expiry_problems (some (at t)) = []
expiry_problems (some invalid) = bad_expiry ∷ []

abbrev pub expiry_seconds : Option Timestamp → ℕ
expiry_seconds none = 0
expiry_seconds (some (at t)) = t / 1000
expiry_seconds (some invalid) = 0

abbrev pub cooldown_value : ℤ → ℕ
cooldown_value (pos n) = n
cooldown_value (negsuc n) = 0

abbrev pub or_no_wei : Option ℕ → ℕ
or_no_wei none = 0
or_no_wei (some wei) = wei

-- `getAddress` of an address in lower case: its checksummed spelling.
module _ (get_address : Text → Text) where
  -- The spelled addresses and the entries that are none, `seen` being those met before.
  unfoldable pub normalize_from : List Text → List Text → List Text × List Problem
  unfolding is_address
  normalize_from seen [] = ([], [])
  normalize_from seen (entry ∷ raw) =
      let skipped = normalize_from seen raw in
      let added = normalize_from (lower entry ∷ seen) raw in
      if not (is_address entry)
      then (skipped.0, bad_entry entry ∷ skipped.1)
      else if mem_text (lower entry) seen
      then skipped
      else (get_address (lower entry) ∷ added.0, added.1)

  abbrev pub normalize_list : List Text → List Text × List Problem
  normalize_list raw = normalize_from [] raw

  unfoldable pub problems_of : DbPolicyInput → List Problem
  unfolding normalize_from eth_decimal_to_wei
  problems_of input =
      when (not (is_address input.safe_address)) bad_safe
      ++ value_problems (eth_decimal_to_wei input.policy.max_value_per_tx_eth)
      ++ cooldown_problems input.policy.cooldown_seconds
      ++ expiry_problems input.policy.expires_at
      ++ (normalize_list input.policy.allowed_contracts).1
      ++ (normalize_list input.policy.allowed_tokens).1

  unfoldable pub desired_policy : DbPolicyInput → DesiredOnChainPolicy
  unfolding normalize_from eth_decimal_to_wei
  desired_policy input = record {
    safe = get_address (lower input.safe_address);
    max_value_per_tx_wei = or_no_wei (eth_decimal_to_wei input.policy.max_value_per_tx_eth);
    cooldown_seconds = cooldown_value input.policy.cooldown_seconds;
    active = input.agent_active && input.policy.active;
    expires_at = expiry_seconds input.policy.expires_at;
    allowed_contracts = (normalize_list input.policy.allowed_contracts).0;
    allowed_tokens = (normalize_list input.policy.allowed_tokens).0;
  }

  unfoldable pub desired_on_chain_policy : DbPolicyInput → DesiredPolicyResult
  unfolding problems_of desired_policy
  desired_on_chain_policy input =
      if is_empty (problems_of input) then ok (desired_policy input) else not_ok (problems_of input)
