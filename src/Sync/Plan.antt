-- ===== src/Sync/Plan.antt =====
-- packages/backend/src/services/policy/policy-sync.ts: the reading of the module and the calls that
-- bring it to the desired policy.
use agentfi.Base.{
  ℕ, ◌+◌, ◌-◌, Bool, true, false, not, ◌||◌, Option, none, some, List, [], ◌∷◌, ◌++◌, Text, codes,
  ltb, ◌==◌, if◌then◌else◌, lower, text_eq,
}
use agentfi.Sync.{DesiredOnChainPolicy, mem_text}

-- A `Map` from an address in lower case: the membership of each candidate, in order of insertion.
abbrev pub Members : Type 0
Members = List (Text × Bool)

unfoldable pub get_member : Text → Members → Option Bool
get_member a [] = none
get_member a ((k, b) ∷ m) = if text_eq k a then some b else get_member a m

unfoldable pub put_member : Text → Bool → Members → Members
put_member a b [] = (a, b) ∷ []
put_member a b ((k, c) ∷ m) = if text_eq k a then (k, b) ∷ m else (k, c) ∷ put_member a b m

pub record WhitelistReading : Type 0 where
  pub count : Option ℕ
  pub members : Members

pub record Core : Type 0 where
  pub max_value_per_tx_wei : ℕ
  pub cooldown_seconds : ℕ
  pub active : Bool
  pub expires_at : ℕ

pub record OnChainPolicyReading : Type 0 where
  pub has_policy : Bool
  pub core : Option Core
  pub contracts : WhitelistReading
  pub tokens : WhitelistReading

-- The answers of the module's views for one wallet.
pub record PolicyModuleReader : Type 0 where
  pub view_has_policy : Bool
  pub view_policy : Core
  pub num_allowed_contracts : ℕ
  pub num_allowed_tokens : ℕ
  pub is_contract_allowed : Text → Bool
  pub is_token_allowed : Text → Bool

-- `PROBE`, the zero address.
abbrev pub probe : Text
probe = codes "0x0000000000000000000000000000000000000000"

abbrev pub count_is_zero : Option ℕ → Bool → Bool
count_is_zero none probed = probed
count_is_zero (some n) probed = n == 0

-- Membership of each candidate: nothing is a member while the view answers true for all.
unfoldable pub read_from : (Text → Bool) → Bool → List Text → Members → Members
unfolding put_member
read_from view nothing [] acc = acc
read_from view nothing (a ∷ rest) acc =
    read_from view nothing rest
      (put_member (lower a) (if nothing then false else view (lower a)) acc)

unfoldable pub read_members : (Text → Bool) → Option ℕ → List Text → Members
unfolding read_from
read_members view count list = read_from view (count_is_zero count (view probe)) list []

unfoldable pub read_on_chain_policy :
    PolicyModuleReader → List Text → List Text → OnChainPolicyReading
unfolding read_members
read_on_chain_policy read contracts tokens =
    let has = read.view_has_policy in
    let contract_count = if has then some read.num_allowed_contracts else none in
    let token_count = if has then some read.num_allowed_tokens else none in
    record {
      has_policy = has;
      core = if has then some read.view_policy else none;
      contracts = record {
        count = contract_count;
        members = read_members read.is_contract_allowed contract_count contracts;
      };
      tokens = record {
        count = token_count;
        members = read_members read.is_token_allowed token_count tokens;
      };
    }

-- A call of the module for the wallet, with its arguments; the encoded bytes are not modelled.
pub data PolicySyncCall : Type 0 where
  set_policy :
      (max_value_per_tx_wei cooldown_seconds : ℕ) (active : Bool) (expires_at : ℕ) → PolicySyncCall
  emergency_pause resume : PolicySyncCall
  update_contract_whitelist update_token_whitelist : List (Text × Bool) → PolicySyncCall

abbrev pub is_member : Text → Members → Bool
is_member a members = elim (get_member (lower a) members) [ none ↦ false | some b ↦ b ]

-- The wanted addresses that are no members yet.
unfoldable pub missing_entries : List Text → Members → List (Text × Bool)
unfolding get_member
missing_entries [] members = []
missing_entries (a ∷ wanted) members =
    let rest = missing_entries wanted members in
    if is_member a members then rest else (a, true) ∷ rest

abbrev pub lowered : List Text → List Text
lowered [] = []
lowered (a ∷ rest) = lower a ∷ lowered rest

-- The addresses of an earlier sync that are members and no longer wanted, each once.
unfoldable pub extra_entries : List Text → List Text → List Text → Members → List (Text × Bool)
unfolding get_member
extra_entries wanted seen [] members = []
extra_entries wanted seen (a ∷ history) members =
    let skipped = extra_entries wanted seen history members in
    let rest = extra_entries wanted (lower a ∷ seen) history members in
    if mem_text (lower a) (lowered wanted) || mem_text (lower a) seen
    then skipped
    else if is_member a members
    then (a, false) ∷ rest
    else rest

unfoldable pub count_members : Members → ℕ
count_members [] = 0
count_members ((k, b) ∷ m) = (if b then 1 else 0) + count_members m

-- Members that the backend cannot name.
abbrev pub unknown_extra : Option ℕ → ℕ → ℕ
unknown_extra none known = 0
unknown_extra (some n) known = if ltb known n then n - known else 0

unfoldable pub plan_whitelist : List Text → List Text → WhitelistReading → List (Text × Bool) × ℕ
unfolding missing_entries extra_entries count_members
plan_whitelist desired history reading = (
  missing_entries desired reading.members ++ extra_entries desired [] history reading.members,
  unknown_extra reading.count (count_members reading.members),
)

abbrev pub encode_set_policy : DesiredOnChainPolicy → PolicySyncCall
encode_set_policy desired =
    set_policy desired.max_value_per_tx_wei desired.cooldown_seconds desired.active
      desired.expires_at

abbrev pub same_flag : Bool → Bool → Bool
same_flag true b = b
same_flag false b = not b

abbrev pub numbers_differ : Core → DesiredOnChainPolicy → Bool
numbers_differ c desired =
    not (c.max_value_per_tx_wei == desired.max_value_per_tx_wei)
    || not (c.cooldown_seconds == desired.cooldown_seconds)
    || not (c.expires_at == desired.expires_at)

-- One call for the numbers and the flag, or the module's own pause or resume for the flag alone.
unfoldable pub plan_core : DesiredOnChainPolicy → Option Core → List PolicySyncCall
plan_core desired none = encode_set_policy desired ∷ []
plan_core desired (some c) =
    if numbers_differ c desired
    then encode_set_policy desired ∷ []
    else if not (same_flag c.active desired.active)
    then (if desired.active then resume else emergency_pause) ∷ []
    else []

abbrev pub call_unless_empty :
    (List (Text × Bool) → PolicySyncCall) → List (Text × Bool) → List PolicySyncCall
call_unless_empty call [] = []
call_unless_empty call (e ∷ es) = call (e ∷ es) ∷ []

pub record PolicySyncPlan : Type 0 where
  pub calls : List PolicySyncCall
  pub unknown_contracts : ℕ
  pub unknown_tokens : ℕ

-- The history is the addresses that earlier syncs sent.
unfoldable pub plan_policy_sync :
    DesiredOnChainPolicy → OnChainPolicyReading → List Text → List Text → PolicySyncPlan
unfolding plan_core plan_whitelist
plan_policy_sync desired reading contract_history token_history =
    let contracts = plan_whitelist desired.allowed_contracts contract_history reading.contracts in
    let tokens = plan_whitelist desired.allowed_tokens token_history reading.tokens in
    record {
      calls =
          plan_core desired (if reading.has_policy then reading.core else none)
          ++ call_unless_empty update_contract_whitelist contracts.0
          ++ call_unless_empty update_token_whitelist tokens.0;
      unknown_contracts = contracts.1;
      unknown_tokens = tokens.1;
    }
