-- ===== src/Tests/Syncs.antt =====
-- The theorems on the on-chain policy at sample inputs.
use agentfi.Base.{
  ℕ, ◌≡◌, ◌≤◌, ◌*◌, ◌&&◌, refl, Bool, true, false, Option, none, some, List, [], ◌∷◌, Text, codes,
  split, lower, lower_idem, arith,
}
use agentfi.Decimal
use agentfi.Decimal.{dot}
use agentfi.Policy.{pos}
use agentfi.Sync.{
  DbPolicyInput, DesiredOnChainPolicy, ok, max_uint256, desired_on_chain_policy, mem_text,
}
use agentfi.Sync.Plan.{lowered, PolicySyncPlan, plan_policy_sync, read_on_chain_policy, probe}
use agentfi.Sync.Module.{
  Whitelist, ModuleState, views, call_all, assign, IsCounted, count_allowed, added-IsCounted,
}
use agentfi.Sync.Ran.{core_of}
use agentfi.Sync.Brought.{IsBrought, plan_policy_sync-call_all}
use agentfi.Sync.Superseded.{IsCurrent, plan_policy_sync-superseded}
use agentfi.Base.{any}
use agentfi.Sync.History.{sync_history, names, contract_entries, token_entries, sync_history_lem}
use agentfi.Sync.Superseded.{PolicySyncMetadata}
use agentfi.Sync.Plan.{update_contract_whitelist}
use agentfi.Sync.Exact.{ChangesCase, IsExpiry, desired_on_chain_policy_lem}
use agentfi.Sync.{wei_per_eth}
use agentfi.Decimal.{dot}
use agentfi.Decimal.Rounding.{scale, numerator}
use agentfi.Base.{◌*◌, split}

abbrev address_a : Text
address_a = codes "0x00000000000000000000000000000000000000Aa"

abbrev address_b : Text
address_b = codes "0x00000000000000000000000000000000000000bB"

abbrev address_c : Text
address_c = codes "0x00000000000000000000000000000000000000cc"

-- No checksum: an address is spelled as it stands.
abbrev plain : Text → Text
plain a = a

plain-ChangesCase : ChangesCase plain
plain-ChangesCase a = lower_idem a

abbrev sample_input : DbPolicyInput
sample_input = record {
  safe_address = address_c;
  agent_active = true;
  policy = record {
    max_value_per_tx_eth = codes "1.5";
    cooldown_seconds = pos 60;
    active = true;
    expires_at = none;
    allowed_contracts = address_a ∷ address_a ∷ [];
    allowed_tokens = [];
  };
}

abbrev sample_desired : DesiredOnChainPolicy
sample_desired = record {
  safe = lower address_c;
  max_value_per_tx_wei = 1_500_000_000_000_000_000;
  cooldown_seconds = 60;
  active = true;
  expires_at = 0;
  allowed_contracts = lower address_a ∷ [];
  allowed_tokens = [];
}

sample_desired_ok : desired_on_chain_policy plain sample_input ≡ ok sample_desired
unfolding desired_on_chain_policy Decimal.is_policy_decimal Decimal.decimal_shape split
    Decimal.digits1 Decimal.big_int agentfi.Base.lower_unit
sample_desired_ok = refl

desired_on_chain_policy_lem_example :
    (lower (lower address_c) ≡ lower address_c)
    × (1_500_000_000_000_000_000 * scale (split dot (codes "1.5"))
        ≡ numerator (split dot (codes "1.5")) * wei_per_eth)
    × (1 ≤ 1_500_000_000_000_000_000)
    × (1_500_000_000_000_000_000 ≤ max_uint256)
    × (pos 60 ≡ pos 60)
    × IsExpiry none 0
    × (true ≡ (true && true))
    × ((x : Text)
        → mem_text x (lowered (lower address_a ∷ []))
          ≡ mem_text x (lowered (address_a ∷ address_a ∷ [])))
    × ((x : Text) → mem_text x (lowered []) ≡ mem_text x (lowered []))
desired_on_chain_policy_lem_example =
    desired_on_chain_policy_lem plain sample_input sample_desired plain-ChangesCase
      sample_desired_ok

abbrev nobody : Whitelist
nobody = record { allowed = λ x. false; num_allowed = 0 }

nobody_counts : (xs : List Text) → count_allowed (λ x. false) xs ≡ 0
unfolding count_allowed
nobody_counts [] = refl
nobody_counts (x ∷ xs) = omega (arith, nobody_counts xs)

nobody-IsCounted : IsCounted nobody
nobody-IsCounted xs d = omega (arith, nobody_counts xs)

-- A wallet whose module still lists an address of an earlier sync.
abbrev only_b : Whitelist
only_b = record { allowed = assign (lower address_b) true (λ x. false); num_allowed = 1 }

only_b-IsCounted : IsCounted only_b
only_b-IsCounted = added-IsCounted (lower address_b) nobody nobody-IsCounted refl

abbrev sample_module : ModuleState
sample_module = record {
  has_policy = false;
  policy = record {
    max_value_per_tx_wei = 0;
    cooldown_seconds = 0;
    active = false;
    expires_at = 0;
  };
  contracts = only_b;
  tokens = nobody;
}

abbrev sample_candidates : List Text
sample_candidates = lower address_a ∷ address_b ∷ []

abbrev sample_calls : PolicySyncPlan
sample_calls =
    plan_policy_sync sample_desired
      (read_on_chain_policy (views sample_module) sample_candidates []) (address_b ∷ []) []

plan_policy_sync-superseded_example : IsCurrent sample_desired sample_calls.calls
plan_policy_sync-superseded_example =
    plan_policy_sync-superseded sample_desired
      (read_on_chain_policy (views sample_module) sample_candidates []) (address_b ∷ []) []

zero_not_listed : only_b.allowed probe ≡ false
unfolding agentfi.Base.lower_unit
zero_not_listed = refl

listed_a : mem_text (lower (lower address_a)) (lowered sample_candidates) ≡ true
unfolding agentfi.Base.lower_unit
listed_a = refl

listed_b : mem_text (lower address_b) (lowered sample_candidates) ≡ true
unfolding agentfi.Base.lower_unit
listed_b = refl

plan_policy_sync-call_all_example :
    (after : ModuleState) × (call_all sample_calls.calls sample_module ≡ some after)
    × (after.has_policy ≡ true)
    × (after.policy ≡ core_of sample_desired)
    × IsBrought (lower address_a ∷ []) (address_b ∷ []) only_b after.contracts
    × IsBrought [] [] nobody after.tokens
plan_policy_sync-call_all_example =
    plan_policy_sync-call_all sample_desired sample_module sample_candidates [] (address_b ∷ []) []
      (omega arith) only_b-IsCounted nobody-IsCounted zero_not_listed refl (listed_a, tt)
      (listed_b, tt) tt tt

abbrev sample_rows : List (Option PolicySyncMetadata)
sample_rows =
    none
    ∷ some (record {
      safe = lower address_c;
      call = update_contract_whitelist ((address_a, true) ∷ (address_b, false) ∷ []);
    })
    ∷ []

sync_history_lem_example :
    (mem_text (lower address_a) (lowered (sync_history plain sample_rows).0)
      ≡ any (λ row. names (lower address_a) (contract_entries row)) sample_rows)
    × (mem_text (lower address_a) (lowered (sync_history plain sample_rows).1)
        ≡ any (λ row. names (lower address_a) (token_entries row)) sample_rows)
sync_history_lem_example = sync_history_lem plain sample_rows (lower address_a) plain-ChangesCase
