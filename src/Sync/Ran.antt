-- ===== src/Sync/Ran.antt =====
-- What each kind of planned call does to the module.
use agentfi.Base.{
  ◌≤◌, ◌≡◌, refl, ap, ◌∙◌, inl, inr, Bool, true, false, Option, none, some, List, [], ◌∷◌, ◌++◌,
  Text, if◌then◌else◌, arith, Bool-cases, Option-cases,
}
use agentfi.Sync.{DesiredOnChainPolicy}
use agentfi.Sync.Plan.{
  PolicySyncCall, update_contract_whitelist, update_token_whitelist, same_flag, Core, plan_core,
  call_unless_empty, encode_set_policy, numbers_differ, resume, emergency_pause,
}
use agentfi.Sync.Module.{
  Whitelist, ModuleState, update_whitelist, call_module, call_all, same_flag→eq,
}

abbrev pub core_of : DesiredOnChainPolicy → Core
core_of desired = record {
  max_value_per_tx_wei = desired.max_value_per_tx_wei;
  cooldown_seconds = desired.cooldown_seconds;
  active = desired.active;
  expires_at = desired.expires_at;
}

same_numbers :
    (desired : DesiredOnChainPolicy) (c : Core)
    → numbers_differ c desired ≡ false
    → (record c { active = desired.active }) ≡ core_of desired
same_numbers desired c h = ground arith

set_ran :
    (desired : DesiredOnChainPolicy) (m : ModuleState)
    → 1 ≤ desired.max_value_per_tx_wei
    → call_all (encode_set_policy desired ∷ []) m
      ≡ some (record m { has_policy = true; policy = core_of desired })
unfolding call_all call_module
set_ran desired m positive = ground arith

flag_ran :
    (desired : DesiredOnChainPolicy) (m : ModuleState) (active : Bool)
    → desired.active ≡ active
    → call_all ((if active then resume else emergency_pause) ∷ []) m
      ≡ some (record m { policy = record m.policy { active = desired.active } })
unfolding call_all call_module
flag_ran desired m true e = ground arith
flag_ran desired m false e = ground arith

stored :
    (m : ModuleState) {c d : Core}
    → m.has_policy ≡ true
    → c ≡ d
    → (record m { policy = c }) ≡ (record m { has_policy = true; policy = d })
stored m {c} has e =
    ap (λ (b : Bool). record m { has_policy = b; policy = c }) has
    ∙ ap (λ (k : Core). record m { has_policy = true; policy = k }) e

flips_plan :
    (desired : DesiredOnChainPolicy) (c : Core)
    → numbers_differ c desired ≡ false
    → same_flag c.active desired.active ≡ false
    → plan_core desired (some c) ≡ (if desired.active then resume else emergency_pause) ∷ []
unfolding plan_core
flips_plan desired c same flips = ground arith

quiet :
    (desired : DesiredOnChainPolicy) (c : Core)
    → numbers_differ c desired ≡ false
    → same_flag c.active desired.active ≡ true
    → plan_core desired (some c) ≡ []
unfolding plan_core
quiet desired c same flag = ground arith

in_sync_ran :
    (desired : DesiredOnChainPolicy) (m : ModuleState)
    → m.has_policy ≡ true
    → numbers_differ m.policy desired ≡ false
    → same_flag m.policy.active desired.active ≡ true
    → m.policy ≡ core_of desired
    → call_all (plan_core desired (some m.policy)) m
      ≡ some (record m { has_policy = true; policy = core_of desired })
unfolding plan_core call_all
in_sync_ran desired m has same flag equal =
    ap (λ calls. call_all calls m) (quiet desired m.policy same flag) ∙ ap some (stored m has equal)

some_core_ran :
    (desired : DesiredOnChainPolicy) (m : ModuleState)
    → 1 ≤ desired.max_value_per_tx_wei
    → m.has_policy ≡ true
    → call_all (plan_core desired (some m.policy)) m
      ≡ some (record m { has_policy = true; policy = core_of desired })
unfolding plan_core
some_core_ran desired m positive has = elim (Bool-cases (numbers_differ m.policy desired)) [
  | inl differ ↦ rw (differ, plan_core) (set_ran desired m positive)
  | inr same ↦ elim (Bool-cases (same_flag m.policy.active desired.active)) [
    | inl flag ↦
        let equal : m.policy ≡ core_of desired =
          ap (λ (b : Bool). record m.policy { active = b })
            (same_flag→eq m.policy.active desired.active flag)
          ∙ same_numbers desired m.policy same in
        in_sync_ran desired m has same flag equal
    | inr flips ↦
        ap (λ calls. call_all calls m) (flips_plan desired m.policy same flips)
        ∙ flag_ran desired m desired.active refl
        ∙ ap some (stored m has (same_numbers desired m.policy same))
  ]
]

-- The reading of the core is there where the policy is.
abbrev pub core_read : ModuleState → Bool → Option Core
core_read m has = if has then (if has then some m.policy else none) else none

pub core_brought :
    (desired : DesiredOnChainPolicy) (m : ModuleState)
    → 1 ≤ desired.max_value_per_tx_wei
    → call_all (plan_core desired (core_read m m.has_policy)) m
      ≡ some (record m { has_policy = true; policy = core_of desired })
unfolding plan_core
core_brought desired m positive = elim (Bool-cases m.has_policy) [
  | inr missing ↦
      ap (λ (has : Bool). call_all (plan_core desired (core_read m has)) m) missing
      ∙ set_ran desired m positive
  | inl has ↦
      ap (λ (b : Bool). call_all (plan_core desired (core_read m b)) m) has
      ∙ some_core_ran desired m positive has
]

pub call_all-append :
    (xs ys : List PolicySyncCall) (m m' : ModuleState)
    → call_all xs m ≡ some m'
    → call_all (xs ++ ys) m ≡ call_all ys m'
unfolding call_all
call_all-append [] ys m m' h = ap (call_all ys) (ground arith)
call_all-append (c ∷ xs) ys m m' h = elim (Option-cases (call_module c m)) [
  | inl reverted ↦ ground arith
  | inr (m1, e) ↦ rw (e, call_all) (call_all-append xs ys m1 m' (ground arith))
]

same_some : {v w : Whitelist} → some v ≡ some w → v ≡ w
same_some h = ground arith

pub contracts_ran :
    (entries : List (Text × Bool)) (m : ModuleState) (w : Whitelist)
    → update_whitelist entries m.contracts ≡ some w
    → call_all (call_unless_empty update_contract_whitelist entries) m
      ≡ some (record m { contracts = w })
unfolding call_all call_module update_whitelist
contracts_ran [] m w h = ap (λ (v : Whitelist). some (record m { contracts = v })) (same_some h)
contracts_ran (e ∷ es) m w h = rw (h, call_all, call_module) refl

pub tokens_ran :
    (entries : List (Text × Bool)) (m : ModuleState) (w : Whitelist)
    → update_whitelist entries m.tokens ≡ some w
    → call_all (call_unless_empty update_token_whitelist entries) m ≡ some (record m { tokens = w })
unfolding call_all call_module update_whitelist
tokens_ran [] m w h = ap (λ (v : Whitelist). some (record m { tokens = v })) (same_some h)
tokens_ran (e ∷ es) m w h = rw (h, call_all, call_module) refl
