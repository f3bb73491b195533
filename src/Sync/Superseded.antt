-- ===== src/Sync/Superseded.antt =====
-- packages/backend/src/services/policy/policy-sync.ts: whether a queued call still moves the module
-- towards the stored policy.
use agentfi.Base.{
  ◌≡◌, refl, Bool, true, false, not, ◌&&◌, ◌||◌, Option, none, some, List, [], ◌∷◌, ◌++◌, Text,
  ◌==◌, if◌then◌else◌, lower, text_eq, text_eq_refl, arith, All, Bool-cases, inl, inr,
}
use agentfi.Sync.{DesiredOnChainPolicy, mem_text}
use agentfi.Sync.Plan.{
  PolicySyncCall, set_policy, emergency_pause, resume, update_contract_whitelist,
  update_token_whitelist, same_flag, lowered, OnChainPolicyReading, Core, Members, WhitelistReading,
  missing_entries, extra_entries, is_member, plan_policy_sync, plan_core, plan_whitelist,
  call_unless_empty, encode_set_policy, numbers_differ,
}

-- `metadata.policySync` of a queued row, with the arguments that the sync writes for each call.
pub record PolicySyncMetadata : Type 0 where
  pub safe : Text
  pub call : PolicySyncCall

pub data Supersession : Type 0 where
  other_wallet policy_changed active_again paused_now : Supersession
  list_changed : Text → Supersession

unfoldable pub list_supersession : List Text → List (Text × Bool) → Option Supersession
list_supersession list [] = none
list_supersession list ((a, allowed) ∷ entries) =
    if same_flag allowed (mem_text (lower a) (lowered list))
    then list_supersession list entries
    else some (list_changed a)

unfoldable pub call_supersession : PolicySyncCall → DesiredOnChainPolicy → Option Supersession
unfolding list_supersession
call_supersession (set_policy wei cooldown active expiry) desired =
    if wei == desired.max_value_per_tx_wei
      && (cooldown == desired.cooldown_seconds
          && (same_flag active desired.active && expiry == desired.expires_at))
    then none
    else some policy_changed
call_supersession emergency_pause desired = if desired.active then some active_again else none
call_supersession resume desired = if desired.active then none else some paused_now
call_supersession (update_contract_whitelist entries) desired =
    list_supersession desired.allowed_contracts entries
call_supersession (update_token_whitelist entries) desired =
    list_supersession desired.allowed_tokens entries

unfoldable pub superseded_reason : PolicySyncMetadata → DesiredOnChainPolicy → Option Supersession
unfolding call_supersession
superseded_reason meta desired =
    if text_eq (lower meta.safe) (lower desired.safe)
    then call_supersession meta.call desired
    else some other_wallet

-- Every entry says whether its address is in the list.
abbrev pub Agrees : List Text → List (Text × Bool) → Type 0
Agrees list = All (λ e. same_flag e.1 (mem_text (lower e.0) (lowered list)) ≡ true)

agreeing :
    (list : List Text) (entries : List (Text × Bool))
    → Agrees list entries
    → list_supersession list entries ≡ none
unfolding list_supersession
agreeing list [] h = refl
agreeing list ((a, allowed) ∷ entries) h = rw (h.0) (agreeing list entries h.1)

Agrees-append :
    (list : List Text) (es fs : List (Text × Bool))
    → Agrees list es
    → Agrees list fs
    → Agrees list (es ++ fs)
Agrees-append list [] fs h k = k
Agrees-append list (e ∷ es) fs h k = (h.0, Agrees-append list es fs h.1 k)

-- Every wanted address is in the wanted list.
abbrev pub Within : List Text → List Text → Type 0
Within list = All (λ a. mem_text (lower a) (lowered list) ≡ true)

wider : (b : Text) (list part : List Text) → Within list part → Within (b ∷ list) part
wider b list [] h = h
wider b list (a ∷ part) h = (ground arith, wider b list part h.1)

all-Within : (list : List Text) → Within list list
all-Within [] = tt
all-Within (a ∷ list) =
    (ground (arith, text_eq_refl (lower a)), wider a list list (all-Within list))

missing-Agrees :
    (list part : List Text) (members : Members)
    → Within list part
    → Agrees list (missing_entries part members)
unfolding missing_entries
missing-Agrees list [] members h = tt
missing-Agrees list (a ∷ part) members h = elim (Bool-cases (is_member a members)) [
  | inl present ↦ rw present (missing-Agrees list part members h.1)
  | inr absent ↦ rw absent (ground arith, missing-Agrees list part members h.1)
]

extra-Agrees :
    (list seen history : List Text) (members : Members)
    → Agrees list (extra_entries list seen history members)
unfolding extra_entries
extra-Agrees list seen [] members = tt
extra-Agrees list seen (a ∷ history) members =
    elim (Bool-cases (mem_text (lower a) (lowered list) || mem_text (lower a) seen)) [
      | inl known ↦ rw known (extra-Agrees list seen history members)
      | inr fresh ↦ elim (Bool-cases (is_member a members)) [
        | inl present ↦
            rw fresh (rw present (ground arith, extra-Agrees list (lower a ∷ seen) history members))
        | inr absent ↦ rw fresh (rw absent (extra-Agrees list (lower a ∷ seen) history members))
      ]
    ]

abbrev pub IsCurrent : DesiredOnChainPolicy → List PolicySyncCall → Type 0
IsCurrent desired =
    All (λ call. superseded_reason (record { safe = desired.safe; call = call }) desired ≡ none)

All-append :
    (desired : DesiredOnChainPolicy) (xs ys : List PolicySyncCall)
    → IsCurrent desired xs
    → IsCurrent desired ys
    → IsCurrent desired (xs ++ ys)
All-append desired [] ys h k = k
All-append desired (x ∷ xs) ys h k = (h.0, All-append desired xs ys h.1 k)

same_wallet :
    (desired : DesiredOnChainPolicy) (call : PolicySyncCall)
    → call_supersession call desired ≡ none
    → superseded_reason (record { safe = desired.safe; call = call }) desired ≡ none
unfolding superseded_reason
same_wallet desired call h = rw (text_eq_refl (lower desired.safe)) h

flag_refl : (b : Bool) → same_flag b b ≡ true
flag_refl true = refl
flag_refl false = refl

set_current :
    (desired : DesiredOnChainPolicy) → call_supersession (encode_set_policy desired) desired ≡ none
unfolding call_supersession
set_current desired = rw (flag_refl desired.active) (ground arith)

flag_call :
    (desired : DesiredOnChainPolicy) (active : Bool)
    → desired.active ≡ active
    → IsCurrent desired ((if active then resume else emergency_pause) ∷ [])
unfolding call_supersession
flag_call desired true e = (same_wallet desired resume (ground arith), tt)
flag_call desired false e = (same_wallet desired emergency_pause (ground arith), tt)

flag-IsCurrent :
    (desired : DesiredOnChainPolicy) (c : Core)
    → IsCurrent desired (
        if not (same_flag c.active desired.active)
        then (if desired.active then resume else emergency_pause) ∷ []
        else [])
flag-IsCurrent desired c = elim (Bool-cases (same_flag c.active desired.active)) [
  | inl same ↦ rw same tt
  | inr differ ↦ rw differ (flag_call desired desired.active refl)
]

core-IsCurrent :
    (desired : DesiredOnChainPolicy) (core : Option Core)
    → IsCurrent desired (plan_core desired core)
unfolding plan_core
core-IsCurrent desired none =
    (same_wallet desired (encode_set_policy desired) (set_current desired), tt)
core-IsCurrent desired (some c) = elim (Bool-cases (numbers_differ c desired)) [
  | inl differ ↦
      rw differ (same_wallet desired (encode_set_policy desired) (set_current desired), tt)
  | inr same ↦ rw same (flag-IsCurrent desired c)
]

list_current :
    (list history : List Text) (reading : WhitelistReading)
    → list_supersession list (plan_whitelist list history reading).0 ≡ none
unfolding plan_whitelist
list_current list history reading = agreeing list _ (
    Agrees-append list (missing_entries list reading.members)
      (extra_entries list [] history reading.members)
      (missing-Agrees list list reading.members (all-Within list))
      (extra-Agrees list [] history reading.members))

contracts-IsCurrent :
    (desired : DesiredOnChainPolicy) (entries : List (Text × Bool))
    → list_supersession desired.allowed_contracts entries ≡ none
    → IsCurrent desired (call_unless_empty update_contract_whitelist entries)
unfolding call_supersession
contracts-IsCurrent desired [] h = tt
contracts-IsCurrent desired (e ∷ es) h =
    (same_wallet desired (update_contract_whitelist (e ∷ es)) h, tt)

tokens-IsCurrent :
    (desired : DesiredOnChainPolicy) (entries : List (Text × Bool))
    → list_supersession desired.allowed_tokens entries ≡ none
    → IsCurrent desired (call_unless_empty update_token_whitelist entries)
unfolding call_supersession
tokens-IsCurrent desired [] h = tt
tokens-IsCurrent desired (e ∷ es) h = (same_wallet desired (update_token_whitelist (e ∷ es)) h, tt)

-- No call that a plan contains is superseded while the stored policy stays the same.
pub plan_policy_sync-superseded :
    (desired : DesiredOnChainPolicy) (reading : OnChainPolicyReading)
    (contract_history token_history : List Text)
    → IsCurrent desired (plan_policy_sync desired reading contract_history token_history).calls
unfolding plan_policy_sync
plan_policy_sync-superseded desired reading contract_history token_history =
    let contracts = plan_whitelist desired.allowed_contracts contract_history reading.contracts in
    let tokens = plan_whitelist desired.allowed_tokens token_history reading.tokens in
    let core = plan_core desired (if reading.has_policy then reading.core else none) in
    All-append desired (core ++ call_unless_empty update_contract_whitelist contracts.0) _
      (All-append desired core (call_unless_empty update_contract_whitelist contracts.0)
        (core-IsCurrent desired (if reading.has_policy then reading.core else none))
        (contracts-IsCurrent desired contracts.0
          (list_current desired.allowed_contracts contract_history reading.contracts)))
      (tokens-IsCurrent desired tokens.0
        (list_current desired.allowed_tokens token_history reading.tokens))
