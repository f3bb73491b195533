-- ===== src/Sync/Brought.antt =====
-- The planned calls, made on the module that was read.
use agentfi.Base.{
  Bool-cases, ◌≤◌, ◌≡◌, refl, ◌∙◌, inl, inr, Bool, true, false, none, some, List, [], ◌∷◌, ◌++◌,
  Text, if◌then◌else◌, lower, All,
}
use agentfi.Sync.{DesiredOnChainPolicy, mem_text}
use agentfi.Sync.Plan.{
  lowered, Members, missing_entries, extra_entries, is_member, read_members, read_on_chain_policy,
  plan_policy_sync, plan_whitelist, probe,
}
use agentfi.Sync.Module.{
  Whitelist, ModuleState, assign_all, update_whitelist, call_all, view_allowed, views, IsCounted,
  update_whitelist_lem,
}
use agentfi.Sync.Reading.{Reads, assigned, untouched, get-read_members}
use agentfi.Sync.Ran.{core_of, core_brought, call_all-append, contracts_ran, tokens_ran}
use agentfi.Sync.Applied.{
  assign_all-append, missing-Gives, missing-miss, missing-hit, extra-Gives, extra-wanted,
  extra-miss, extra-hit,
}

-- Every address of a list was read.
abbrev pub Covers : List Text → List Text → Type 0
Covers candidates = All (λ a. mem_text (lower a) (lowered candidates) ≡ true)

-- What is desired is a member, what an earlier sync sent and is not desired is none, and nothing
-- else changes.
abbrev pub IsBrought : List Text → List Text → Whitelist → Whitelist → Type 0
IsBrought desired history before after =
    (x : Text)
    → after.allowed x ≡ (
        if mem_text x (lowered desired)
        then true
        else if mem_text x (lowered history)
        then false
        else before.allowed x)

covered-Reads :
    (w : Whitelist) (has : Bool) (candidates part : List Text)
    → IsCounted w
    → w.allowed probe ≡ false
    → Covers candidates part
    → Reads w.allowed
        (read_members (view_allowed w) (if has then some w.num_allowed else none) candidates)
        part
covered-Reads w has candidates [] c p h = tt
covered-Reads w has candidates (a ∷ part) c p h = (
  rw (get-read_members w has candidates (lower a) c p h.0, is_member) refl,
  covered-Reads w has candidates part c p h.1,
)

entries-IsBrought :
    (desired history : List Text) (members : Members) (w after : Whitelist)
    → Reads w.allowed members desired
    → Reads w.allowed members history
    → ((x : Text)
        → after.allowed x
          ≡ assign_all
              (missing_entries desired members ++ extra_entries desired [] history members)
              w.allowed
              x)
    → IsBrought desired history w after
entries-IsBrought desired history members w after rd rh stored x =
    let es = missing_entries desired members in
    let fs = extra_entries desired [] history members in
    let split : after.allowed x ≡ assign_all fs (assign_all es w.allowed) x =
      stored x ∙ assign_all-append es fs w.allowed x in
    elim (Bool-cases (mem_text x (lowered desired))) [
      | inl wanted ↦ rw wanted (
          split
          ∙ untouched x fs (assign_all es w.allowed)
              (extra-wanted x members desired [] history wanted)
          ∙ assigned x es w.allowed true (missing-Gives x members desired)
              (missing-hit x members desired w.allowed rd wanted))
      | inr unwanted ↦
          let same = untouched x es w.allowed (missing-miss x members desired unwanted) in
          elim (Bool-cases (mem_text x (lowered history))) [
            | inl sent ↦
                rw (unwanted, sent)
                  (split
                    ∙ assigned x fs (assign_all es w.allowed) false
                        (extra-Gives x members desired [] history)
                        (elim (extra-hit x members desired [] history w.allowed rh unwanted refl
                          sent) [ inl e ↦ inl (same ∙ e) | inr hit ↦ inr hit ]))
            | inr unsent ↦
                rw (unwanted, unsent)
                  (split
                    ∙ untouched x fs (assign_all es w.allowed)
                        (extra-miss x members desired [] history unsent)
                    ∙ same)
          ]
    ]

whitelist-IsBrought :
    (desired history candidates : List Text) (w : Whitelist) (has : Bool)
    → IsCounted w
    → w.allowed probe ≡ false
    → Covers candidates desired
    → Covers candidates history
    → (after : Whitelist) × (update_whitelist
          (plan_whitelist desired history (record {
            count = if has then some w.num_allowed else none;
            members =
                read_members (view_allowed w) (if has then some w.num_allowed else none) candidates;
          })).0
          w
        ≡ some after)
      × IsBrought desired history w after
unfolding plan_whitelist
whitelist-IsBrought desired history candidates w has c p cd ch =
    let members =
      read_members (view_allowed w) (if has then some w.num_allowed else none) candidates in
    let (after, ran, counted, stored) =
      update_whitelist_lem
        (missing_entries desired members ++ extra_entries desired [] history members) w c in
    (
      after,
      ran,
      entries-IsBrought desired history members w after
          (covered-Reads w has candidates desired c p cd)
          (covered-Reads w has candidates history c p ch) stored,
    )

-- The calls of a plan, made in order on the module that was read, all succeed: the module then has
-- the desired policy, every desired address is whitelisted, every address that an earlier sync sent
-- and that is not desired is not, and no other address changes. The module counts its members, holds
-- no zero address, the reading named the desired addresses and those of the history, and the desired
-- limit is not zero.
pub plan_policy_sync-call_all :
    (desired : DesiredOnChainPolicy) (m : ModuleState)
    (contracts tokens contract_history token_history : List Text)
    → 1 ≤ desired.max_value_per_tx_wei
    → IsCounted m.contracts
    → IsCounted m.tokens
    → m.contracts.allowed probe ≡ false
    → m.tokens.allowed probe ≡ false
    → Covers contracts desired.allowed_contracts
    → Covers contracts contract_history
    → Covers tokens desired.allowed_tokens
    → Covers tokens token_history
    → (after : ModuleState) × (call_all
          (plan_policy_sync desired
            (read_on_chain_policy (views m) contracts tokens)
            contract_history
            token_history).calls
          m
        ≡ some after)
      × (after.has_policy ≡ true)
      × (after.policy ≡ core_of desired)
      × IsBrought desired.allowed_contracts contract_history m.contracts after.contracts
      × IsBrought desired.allowed_tokens token_history m.tokens after.tokens
unfolding plan_policy_sync read_on_chain_policy
plan_policy_sync-call_all desired m contracts tokens ch th positive cc ct pc pt dc hc dt ht =
    let (wc, rc, bc) =
      whitelist-IsBrought desired.allowed_contracts ch contracts m.contracts m.has_policy cc pc dc
        hc in
    let (wt, rt, bt) =
      whitelist-IsBrought desired.allowed_tokens th tokens m.tokens m.has_policy ct pt dt ht in
    let m1 = record m { has_policy = true; policy = core_of desired } in
    let m2 = record m1 { contracts = wc } in
    let r2 =
      call_all-append _ _ m m1 (core_brought desired m positive) ∙ contracts_ran _ m1 wc rc in
    (
      record m2 { tokens = wt },
      call_all-append _ _ m m2 r2 ∙ tokens_ran _ m2 wt rt,
      refl,
      refl,
      bc,
      bt,
    )
