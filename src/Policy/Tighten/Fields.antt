-- ===== src/Policy/Tighten/Fields.antt =====
-- The fields of a tightening patch, one by one.
use agentfi.Base.{◌≡◌, refl, Bool, true, false, not, ◌&&◌, some, List, ltb, is_empty}
use agentfi.Policy.{AgentPolicy}
use agentfi.Policy.Floats.{Floats}
use agentfi.Policy.Authority.{
  PolicyPatch, PolicyPatchField, flag, on_patch, loosened, classify_policy_change, eth_cap_loosens,
  usd_cap_loosens, outflow_loosens, daily_loosens, whitelist_loosens, effective_cooldown,
  effective_expiry, expiry_gt,
}

flag_empty :
    (b : Bool) (f : PolicyPatchField) (rest : List PolicyPatchField)
    → is_empty (flag b f rest) ≡ true
    → (b ≡ false) × (is_empty rest ≡ true)
flag_empty true f rest h = cc
flag_empty false f rest h = (refl, h)

-- Each field of the patch passes its own test.
pub record Kept (fl : Floats) (cur : AgentPolicy) (patch : PolicyPatch) : Type 0 where
  pub eth_cap : on_patch patch.max_value_per_tx_eth (eth_cap_loosens fl (some cur)) ≡ false
  pub usd_cap : on_patch patch.max_value_per_tx_usd (usd_cap_loosens fl (some cur)) ≡ false
  pub outflow : on_patch patch.max_outflow_per_tx_usd (outflow_loosens fl (some cur)) ≡ false
  pub daily : on_patch patch.max_daily_volume_usd (daily_loosens fl (some cur)) ≡ false
  pub contracts : on_patch patch.allowed_contracts (whitelist_loosens cur.allowed_contracts) ≡ false
  pub recipients :
      on_patch patch.allowed_recipients (whitelist_loosens cur.allowed_recipients) ≡ false
  pub tokens : on_patch patch.allowed_tokens (whitelist_loosens cur.allowed_tokens) ≡ false
  pub cooldown :
      on_patch patch.cooldown_seconds
        (λ c. ltb (effective_cooldown (some c)) (effective_cooldown (some cur.cooldown_seconds)))
      ≡ false
  pub active : on_patch patch.active (λ a. a && not cur.active) ≡ false
  pub expiry :
      on_patch patch.expires_at
        (λ e. expiry_gt (effective_expiry e) (effective_expiry cur.expires_at))
      ≡ false

pub tightens-Kept :
    (fl : Floats) (cur : AgentPolicy) (patch : PolicyPatch)
    → (classify_policy_change fl (some cur) patch).tightens ≡ true
    → Kept fl cur patch
unfolding classify_policy_change loosened
tightens-Kept fl cur patch h =
    let a = flag_empty _ _ _ h in
    let b = flag_empty _ _ _ a.1 in
    let c = flag_empty _ _ _ b.1 in
    let d = flag_empty _ _ _ c.1 in
    let e = flag_empty _ _ _ d.1 in
    let f = flag_empty _ _ _ e.1 in
    let g = flag_empty _ _ _ f.1 in
    let i = flag_empty _ _ _ g.1 in
    let j = flag_empty _ _ _ i.1 in
    let k = flag_empty _ _ _ j.1 in
    record {
      eth_cap = a.0;
      usd_cap = b.0;
      outflow = c.0;
      daily = d.0;
      contracts = e.0;
      recipients = f.0;
      tokens = g.0;
      cooldown = i.0;
      active = j.0;
      expiry = k.0;
    }
