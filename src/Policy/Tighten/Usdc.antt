-- ===== src/Policy/Tighten/Usdc.antt =====
-- Tightening and the USDC check.
use agentfi.Base.{
  ℕ, ◌+◌, ◌≡◌, refl, Bool, true, false, not, ◌&&◌, Option, none, some, List, Text, arith, ||_elim,
}
use agentfi.Decimal.{policy_decimal_to_micro}
use agentfi.Policy.{AgentPolicy, Timestamp, is_expired}
use agentfi.Policy.Floats.{Floats}
use agentfi.Policy.Usdc.{
  UsdcSpendRequest, allowed, evaluate_usdc_spend, refuses, exceeds, exceeds_daily,
}
use agentfi.Policy.Usdc.Exact.{PassesAll, allowed-PassesAll, PassesAll-allowed}
use agentfi.Policy.Authority.{
  PolicyPatch, classify_policy_change, on_patch, whitelist_loosens, usd_cap_loosens, daily_loosens,
  effective_expiry, expiry_gt,
}
use agentfi.Policy.Service.Row.{set_policy, write_patch, get_or}
use agentfi.Policy.Tighten.Fields.{Kept, tightens-Kept}
use agentfi.Policy.Tighten.Limits.{exceeds_mono, exceeds_daily_mono, is_expired_mono}
use agentfi.Policy.Tighten.Lists.{AllTrimmed, refuses_mono}

-- The lists that a row and a patch store have no spaces around their entries, which is what the
-- address pattern of the API demands.
pub record CleanLists (cur : AgentPolicy) (patch : PolicyPatch) : Type 0 where
  pub tokens : AllTrimmed cur.allowed_tokens
  pub recipients : AllTrimmed cur.allowed_recipients
  pub new_tokens : AllTrimmed (get_or cur.allowed_tokens patch.allowed_tokens)
  pub new_recipients : AllTrimmed (get_or cur.allowed_recipients patch.allowed_recipients)

pub flip_false : (a b : Bool) → (a ≡ true → b ≡ true) → b ≡ false → a ≡ false
flip_false true b f h = ground (arith, f refl)
flip_false false b f h = refl

-- An active policy after a tightening patch was active before it.
pub active_mono :
    (cur : Bool) (p : Option Bool)
    → on_patch p (λ a. a && not cur) ≡ false
    → get_or cur p ≡ true
    → cur ≡ true
active_mono cur none h e = e
active_mono cur (some true) h e = ground arith
active_mono cur (some false) h e = cc

pub refuses_patched :
    (cur : List Text) (p : Option (List Text)) (a : Text)
    → AllTrimmed cur
    → AllTrimmed (get_or cur p)
    → on_patch p (whitelist_loosens cur) ≡ false
    → refuses (get_or cur p) a ≡ false
    → refuses cur a ≡ false
refuses_patched cur none a tc tn h r = r
refuses_patched cur (some next) a tc tn h r = refuses_mono cur next a tc tn h r

pub expired_patched :
    (cur : Option Timestamp) (p : Option (Option Timestamp)) (now : ℕ)
    → on_patch p (λ e. expiry_gt (effective_expiry e) (effective_expiry cur)) ≡ false
    → is_expired (get_or cur p) now ≡ false
    → is_expired cur now ≡ false
expired_patched cur none now h e = e
expired_patched cur (some next) now h e =
    flip_false (is_expired cur now) (is_expired next now) (is_expired_mono cur next now h) e

exceeds_patched :
    (fl : Floats) (cur : AgentPolicy) (p : Option Text) (amount : ℕ)
    → on_patch p (usd_cap_loosens fl (some cur)) ≡ false
    → exceeds (policy_decimal_to_micro (some (get_or cur.max_value_per_tx_usd p))) amount ≡ false
    → exceeds (policy_decimal_to_micro (some cur.max_value_per_tx_usd)) amount ≡ false
unfolding usd_cap_loosens
exceeds_patched fl cur none amount h e = e
exceeds_patched fl cur (some next) amount h e =
    flip_false _ _ (exceeds_mono cur.max_value_per_tx_usd next amount h) e

exceeds_daily_patched :
    (fl : Floats) (cur : AgentPolicy) (p : Option Text) (total : ℕ)
    → on_patch p (daily_loosens fl (some cur)) ≡ false
    → exceeds_daily (policy_decimal_to_micro (some (get_or cur.max_daily_volume_usd p))) total
      ≡ false
    → exceeds_daily (policy_decimal_to_micro (some cur.max_daily_volume_usd)) total ≡ false
unfolding daily_loosens
exceeds_daily_patched fl cur none total h e = e
exceeds_daily_patched fl cur (some next) total h e =
    flip_false _ _ (exceeds_daily_mono cur.max_daily_volume_usd next total (||_elim _ _ h).1) e

module _ (fl : Floats) (cur : AgentPolicy) (patch : PolicyPatch) (r : UsdcSpendRequest) where
  passes_before :
      Kept fl cur patch
      → CleanLists cur patch
      → PassesAll (write_patch cur patch) r
      → PassesAll cur r
  unfolding write_patch usd_cap_loosens daily_loosens
  passes_before k c s = (
    active_mono cur.active patch.active k.active s.0,
    expired_patched cur.expires_at patch.expires_at r.now k.expiry s.1,
    refuses_patched cur.allowed_tokens patch.allowed_tokens r.token c.tokens c.new_tokens k.tokens
        s.2,
    refuses_patched cur.allowed_recipients patch.allowed_recipients r.recipient c.recipients
        c.new_recipients k.recipients s.3,
    exceeds_patched fl cur patch.max_value_per_tx_usd r.amount k.usd_cap s.4,
    exceeds_daily_patched fl cur patch.max_daily_volume_usd (r.spent_today_micro_usd + r.amount)
        k.daily s.5,
  )

  -- A spend of USDC that the policy allows after a patch that is classified as tightening was allowed
  -- before the patch too, whatever the amount, the token, the recipient, the clock and the day's total,
  -- where no stored list entry has spaces around it. So an agent that may only tighten its policy never
  -- gains a spend by it.
  pub evaluate_usdc_spend-tightens :
      (classify_policy_change fl (some cur) patch).tightens ≡ true
      → CleanLists cur patch
      → evaluate_usdc_spend (some (set_policy (some cur) patch)) r ≡ allowed
      → evaluate_usdc_spend (some cur) r ≡ allowed
  unfolding evaluate_usdc_spend set_policy
  evaluate_usdc_spend-tightens t c h = PassesAll-allowed cur r (
      passes_before (tightens-Kept fl cur patch t) c
        (allowed-PassesAll (write_patch cur patch) r h))
