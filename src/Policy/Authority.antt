-- ===== src/Policy/Authority.antt =====
-- packages/backend/src/services/policy/policy-authority.ts: whether a policy patch tightens or
-- loosens. An agent may only tighten; the operator may loosen.
use agentfi.Base.{
  ℕ, Bool, true, false, not, ◌&&◌, ◌||◌, Option, none, some, List, [], ◌∷◌, Text, ltb, ◌==◌,
  if◌then◌else◌, any, is_empty, is_some, text_eq, lower, trim,
}
use agentfi.Decimal.{is_policy_decimal, fixed_point}
use agentfi.Policy.{AgentPolicy, Timestamp, at, invalid, ℤ, pos, negsuc}
use agentfi.Policy.Floats.{Floats, parse_policy_decimal}

pub data PolicyPatchField : Type 0 where
  max_value_per_tx_eth max_value_per_tx_usd max_outflow_per_tx_usd : PolicyPatchField
  max_daily_volume_usd allowed_contracts allowed_recipients allowed_tokens : PolicyPatchField
  cooldown_seconds active expires_at : PolicyPatchField

-- A field that is `none` is absent and stays unchanged; `expires_at = some none` clears the expiry.
pub record PolicyPatch : Type 0 where
  pub max_value_per_tx_eth : Option Text
  pub max_value_per_tx_usd : Option Text
  pub max_outflow_per_tx_usd : Option (Option Text)
  pub max_daily_volume_usd : Option Text
  pub allowed_contracts : Option (List Text)
  pub allowed_recipients : Option (List Text)
  pub allowed_tokens : Option (List Text)
  pub cooldown_seconds : Option ℤ
  pub active : Option Bool
  pub expires_at : Option (Option Timestamp)

pub record PolicyChangeClassification : Type 0 where
  pub tightens : Bool
  pub loosened_fields : List PolicyPatchField

-- A limit as one enforcer reads it.
pub data Level {ℓ} (A : Type ℓ) : Type ℓ where
  blocked : Level A
  value : A → Level A
  unlimited : Level A

abbrev pub level_rank {ℓ} : {A : Type ℓ} → Level A → ℕ
level_rank blocked = 0
level_rank (value v) = 1
level_rank unlimited = 2

abbrev pub value_gt {ℓ} : {A : Type ℓ} → (A → A → Bool) → Level A → Level A → Bool
value_gt gt (value v) (value w) = gt v w
value_gt gt blocked _ = false
value_gt gt unlimited _ = false
value_gt gt (value v) _ = false

-- `next` permits more than `current`.
unfoldable pub is_looser {ℓ} : {A : Type ℓ} → (A → A → Bool) → Level A → Level A → Bool
is_looser gt next current =
    if not (level_rank next == level_rank current)
    then ltb (level_rank current) (level_rank next)
    else value_gt gt next current

abbrev pub nat_gt : ℕ → ℕ → Bool
nat_gt a b = ltb b a

-- The options of a reading.
pub record ReadingOpts : Type 0 where
  pub zero_is_unlimited : Bool
  pub null_is_blocked : Bool

abbrev pub plain : ReadingOpts
plain = record { zero_is_unlimited = false; null_is_blocked = false }

abbrev pub zero_unlimited : ReadingOpts
zero_unlimited = record { zero_is_unlimited = true; null_is_blocked = false }

abbrev pub null_blocked : ReadingOpts
null_blocked = record { zero_is_unlimited = false; null_is_blocked = true }

unfoldable pub fixed_reading : ℕ → ReadingOpts → Option Text → Bool → Level ℕ
fixed_reading decimals opts raw false = unlimited
fixed_reading decimals opts none true = if opts.null_is_blocked then blocked else unlimited
fixed_reading decimals opts (some raw) true =
    if not (is_policy_decimal raw)
    then unlimited
    else if opts.zero_is_unlimited && fixed_point raw decimals == 0
    then unlimited
    else value (fixed_point raw decimals)

unfoldable pub loosens_at : ℕ → ReadingOpts → Option Text → Option Text → Bool → Bool
unfolding is_looser fixed_reading
loosens_at decimals opts next current row_exists =
    is_looser nat_gt (fixed_reading decimals opts next true)
      (fixed_reading decimals opts current row_exists)

-- A cooldown of zero or less is not enforced; an absent row has none.
unfoldable pub effective_cooldown : Option ℤ → ℕ
effective_cooldown none = 0
effective_cooldown (some (pos n)) = n
effective_cooldown (some (negsuc n)) = 0

-- `none` stands for infinity: no expiry, or an invalid date, which never expires.
unfoldable pub effective_expiry : Option Timestamp → Option ℕ
effective_expiry none = none
effective_expiry (some (at t)) = some t
effective_expiry (some invalid) = none

-- `a > b` between such expiries.
abbrev pub expiry_gt : Option ℕ → Option ℕ → Bool
expiry_gt none none = false
expiry_gt none (some b) = true
expiry_gt (some a) none = false
expiry_gt (some a) (some b) = ltb b a

unfoldable pub normalize_address : Text → Text
normalize_address address = lower (trim address)

unfoldable pub admits : List Text → Text → Bool
unfolding normalize_address
admits current address =
    any (λ entry. text_eq (normalize_address entry) (normalize_address address)) current

unfoldable pub whitelist_loosens : List Text → List Text → Bool
whitelist_loosens current next =
    if is_empty current
    then false
    else if is_empty next
    then true
    else any (λ address. not (admits current address)) next

-- What a field of an absent row reads as.
abbrev pub row_list : (AgentPolicy → List Text) → Option AgentPolicy → List Text
row_list f none = []
row_list f (some p) = f p

abbrev pub row_text : (AgentPolicy → Option Text) → Option AgentPolicy → Option Text
row_text f none = none
row_text f (some p) = f p

abbrev pub on_patch {ℓ} : {A : Type ℓ} → Option A → (A → Bool) → Bool
on_patch none test = false
on_patch (some a) test = test a

abbrev pub row_cooldown : Option AgentPolicy → Option ℤ
row_cooldown none = none
row_cooldown (some p) = some p.cooldown_seconds

abbrev pub row_active : Option AgentPolicy → Bool
row_active none = true
row_active (some p) = p.active

abbrev pub row_expires_at : Option AgentPolicy → Option Timestamp
row_expires_at none = none
row_expires_at (some p) = p.expires_at

-- `if (…) loosenedFields.push(field)`.
abbrev pub flag : Bool → PolicyPatchField → List PolicyPatchField → List PolicyPatchField
flag true field rest = field ∷ rest
flag false field rest = rest

module _ (fl : Floats) where
  open fl use {Float, gt, zero_float}

  unfoldable pub float_reading : ReadingOpts → Option Text → Bool → Level Float
  float_reading opts raw false = unlimited
  float_reading opts raw true = elim (parse_policy_decimal fl raw) [
    | none ↦ unlimited
    | some n ↦ if opts.zero_is_unlimited && not (gt n zero_float) then unlimited else value n
  ]

  unfoldable pub loosens_float : ReadingOpts → Option Text → Option Text → Bool → Bool
  unfolding is_looser float_reading
  loosens_float opts next current row_exists =
      is_looser gt (float_reading opts next true) (float_reading opts current row_exists)

  -- One test for each decimal limit: any of its enforcers sees more in the new value.
  unfoldable pub eth_cap_loosens : Option AgentPolicy → Text → Bool
  eth_cap_loosens current next =
      let raw = row_text (λ p. some p.max_value_per_tx_eth) current in
      loosens_float plain (some next) raw (is_some current)
      || loosens_at 18 plain (some next) raw (is_some current)

  unfoldable pub daily_loosens : Option AgentPolicy → Text → Bool
  daily_loosens current next =
      let raw = row_text (λ p. some p.max_daily_volume_usd) current in
      loosens_float zero_unlimited (some next) raw (is_some current)
      || loosens_at 6 zero_unlimited (some next) raw (is_some current)

  unfoldable pub usd_cap_loosens : Option AgentPolicy → Text → Bool
  usd_cap_loosens current next =
      loosens_at 6 plain (some next) (row_text (λ p. some p.max_value_per_tx_usd) current)
        (is_some current)

  unfoldable pub outflow_loosens : Option AgentPolicy → Option Text → Bool
  outflow_loosens current next =
      loosens_at 6 null_blocked next (row_text (λ p. p.max_outflow_per_tx_usd) current)
        (is_some current)

  -- The fields that loosen, in canonical order.
  unfoldable pub loosened : Option AgentPolicy → PolicyPatch → List PolicyPatchField
  unfolding eth_cap_loosens daily_loosens usd_cap_loosens outflow_loosens
  loosened current patch =
      flag (on_patch patch.max_value_per_tx_eth (eth_cap_loosens current)) max_value_per_tx_eth (
        flag (on_patch patch.max_value_per_tx_usd (usd_cap_loosens current)) max_value_per_tx_usd (
          flag (on_patch patch.max_outflow_per_tx_usd (outflow_loosens current))
            max_outflow_per_tx_usd
            (flag (on_patch patch.max_daily_volume_usd (daily_loosens current)) max_daily_volume_usd
              (flag
                (on_patch patch.allowed_contracts
                  (whitelist_loosens (row_list (λ p. p.allowed_contracts) current)))
                allowed_contracts
                (flag
                  (on_patch patch.allowed_recipients
                    (whitelist_loosens (row_list (λ p. p.allowed_recipients) current)))
                  allowed_recipients
                  (flag
                    (on_patch patch.allowed_tokens
                      (whitelist_loosens (row_list (λ p. p.allowed_tokens) current)))
                    allowed_tokens
                    (flag
                      (on_patch patch.cooldown_seconds (λ c.
                        ltb (effective_cooldown (some c))
                          (effective_cooldown (row_cooldown current))))
                      cooldown_seconds
                      (flag (on_patch patch.active (λ a. a && not (row_active current))) active (
                        flag
                          (on_patch patch.expires_at (λ e.
                            expiry_gt (effective_expiry e)
                              (effective_expiry (row_expires_at current))))
                          expires_at [])))))))))

  unfoldable pub classify_policy_change :
      Option AgentPolicy → PolicyPatch → PolicyChangeClassification
  unfolding loosened
  classify_policy_change current patch = record {
    tightens = is_empty (loosened current patch);
    loosened_fields = loosened current patch;
  }
