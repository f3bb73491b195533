-- ===== src/Policy/Tighten/Transaction.antt =====
-- Tightening and the check of an ordinary transaction.
use agentfi.Base.{
  ℕ, ◌/◌, ◌≡◌, refl, ap, ◌∙◌, ◌≢◌, ◌⊎◌, inl, inr, Bool, true, false, not, ◌&&◌, Option, none, some,
  List, Text, arith, ltb, Bool-cases, Option-cases, ||_elim, &&_elim,
}
use agentfi.Decimal.{policy_decimal_to_micro, usd_text_to_micro_ceil}
use agentfi.Policy.{AgentPolicy, ℤ}
use agentfi.Policy.Floats.{Floats, OrderLaws, parse_policy_decimal, above, is_positive}
use agentfi.Policy.Authority.{
  PolicyPatch, classify_policy_change, on_patch, whitelist_loosens, eth_cap_loosens, daily_loosens,
  outflow_loosens, effective_cooldown,
}
use agentfi.Policy.Service.Row.{set_policy, write_patch, get_or}
use agentfi.Policy.Service.{
  TransactionParams, Reads, Refusal, allowed, Check, pass, ◌>>◌, refuse_if, checks, daily_check,
  recipient_refused, outflow_check, cooldown_check, cooldown_left, is_unpriced, incoming_usd,
  validate_transaction, needs_approval,
}
use agentfi.Policy.Tighten.Fields.{Kept, tightens-Kept}
use agentfi.Policy.Tighten.Lists.{recipient_refused_mono}
use agentfi.Policy.Tighten.Usdc.{active_mono, expired_patched, flip_false}
use agentfi.Policy.Tighten.Addresses.{
  ChecksumLaw, AllAddresses, list_check_patched, token_check_patched,
}
use agentfi.Policy.Tighten.Daily.{
  above_mono, is_positive_mono, micro_mono, positive_micro, total_check_mono, cooldown_left_mono,
  outflow_check_mono,
}

seq_pass : (a b : Check) → (a >> b) ≡ pass → (a ≡ pass) × (b ≡ pass)
seq_pass none b h = cc
seq_pass (some none) b h = (refl, h)
seq_pass (some (some r)) b h = cc

refuse_if-pass : (b : Bool) (r : Refusal) → refuse_if b r ≡ pass → b ≡ false
refuse_if-pass true r h = cc
refuse_if-pass false r h = refl

refuse_if_of : (b : Bool) (r : Refusal) → b ≡ false → refuse_if b r ≡ pass
refuse_if_of true r h = cc
refuse_if_of false r h = refl

not-false : (b : Bool) → not b ≡ false → b ≡ true
not-false true h = refl
not-false false h = cc

cooldown_none : cooldown_check none ≡ pass
unfolding cooldown_check
cooldown_none = refl

seq8 :
    {a b c d e f g i j : Check}
    → a ≡ pass
    → b ≡ pass
    → c ≡ pass
    → d ≡ pass
    → e ≡ pass
    → f ≡ pass
    → g ≡ pass
    → i ≡ pass
    → j ≡ pass
    → (a >> (b >> (c >> (d >> (e >> (f >> (g >> (i >> j)))))))) ≡ pass
seq8 a b c d e f g i j = rw (a, b, c, d, e, f, g, i) j

-- What the check and the classification rely on: the order of floats, checksums that depend on the
-- address alone, stored lists of addresses, and a daily limit that is no positive number below a
-- micro-dollar (the API demands at most six decimals).
pub record Assumptions (fl : Floats) (get_address : Text → Option Text) (cur : AgentPolicy)
    : Type 0 where
  pub order : OrderLaws fl
  pub checksum : ChecksumLaw fl get_address
  pub contracts : AllAddresses fl get_address cur.allowed_contracts
  pub tokens : AllAddresses fl get_address cur.allowed_tokens
  pub daily :
      (policy_decimal_to_micro (some cur.max_daily_volume_usd) ≢ some 0)
      ⊎ (is_positive fl (parse_policy_decimal fl (some cur.max_daily_volume_usd)) ≡ false)

module _ (fl : Floats) (get_address : Text → Option Text) where
  daily_on :
      (cur next : AgentPolicy) (params : TransactionParams) (reads : Reads)
      → Assumptions fl get_address cur
      → daily_loosens fl (some cur) next.max_daily_volume_usd ≡ false
      → is_positive fl (parse_policy_decimal fl (some cur.max_daily_volume_usd)) ≡ true
      → params.daily_volume_accounted ≡ false
      → daily_check fl get_address next params reads ≡ pass
      → daily_check fl get_address cur params reads ≡ pass
  unfolding daily_check daily_loosens
  daily_on cur next params reads a h positive counted e =
      let c = cur.max_daily_volume_usd in
      let n = next.max_daily_volume_usd in
      let kept = ||_elim _ _ h in
      let still : is_positive fl (parse_policy_decimal fl (some n)) ≡ true =
        is_positive_mono fl a.order c n kept.0 positive in
      let nonzero : policy_decimal_to_micro (some c) ≢ some 0 = elim a.daily [
        | inl nz ↦ nz
        | inr off ↦ absurd (ground arith)
      ] in
      elim (Bool-cases (is_unpriced params.pricing)) [
        | inl un ↦ absurd (ground arith)
        | inr known ↦ ground (
          arith,
          total_check_mono (usd_text_to_micro_ceil (incoming_usd params.pricing params.value_usd))
              (usd_text_to_micro_ceil reads.committed) reads.x402_today_micro
              (policy_decimal_to_micro (some c)) (policy_decimal_to_micro (some n))
              (micro_mono c n kept.1 nonzero (positive_micro fl a.order c positive)),
        )
      ]

  daily_step :
      (cur next : AgentPolicy) (params : TransactionParams) (reads : Reads)
      → Assumptions fl get_address cur
      → daily_loosens fl (some cur) next.max_daily_volume_usd ≡ false
      → daily_check fl get_address next params reads ≡ pass
      → daily_check fl get_address cur params reads ≡ pass
  unfolding daily_check
  daily_step cur next params reads a h e =
      elim (Bool-cases (
        is_positive fl (parse_policy_decimal fl (some cur.max_daily_volume_usd))
        && not params.daily_volume_accounted)) [
          | inr off ↦ rw off
          | inl on ↦
              let (positive, counted) = &&_elim _ _ on in
              daily_on cur next params reads a h positive (ground arith) e
        ]

  daily_patched :
      (cur : AgentPolicy) (patch : PolicyPatch) (params : TransactionParams) (reads : Reads)
      → Assumptions fl get_address cur
      → on_patch patch.max_daily_volume_usd (daily_loosens fl (some cur)) ≡ false
      → daily_check fl get_address (write_patch cur patch) params reads ≡ pass
      → daily_check fl get_address cur params reads ≡ pass
  unfolding write_patch
  daily_patched cur patch params reads a k e = elim (Option-cases patch.max_daily_volume_usd) [
    | inl absent ↦ unfold daily_check in ground arith
    | inr (next, there) ↦ daily_step cur (write_patch cur patch) params reads a (ground arith) e
  ]

  above_patched :
      (laws : OrderLaws fl) (cur : AgentPolicy) (p : Option Text) (v : fl.Float)
      → on_patch p (eth_cap_loosens fl (some cur)) ≡ false
      → above fl (parse_policy_decimal fl (some (get_or cur.max_value_per_tx_eth p))) v ≡ false
      → above fl (parse_policy_decimal fl (some cur.max_value_per_tx_eth)) v ≡ false
  unfolding eth_cap_loosens
  above_patched laws cur none v h e = e
  above_patched laws cur (some next) v h e =
      flip_false _ _ (above_mono fl laws cur.max_value_per_tx_eth next v (||_elim _ _ h).0) e

  recipient_patched :
      (cur : List Text) (p : Option (List Text)) (r : Option Text)
      → on_patch p (whitelist_loosens cur) ≡ false
      → recipient_refused (get_or cur p) r ≡ false
      → recipient_refused cur r ≡ false
  recipient_patched cur none r h e = e
  recipient_patched cur (some next) r h e = recipient_refused_mono cur next r h e

  cooldown_patched :
      (cur : ℤ) (p : Option ℤ) (last : Option ℕ) (now_s : ℕ)
      → on_patch p (λ c. ltb (effective_cooldown (some c)) (effective_cooldown (some cur))) ≡ false
      → cooldown_left (get_or cur p) last now_s ≡ none
      → cooldown_left cur last now_s ≡ none
  cooldown_patched cur none last now_s h e = e
  cooldown_patched cur (some next) last now_s h e = cooldown_left_mono cur next last now_s h e

  cooldown_pass : (o : Option ℕ) → cooldown_check o ≡ pass → o ≡ none
  unfolding cooldown_check
  cooldown_pass none h = refl
  cooldown_pass (some n) h = cc

  outflow_patched :
      (cur : AgentPolicy) (patch : PolicyPatch) (params : TransactionParams)
      → on_patch patch.max_outflow_per_tx_usd (outflow_loosens fl (some cur)) ≡ false
      → outflow_check params.outflow (write_patch cur patch) params.pricing ≡ pass
      → outflow_check params.outflow cur params.pricing ≡ pass
  unfolding write_patch outflow_loosens
  outflow_patched cur patch params h e =
      outflow_check_mono params.outflow cur (write_patch cur patch) params.pricing
        (elim (Option-cases patch.max_outflow_per_tx_usd) [
          | inl absent ↦ inl (ground arith)
          | inr (next, there) ↦ inr (ground arith)
        ])
        e

  -- All nine checks, one after the other.
  checks_patched :
      (cur : AgentPolicy) (patch : PolicyPatch) (params : TransactionParams) (reads : Reads)
      → Assumptions fl get_address cur
      → Kept fl cur patch
      → checks fl get_address (write_patch cur patch) params reads ≡ pass
      → checks fl get_address cur params reads ≡ pass
  unfolding checks write_patch
  checks_patched cur patch params reads a k h =
      let s1 = seq_pass _ _ h in
      let s2 = seq_pass _ _ s1.1 in
      let s3 = seq_pass _ _ s2.1 in
      let s4 = seq_pass _ _ s3.1 in
      let s5 = seq_pass _ _ s4.1 in
      let s6 = seq_pass _ _ s5.1 in
      let s7 = seq_pass _ _ s6.1 in
      let s8 = seq_pass _ _ s7.1 in
      seq8
        (refuse_if_of _ _ (
          ap not
            (active_mono cur.active patch.active k.active (not-false _ (refuse_if-pass _ _ s1.0)))))
        (refuse_if_of _ _ (
          expired_patched cur.expires_at patch.expires_at reads.now k.expiry
            (refuse_if-pass _ _ s2.0)))
        (refuse_if_of _ _ (
          above_patched a.order cur patch.max_value_per_tx_eth (fl.parse_float params.value_eth)
            k.eth_cap (refuse_if-pass _ _ s3.0)))
        (outflow_patched cur patch params k.outflow s4.0)
        (list_check_patched fl get_address a.checksum cur.allowed_contracts patch.allowed_contracts
          params.target_contract _ a.contracts k.contracts s5.0)
        (refuse_if_of _ _ (
          recipient_patched cur.allowed_recipients patch.allowed_recipients params.recipient
            k.recipients (refuse_if-pass _ _ s6.0)))
        (token_check_patched fl get_address a.checksum cur.allowed_tokens patch.allowed_tokens
          params.token_address a.tokens k.tokens s7.0)
        (ap cooldown_check (
            cooldown_patched cur.cooldown_seconds patch.cooldown_seconds params.last_tx_timestamp
              (reads.now / 1000) k.cooldown (cooldown_pass _ s8.0))
          ∙ cooldown_none)
        (daily_patched cur patch params reads a k.daily s8.1)

  validate_allowed :
      (p : AgentPolicy) (params : TransactionParams) (reads : Reads) (approval : Bool)
      → validate_transaction fl get_address (some p) params reads ≡ some (allowed approval)
      → (checks fl get_address p params reads ≡ pass)
        × (approval ≡ needs_approval fl get_address p params)
  unfolding validate_transaction
  validate_allowed p params reads approval h = go (checks fl get_address p params reads) refl
    where
      go :
          (c : Check)
          → checks fl get_address p params reads ≡ c
          → (checks fl get_address p params reads ≡ pass)
            × (approval ≡ needs_approval fl get_address p params)
      go none e = absurd (ground arith)
      go (some none) e = (e, ground arith)
      go (some (some r)) e = absurd (ground arith)

  -- An ordinary transaction that the policy allows after a patch that is classified as tightening was
  -- allowed before the patch too, with the same answer on whether it needs an approval: for every
  -- target, recipient, token, amount, price, clock and committed volume, under the laws of floats and
  -- checksums, with lists of addresses, and a daily limit that is no positive fraction of a
  -- micro-dollar.
  pub validate_transaction-tightens :
      (cur : AgentPolicy) (patch : PolicyPatch) (params : TransactionParams) (reads : Reads)
      (approval : Bool)
      → Assumptions fl get_address cur
      → (classify_policy_change fl (some cur) patch).tightens ≡ true
      → validate_transaction fl get_address (some (set_policy (some cur) patch)) params reads
        ≡ some (allowed approval)
      → validate_transaction fl get_address (some cur) params reads ≡ some (allowed approval)
  unfolding set_policy validate_transaction
  validate_transaction-tightens cur patch params reads approval a t h =
      let (passed, same) = validate_allowed (write_patch cur patch) params reads approval h in
      let before = checks_patched cur patch params reads a (tightens-Kept fl cur patch t) passed in
      rw (before, validate_transaction) (unfold write_patch needs_approval in ground arith)
