-- ===== src/Sync/Exact.antt =====
-- The policy derived for the module, against the stored one.
use agentfi.Base.{
  ℕ, ◌+◌, ◌-◌, ◌*◌, ◌/◌, ◌≤◌, ◌<◌, ◌≡◌, refl, sym, ap, ◌∙◌, inl, inr, true, not, ◌&&◌, ◌||◌, lower,
  Option, none, some, List, [], ◌∷◌, ◌++◌, Text, length, take, split, ltb, ltb-false, arith,
  is_empty, text_eq, text_eq→eq, Bool-cases, length-append, length-replicate, take_all, replicate,
}
use agentfi.Decimal.{dot, whole_part, fraction_part, big_int, pad_end}
use agentfi.Decimal.Digits.{pow10, big_int-append}
use agentfi.Decimal.Rounding.{numerator, scale, padded}
use agentfi.Sync.Plan.{lowered}
use agentfi.Sync.{
  DbPolicyInput, DesiredOnChainPolicy, ok, Problem, wei_parts, eth_decimal_to_wei, wei_per_eth,
  max_uint256, problems_of, desired_policy, desired_on_chain_policy, value_problems, or_no_wei,
  when, bad_safe, is_address, cooldown_problems, expiry_problems, normalize_list, mem_text,
  normalize_from, cooldown_value, expiry_seconds,
}
use agentfi.Policy.{ℤ, pos, negsuc, Timestamp, at, invalid}

wei_value :
    (w f : Text)
    → length f ≤ 18
    → (big_int w * wei_per_eth + big_int (pad_end 18 f)) * pow10 (length f)
      ≡ big_int (w ++ f) * wei_per_eth
wei_value w f h =
    let len : length (pad_end 18 f) ≡ 18 = omega (
      arith,
      length-append f (replicate (18 - length f) b'0'),
      length-replicate {A = ℕ} (18 - length f) b'0',
    ) in
    let full : take 18 (pad_end 18 f) ≡ pad_end 18 f =
      take_all 18 (pad_end 18 f) (omega (arith, len)) in
    let joined : big_int (w ++ pad_end 18 f) ≡ big_int w * wei_per_eth + big_int (pad_end 18 f) =
      big_int-append w (pad_end 18 f)
      ∙ ap (λ n. big_int w * pow10 n + big_int (pad_end 18 f)) len in
    ap (λ n. n * pow10 (length f)) (sym joined ∙ ap (λ s. big_int (w ++ s)) (sym full))
    ∙ padded w f 18 h

wei_parts_exact :
    (parts : List Text) (wei : ℕ)
    → wei_parts parts ≡ some wei
    → wei * scale parts ≡ numerator parts * wei_per_eth
unfolding wei_parts
wei_parts_exact parts wei h = elim (Bool-cases (ltb 18 (length (fraction_part parts)))) [
  | inl longer ↦ ground arith
  | inr fits ↦
      let e : wei
          ≡ big_int (whole_part parts) * wei_per_eth + big_int (pad_end 18 (fraction_part parts)) =
        ground arith in
      rw e (wei_value (whole_part parts) (fraction_part parts) (ltb-false _ _ fits))
]

-- An amount of ether is converted to wei exactly: the written value, times 10 to the 18th, is the
-- result, whenever there is a result.
pub eth_decimal_to_wei_exact :
    (raw : Text) (wei : ℕ)
    → eth_decimal_to_wei raw ≡ some wei
    → wei * scale (split dot raw) ≡ numerator (split dot raw) * wei_per_eth
unfolding eth_decimal_to_wei
eth_decimal_to_wei_exact raw wei h = wei_parts_exact (split dot raw) wei (ground arith)

value_problems_none :
    (value : Option ℕ)
    → is_empty (value_problems value) ≡ true
    → (value ≡ some (or_no_wei value)) × (1 ≤ or_no_wei value) × (or_no_wei value ≤ max_uint256)
value_problems_none none h = cc
value_problems_none (some wei) h = (refl, ground arith, ground arith)

empty_append : (xs ys : List Problem) → is_empty (xs ++ ys) ≡ true → (xs ≡ []) × (ys ≡ [])
empty_append [] [] h = (refl, refl)
empty_append [] (y ∷ ys) h = cc
empty_append (x ∷ xs) ys h = cc

-- Zero stands for no expiry, else the whole seconds of the time.
pub data IsExpiry : Option Timestamp → ℕ → Type 0 where
  never : IsExpiry none 0
  whole_seconds : (t n : ℕ) → n * 1000 ≤ t → t < (n + 1) * 1000 → IsExpiry (some (at t)) n

cooldown_same : (c : ℤ) → cooldown_problems c ≡ [] → c ≡ pos (cooldown_value c)
cooldown_same (pos n) h = refl
cooldown_same (negsuc n) h = cc

IsExpiry-IsExpiry : (e : Option Timestamp) → expiry_problems e ≡ [] → IsExpiry e (expiry_seconds e)
IsExpiry-IsExpiry none h = never
IsExpiry-IsExpiry (some (at t)) h = whole_seconds t (t / 1000) (omega arith) (omega arith)
IsExpiry-IsExpiry (some invalid) h = cc

-- The checksum changes the case of letters only.
abbrev pub ChangesCase : (Text → Text) → Type 0
ChangesCase get_address = (a : Text) → lower (get_address (lower a)) ≡ lower a

module _ (get_address : Text → Text) where
  normalize_from_same :
      (seen raw : List Text)
      → ChangesCase get_address
      → (normalize_from get_address seen raw).1 ≡ []
      → (x : Text)
      → (mem_text x (lowered (normalize_from get_address seen raw).0) || mem_text x seen)
        ≡ (mem_text x (lowered raw) || mem_text x seen)
  unfolding normalize_from
  normalize_from_same seen [] cased h x = refl
  normalize_from_same seen (entry ∷ raw) cased h x = elim (Bool-cases (is_address entry)) [
    | inr bad ↦ ground arith
    | inl good ↦ elim (Bool-cases (mem_text (lower entry) seen)) [
      | inl again ↦
          let tail = normalize_from_same seen raw cased (ground arith) x in
          rw (good, again, normalize_from)
            (elim (Bool-cases (text_eq (lower entry) x)) [
              | inl same ↦
                  let met : mem_text x seen ≡ true =
                    ap (λ t. mem_text t seen) (sym (text_eq→eq (lower entry) x same)) ∙ again in
                  ground (arith, tail, met)
              | inr other ↦ rw other tail
            ])
      | inr fresh ↦
          let tail = normalize_from_same (lower entry ∷ seen) raw cased (ground arith) x in
          rw (good, fresh, normalize_from) (rw (cased entry) (ground (arith, tail)))
    ]
  ]

  normalized :
      (raw : List Text)
      → ChangesCase get_address
      → (normalize_list get_address raw).1 ≡ []
      → (x : Text)
      → mem_text x (lowered (normalize_list get_address raw).0) ≡ mem_text x (lowered raw)
  normalized raw cased e x = ground (arith, normalize_from_same [] raw cased e x)

  no_problems :
      (input : DbPolicyInput)
      → is_empty (problems_of get_address input) ≡ true
      → (is_address input.safe_address ≡ true)
        × (is_empty (value_problems (eth_decimal_to_wei input.policy.max_value_per_tx_eth)) ≡ true)
        × (cooldown_problems input.policy.cooldown_seconds ≡ [])
        × (expiry_problems input.policy.expires_at ≡ [])
        × ((normalize_list get_address input.policy.allowed_contracts).1 ≡ [])
        × ((normalize_list get_address input.policy.allowed_tokens).1 ≡ [])
  unfolding problems_of
  no_problems input h =
      let (e5, tokens) =
        empty_append _ (normalize_list get_address input.policy.allowed_tokens).1 h in
      let (e4, contracts) =
        empty_append _ (normalize_list get_address input.policy.allowed_contracts).1
          (ap is_empty e5) in
      let (e3, expiry) =
        empty_append _ (expiry_problems input.policy.expires_at) (ap is_empty e4) in
      let (e2, cooldown) =
        empty_append _ (cooldown_problems input.policy.cooldown_seconds) (ap is_empty e3) in
      let (e1, value) =
        empty_append (when (not (is_address input.safe_address)) bad_safe)
          (value_problems (eth_decimal_to_wei input.policy.max_value_per_tx_eth))
          (ap is_empty e2) in
      (ground arith, ap is_empty value, cooldown, expiry, contracts, tokens)

  -- The derived policy, where there is one: the wallet's address, the amount in wei that the stored
  -- decimal denotes exactly, which the module accepts, the cooldown, the expiry in whole seconds, the
  -- kill switches of the agent and of its policy together, and the same addresses as the stored lists.
  -- The checksum changes the case of letters only.
  pub desired_on_chain_policy_lem :
      (input : DbPolicyInput) (desired : DesiredOnChainPolicy)
      → ChangesCase get_address
      → desired_on_chain_policy get_address input ≡ ok desired
      → (lower desired.safe ≡ lower input.safe_address)
        × (desired.max_value_per_tx_wei * scale (split dot input.policy.max_value_per_tx_eth)
            ≡ numerator (split dot input.policy.max_value_per_tx_eth) * wei_per_eth)
        × (1 ≤ desired.max_value_per_tx_wei)
        × (desired.max_value_per_tx_wei ≤ max_uint256)
        × (input.policy.cooldown_seconds ≡ pos desired.cooldown_seconds)
        × IsExpiry input.policy.expires_at desired.expires_at
        × (desired.active ≡ (input.agent_active && input.policy.active))
        × ((x : Text)
            → mem_text x (lowered desired.allowed_contracts)
              ≡ mem_text x (lowered input.policy.allowed_contracts))
        × ((x : Text)
            → mem_text x (lowered desired.allowed_tokens)
              ≡ mem_text x (lowered input.policy.allowed_tokens))
  unfolding desired_on_chain_policy problems_of desired_policy
  desired_on_chain_policy_lem input desired cased h =
      let (sound, value, cooldown, expiry, contracts, tokens) = no_problems input (ground arith) in
      let stored : desired ≡ desired_policy get_address input = ground arith in
      let (some_wei, positive, fits) = value_problems_none _ value in
      rw stored (
        cased input.safe_address,
        eth_decimal_to_wei_exact input.policy.max_value_per_tx_eth _ some_wei,
        positive,
        fits,
        cooldown_same input.policy.cooldown_seconds cooldown,
        IsExpiry-IsExpiry input.policy.expires_at expiry,
        refl,
        normalized input.policy.allowed_contracts cased contracts,
        normalized input.policy.allowed_tokens cased tokens,
      )
