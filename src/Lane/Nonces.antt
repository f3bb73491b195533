-- ===== src/Lane/Nonces.antt =====
-- wallet-lane.ts: the stores of the last nonce that a lane broadcast, and what a lane relies on.
use agentfi.Base.{
  ℕ, ◌+◌, ◌-◌, ◌<◌, ◌≤◌, ◌≡◌, ◌⊎◌, refl, ap, ◌∙◌, Bool, true, Option, none, some, Text, ltb,
  if◌then◌else◌, text_eq, text_eq_refl, arith, inl, inr, Bool-cases,
}
use agentfi.Decimal.{show_ℕ}
use agentfi.Redis.{LaneRedis, RedisLaws, Entry, live, value_of, expiring, unexpired}

-- `NonceStore`: the last used nonce at a time, and a nonce recorded at a time.
pub record NonceStore (S : Type 0) : Type 0 where
  pub last_used : S → ℕ → Text → Option ℕ
  pub record_used : S → ℕ → Text → ℕ → S

-- `nonce > current`, or nothing is remembered.
abbrev pub is_above : ℕ → Option ℕ → Bool
is_above n none = true
is_above n (some m) = ltb m n

-- `Number.MAX_SAFE_INTEGER`.
abbrev pub max_safe : ℕ
max_safe = 9_007_199_254_740_991

-- For `ttl` after it was recorded a nonce is the last used one; what is remembered is forgotten in
-- time and does not change by itself.
pub record NonceLaws {S : Type 0} (nonces : NonceStore S) (ttl : ℕ) : Type 0 where
  pub recorded :
      (s : S) (now t : ℕ) (key : Text) (n : ℕ)
      → n ≤ max_safe
      → is_above n (nonces.last_used s now key) ≡ true
      → now ≤ t
      → t < now + ttl
      → nonces.last_used (nonces.record_used s now key n) t key ≡ some n
  pub forgotten :
      (s : S) (now t : ℕ) (key : Text)
      → now ≤ t
      → (nonces.last_used s t key ≡ none) ⊎ (nonces.last_used s t key ≡ nonces.last_used s now key)

-- `InMemoryNonceStore`.
pub record NonceEntry : Type 0 where
  pub nonce : ℕ
  pub at : ℕ

abbrev pub NonceEntries : Type 0
NonceEntries = Text → Option NonceEntry

abbrev pub fresh_nonce : ℕ → ℕ → Option NonceEntry → Option ℕ
fresh_nonce ttl now none = none
fresh_nonce ttl now (some e) = if ltb ttl (now - e.at) then none else some e.nonce

unfoldable pub memory_last_used : ℕ → NonceEntries → ℕ → Text → Option ℕ
memory_last_used ttl entries now key = fresh_nonce ttl now (entries key)

unfoldable pub memory_record_used : ℕ → NonceEntries → ℕ → Text → ℕ → NonceEntries
unfolding memory_last_used
memory_record_used ttl entries now key nonce k =
    if is_above nonce (memory_last_used ttl entries now key)
    then if text_eq k key then some (record { nonce = nonce; at = now }) else entries k
    else entries k

abbrev pub memory_nonces : ℕ → NonceStore NonceEntries
memory_nonces ttl = record {
  last_used = memory_last_used ttl;
  record_used = memory_record_used ttl;
}

abbrev pub number_of : (Text → Option ℕ) → Option Text → Option ℕ
number_of number none = none
number_of number (some raw) = number raw

-- `RedisNonceStore`, with `number` for `Number` and its test by `isSafeInteger`.
module _ {R : Type 0} (redis : LaneRedis R) (number : Text → Option ℕ) (prefixed : Text → Text)
    (ttl : ℕ) where
  unfoldable pub redis_last_used : R → ℕ → Text → Option ℕ
  redis_last_used r now key = number_of number (redis.get r now (prefixed key))

  unfoldable pub redis_record_used : R → ℕ → Text → ℕ → R
  unfolding redis_last_used
  redis_record_used r now key nonce =
      if is_above nonce (redis_last_used r now key)
      then redis.set_px r now (prefixed key) (show_ℕ nonce) ttl
      else r

  abbrev pub redis_nonces : NonceStore R
  redis_nonces = record { last_used = redis_last_used; record_used = redis_record_used }

memory_recorded :
    (ttl : ℕ) (s : NonceEntries) (now t : ℕ) (key : Text) (n : ℕ)
    → is_above n (memory_last_used ttl s now key) ≡ true
    → now ≤ t
    → t < now + ttl
    → memory_last_used ttl (memory_record_used ttl s now key n) t key ≡ some n
unfolding memory_last_used memory_record_used
memory_recorded ttl s now t key n above le lt = rw (above, text_eq_refl key) (ground arith)

fresh_forgotten :
    (ttl now t : ℕ) (o : Option NonceEntry)
    → now ≤ t
    → (fresh_nonce ttl t o ≡ none) ⊎ (fresh_nonce ttl t o ≡ fresh_nonce ttl now o)
fresh_forgotten ttl now t none le = inl refl
fresh_forgotten ttl now t (some e) le = elim (Bool-cases (ltb ttl (t - e.at))) [
  | inl gone ↦ inl (rw gone)
  | inr kept ↦ inr (ground arith)
]

pub memory_nonces-NonceLaws : (ttl : ℕ) → NonceLaws (memory_nonces ttl) ttl
unfolding memory_last_used
memory_nonces-NonceLaws ttl = record {
  recorded = λ s now t key n ok above le lt. memory_recorded ttl s now t key n above le lt;
  forgotten = λ s now t key le. fresh_forgotten ttl now t (s key) le;
}

module _ {R : Type 0} (redis : LaneRedis R) (entry : R → Text → Option Entry)
    (laws : RedisLaws redis entry) (number : Text → Option ℕ)
    (reads : (n : ℕ) → n ≤ max_safe → number (show_ℕ n) ≡ some n) (prefixed : Text → Text)
    (ttl : ℕ) where
  redis_recorded :
      (r : R) (now t : ℕ) (key : Text) (n : ℕ)
      → n ≤ max_safe
      → is_above n (redis_last_used redis number prefixed ttl r now key) ≡ true
      → now ≤ t
      → t < now + ttl
      → redis_last_used redis number prefixed ttl
          (redis_record_used redis number prefixed ttl r now key n)
          t
          key
        ≡ some n
  unfolding redis_record_used
  redis_recorded r now t key n safe above le lt =
      let wrote : redis.get (redis.set_px r now (prefixed key) (show_ℕ n) ttl) t (prefixed key)
          ≡ some (show_ℕ n) =
        laws.get_lem (redis.set_px r now (prefixed key) (show_ℕ n) ttl) t (prefixed key)
        ∙ ap (λ o. value_of (live t o)) (laws.set_px_lem r now (prefixed key) (show_ℕ n) ttl)
        ∙ lt_live in
      rw (above, wrote) (reads n safe)
    where
      lt_live : value_of (live t (expiring (show_ℕ n) (now + ttl))) ≡ some (show_ℕ n)
      lt_live = ground arith

  unexpired_forgotten :
      (now t : ℕ) (x : Entry) (d : Option ℕ)
      → now ≤ t
      → (number_of number (value_of (unexpired t x d)) ≡ none)
        ⊎ (unexpired t x d ≡ unexpired now x d)
  unexpired_forgotten now t x none le = inr refl
  unexpired_forgotten now t x (some d) le = elim (Bool-cases (ltb t d)) [
    | inl kept ↦ inr (ground arith)
    | inr gone ↦ inl (rw gone)
  ]

  live_forgotten :
      (now t : ℕ) (o : Option Entry)
      → now ≤ t
      → (number_of number (value_of (live t o)) ≡ none) ⊎ (live t o ≡ live now o)
  live_forgotten now t none le = inl refl
  live_forgotten now t (some x) le = unexpired_forgotten now t x x.expires_at le

  redis_forgotten :
      (r : R) (now t : ℕ) (key : Text)
      → now ≤ t
      → (redis_last_used redis number prefixed ttl r t key ≡ none)
        ⊎ (redis_last_used redis number prefixed ttl r t key
            ≡ redis_last_used redis number prefixed ttl r now key)
  unfolding redis_last_used
  redis_forgotten r now t key le = elim (live_forgotten now t (entry r (prefixed key)) le) [
    | inl gone ↦ inl (rw (laws.get_lem r t (prefixed key)) gone)
    | inr same ↦ inr (
        rw (laws.get_lem r t (prefixed key), laws.get_lem r now (prefixed key))
          (ap (λ o. number_of number (value_of o)) same))
  ]

  pub redis_nonces-NonceLaws : NonceLaws (redis_nonces redis number prefixed ttl) ttl
  redis_nonces-NonceLaws = record {
    recorded = λ r now t key n safe above le lt. redis_recorded r now t key n safe above le lt;
    forgotten = λ r now t key le. redis_forgotten r now t key le;
  }
