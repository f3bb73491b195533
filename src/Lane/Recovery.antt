-- ===== src/Lane/Recovery.antt =====
-- packages/backend/src/services/transaction/wallet-lane.ts: the recovery lock of a chain, which a
-- recovery script holds under the JSON text of its holder. Reading and writing JSON is a parameter.
pub mod Held
use agentfi.Base.{
  ℕ, ◌+◌, ◌<◌, ◌≡◌, ◌≢◌, refl, sym, ap, ◌∙◌, inl, inr, Bool, true, false, Option, none, some, Text,
  codes, trim, is_empty, if◌then◌else◌, ◌++◌, text_eq, text_eq_refl, text_eq→eq, arith, ltb,
  Bool-cases, Option-cases,
}
use agentfi.Decimal.{show_ℕ}
use agentfi.Redis.{LaneRedis, RedisLaws, Entry, live, unexpired, value_of, expiring}
use agentfi.Lane.{
  same_text, release_script, Reply, LeaseCheck, lost, released, assert_redis_lease_held,
}

-- `RECOVERY_LOCK_TTL_MS`.
abbrev pub recovery_lock_ttl_ms : ℕ
recovery_lock_ttl_ms = 7_200_000

unfoldable pub recovery_lock_key : ℕ → Text
recovery_lock_key chain_id = codes "agentfi:evaluator-recovery:" ++ show_ℕ chain_id

pub record RecoveryLockHolder : Type 0 where
  pub owner : Text
  pub pid : ℕ
  pub host : Option Text
  pub token : Text
  pub acquired_at : Text

-- What a JSON text has under these names, where it has the type that is asked for.
pub record ParsedHolder : Type 0 where
  pub owner : Option Text
  pub pid : Option ℕ
  pub host : Option Text
  pub token : Option Text
  pub acquired_at : Option Text

-- `JSON.stringify` of a holder, and `JSON.parse`, which throws on other texts.
pub record HolderJson : Type 0 where
  pub stringify : RecoveryLockHolder → Text
  pub parse : Text → Option ParsedHolder

abbrev pub as_parsed : RecoveryLockHolder → ParsedHolder
as_parsed h = record {
  owner = some h.owner;
  pid = some h.pid;
  host = h.host;
  token = some h.token;
  acquired_at = some h.acquired_at;
}

abbrev pub text_or_empty : Option Text → Text
text_or_empty none = codes ""
text_or_empty (some s) = s

unfoldable pub holder_with :
    ParsedHolder → Option Text → Option ℕ → Option Text → Option RecoveryLockHolder
holder_with v (some owner) (some pid) (some token) = some (record {
  owner = owner;
  pid = pid;
  host = v.host;
  token = token;
  acquired_at = text_or_empty v.acquired_at;
})
holder_with v _ _ _ = none

abbrev pub holder_of : Option ParsedHolder → Option RecoveryLockHolder
holder_of none = none
holder_of (some v) = holder_with v v.owner v.pid v.token

module _ (json : HolderJson) where
  unfoldable pub parse_holder : Option Text → Option RecoveryLockHolder
  unfolding holder_with
  parse_holder none = none
  parse_holder (some raw) = holder_of (json.parse raw)

pub record RecoveryLockHandle : Type 0 where
  pub key : Text
  pub holder : RecoveryLockHolder
  pub value : Text
  pub local_deadline : ℕ
  pub is_released : Bool

pub data RecoveryAcquired : Type 0 where
  no_owner : RecoveryAcquired
  recovery_lock_busy : Option RecoveryLockHolder → RecoveryAcquired
  acquired : RecoveryLockHandle → RecoveryAcquired

module _ {R : Type 0} (redis : LaneRedis R) (json : HolderJson) where
  unfoldable pub read_recovery_lock : R → ℕ → ℕ → Option RecoveryLockHolder
  unfolding parse_holder
  read_recovery_lock r now chain_id =
      parse_holder json (redis.get r now (recovery_lock_key chain_id))

  -- After `SET NX`: the handle, or the holder that is read at `read_at`.
  unfoldable pub after_set :
      ℕ → ℕ → RecoveryLockHolder → (read_at deadline : ℕ) → R × Bool → R × RecoveryAcquired
  unfolding read_recovery_lock
  after_set chain_id ttl holder read_at deadline (r, true) = (
    r,
    acquired (record {
      key = recovery_lock_key chain_id;
      holder = holder;
      value = json.stringify holder;
      local_deadline = deadline;
      is_released = false;
    }),
  )
  after_set chain_id ttl holder read_at deadline (r, false) =
      (r, recovery_lock_busy (read_recovery_lock r read_at chain_id))

  -- `acquireRecoveryLock` at the server's time `now`, and at `attempt_at` of its own clock. The
  -- holder is the one that the call makes, with its drawn token.
  unfoldable pub acquire_recovery_lock :
      (now read_at attempt_at : ℕ) → ℕ → RecoveryLockHolder → ℕ → R → R × RecoveryAcquired
  unfolding after_set
  acquire_recovery_lock now read_at attempt_at chain_id holder ttl r =
      if is_empty (trim holder.owner)
      then (r, no_owner)
      else after_set chain_id ttl holder read_at (attempt_at + ttl)
          (redis.set_nx r now (recovery_lock_key chain_id) (json.stringify holder) ttl)

  -- `release` of the handle; `sent` tells whether the command reached Redis.
  unfoldable pub release_recovery_lock :
      Bool → ℕ → RecoveryLockHandle → R → R × RecoveryLockHandle × Bool
  unfolding release_script
  release_recovery_lock sent now handle r =
      let (freed, deleted) = release_script redis r now handle.key handle.value in
      if handle.is_released
      then (r, handle, false)
      else if sent
      then (freed, record handle { is_released = true }, deleted)
      else (r, record handle { is_released = true }, false)

unfoldable pub assert_recovery_lock_held :
    RecoveryLockHandle → ℕ → ℕ → Option ℕ → Reply → LeaseCheck
unfolding assert_redis_lease_held
assert_recovery_lock_held handle called_at answered_at min reply =
    if handle.is_released
    then lost released
    else assert_redis_lease_held handle.local_deadline called_at answered_at min reply
