-- ===== src/Lane.antt =====
-- packages/backend/src/services/transaction/wallet-lane.ts: the lane lease on Redis. A token is a
-- text that `randomUUID` drew; times are milliseconds, of the holder's clock unless a comment says
-- otherwise.
pub mod Check
pub mod Nonces
pub mod Acquire
pub mod System
pub mod Invariant
pub mod Steps
pub mod Exclusive
pub mod Recovery
use agentfi.Base.{
  ℕ, ◌+◌, ◌-◌, Bool, true, false, not, ◌&&◌, ◌||◌, Option, none, some, Text, codes, ◌++◌, ltb, leb,
  ◌==◌, if◌then◌else◌, text_eq, lower,
}
use agentfi.Redis.{LaneRedis, Pttl, absent, unlimited, left}

pub data LeaseLostReason : Type 0 where
  not_held : LeaseLostReason
  expired : LeaseLostReason
  margin : LeaseLostReason
  released : LeaseLostReason
  unverifiable : LeaseLostReason

-- `assertHeld` resolves, or throws a `LeaseLostError`.
pub data LeaseCheck : Type 0 where
  held : LeaseCheck
  lost : LeaseLostReason → LeaseCheck

abbrev pub lane_ttl_ms : ℕ
lane_ttl_ms = 120_000

abbrev pub lane_wait_ms : ℕ
lane_wait_ms = 120_000

abbrev pub nonce_memory_ttl_ms : ℕ
nonce_memory_ttl_ms = 60_000

abbrev pub same_text : Option Text → Text → Bool
same_text none token = false
same_text (some v) token = text_eq v token

-- What `ASSERT_HELD_SCRIPT` returns: the status -1, -2, 0 or 1, and the time left.
pub data ScriptAnswer : Type 0 where
  foreign : ScriptAnswer
  endless : ScriptAnswer
  short : ℕ → ScriptAnswer
  enough : ℕ → ScriptAnswer

-- What a caller of the script sees: it threw, it is not the expected pair, or an answer.
pub data Reply : Type 0 where
  failed : Reply
  garbled : Reply
  answered : ScriptAnswer → Reply

abbrev pub with_margin : ℕ → Pttl → ScriptAnswer
with_margin min absent = endless
with_margin min unlimited = endless
with_margin min (left ttl) = if ltb ttl min then short ttl else enough ttl

module _ {R : Type 0} (redis : LaneRedis R) where
  unfoldable pub assert_held_script : R → ℕ → Text → Text → ℕ → ScriptAnswer
  assert_held_script r now key token min =
      if same_text (redis.get r now key) token
      then with_margin min (redis.pttl r now key)
      else foreign

  -- `RELEASE_SCRIPT`, with its count of deleted keys.
  unfoldable pub release_script : R → ℕ → Text → Text → R × Bool
  release_script r now key token =
      if same_text (redis.get r now key) token then (redis.del r key, true) else (r, false)

-- The judgement of the time left, once the answer is there.
abbrev pub judge_left : ℕ → ℕ → Bool → LeaseCheck
judge_left min remaining is_short =
    if remaining == 0
    then lost expired
    else if is_short || ltb remaining min
    then lost margin
    else held

abbrev pub least : ℕ → ℕ → ℕ
least a b = if leb a b then a else b

-- A difference that the code computes below zero is zero here, and is judged alike.
unfoldable pub judge_answer : ℕ → ℕ → ℕ → ℕ → ScriptAnswer → LeaseCheck
judge_answer local_deadline called_at answered_at min foreign = lost not_held
judge_answer local_deadline called_at answered_at min endless = lost unverifiable
judge_answer local_deadline called_at answered_at min (short pttl) =
    judge_left min (least (pttl - (answered_at - called_at)) (local_deadline - answered_at)) true
judge_answer local_deadline called_at answered_at min (enough pttl) =
    judge_left min (least (pttl - (answered_at - called_at)) (local_deadline - answered_at)) false

unfoldable pub judge_reply : ℕ → ℕ → ℕ → ℕ → Reply → LeaseCheck
unfolding judge_answer
judge_reply local_deadline called_at answered_at min failed = lost unverifiable
judge_reply local_deadline called_at answered_at min garbled = lost unverifiable
judge_reply local_deadline called_at answered_at min (answered a) =
    judge_answer local_deadline called_at answered_at min a

-- `assertRedisLeaseHeld`. A margin that is not finite or is negative is `none`.
unfoldable pub assert_redis_lease_held : ℕ → ℕ → ℕ → Option ℕ → Reply → LeaseCheck
unfolding judge_reply
assert_redis_lease_held local_deadline called_at answered_at none reply = lost unverifiable
assert_redis_lease_held local_deadline called_at answered_at (some min) reply =
    if leb local_deadline called_at
    then lost expired
    else judge_reply local_deadline called_at answered_at min reply

pub record RedisLaneLease : Type 0 where
  pub key : Text
  pub token : Text
  pub acquired_at : ℕ
  pub local_deadline : ℕ
  pub is_released : Bool

unfoldable pub assert_held : RedisLaneLease → ℕ → ℕ → Option ℕ → Reply → LeaseCheck
unfolding assert_redis_lease_held
assert_held lease called_at answered_at min reply =
    if lease.is_released
    then lost released
    else assert_redis_lease_held lease.local_deadline called_at answered_at min reply

-- `release` at the server's time `now`; `sent` tells whether the command reached Redis.
module _ {R : Type 0} (redis : LaneRedis R) where
  unfoldable pub release : Bool → ℕ → RedisLaneLease → R → R × RedisLaneLease
  unfolding release_script
  release sent now lease r = if lease.is_released then (r, lease) else (
    if sent then (release_script redis r now lease.key lease.token).0 else r,
    record lease { is_released = true },
  )
