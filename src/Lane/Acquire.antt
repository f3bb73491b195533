-- ===== src/Lane/Acquire.antt =====
-- wallet-lane.ts: the loop of `acquire`, which asks for the lane until it is free or the wait is
-- over. Times are of the asking process's clock.
use agentfi.Base.{
  ℕ, zero, suc, ◌+◌, ◌*◌, ◌/◌, ◌<◌, ◌≤◌, ◌≡◌, Bool, true, Option, none, some, Text, leb,
  if◌then◌else◌, is_some, arith, inl, inr, Bool-cases,
}
use agentfi.Redis.{LaneRedis, RedisLaws, Entry, expiring}
use agentfi.Lane.{least}

-- What a waiting process meets: the answer to the `SET` of a round that begins at a time, and the
-- time that this answer takes; the part of the sleep that is drawn, and how much longer it lasts.
pub record Rounds : Type 0 where
  pub taken : ℕ → ℕ → Bool
  pub latency : ℕ → ℕ
  pub jitter : ℕ → ℕ

pub data Acquired : Type 0 where
  leased : (local_deadline : ℕ) → Acquired
  timed_out : Acquired

-- The loop, from its round `i` at the time `now`. `none` means that the fuel ran out.
unfoldable pub acquire_loop : Rounds → ℕ → ℕ → ℕ → ℕ → ℕ → ℕ → Option Acquired
acquire_loop env ttl deadline zero i delay now = none
acquire_loop env ttl deadline (suc fuel) i delay now =
    let rest =
      acquire_loop env ttl deadline fuel (suc i) (least (delay * 2) 500)
        (now + env.latency i + delay + env.jitter i) in
    if env.taken i now
    then some (leased (now + ttl))
    else if leb deadline (now + env.latency i)
    then some timed_out
    else rest

-- `acquire`, with one round for each shortest sleep that the wait has room for, and two more.
unfoldable pub acquire : Rounds → ℕ → ℕ → ℕ → ℕ → Option Acquired
unfolding acquire_loop
acquire env ttl wait acquired_at attempt_at =
    acquire_loop env ttl (acquired_at + wait) (suc (suc (wait / 25))) 0 25 attempt_at

module _ (env : Rounds) (ttl deadline : ℕ) where
  loop_ends :
      (fuel i delay now : ℕ)
      → 25 ≤ delay
      → deadline ≤ now + fuel * 25
      → is_some (acquire_loop env ttl deadline (suc fuel) i delay now) ≡ true
  unfolding acquire_loop
  loop_ends zero i delay now h le = ground arith
  loop_ends (suc fuel) i delay now h le = ground (
    arith,
    loop_ends fuel (suc i) (least (delay * 2) 500) (now + env.latency i + delay + env.jitter i),
  )

  -- A lane that is free from `free_at` on, answers that take at most `latest`, and sleeps that last
  -- at most half a second more than their delay.
  module _ (free_at latest bound : ℕ)
      (open_from : (i now : ℕ) → free_at ≤ now → env.taken i now ≡ true)
      (quick : (i : ℕ) → env.latency i ≤ latest) (brief : (i : ℕ) → env.jitter i ≤ 500)
      (room : free_at + latest ≤ deadline) (big : free_at + latest + 1000 ≤ bound) where
    loop-leased :
        (fuel i delay now : ℕ)
        → 25 ≤ delay
        → delay ≤ 500
        → deadline ≤ now + fuel * 25
        → now ≤ bound
        → (d : ℕ) × (acquire_loop env ttl deadline (suc fuel) i delay now ≡ some (leased d))
          × (d ≤ bound + ttl)
    unfolding acquire_loop
    loop-leased zero i delay now lo hi le small =
        (now + ttl, ground (arith, open_from i now), omega arith)
    loop-leased (suc fuel) i delay now lo hi le small = elim (Bool-cases (env.taken i now)) [
      | inl won ↦ (now + ttl, rw won, omega arith)
      | inr busy ↦
          let early : now < free_at = ground (arith, open_from i now) in
          let (d, e, within) =
            loop-leased fuel (suc i) (least (delay * 2) 500)
              (now + env.latency i + delay + env.jitter i) (ground arith) (ground arith)
              (omega arith) (omega (arith, quick i, brief i)) in
          (d, ground (arith, quick i), within)
    ]

-- The wait for a lane ends, with a lease or with a timeout, whatever is answered.
pub acquire-ends :
    (env : Rounds) (ttl wait acquired_at attempt_at : ℕ)
    → acquired_at ≤ attempt_at
    → is_some (acquire env ttl wait acquired_at attempt_at) ≡ true
unfolding acquire
acquire-ends env ttl wait acquired_at attempt_at le =
    loop_ends env ttl (acquired_at + wait) (suc (wait / 25)) 0 25 attempt_at (omega arith)
      (omega arith)

abbrev pub later_of : ℕ → ℕ → ℕ
later_of a b = if leb a b then b else a

-- What a process meets where the lane's store stays as `r`: its `SET` of the round `i` reaches the
-- server `lag i` after the round's begin.
pub against :
    {R : Type 0} → LaneRedis R → R → Text → Text → ℕ → (lag latency jitter : ℕ → ℕ) → Rounds
against redis r key token ttl lag latency jitter = record {
  taken = λ i now. (redis.set_nx r (now + lag i) key token ttl).1;
  latency = latency;
  jitter = jitter;
}

module _ {R : Type 0} (redis : LaneRedis R) (entry : R → Text → Option Entry)
    (laws : RedisLaws redis entry) (r : R) (key token other : Text) (expiry : ℕ)
    (dead : entry r key ≡ expiring other expiry) where
  expired-free : (ttl now : ℕ) → expiry ≤ now → (redis.set_nx r now key token ttl).1 ≡ true
  expired-free ttl now le = (laws.set_free r now key token ttl (rw dead (ground arith))).0

  -- A process that waits for a lane whose holder died gets it, if the holder's entry expires early
  -- enough before the end of the wait for one more answer, no answer takes longer than a bound, no
  -- sleep lasts half a second longer than its delay, and nobody else takes the lane; its deadline
  -- is then at most a second and an answer after the expiry, and the time to live.
  pub acquire-dead_holder :
      (ttl wait acquired_at attempt_at latest : ℕ) (lag latency jitter : ℕ → ℕ)
      → acquired_at ≤ attempt_at
      → ((i : ℕ) → latency i ≤ latest)
      → ((i : ℕ) → jitter i ≤ 500)
      → expiry + latest ≤ acquired_at + wait
      → (d : ℕ) × (acquire
            (against redis r key token ttl lag latency jitter)
            ttl
            wait
            acquired_at
            attempt_at
          ≡ some (leased d))
        × (d ≤ later_of attempt_at (expiry + latest + 1000) + ttl)
  unfolding acquire against
  acquire-dead_holder ttl wait acquired_at attempt_at latest lag latency jitter le quick brief
        room =
      loop-leased (against redis r key token ttl lag latency jitter) ttl (acquired_at + wait) expiry
        latest (later_of attempt_at (expiry + latest + 1000))
        (λ i now h. expired-free ttl (now + lag i) (omega arith)) quick brief room (ground arith)
        (suc (wait / 25)) 0 25 attempt_at (omega arith) (omega arith) (omega arith) (ground arith)
