-- ===== src/Lane/Check.antt =====
-- wallet-lane.ts: when `assertHeld` of a lease lets a caller go on.
use agentfi.Base.{
  ℕ, ◌+◌, ◌-◌, ◌≤◌, ◌<◌, ◌≡◌, refl, Bool, true, false, Option, none, some, ◌↔◌, inl, inr,
  Bool-cases, ltb, arith,
}
use agentfi.Redis.{left}
use agentfi.Lane.{
  LeaseCheck, held, lost, foreign, endless, short, enough, Reply, failed, garbled, answered,
  with_margin, judge_answer, judge_reply, assert_redis_lease_held,
}

-- The check succeeds.
abbrev pub is_held : LeaseCheck → Bool
is_held held = true
is_held (lost _) = false

-- What a successful check read.
pub record Judged (deadline called_at answered_at min pttl : ℕ) : Type 0 where
  pub local_left : min + answered_at ≤ deadline
  pub local_now : answered_at < deadline
  pub stored_left : min + (answered_at - called_at) ≤ pttl
  pub stored_now : answered_at - called_at < pttl

module _ (deadline called_at answered_at min : ℕ) where
  pub judge_enough :
      (pttl : ℕ)
      → judge_answer deadline called_at answered_at min (enough pttl) ≡ held
      → Judged deadline called_at answered_at min pttl
  unfolding judge_answer
  judge_enough pttl h = ground arith

  pub judge_held :
      (reply : Reply)
      → judge_reply deadline called_at answered_at min reply ≡ held
      → (pttl : ℕ) × (reply ≡ answered (enough pttl))
        × Judged deadline called_at answered_at min pttl
  unfolding judge_reply judge_answer
  judge_held failed h = cc
  judge_held garbled h = cc
  judge_held (answered foreign) h = cc
  judge_held (answered endless) h = cc
  judge_held (answered (short pttl)) h = ground arith
  judge_held (answered (enough pttl)) h = (pttl, refl, judge_enough pttl h)

-- A check that succeeds was given a margin, before the deadline, and got the script's `enough`.
pub record Passed (deadline called_at answered_at : ℕ) (min : Option ℕ) (reply : Reply)
    : Type 0 where
  pub margin : ℕ
  pub pttl : ℕ
  pub given : min ≡ some margin
  pub answer : reply ≡ answered (enough pttl)
  pub judged : Judged deadline called_at answered_at margin pttl

pub assert-Passed :
    (deadline called_at answered_at : ℕ) (min : Option ℕ) (reply : Reply)
    → assert_redis_lease_held deadline called_at answered_at min reply ≡ held
    → Passed deadline called_at answered_at min reply
unfolding assert_redis_lease_held
assert-Passed deadline called_at answered_at none reply h = cc
assert-Passed deadline called_at answered_at (some min) reply h =
    let (pttl, e, j) = judge_held deadline called_at answered_at min reply (ground arith) in
    record { margin = min; pttl = pttl; given = refl; answer = e; judged = j }

-- A check that succeeds succeeds also on the same reply earlier, and with a smaller margin.
pub assert-earlier :
    (deadline called_at answered_at answered' min min' : ℕ) (reply : Reply)
    → called_at ≤ answered'
    → answered' ≤ answered_at
    → min' ≤ min
    → assert_redis_lease_held deadline called_at answered_at (some min) reply ≡ held
    → assert_redis_lease_held deadline called_at answered' (some min') reply ≡ held
unfolding assert_redis_lease_held judge_reply judge_answer
assert-earlier deadline called_at answered_at answered' min min' failed le h k e = ground arith
assert-earlier deadline called_at answered_at answered' min min' garbled le h k e = ground arith
assert-earlier deadline called_at answered_at answered' min min' (answered foreign) le h k e =
    ground arith
assert-earlier deadline called_at answered_at answered' min min' (answered endless) le h k e =
    ground arith
assert-earlier deadline called_at answered_at answered' min min' (answered (short p)) le h k e =
    ground arith
assert-earlier deadline called_at answered_at answered' min min' (answered (enough p)) le h k e =
    ground arith

-- With the script's answer at hand, the check of a lease succeeds exactly when both the holder's
-- deadline and the time that the key had left, less the whole round trip, are still to come and
-- leave the margin.
pub assert_redis_lease_held_iff :
    (deadline called_at answered_at min pttl : ℕ)
    → called_at ≤ answered_at
    → (assert_redis_lease_held deadline called_at answered_at
          (some min)
          (answered (with_margin min (left pttl)))
        ≡ held)
      ↔ ((answered_at < deadline)
          × (min + answered_at ≤ deadline)
          × (answered_at < called_at + pttl)
          × (min + answered_at ≤ called_at + pttl))
unfolding assert_redis_lease_held judge_reply judge_answer
assert_redis_lease_held_iff deadline called_at answered_at min pttl le =
    elim (Bool-cases (ltb pttl min)) [ inl e ↦ rw e (ground arith) | inr e ↦ rw e (ground arith) ]
