-- ===== src/Tests/Lanes.antt =====
-- The theorems on lanes, submits and lookups at sample inputs.
use agentfi.Base.{
  ℕ, suc, ◌+◌, ◌*◌, ◌<◌, ◌≤◌, ◌≡◌, ◌↔◌, refl, sym, ap, ◌∙◌, inl, inr, Bool, true, false, Option,
  none, some, List, [], ◌∷◌, Text, codes, lower, text_eq, text_eq_refl, if◌then◌else◌, is_some, any,
  All, length, replicate, length-replicate, arith,
}
use agentfi.Base
use agentfi.Decimal
use agentfi.Redis.{LaneRedis, RedisLaws, Entry, live, value_of, pttl_of, expiring, left}
use agentfi.Lane.{answered, with_margin, assert_redis_lease_held, held}
use agentfi.Lane.Check.{assert_redis_lease_held_iff}
use agentfi.Lane.Recovery.{
  recovery_lock_key, RecoveryLockHolder, HolderJson, as_parsed, RecoveryLockHandle,
  recovery_lock_busy, acquired, acquire_recovery_lock, release_recovery_lock,
}
use agentfi.Lane.Recovery.Held.{
  LockStep, ask_lock, free_lock, lock_steps, OfOthers, acquire_recovery_lock-refuses,
}
use agentfi.Lane.System.{System, Setting, Reach, begin, later, ask, set, grant, asked, holding}
use agentfi.Lane.Exclusive.{mutual_exclusion}
use agentfi.Lane.Acquire.{
  Rounds, leased, acquire, acquire-ends, against, acquire-dead_holder, later_of,
}
use agentfi.Lane.Nonces
use agentfi.Lane.Nonces.{max_safe, memory_nonces, memory_nonces-NonceLaws, NonceEntries}
use agentfi.Submit
use agentfi.Submit.{SubmitParams, SubmitterClient, SubmitterDeps, submit_in_lane, wallet_lane_key}
use agentfi.Submit.Noted.{Job, submit_all}
use agentfi.Submit.Order.{IsIncreasing, submit_all-IsIncreasing}
use agentfi.Submit.Sent.{is_sent, Announced, Refused, submit-failed}
use agentfi.Submit.Keys.{wallet_lane_key_iff}
use agentfi.TxKnown.{
  found, raised, decided, is_transaction_known_to_any, is_transaction_known_to_any_lem,
}

-- A Redis whose store is a function from keys to entries.
abbrev Store : Type 0
Store = Text → Option Entry

abbrev put : Store → Text → Option Entry → Store
put r key e k = if text_eq k key then e else r k

abbrev set_if : Store → Text → Option Entry → Option Entry → Store × Bool
set_if r key new none = (put r key new, true)
set_if r key new (some e) = (r, false)

abbrev memory_redis : LaneRedis Store
memory_redis = record {
  get = λ r now key. value_of (live now (r key));
  pttl = λ r now key. pttl_of now (live now (r key));
  set_nx = λ r now key v ttl. set_if r key (expiring v (now + ttl)) (live now (r key));
  set_px = λ r now key v ttl. put r key (expiring v (now + ttl));
  del = λ r key. put r key none;
}

abbrev entry_of : Store → Text → Option Entry
entry_of r key = r key

put-same : (r : Store) (key : Text) (e : Option Entry) → put r key e key ≡ e
put-same r key e = rw (text_eq_refl key) refl

memory_redis-RedisLaws : RedisLaws memory_redis entry_of
memory_redis-RedisLaws = record {
  get_lem = λ r now key. refl;
  pttl_lem = λ r now key. refl;
  set_busy = λ r now key v ttl e h. ap (set_if r key (expiring v (now + ttl))) h;
  set_free = λ r now key v ttl h. (
    ap (λ o. (set_if r key (expiring v (now + ttl)) o).1) h,
    ap (λ o. (set_if r key (expiring v (now + ttl)) o).0 key) h
        ∙ put-same r key (expiring v (now + ttl)),
  );
  set_px_lem = λ r now key v ttl. put-same r key (expiring v (now + ttl));
  del_lem = λ r key. put-same r key none;
}

-- A text for each of two holders, and the reading of it.
abbrev sample_holder : ℕ → RecoveryLockHolder
sample_holder pid = record {
  owner = codes "ops";
  pid = pid;
  host = none;
  token = codes "t";
  acquired_at = codes "now";
}

abbrev sample_json : HolderJson
sample_json = record {
  stringify = λ h. replicate h.pid 97;
  parse = λ s. some (as_parsed (sample_holder (length s)));
}

-- The holder 1 gets the lock; 2 asks in vain and releases an old handle.
abbrev recovery_handle : ℕ → RecoveryLockHandle
recovery_handle pid = record {
  key = recovery_lock_key 1;
  holder = sample_holder pid;
  value = replicate pid 97;
  local_deadline = 8000;
  is_released = false;
}

abbrev other_steps : List LockStep
other_steps =
    ask_lock 2000 2001 2000 (sample_holder 2) 7000 ∷ free_lock true 2100 (recovery_handle 2) ∷ []

abbrev recovery_free : Store
recovery_free key = none

recovery_acquired :
    (acquire_recovery_lock memory_redis sample_json 1000 1001 1000 1
      (sample_holder 1)
      7000
      recovery_free).1
    ≡ acquired (recovery_handle 1)
unfolding acquire_recovery_lock Base.trim
recovery_acquired = refl

other_steps-OfOthers : OfOthers 1 8000 (replicate 1 97) other_steps
other_steps-OfOthers = (omega arith, (omega arith, refl, refl, tt))

acquire_recovery_lock-refuses_example :
    let s =
      lock_steps memory_redis sample_json 1 other_steps
        (acquire_recovery_lock memory_redis sample_json 1000 1001 1000 1
          (sample_holder 1)
          7000
          recovery_free).0 in
    (acquire_recovery_lock memory_redis sample_json 3000 3001 3000 1 (sample_holder 2) 7000 s
      ≡ (s, recovery_lock_busy (some (sample_holder 1))))
    × ((release_recovery_lock memory_redis sample_json true 3000 (recovery_handle 1) s).2 ≡ true)
    × (entry_of
          (release_recovery_lock memory_redis sample_json true 3000 (recovery_handle 1) s).0
          (recovery_lock_key 1)
        ≡ none)
unfolding Base.trim
acquire_recovery_lock-refuses_example =
    acquire_recovery_lock-refuses memory_redis sample_json 1 entry_of memory_redis-RedisLaws 1000
      1001 1000 7000 (sample_holder 1) recovery_free (recovery_handle 1) refl recovery_acquired
      other_steps other_steps-OfOthers (sample_holder 2) 3000 3001 3000 7000 (omega arith)
      (omega arith) refl

-- A lane of two seconds; the n-th token is n letters, and the i-th clock is 5 i ahead.
abbrev sample_lane : Setting Store
sample_lane = record {
  redis = memory_redis;
  key = codes "1:0xa1";
  ttl = 2000;
  uuid = λ n. replicate n 97;
  skew = λ i. i * 5;
}

sample_distinct : (m n : ℕ) → sample_lane.uuid m ≡ sample_lane.uuid n → m ≡ n
sample_distinct m n h = sym (length-replicate m 97) ∙ ap length h ∙ length-replicate n 97

-- The processes 0 and 1 ask for a free lane; 0 gets it, 1 is refused.
contended :
    (s : System Store) × Reach sample_lane s
    × (s.client 0 ≡ holding 0 3000)
    × (s.client 1 ≡ asked 1 1005 false)
contended = (
  _,
  later
      (later
        (later (later (later (begin (λ k. none) 1000) (ask 0 refl)) (set 0 0 1000 refl))
          (grant 0 0 1000 refl))
        (ask 1 refl))
      (set 1 1 1005 refl),
  refl,
  refl,
)

mutual_exclusion_example : ◌≡◌ {A = ℕ} 0 0
unfolding contended
mutual_exclusion_example =
    mutual_exclusion sample_lane entry_of memory_redis-RedisLaws sample_distinct contended.1 0 0
      refl refl

abbrev never_free : Rounds
never_free = record { taken = λ i now. false; latency = λ i. 5; jitter = λ i. i }

acquire-ends_example : is_some (acquire never_free 2000 100 50 51) ≡ true
acquire-ends_example = acquire-ends never_free 2000 100 50 51 (omega arith)

acquire-dead_holder_example :
    (d : ℕ) × (acquire
        (against memory_redis
          (λ k. expiring (codes "dead") 400)
          (codes "1:0xa1")
          (codes "new")
          2000
          (λ i. 3)
          (λ i. 20)
          (λ i. 10))
        2000
        1000
        100
        100
      ≡ some (leased d))
    × (d ≤ later_of 100 (400 + 20 + 1000) + 2000)
acquire-dead_holder_example =
    acquire-dead_holder memory_redis entry_of memory_redis-RedisLaws
      (λ k. expiring (codes "dead") 400) (codes "1:0xa1") (codes "new") (codes "dead") 400 refl 2000
      1000 100 100 20 (λ i. 3) (λ i. 20) (λ i. 10) (omega arith) (λ i. omega arith)
      (λ i. omega arith) (omega arith)

assert_redis_lease_held_iff_example :
    (assert_redis_lease_held 1000 100 120 (some 50) (answered (with_margin 50 (left 300))) ≡ held)
    ↔ ((120 < 1000) × (50 + 120 ≤ 1000) × (120 < 100 + 300) × (50 + 120 ≤ 100 + 300))
assert_redis_lease_held_iff_example = assert_redis_lease_held_iff 1000 100 120 50 300 (omega arith)

-- A node that lags behind: it answers the same count of transactions to both submits.
abbrev lagging : SubmitterClient
lagging = record {
  estimate_gas = λ p. some 21000;
  transaction_count = λ from. some 7;
  gas_price = some 10;
  chain_id = some 1;
  send_raw_transaction = λ tx. some tx;
  get_transaction = λ hash. false;
}

abbrev refusing : SubmitterClient
refusing = record lagging { send_raw_transaction = λ tx. none }

abbrev sample_params : SubmitParams
sample_params = record {
  chain_id = 1;
  wallet_id = 4;
  from = codes "0xA1";
  to = codes "0xb2";
  call_data = [];
  value = 5;
  gas_limit = none;
}

abbrev sample_deps : SubmitterClient → SubmitterDeps
sample_deps node = record {
  primary = node;
  secondary = node;
  serialize = λ tx. tx.nonce ∷ [];
  sign_transaction = λ wallet tx chain. some tx;
  keccak = λ tx. tx;
  on_before_broadcast = λ hash. true;
  reads_nonce = true;
  records_nonce = true;
}

abbrev sample_jobs : List Job
sample_jobs =
    record { params = sample_params; deps = sample_deps lagging; read_at = 100; done_at = 150 }
    ∷ record { params = sample_params; deps = sample_deps lagging; read_at = 200; done_at = 260 }
    ∷ []

abbrev sample_nonces : NonceEntries
sample_nonces key = none

sample_safe :
    All (λ r. r.nonce ≤ max_safe) (submit_all (memory_nonces 60_000) sample_jobs sample_nonces)
unfolding submit_all submit_in_lane Submit.next_nonce Nonces.memory_last_used
    Nonces.memory_record_used Decimal.show_ℕ Base.lower_unit
sample_safe = (omega arith, (omega arith, tt))

submit_all-IsIncreasing_example :
    IsIncreasing (submit_all (memory_nonces 60_000) sample_jobs sample_nonces)
submit_all-IsIncreasing_example =
    submit_all-IsIncreasing (memory_nonces 60_000) 60_000 (memory_nonces-NonceLaws 60_000)
      (wallet_lane_key 1 (codes "0xA1")) 60_000 100 sample_jobs sample_nonces (omega arith)
      (
        refl,
        refl,
        refl,
        omega arith,
        omega arith,
        omega arith,
        (refl, refl, refl, omega arith, omega arith, omega arith, tt),
      )
      sample_safe

refused_sent :
    any is_sent
      (submit_in_lane
        (memory_nonces 60_000)
        sample_params
        (sample_deps refusing)
        100
        150
        sample_nonces).acts
    ≡ true
unfolding submit_in_lane
refused_sent = refl

refused_failed :
    (submit_in_lane
      (memory_nonces 60_000)
      sample_params
      (sample_deps refusing)
      100
      150
      sample_nonces).outcome
    ≡ none
unfolding submit_in_lane
refused_failed = refl

submit-failed_example :
    (signed : Text) × Announced
      (sample_deps refusing)
      (submit_in_lane
        (memory_nonces 60_000)
        sample_params
        (sample_deps refusing)
        100
        150
        sample_nonces)
      signed
    × Refused (sample_deps refusing) signed
submit-failed_example =
    submit-failed (memory_nonces 60_000) sample_params (sample_deps refusing) 100 150 sample_nonces
      refused_sent refused_failed

wallet_lane_key_iff_example :
    (wallet_lane_key 1 (codes "0xAb") ≡ wallet_lane_key 1 (codes "0xaB"))
    ↔ ((◌≡◌ {A = ℕ} 1 1) × (lower (codes "0xAb") ≡ lower (codes "0xaB")))
wallet_lane_key_iff_example = wallet_lane_key_iff 1 1 (codes "0xAb") (codes "0xaB")

is_transaction_known_to_any_lem_example :
    is_transaction_known_to_any 3 (raised (codes "Timeout" ∷ []) ∷ found ∷ [])
    ≡ decided 3 0 (raised (codes "Timeout" ∷ []) ∷ found ∷ [])
is_transaction_known_to_any_lem_example =
    is_transaction_known_to_any_lem 3 (raised (codes "Timeout" ∷ []) ∷ found ∷ []) (omega arith)
      (omega arith)
