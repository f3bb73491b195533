-- ===== src/Redis.antt =====
-- The Redis commands that packages/backend/src/services/transaction/wallet-lane.ts sends, as
-- operations on a store at the server's time, in milliseconds, with what their documentation says
-- of them. Redis itself is not part of the repository: the store and its commands are parameters.
use agentfi.Base.{ℕ, ◌+◌, ◌-◌, Bool, true, false, Option, none, some, Text, ◌≡◌, ltb, if◌then◌else◌}

-- A stored value, with the time at which it expires, if it does.
pub record Entry : Type 0 where
  pub value : Text
  pub expires_at : Option ℕ

-- The answer of `PTTL`: -2, -1, or the milliseconds left.
pub data Pttl : Type 0 where
  absent : Pttl
  unlimited : Pttl
  left : ℕ → Pttl

-- `LaneRedis`: the commands of the lanes, each at the server's time. `eval` runs a script of these
-- as one step.
pub record LaneRedis (R : Type 0) : Type 0 where
  pub get : R → ℕ → Text → Option Text
  pub pttl : R → ℕ → Text → Pttl
  pub set_nx : R → ℕ → Text → Text → ℕ → R × Bool  -- `SET key value PX ttl NX`
  pub set_px : R → ℕ → Text → Text → ℕ → R  -- `SET key value PX ttl`
  pub del : R → Text → R

abbrev pub unexpired : ℕ → Entry → Option ℕ → Option Entry
unexpired now e none = some e
unexpired now e (some t) = if ltb now t then some e else none

-- An entry whose time has come is absent.
abbrev pub live : ℕ → Option Entry → Option Entry
live now none = none
live now (some e) = unexpired now e e.expires_at

abbrev pub value_of : Option Entry → Option Text
value_of none = none
value_of (some e) = some e.value

abbrev pub time_left : ℕ → Option ℕ → Pttl
time_left now none = unlimited
time_left now (some t) = left (t - now)

abbrev pub pttl_of : ℕ → Option Entry → Pttl
pttl_of now none = absent
pttl_of now (some e) = time_left now e.expires_at

abbrev pub expiring : Text → ℕ → Option Entry
expiring v t = some (record { value = v; expires_at = some t })

-- The documented behaviour, in terms of the entry that a store has under a key.
pub record RedisLaws {R : Type 0} (redis : LaneRedis R) (entry : R → Text → Option Entry)
    : Type 0 where
  pub get_lem :
      (r : R) (now : ℕ) (key : Text) → redis.get r now key ≡ value_of (live now (entry r key))
  pub pttl_lem :
      (r : R) (now : ℕ) (key : Text) → redis.pttl r now key ≡ pttl_of now (live now (entry r key))
  pub set_busy :
      (r : R) (now : ℕ) (key v : Text) (ttl : ℕ) (e : Entry)
      → live now (entry r key) ≡ some e
      → redis.set_nx r now key v ttl ≡ (r, false)
  pub set_free :
      (r : R) (now : ℕ) (key v : Text) (ttl : ℕ)
      → live now (entry r key) ≡ none
      → ((redis.set_nx r now key v ttl).1 ≡ true)
        × (entry (redis.set_nx r now key v ttl).0 key ≡ expiring v (now + ttl))
  pub set_px_lem :
      (r : R) (now : ℕ) (key v : Text) (ttl : ℕ)
      → entry (redis.set_px r now key v ttl) key ≡ expiring v (now + ttl)
  pub del_lem : (r : R) (key : Text) → entry (redis.del r key) key ≡ none
