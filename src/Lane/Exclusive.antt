-- ===== src/Lane/Exclusive.antt =====
-- wallet-lane.ts: whom the lane belongs to, in every reachable state of its processes.
use agentfi.Base.{
  ℕ, ◌+◌, ◌<◌, ◌≡◌, refl, sym, ap, ◌∙◌, Bool, true, false, ◌||◌, Option, some, Text, ltb, arith,
  inl, inr, Bool-cases, ltb→lt,
}
use agentfi.Redis.{RedisLaws, Entry, live, expiring}
use agentfi.Lane.System.{
  Client, idle, asking, asked, holding, checking, checked, cleared, releasing, System, Setting,
  local, set_lane, Reach,
}
use agentfi.Lane.Invariant.{token_of, Leased, Guarded}
use agentfi.Lane.Steps.{live-Owned, Reach-Inv}

-- A process is in the lane while it has the lease and its own clock is before the deadline, or
-- while a check of the lease is good for: the margin from its success on.
abbrev pub in_lane : ℕ → ℕ → Client → Bool
in_lane now here (holding t d) = ltb here d
in_lane now here (checking t d _ _) = ltb here d
in_lane now here (checked t d _ _ _) = ltb here d
in_lane now here (cleared t d until) = ltb here d || ltb now until
in_lane now here _ = false

module _ {R : Type 0} (lane : Setting R) (entry : R → Text → Option Entry)
    (laws : RedisLaws lane.redis entry)
    (distinct : (m n : ℕ) → lane.uuid m ≡ lane.uuid n → m ≡ n) where
  -- The store reads a process's token.
  record Owner (r : R) (now : ℕ) (c : Client) : Type 0 where
    pub token : ℕ
    pub its : token_of c ≡ some token
    pub until : ℕ
    pub stored : live now (entry r lane.key) ≡ expiring (lane.uuid token) until

  Leased-Owner :
      (r : R) (now i t d : ℕ) (c : Client)
      → token_of c ≡ some t
      → Leased lane entry r now i t d
      → now + lane.skew i < d
      → Owner r now c
  Leased-Owner r now i t d c its (e, h, o) lt = record {
    token = t;
    its = its;
    until = e;
    stored = live-Owned lane entry laws distinct r now t e o (omega arith);
  }

  client-Owner :
      (r : R) (now i : ℕ) (c : Client)
      → Guarded lane entry r now i c
      → in_lane now (now + lane.skew i) c ≡ true
      → Owner r now c
  client-Owner r now i idle g h = cc
  client-Owner r now i (asking t at) g h = cc
  client-Owner r now i (asked t at ok) g h = cc
  client-Owner r now i (holding t d) g h = Leased-Owner r now i t d _ refl g (ground arith)
  client-Owner r now i (checking t d called min) g h =
      Leased-Owner r now i t d _ refl g.0 (ground arith)
  client-Owner r now i (checked t d called min reply) g h =
      Leased-Owner r now i t d _ refl g.0 (ground arith)
  client-Owner r now i (cleared t d until) g h = elim (Bool-cases (ltb (now + lane.skew i) d)) [
    | inl e ↦ Leased-Owner r now i t d _ refl g.0 (ltb→lt _ _ e)
    | inr e ↦ Leased-Owner r now i t (until + lane.skew i) _ refl g.1 (ground arith)
  ]
  client-Owner r now i (releasing t) g h = cc

  module _ {s : System R} (reach : Reach lane s) where
    owner :
        (i : ℕ)
        → in_lane s.clock (local lane s i) (s.client i) ≡ true
        → Owner s.store s.clock (s.client i)
    owner i h =
        client-Owner s.store s.clock i (s.client i)
          ((Reach-Inv lane entry laws distinct reach).guarded i) h

    -- In every reachable state at most one process is in the lane: it has the lease and its own
    -- clock is before its deadline, or a check of its lease is good for a margin that has not
    -- passed. Redis does as documented, and no two drawn tokens are equal; the clocks of the
    -- processes may differ by constants, replies may be lost and processes crash.
    pub mutual_exclusion :
        (i j : ℕ)
        → in_lane s.clock (local lane s i) (s.client i) ≡ true
        → in_lane s.clock (local lane s j) (s.client j) ≡ true
        → i ≡ j
    mutual_exclusion i j hi hj =
        let a = owner i hi in
        let b = owner j hj in
        let same : a.token ≡ b.token = distinct a.token b.token (cc (a.stored, b.stored)) in
        (Reach-Inv lane entry laws distinct reach).apart i j a.token a.its
          (b.its ∙ ap some (sym same))

    -- While a process is in the lane, Redis refuses the lane to everyone.
    pub in_lane-refuses :
        (i u : ℕ)
        → in_lane s.clock (local lane s i) (s.client i) ≡ true
        → set_lane lane s u ≡ (s.store, false)
    in_lane-refuses i u h =
        laws.set_busy s.store s.clock lane.key (lane.uuid u) lane.ttl _ (owner i h).stored
