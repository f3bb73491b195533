-- ===== src/Lane/Invariant.antt =====
-- wallet-lane.ts: what every reachable state of the lane's processes satisfies.
use agentfi.Base.{
  ℕ, ◌+◌, ◌≤◌, ◌<◌, ◌≡◌, ◌≢◌, refl, ◌==◌, Bool, true, false, Option, none, some, Text,
  if◌then◌else◌, arith, ==_iff,
}
use agentfi.Redis.{Entry, expiring}
use agentfi.Lane.{Reply, failed, garbled, answered, foreign, endless, short, enough}
use agentfi.Lane.System.{
  Client, idle, asking, asked, holding, checking, checked, cleared, releasing, System, update,
  Setting,
}

abbrev pub token_of : Client → Option ℕ
token_of idle = none
token_of (asking t _) = some t
token_of (asked t _ _) = some t
token_of (holding t _) = some t
token_of (checking t _ _ _) = some t
token_of (checked t _ _ _ _) = some t
token_of (cleared t _ _) = some t
token_of (releasing t) = some t

module _ {R : Type 0} (lane : Setting R) (entry : R → Text → Option Entry) where
  -- Until `e` the lane holds the token: the store has it, and it expires at `e`.
  abbrev pub Owned : R → ℕ → ℕ → ℕ → Type 0
  Owned r now token e = now < e → entry r lane.key ≡ expiring (lane.uuid token) e

  -- The lane holds the token at least until the deadline on process `i`'s clock.
  abbrev pub Leased : R → ℕ → ℕ → ℕ → ℕ → Type 0
  Leased r now i token deadline = (e : ℕ) × (deadline ≤ e + lane.skew i) × Owned r now token e

  abbrev pub Told : R → ℕ → ℕ → ℕ → ℕ → Reply → Type 0
  Told r now i token called (answered (enough p)) = Leased r now i token (called + p)
  Told r now i token called _ = Unit

  -- What the state of process `i` says of the store.
  abbrev pub Guarded : R → ℕ → ℕ → Client → Type 0
  Guarded r now i (asking t at) = at ≤ now + lane.skew i
  Guarded r now i (asked t at true) = Leased r now i t (at + lane.ttl)
  Guarded r now i (holding t d) = Leased r now i t d
  Guarded r now i (checking t d called min) = Leased r now i t d × (called ≤ now + lane.skew i)
  Guarded r now i (checked t d called min reply) = Leased r now i t d × Told r now i t called reply
  Guarded r now i (cleared t d until) = Leased r now i t d × Leased r now i t (until + lane.skew i)
  Guarded r now i _ = Unit

  pub record Inv (s : System R) : Type 0 where
    pub guarded : (i : ℕ) → Guarded s.store s.clock i (s.client i)
    pub fresh : (i t : ℕ) → token_of (s.client i) ≡ some t → t < s.issued
    pub apart :
        (i j t : ℕ) → token_of (s.client i) ≡ some t → token_of (s.client j) ≡ some t → i ≡ j

  abbrev pub Kept : R → ℕ → R → ℕ → ℕ → Type 0
  Kept r now r' now' t = (e : ℕ) → Owned r now t e → Owned r' now' t e

  module _ (r : R) (now : ℕ) (r' : R) (now' : ℕ) (le : now ≤ now') (i : ℕ) where
    Leased-Kept : (t d : ℕ) → Kept r now r' now' t → Leased r now i t d → Leased r' now' i t d
    Leased-Kept t d k (e, h, o) = (e, h, k e o)

    Told-Kept :
        (t called : ℕ) (reply : Reply)
        → Kept r now r' now' t
        → Told r now i t called reply
        → Told r' now' i t called reply
    Told-Kept t called failed k g = tt
    Told-Kept t called garbled k g = tt
    Told-Kept t called (answered foreign) k g = tt
    Told-Kept t called (answered endless) k g = tt
    Told-Kept t called (answered (short p)) k g = tt
    Told-Kept t called (answered (enough p)) k g = Leased-Kept t (called + p) k g

    pub Guarded-Kept :
        (c : Client)
        → ((t : ℕ) → token_of c ≡ some t → Kept r now r' now' t)
        → Guarded r now i c
        → Guarded r' now' i c
    Guarded-Kept idle k g = tt
    Guarded-Kept (asking t at) k g = omega arith
    Guarded-Kept (asked t at true) k g = Leased-Kept t (at + lane.ttl) (k t refl) g
    Guarded-Kept (asked t at false) k g = tt
    Guarded-Kept (holding t d) k g = Leased-Kept t d (k t refl) g
    Guarded-Kept (checking t d called min) k g = (Leased-Kept t d (k t refl) g.0, omega arith)
    Guarded-Kept (checked t d called min reply) k g =
        (Leased-Kept t d (k t refl) g.0, Told-Kept t called reply (k t refl) g.1)
    Guarded-Kept (cleared t d until) k g =
        (Leased-Kept t d (k t refl) g.0, Leased-Kept t (until + lane.skew i) (k t refl) g.1)
    Guarded-Kept (releasing t) k g = tt

  -- Process `i` goes to `c`, with the token it had or none, and the store to `r`.
  module _ {s : System R} (inv : Inv s) (i : ℕ) (c : Client) (r : R) where
    open inv use {guarded, fresh, apart}

    abbrev pub Keeps : Type 0
    Keeps = (t : ℕ) → token_of c ≡ some t → token_of (s.client i) ≡ some t

    token-choice :
        Keeps
        → (j t : ℕ) (b : Bool) → (j == i) ≡ b
        → token_of (if b then c else s.client j) ≡ some t
        → token_of (s.client j) ≡ some t
    token-choice keeps j t true e h = let q : j ≡ i = (==_iff j i).0 e in rw q (keeps t h)
    token-choice keeps j t false e h = h

    Guarded-choice :
        ((j t : ℕ) → j ≢ i → token_of (s.client j) ≡ some t → Kept s.store s.clock r s.clock t)
        → Guarded r s.clock i c
        → (j : ℕ) (b : Bool) → (j == i) ≡ b
        → Guarded r s.clock j (if b then c else s.client j)
    Guarded-choice others own j true e = let q : j ≡ i = (==_iff j i).0 e in rw q own
    Guarded-choice others own j false e =
        Guarded-Kept s.store s.clock r s.clock (omega arith) j (s.client j)
          (λ t h. others j t (ground arith) h) (guarded j)

    pub move-Inv :
        Keeps
        → ((j t : ℕ) → j ≢ i → token_of (s.client j) ≡ some t → Kept s.store s.clock r s.clock t)
        → Guarded r s.clock i c
        → Inv (record s { store = r; client = update s.client i c })
    move-Inv keeps others own = record {
      guarded = λ j. Guarded-choice others own j (j == i) refl;
      fresh = λ j t h. fresh j t (token-choice keeps j t (j == i) refl h);
      apart = λ j k t h l.
          apart j k t (token-choice keeps j t (j == i) refl h)
            (token-choice keeps k t (k == i) refl l);
    }
