-- ===== src/Lane/Steps.antt =====
-- wallet-lane.ts: every step of the lane's processes keeps the invariant.
use agentfi.Base.{
  ℕ, suc, ◌+◌, ◌≤◌, ◌<◌, ◌≡◌, ◌≢◌, refl, sym, ◌⊎◌, ◌∙◌, ap, ◌==◌, Bool, true, false, Option, none,
  some, Text, if◌then◌else◌, text_eq, text_eq→eq, arith, inl, inr, Bool-cases, Option-cases, ==_iff,
}
use agentfi.Redis.{RedisLaws, Entry, live, value_of, expiring, unexpired, pttl_of}
use agentfi.Lane.{
  Reply, failed, answered, ScriptAnswer, foreign, endless, short, enough, with_margin, same_text,
  assert_held_script, release_script, held, assert_redis_lease_held,
}
use agentfi.Lane.Check.{assert-Passed, Judged}
use agentfi.Lane.System.{
  Client, idle, asking, asked, holding, checking, checked, cleared, releasing, System, update,
  become, Setting, set_lane, ask_script, free_lane, local, Step, tick, crash, ask, set, retry,
  grant, check, script, no_script, pass, refuse, proceed, give_up, free, Reach, begin, later,
}
use agentfi.Lane.Invariant.{
  token_of, Kept, Owned, Leased, Told, Guarded, Inv, Guarded-Kept, move-Inv,
}

module _ {R : Type 0} (lane : Setting R) (entry : R → Text → Option Entry)
    (laws : RedisLaws lane.redis entry)
    (distinct : (m n : ℕ) → lane.uuid m ≡ lane.uuid n → m ≡ n) where
  open laws use {get_lem, pttl_lem, set_busy, set_free, del_lem}

  -- While the token's entry has not expired it is what the store reads.
  pub live-Owned :
      (r : R) (now t e : ℕ)
      → Owned lane entry r now t e
      → now < e
      → live now (entry r lane.key) ≡ expiring (lane.uuid t) e
  live-Owned r now t e o h = rw (o h) (ground arith)

  set-kept :
      (s : System R) (u t e : ℕ)
      → Owned lane entry s.store s.clock t e
      → Owned lane entry (set_lane lane s u).0 s.clock t e
  set-kept s u t e o h =
      rw
        (set_busy s.store s.clock lane.key (lane.uuid u) lane.ttl _
          (live-Owned s.store s.clock t e o h))
        (o h)

  set-granted :
      (s : System R) (u : ℕ)
      → (set_lane lane s u).1 ≡ true
      → Owned lane entry (set_lane lane s u).0 s.clock u (s.clock + lane.ttl)
  set-granted s u h _ = elim (Option-cases (live s.clock (entry s.store lane.key))) [
    | inl e ↦ (set_free s.store s.clock lane.key (lane.uuid u) lane.ttl e).1
    | inr (x, e) ↦ cc (set_busy s.store s.clock lane.key (lane.uuid u) lane.ttl x e)
  ]

  release_foreign :
      (r : R) (now : ℕ) (key token : Text)
      → same_text (lane.redis.get r now key) token ≡ false
      → release_script lane.redis r now key token ≡ (r, false)
  unfolding release_script
  release_foreign r now key token h = rw h

  free-kept :
      (s : System R) (u t e : ℕ)
      → t ≢ u
      → Owned lane entry s.store s.clock t e
      → Owned lane entry (free_lane lane s u) s.clock t e
  free-kept s u t e ne o h =
      let read : lane.redis.get s.store s.clock lane.key ≡ some (lane.uuid t) =
        get_lem s.store s.clock lane.key ∙ ap value_of (live-Owned s.store s.clock t e o h) in
      elim (Bool-cases (text_eq (lane.uuid t) (lane.uuid u))) [
        | inl same ↦ absurd (ne (distinct t u (text_eq→eq (lane.uuid t) (lane.uuid u) same)))
        | inr other ↦
            ap (λ (q : R × Bool). entry q.0 lane.key)
              (release_foreign s.store s.clock lane.key (lane.uuid u) (rw read other))
            ∙ o h
      ]

  script_enough :
      (now min p : ℕ) (u v : Text) (d : Option ℕ)
      → (if same_text (value_of (unexpired now (record { value = v; expires_at = d }) d)) u
          then with_margin min
              (pttl_of now (unexpired now (record { value = v; expires_at = d }) d))
          else foreign)
        ≡ enough p
      → (e : ℕ) × (p + now ≡ e) × (v ≡ u) × (d ≡ some e)
  script_enough now min p u v none h = elim (Bool-cases (text_eq v u)) [
    | inl same ↦ absurd (ground arith)
    | inr other ↦ absurd (ground arith)
  ]
  script_enough now min p u v (some t) h = elim (Bool-cases (text_eq v u)) [
    | inl same ↦ (t, ground arith, text_eq→eq v u same, refl)
    | inr other ↦ absurd (ground arith)
  ]

  entry_enough :
      (now min p : ℕ) (u : Text) (o : Option Entry)
      → (if same_text (value_of (live now o)) u
          then with_margin min (pttl_of now (live now o))
          else foreign)
        ≡ enough p
      → (e : ℕ) × (p + now ≡ e) × (o ≡ expiring u e)
  entry_enough now min p u none h = cc
  entry_enough now min p u (some x) h =
      let (e, rest, same, due) = script_enough now min p u x.value x.expires_at h in (e, rest, cc)

  -- An answer of the script that leaves the margin tells when the entry expires.
  script-Told :
      (s : System R) (i t called min : ℕ)
      → called ≤ local lane s i
      → Told lane entry s.store s.clock i t called (ask_script lane s t min)
  unfolding assert_held_script
  script-Told s i t called min le =
      told (assert_held_script lane.redis s.store s.clock lane.key (lane.uuid t) min) refl
    where
      told :
          (a : ScriptAnswer)
          → assert_held_script lane.redis s.store s.clock lane.key (lane.uuid t) min ≡ a
          → Told lane entry s.store s.clock i t called (answered a)
      told foreign h = tt
      told endless h = tt
      told (short p) h = tt
      told (enough p) h =
          let (e, rest, own) =
            entry_enough s.clock min p (lane.uuid t) (entry s.store lane.key)
              (rw (get_lem s.store s.clock lane.key, pttl_lem s.store s.clock lane.key) at h) in
          (e, omega arith, λ _. own)

  -- No process's hold is touched while the store stays.
  stays :
      (s : System R) (i j t : ℕ)
      → j ≢ i
      → token_of (s.client j) ≡ some t
      → Kept lane entry s.store s.clock s.store s.clock t
  stays s i j t ne h e o = o

  -- Process `i` goes to `c` with its token, and nothing else changes.
  go :
      {s : System R} (inv : Inv lane entry s) (i : ℕ) (c b : Client)
      → s.client i ≡ b
      → token_of c ≡ token_of b
      → Guarded lane entry s.store s.clock i c
      → Inv lane entry (become i c s)
  go {s} inv i c b at same g =
      move-Inv lane entry inv i c s.store (λ t h. ap token_of at ∙ sym same ∙ h) (stays s i) g

  -- What the invariant says of process `i` in the state `b`.
  here :
      {s : System R} (inv : Inv lane entry s) (i : ℕ) (b : Client)
      → s.client i ≡ b
      → Guarded lane entry s.store s.clock i b
  here {s} inv i b at = rw at at (inv.guarded i)

  ask-token :
      (s : System R) (i at j t : ℕ) (b : Bool)
      → (j == i) ≡ b
      → token_of (if b then asking s.issued at else s.client j) ≡ some t
      → ((j ≡ i) × (s.issued ≡ t)) ⊎ (token_of (s.client j) ≡ some t)
  ask-token s i at j t true e h = inl (ground arith)
  ask-token s i at j t false e h = inr h

  ask-Guarded :
      {s : System R} (inv : Inv lane entry s) (i j : ℕ) (b : Bool)
      → (j == i) ≡ b
      → Guarded lane entry s.store s.clock j
          (if b then asking s.issued (local lane s i) else s.client j)
  ask-Guarded {s} inv i j true e = let q : j ≡ i = (==_iff j i).0 e in rw q (omega arith)
  ask-Guarded {s} inv i j false e = inv.guarded j

  -- A fresh token belongs to no other process.
  ask-Inv :
      {s : System R} (inv : Inv lane entry s) (i : ℕ)
      → s.client i ≡ idle
      → Inv lane entry (record s {
        issued = suc s.issued;
        client = update s.client i (asking s.issued (local lane s i));
      })
  ask-Inv {s} inv i at = record {
    guarded = λ j. ask-Guarded inv i j (j == i) refl;
    fresh = λ j t h. elim (ask-token s i (local lane s i) j t (j == i) refl h) [
      | inl new ↦ omega (arith, new)
      | inr old ↦ omega (arith, inv.fresh j t old)
    ];
    apart = λ j k t h l. elim (ask-token s i (local lane s i) j t (j == i) refl h) [
      | inl new ↦ elim (ask-token s i (local lane s i) k t (k == i) refl l) [
        | inl new' ↦ new.0 ∙ sym new'.0
        | inr old ↦ absurd (omega (arith, new, inv.fresh k t old))
      ]
      | inr old ↦ elim (ask-token s i (local lane s i) k t (k == i) refl l) [
        | inl new ↦ absurd (omega (arith, new, inv.fresh j t old))
        | inr old' ↦ inv.apart j k t old old'
      ]
    ];
  }

  set-own :
      (s : System R) (i u from : ℕ)
      → from ≤ local lane s i
      → (b : Bool) → (set_lane lane s u).1 ≡ b
      → Guarded lane entry (set_lane lane s u).0 s.clock i (asked u from b)
  set-own s i u from le true h = (s.clock + lane.ttl, omega arith, set-granted s u h)
  set-own s i u from le false h = tt

  passed :
      (s : System R) (i u d called min : ℕ) (reply : Reply)
      → assert_redis_lease_held d called (local lane s i) (some min) reply ≡ held
      → Told lane entry s.store s.clock i u called reply
      → Leased lane entry s.store s.clock i u ((s.clock + min) + lane.skew i)
  passed s i u d called min reply ok told =
      let p = assert-Passed d called (local lane s i) (some min) reply ok in
      let (e, h, o) = in_reply p.pttl p.answer in
      (e, margin p.margin p.pttl e (ground (arith, p.given)) h p.judged, o)
    where
      in_reply :
          (q : ℕ) → reply ≡ answered (enough q) → Leased lane entry s.store s.clock i u (called + q)
      in_reply q same = rw same at told

      margin :
          (m q e : ℕ)
          → min ≡ m
          → called + q ≤ e + lane.skew i
          → Judged d called (local lane s i) m q
          → s.clock + min + lane.skew i ≤ e + lane.skew i
      margin m q e same h j = omega (arith, j.stored_left)

  pub Step-Inv : {s t : System R} → Inv lane entry s → Step lane s t → Inv lane entry t
  Step-Inv {s} inv (tick d) = record {
    guarded = λ i.
        Guarded-Kept lane entry s.store s.clock s.store (s.clock + d) (omega arith) i (s.client i)
          (λ t h e o lt. o (omega arith)) (inv.guarded i);
    fresh = inv.fresh;
    apart = inv.apart;
  }
  Step-Inv {s} inv (crash i) =
      move-Inv lane entry inv i idle s.store (λ t h. absurd (cc)) (stays s i) tt
  Step-Inv {s} inv (ask i at) = ask-Inv inv i at
  Step-Inv {s} inv (set i u from at) =
      move-Inv lane entry inv i (asked u from (set_lane lane s u).1) (set_lane lane s u).0
        (λ t h. ap token_of at ∙ h) (λ j t ne h e. set-kept s u t e)
        (set-own s i u from (here inv i _ at) (set_lane lane s u).1 refl)
  Step-Inv {s} inv (retry i u from at) =
      go inv i (asking u (local lane s i)) _ at refl (omega arith)
  Step-Inv {s} inv (grant i u from at) =
      go inv i (holding u (from + lane.ttl)) _ at refl (here inv i _ at)
  Step-Inv {s} inv (check i u d min at) =
      go inv i (checking u d (local lane s i) min) _ at refl (here inv i _ at, omega arith)
  Step-Inv {s} inv (script i u d called min at) =
      let (leased, before) = here inv i _ at in
      go inv i (checked u d called (some min) (ask_script lane s u min)) _ at refl
        (leased, script-Told s i u called min before)
  Step-Inv {s} inv (no_script i u d called min at) =
      let (leased, before) = here inv i _ at in
      go inv i (checked u d called min failed) _ at refl (leased, tt)
  Step-Inv {s} inv (pass i u d called min reply at ok) =
      let (leased, told) = here inv i _ at in
      go inv i (cleared u d (s.clock + min)) _ at refl
        (leased, passed s i u d called min reply ok told)
  Step-Inv {s} inv (refuse i u d called min reply why at ne) =
      let (leased, told) = here inv i _ at in go inv i (holding u d) _ at refl leased
  Step-Inv {s} inv (proceed i u d until at) =
      let (leased, told) = here inv i _ at in go inv i (holding u d) _ at refl leased
  Step-Inv {s} inv (give_up i u d at) = go inv i (releasing u) _ at refl tt
  Step-Inv {s} inv (free i u at) =
      move-Inv lane entry inv i idle (free_lane lane s u) (λ t h. absurd (cc))
        (λ j t ne h e.
          free-kept s u t e (λ q. ne (inv.apart j i t h (ap token_of at ∙ ap some (sym q)))))
        tt

  pub Reach-Inv : {s : System R} → Reach lane s → Inv lane entry s
  Reach-Inv (begin r now) = record {
    guarded = λ i. tt;
    fresh = λ i t h. absurd (cc);
    apart = λ i j t h. absurd (cc);
  }
  Reach-Inv (later r st) = Step-Inv (Reach-Inv r) st
