-- ===== src/Lane/Recovery/Held.antt =====
-- wallet-lane.ts: a recovery lock while others ask for it and release their own handles.
use agentfi.Base.{
  ℕ, ◌+◌, ◌<◌, ◌≡◌, refl, sym, ap, ◌∙◌, inl, inr, Bool, true, false, Option, none, some, Text, List,
  [], ◌∷◌, trim, is_empty, text_eq, text_eq_refl, arith, Bool-cases, Option-cases,
}
use agentfi.Redis.{LaneRedis, RedisLaws, Entry, live, value_of, expiring}
use agentfi.Lane.{release_script}
use agentfi.Lane.Recovery.{
  recovery_lock_key, RecoveryLockHolder, HolderJson, as_parsed, holder_of, holder_with,
  parse_holder, RecoveryLockHandle, RecoveryAcquired, recovery_lock_busy, acquired,
  read_recovery_lock, after_set, acquire_recovery_lock, release_recovery_lock,
}

-- What others do with the lock of a chain.
pub data LockStep : Type 0 where
  ask_lock : (now read_at attempt_at : ℕ) (holder : RecoveryLockHolder) (ttl : ℕ) → LockStep
  free_lock : (sent : Bool) (now : ℕ) (handle : RecoveryLockHandle) → LockStep

-- Steps before `until`, on handles of a chain's lock with another text than `v`.
abbrev pub OfOthers : ℕ → ℕ → Text → List LockStep → Type 0
OfOthers chain_id until v [] = Unit
OfOthers chain_id until v (ask_lock now read_at attempt_at holder ttl ∷ steps) =
    (now < until) × OfOthers chain_id until v steps
OfOthers chain_id until v (free_lock sent now handle ∷ steps) =
    (now < until)
    × (handle.key ≡ recovery_lock_key chain_id)
    × (text_eq v handle.value ≡ false)
    × OfOthers chain_id until v steps

module _ {R : Type 0} (redis : LaneRedis R) (json : HolderJson) (chain_id : ℕ) where
  unfoldable pub lock_step : LockStep → R → R
  unfolding acquire_recovery_lock release_recovery_lock
  lock_step (ask_lock now read_at attempt_at holder ttl) r =
      (acquire_recovery_lock redis json now read_at attempt_at chain_id holder ttl r).0
  lock_step (free_lock sent now handle) r = (release_recovery_lock redis json sent now handle r).0

  unfoldable pub lock_steps : List LockStep → R → R
  unfolding lock_step
  lock_steps [] r = r
  lock_steps (step ∷ steps) r = lock_steps steps (lock_step step r)

  module _ (entry : R → Text → Option Entry) (laws : RedisLaws redis entry) where
    abbrev HeldBy : Text → ℕ → R → Type 0
    HeldBy v until r = entry r (recovery_lock_key chain_id) ≡ expiring v until

    live-HeldBy :
        (v : Text) (until now : ℕ) (r : R)
        → now < until
        → HeldBy v until r
        → live now (entry r (recovery_lock_key chain_id))
          ≡ some (record { value = v; expires_at = some until })
    live-HeldBy v until now r before h = rw h (ground arith)

    get-HeldBy :
        (v : Text) (until now : ℕ) (r : R)
        → now < until
        → HeldBy v until r
        → redis.get r now (recovery_lock_key chain_id) ≡ some v
    get-HeldBy v until now r before h =
        laws.get_lem r now (recovery_lock_key chain_id)
        ∙ ap value_of (live-HeldBy v until now r before h)

    acquire-busy :
        (v : Text) (until now read_at attempt_at : ℕ) (holder : RecoveryLockHolder) (ttl : ℕ)
        (r : R)
        → now < until
        → HeldBy v until r
        → is_empty (trim holder.owner) ≡ false
        → acquire_recovery_lock redis json now read_at attempt_at chain_id holder ttl r
          ≡ (r, recovery_lock_busy (read_recovery_lock redis json r read_at chain_id))
    unfolding acquire_recovery_lock after_set
    acquire-busy v until now read_at attempt_at holder ttl r before h named =
        rw (named, acquire_recovery_lock)
          (ap (after_set redis json chain_id ttl holder read_at (attempt_at + ttl)) (
            laws.set_busy r now (recovery_lock_key chain_id) (json.stringify holder) ttl _
              (live-HeldBy v until now r before h)))

    acquire-HeldBy :
        (v : Text) (until now read_at attempt_at : ℕ) (holder : RecoveryLockHolder) (ttl : ℕ)
        (r : R)
        → now < until
        → HeldBy v until r
        → (acquire_recovery_lock redis json now read_at attempt_at chain_id holder ttl r).0 ≡ r
    unfolding acquire_recovery_lock
    acquire-HeldBy v until now read_at attempt_at holder ttl r before h =
        elim (Bool-cases (is_empty (trim holder.owner))) [
          | inl e ↦ rw (e, acquire_recovery_lock) refl
          | inr e ↦
              ap (λ (q : R × RecoveryAcquired). q.0)
                (acquire-busy v until now read_at attempt_at holder ttl r before h e)
        ]

    release-HeldBy :
        (v : Text) (until : ℕ) (sent : Bool) (now : ℕ) (handle : RecoveryLockHandle) (r : R)
        → now < until
        → handle.key ≡ recovery_lock_key chain_id
        → text_eq v handle.value ≡ false
        → HeldBy v until r
        → (release_recovery_lock redis json sent now handle r).0 ≡ r
    unfolding release_recovery_lock release_script
    release-HeldBy v until sent now handle r before same other h =
        let read : redis.get r now handle.key ≡ some v =
          ap (redis.get r now) same ∙ get-HeldBy v until now r before h in
        rw (read, other) (ground arith)

    steps-HeldBy :
        (v : Text) (until : ℕ) (steps : List LockStep) (r : R)
        → OfOthers chain_id until v steps
        → HeldBy v until r
        → HeldBy v until (lock_steps steps r)
    unfolding lock_steps
    steps-HeldBy v until [] r others h = h
    steps-HeldBy v until (ask_lock now read_at attempt_at holder ttl ∷ steps) r (before, others) h =
        rw (acquire-HeldBy v until now read_at attempt_at holder ttl r before h)
          (steps-HeldBy v until steps r others h)
    steps-HeldBy v until (free_lock sent now handle ∷ steps) r (before, same, other, others) h =
        rw (release-HeldBy v until sent now handle r before same other h)
          (steps-HeldBy v until steps r others h)

    handle-made :
        (holder : RecoveryLockHolder) (read_at deadline ttl : ℕ) (q : R × Bool)
        (handle : RecoveryLockHandle)
        → (after_set redis json chain_id ttl holder read_at deadline q).1 ≡ acquired handle
        → (q.1 ≡ true)
          × (handle.key ≡ recovery_lock_key chain_id)
          × (handle.value ≡ json.stringify holder)
          × (handle.is_released ≡ false)
    unfolding after_set
    handle-made holder read_at deadline ttl (r, true) handle h = (refl, cc, cc, cc)
    handle-made holder read_at deadline ttl (r, false) handle h = absurd (cc)

    after_set-store :
        (holder : RecoveryLockHolder) (read_at deadline ttl : ℕ) (q : R × Bool)
        → (after_set redis json chain_id ttl holder read_at deadline q).0 ≡ q.0
    unfolding after_set
    after_set-store holder read_at deadline ttl (r, true) = refl
    after_set-store holder read_at deadline ttl (r, false) = refl

    set-HeldBy :
        (now : ℕ) (v : Text) (ttl : ℕ) (r : R)
        → (redis.set_nx r now (recovery_lock_key chain_id) v ttl).1 ≡ true
        → HeldBy v (now + ttl) (redis.set_nx r now (recovery_lock_key chain_id) v ttl).0
    set-HeldBy now v ttl r h =
        elim (Option-cases (live now (entry r (recovery_lock_key chain_id)))) [
          | inl e ↦ (laws.set_free r now (recovery_lock_key chain_id) v ttl e).1
          | inr (x, e) ↦ cc (laws.set_busy r now (recovery_lock_key chain_id) v ttl x e)
        ]

    made-HeldBy :
        (now read_at attempt_at ttl : ℕ) (holder : RecoveryLockHolder) (r : R)
        (handle : RecoveryLockHandle)
        → (acquire_recovery_lock redis json now read_at attempt_at chain_id holder ttl r).1
          ≡ acquired handle
        → HeldBy
            (json.stringify holder)
            (now + ttl)
            (acquire_recovery_lock redis json now read_at attempt_at chain_id holder ttl r).0
          × (handle.key ≡ recovery_lock_key chain_id)
          × (handle.value ≡ json.stringify holder)
          × (handle.is_released ≡ false)
    unfolding acquire_recovery_lock
    made-HeldBy now read_at attempt_at ttl holder r handle =
        elim (Bool-cases (is_empty (trim holder.owner))) [
          | inl e ↦ rw (e, acquire_recovery_lock) (λ h. absurd (cc))
          | inr e ↦
              rw (e, acquire_recovery_lock)
                (λ h.
                  let (set, key, value, fresh) =
                    handle-made holder read_at (attempt_at + ttl) ttl _ handle h in
                  (
                    ap (λ s. entry s (recovery_lock_key chain_id))
                          (after_set-store holder read_at (attempt_at + ttl) ttl _)
                        ∙ set-HeldBy now (json.stringify holder) ttl r set,
                    key,
                    value,
                    fresh,
                  ))
        ]

    parse-stringify :
        (holder : RecoveryLockHolder)
        → json.parse (json.stringify holder) ≡ some (as_parsed holder)
        → parse_holder json (some (json.stringify holder)) ≡ some holder
    unfolding parse_holder holder_with
    parse-stringify holder h = ap holder_of h

    own_release :
        (v : Text) (until now : ℕ) (handle : RecoveryLockHandle) (r : R)
        → now < until
        → handle.key ≡ recovery_lock_key chain_id
        → handle.value ≡ v
        → handle.is_released ≡ false
        → HeldBy v until r
        → ((release_recovery_lock redis json true now handle r).2 ≡ true)
          × (entry
                (release_recovery_lock redis json true now handle r).0
                (recovery_lock_key chain_id)
              ≡ none)
    unfolding release_recovery_lock release_script
    own_release v until now handle r before same own fresh h =
        let read : redis.get r now handle.key ≡ some v =
          ap (redis.get r now) same ∙ get-HeldBy v until now r before h in
        rw (read, own, text_eq_refl v, fresh)
          (refl, ap (λ k. entry (redis.del r handle.key) k) (sym same) ∙ laws.del_lem r handle.key)

    -- A recovery lock that was acquired is never stolen while it lasts: whatever others did with it
    -- before it expires, each further one who asks before that is refused and told its holder, and
    -- its own release frees it. Redis does as documented, JSON reads back the holder that it wrote,
    -- and the others' handles are on the same lock with other texts.
    pub acquire_recovery_lock-refuses :
        (now read_at attempt_at ttl : ℕ) (holder : RecoveryLockHolder) (r : R)
        (handle : RecoveryLockHandle)
        → json.parse (json.stringify holder) ≡ some (as_parsed holder)
        → (acquire_recovery_lock redis json now read_at attempt_at chain_id holder ttl r).1
          ≡ acquired handle
        → (steps : List LockStep) → OfOthers chain_id (now + ttl) (json.stringify holder) steps
        → (other : RecoveryLockHolder) (later later_read later_attempt later_ttl : ℕ)
        → later < now + ttl
        → later_read < now + ttl
        → is_empty (trim other.owner) ≡ false
        → let s =
            lock_steps steps
              (acquire_recovery_lock redis json now read_at attempt_at chain_id holder ttl r).0 in
          (acquire_recovery_lock redis json later later_read later_attempt chain_id other later_ttl
              s
            ≡ (s, recovery_lock_busy (some holder)))
          × ((release_recovery_lock redis json true later handle s).2 ≡ true)
          × (entry
                (release_recovery_lock redis json true later handle s).0
                (recovery_lock_key chain_id)
              ≡ none)
    unfolding read_recovery_lock
    acquire_recovery_lock-refuses now read_at attempt_at ttl holder r handle reads made steps others
          other later later_read later_attempt later_ttl before read_before named =
        let v = json.stringify holder in
        let (start, same, own, fresh) =
          made-HeldBy now read_at attempt_at ttl holder r handle made in
        let s : R =
          lock_steps steps
            (acquire_recovery_lock redis json now read_at attempt_at chain_id holder ttl r).0 in
        let h = steps-HeldBy v (now + ttl) steps _ others start in
        let (freed, gone) = own_release v (now + ttl) later handle s before same own fresh h in
        let told =
          ap (parse_holder json) (get-HeldBy v (now + ttl) later_read s read_before h)
          ∙ parse-stringify holder reads in
        (
          acquire-busy v (now + ttl) later later_read later_attempt other later_ttl s before h named
              ∙ ap (λ (o : Option RecoveryLockHolder). (s, recovery_lock_busy o)) told,
          freed,
          gone,
        )
