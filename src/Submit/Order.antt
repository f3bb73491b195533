-- ===== src/Submit/Order.antt =====
-- submitter.service.ts with a nonce store: the nonces that one lane uses.
use agentfi.Base.{
  ℕ, ◌+◌, ◌<◌, ◌≤◌, ◌≡◌, refl, true, Option, none, some, List, [], ◌∷◌, Text, All, arith, inl, inr,
}
use agentfi.Lane.Nonces.{NonceStore, NonceLaws, max_safe, is_above}
use agentfi.Submit.{SubmissionResult, next_nonce}
use agentfi.Submit.Noted.{
  Job, key_of, with_outcome, submit_job, submit_all, Noted, silent, noted, submit-Noted,
}

next_nonce-above : (pending : ℕ) (last : Option ℕ) → is_above (next_nonce pending last) last ≡ true
unfolding next_nonce
next_nonce-above pending none = refl
next_nonce-above pending (some m) = ground arith

abbrev pub Above : ℕ → List SubmissionResult → Type 0
Above n = All (λ r. n < r.nonce)

abbrev pub IsIncreasing : List SubmissionResult → Type 0
IsIncreasing [] = Unit
IsIncreasing (r ∷ rs) = Above r.nonce rs × IsIncreasing rs

Above-weaken : (m n : ℕ) (rs : List SubmissionResult) → m < n → Above n rs → Above m rs
Above-weaken m n [] lt a = tt
Above-weaken m n (r ∷ rs) lt a = (omega arith, Above-weaken m n rs lt a.1)

module _ {S : Type 0} (store : NonceStore S) where
  -- At a time from `now` to `until` the lane remembers a nonce from `n` on.
  abbrev Remembers : Text → ℕ → ℕ → ℕ → S → Type 0
  Remembers key n now until s =
      (t : ℕ) → now ≤ t → t < until → (m : ℕ) × (n ≤ m) × (store.last_used s t key ≡ some m)

  -- Submits of one lane, one after the other, which begin before `until`, each with a nonce store
  -- that answers it.
  abbrev pub InTurn : Text → ℕ → ℕ → List Job → Type 0
  InTurn key now until [] = Unit
  InTurn key now until (j ∷ js) =
      (key_of j ≡ key)
      × (j.deps.reads_nonce ≡ true)
      × (j.deps.records_nonce ≡ true)
      × (now ≤ j.read_at)
      × (j.read_at ≤ j.done_at)
      × (j.read_at < until)
      × InTurn key j.done_at until js

  module _ (ttl : ℕ) (laws : NonceLaws store ttl) (key : Text) (until : ℕ) where
    record-above :
        (s : S) (read_at done_at pending : ℕ)
        → read_at ≤ done_at
        → is_above
            (next_nonce pending (store.last_used s read_at key))
            (store.last_used s done_at key)
          ≡ true
    record-above s read_at done_at pending le = elim (laws.forgotten s read_at done_at key le) [
      | inl gone ↦ rw gone refl
      | inr same ↦ rw same (next_nonce-above pending (store.last_used s read_at key))
    ]

    record-Remembers :
        (s : S) (read_at done_at pending n : ℕ)
        → n ≡ next_nonce pending (store.last_used s read_at key)
        → n ≤ max_safe
        → read_at ≤ done_at
        → until ≤ done_at + ttl
        → Remembers key n done_at until (store.record_used s done_at key n)
    record-Remembers s read_at done_at pending n same safe le short t after lt = (
      n,
      omega arith,
      laws.recorded s done_at t key n safe (rw same (record-above s read_at done_at pending le))
          after (omega arith),
    )

    next_nonce-lt :
        (pending n m : ℕ) (last : Option ℕ) → n ≤ m → last ≡ some m → n < next_nonce pending last
    unfolding next_nonce
    next_nonce-lt pending n m last le e = rw e (ground arith)

    module _ (s : S) (read_at done_at : ℕ) (le : read_at ≤ done_at) (lt : read_at < until)
        (js : List Job) (o : Option SubmissionResult) (s' : S) where
      abbrev Safe : List SubmissionResult → Type 0
      Safe = All (λ r. r.nonce ≤ max_safe)

      rest-Above :
          (n now : ℕ)
          → now ≤ read_at
          → until ≤ now + ttl
          → ((m : ℕ) (t : S)
              → Remembers key m done_at until t
              → Safe (submit_all store js t)
              → Above m (submit_all store js t))
          → Remembers key n now until s
          → Noted store key read_at done_at s o s'
          → Safe (with_outcome o (submit_all store js s'))
          → Above n (with_outcome o (submit_all store js s'))
      rest-Above n now before short ih mem (silent e same) =
          rw (e, same) (λ safe. ih n s (λ t after early. mem t (omega arith) early) safe)
      rest-Above n now before short ih mem (noted r pending e fresh same) =
          let (m, more, last) = mem read_at before lt in
          let bigger : n < r.nonce =
            rw fresh (next_nonce-lt pending n m (store.last_used s read_at key) more last) in
          rw (e, same)
            (λ safe. (
              bigger,
              Above-weaken n r.nonce _ bigger (
                  ih r.nonce _
                    (record-Remembers s read_at done_at pending r.nonce fresh safe.0 le
                      (omega arith))
                    safe.1),
            ))

      rest-IsIncreasing :
          (now : ℕ)
          → now ≤ read_at
          → until ≤ now + ttl
          → ((m : ℕ) (t : S)
              → Remembers key m done_at until t
              → Safe (submit_all store js t)
              → Above m (submit_all store js t))
          → ((t : S) → Safe (submit_all store js t) → IsIncreasing (submit_all store js t))
          → Noted store key read_at done_at s o s'
          → Safe (with_outcome o (submit_all store js s'))
          → IsIncreasing (with_outcome o (submit_all store js s'))
      rest-IsIncreasing now before short above ih (silent e same) = rw (e, same) (ih s)
      rest-IsIncreasing now before short above ih (noted r pending e fresh same) =
          rw (e, same)
            (λ safe. (
              above r.nonce _
                  (record-Remembers s read_at done_at pending r.nonce fresh safe.0 le (omega arith))
                  safe.1,
              ih _ safe.1,
            ))

    submit_all-Above :
        (n now : ℕ) (js : List Job) (s : S)
        → until ≤ now + ttl
        → InTurn key now until js
        → Remembers key n now until s
        → All (λ r. r.nonce ≤ max_safe) (submit_all store js s)
        → Above n (submit_all store js s)
    unfolding submit_all
    submit_all-Above n now [] s short turn mem safe = tt
    submit_all-Above n now (j ∷ js) s short (same, reads, records, before, le, lt, turn) mem safe =
        rest-Above s j.read_at j.done_at le lt js (submit_job store j s).outcome
          (submit_job store j s).nonces n now before short
          (λ m t. submit_all-Above m j.done_at js t (omega arith) turn) mem
          (rw same at (submit-Noted store j s reads records)) safe

    -- The successful submits of one lane, one after the other within the time that its nonces are
    -- remembered, use increasing nonces, whatever the nodes answer, with a nonce store that answers and
    -- keeps its laws and nonces that are safe integers.
    pub submit_all-IsIncreasing :
        (now : ℕ) (js : List Job) (s : S)
        → until ≤ now + ttl
        → InTurn key now until js
        → All (λ r. r.nonce ≤ max_safe) (submit_all store js s)
        → IsIncreasing (submit_all store js s)
    unfolding submit_all
    submit_all-IsIncreasing now [] s short turn safe = tt
    submit_all-IsIncreasing now (j ∷ js) s short (same, reads, records, before, le, lt, turn) safe =
        rest-IsIncreasing s j.read_at j.done_at le lt js (submit_job store j s).outcome
          (submit_job store j s).nonces now before short
          (λ m t. submit_all-Above m j.done_at js t (omega arith) turn)
          (λ t. submit_all-IsIncreasing j.done_at js t (omega arith) turn)
          (rw same at (submit-Noted store j s reads records)) safe
