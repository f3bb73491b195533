-- ===== src/Submit/Noted.antt =====
-- submitter.service.ts with a nonce store: the submits of one lane, and what each notes.
use agentfi.Base.{
  ℕ, ◌≡◌, refl, ◌∙◌, ap, Bool, true, Option, none, some, List, [], ◌∷◌, Text, arith, inl, inr,
  Bool-cases, Option-cases,
}
use agentfi.Lane.Nonces.{NonceStore}
use agentfi.Submit.{
  SubmitParams, SubmitterDeps, SubmitterClient, UnsignedTx, SubmissionResult, Submitted, Act,
  next_nonce, or_null, prepare, conclude, send_signed, sign_and_send, submit_in_lane,
  wallet_lane_key,
}

-- One submit of a lane: what it is given, and the times of its read and of its record.
pub record Job : Type 0 where
  pub params : SubmitParams
  pub deps : SubmitterDeps
  pub read_at : ℕ
  pub done_at : ℕ

abbrev pub key_of : Job → Text
key_of j = wallet_lane_key j.params.chain_id j.params.from

abbrev pub with_outcome : Option SubmissionResult → List SubmissionResult → List SubmissionResult
with_outcome none rs = rs
with_outcome (some r) rs = r ∷ rs

module _ {S : Type 0} (store : NonceStore S) where
  abbrev pub submit_job : Job → S → Submitted S
  submit_job j s = submit_in_lane store j.params j.deps j.read_at j.done_at s

  -- The results of the submits of one lane, in their order.
  unfoldable pub submit_all : List Job → S → List SubmissionResult
  submit_all [] s = []
  submit_all (j ∷ js) s =
      with_outcome (submit_job j s).outcome (submit_all js (submit_job j s).nonces)

  -- What a submit did to the nonces: nothing, or it recorded its nonce.
  pub data Noted (key : Text) (read_at done_at : ℕ) (s : S) (o : Option SubmissionResult) (s' : S)
      : Type 0 where
    silent : o ≡ none → s' ≡ s → Noted key read_at done_at s o s'
    noted :
        (r : SubmissionResult) (pending : ℕ)
        → o ≡ some r
        → r.nonce ≡ next_nonce pending (store.last_used s read_at key)
        → s' ≡ store.record_used s done_at key r.nonce
        → Noted key read_at done_at s o s'

  abbrev pub Notes : Text → ℕ → ℕ → S → Submitted S → Type 0
  Notes key read_at done_at s out = Noted key read_at done_at s out.outcome out.nonces

  prepare-nonce :
      (params : SubmitParams) (node : SubmitterClient) (last : Option ℕ) (tx : UnsignedTx)
      → prepare params node last ≡ some tx
      → (pending : ℕ) × (tx.nonce ≡ next_nonce pending last)
  unfolding prepare
  prepare-nonce params node last tx h = elim (Option-cases (node.transaction_count params.from)) [
    | inl e ↦ absurd (ground arith)
    | inr (pending, e) ↦ (pending, ground arith)
  ]

  conclude-Noted :
      (records : Bool) (key : Text) (read_at done_at pending : ℕ) (s : S) (o : Option Text)
      (acts : List Act)
      → records ≡ true
      → Notes key read_at done_at s (
          conclude store records done_at key
            (next_nonce pending (store.last_used s read_at key))
            s
            (o, acts))
  unfolding conclude
  conclude-Noted records key read_at done_at pending s none acts e = silent refl refl
  conclude-Noted records key read_at done_at pending s (some hash) acts e =
      noted _ pending refl refl (rw e refl)

  send-Noted :
      (deps : SubmitterDeps) (key : Text) (read_at done_at pending : ℕ) (s : S)
      (signed : Option Text)
      → deps.records_nonce ≡ true
      → Notes key read_at done_at s (
          send_signed store deps done_at key
            (next_nonce pending (store.last_used s read_at key))
            s
            signed)
  unfolding send_signed
  send-Noted deps key read_at done_at pending s none e = silent refl refl
  send-Noted deps key read_at done_at pending s (some signed) e =
      elim (Bool-cases (deps.on_before_broadcast (deps.keccak signed))) [
        | inl ok ↦
            rw (ok, send_signed)
              (conclude-Noted deps.records_nonce key read_at done_at pending s _ _ e)
        | inr ko ↦ rw (ko, send_signed) (silent refl refl)
      ]

  sign-Noted :
      (params : SubmitParams) (deps : SubmitterDeps) (key : Text) (read_at done_at : ℕ) (s : S)
      (o : Option UnsignedTx)
      → deps.records_nonce ≡ true
      → ((tx : UnsignedTx)
          → o ≡ some tx
          → (pending : ℕ) × (tx.nonce ≡ next_nonce pending (store.last_used s read_at key)))
      → Notes key read_at done_at s (sign_and_send store params deps done_at key s o)
  unfolding sign_and_send
  sign-Noted params deps key read_at done_at s none e numbered = silent refl refl
  sign-Noted params deps key read_at done_at s (some tx) e numbered =
      let (pending, same) = numbered tx refl in
      rw same (send-Noted deps key read_at done_at pending s _ e)

  -- Where the store answers, a submit notes the nonce that it used.
  pub submit-Noted :
      (j : Job) (s : S)
      → j.deps.reads_nonce ≡ true
      → j.deps.records_nonce ≡ true
      → Notes (key_of j) j.read_at j.done_at s (submit_job j s)
  unfolding submit_in_lane
  submit-Noted j s reads records =
      let last = store.last_used s j.read_at (key_of j) in
      sign-Noted j.params j.deps (key_of j) j.read_at j.done_at s _ records (λ tx h.
        let (pending, same) =
          prepare-nonce j.params j.deps.primary (or_null j.deps.reads_nonce last) tx h in
        (pending, same ∙ ap (λ b. next_nonce pending (or_null b last)) reads))
