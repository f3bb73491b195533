-- ===== src/Submit/Sent.antt =====
-- submitter.service.ts: what a submit has sent, and what its failure says.
use agentfi.Base.{
  ℕ, ◌≡◌, refl, Bool, true, false, Option, none, some, List, ◌∷◌, Text, All, any, arith, inl, inr,
  Bool-cases,
}
use agentfi.Lane.Nonces.{NonceStore}
use agentfi.Submit.{
  SubmitParams, SubmitterDeps, UnsignedTx, Submitted, Act, announced, sent_primary, sent_secondary,
  is_known, after_sends, broadcast, conclude, send_signed, sign_and_send, submit_in_lane,
}

abbrev pub is_sent : Act → Bool
is_sent (announced hash) = false
is_sent (sent_primary signed) = true
is_sent (sent_secondary signed) = true

-- The act sends this transaction.
abbrev pub Sends : Text → Act → Type 0
Sends signed (announced hash) = ⊥
Sends signed (sent_primary tx) = tx ≡ signed
Sends signed (sent_secondary tx) = tx ≡ signed

after-Sends :
    (deps : SubmitterDeps) (signed : Text) (o p : Option Text)
    → All (Sends signed) (after_sends deps signed o p).1
unfolding after_sends
after-Sends deps signed (some hash) p = (refl, tt)
after-Sends deps signed none (some hash) = (refl, (refl, tt))
after-Sends deps signed none none = (refl, (refl, tt))

broadcast-Refused :
    (deps : SubmitterDeps) (signed : Text) (o p : Option Text)
    → (after_sends deps signed o p).0 ≡ none
    → (o ≡ none) × (p ≡ none) × (is_known deps (deps.keccak signed) ≡ false)
unfolding after_sends
broadcast-Refused deps signed (some hash) p h = absurd (cc)
broadcast-Refused deps signed none (some hash) h = absurd (cc)
broadcast-Refused deps signed none none h = (refl, refl, ground arith)

-- The hook accepted the hash of a transaction, and after that this transaction alone was sent.
pub record Announced (deps : SubmitterDeps) {S : Type 0} (out : Submitted S) (signed : Text)
    : Type 0 where
  pub accepted : deps.on_before_broadcast (deps.keccak signed) ≡ true
  pub rest : List Act
  pub acts : out.acts ≡ announced (deps.keccak signed) ∷ rest
  pub only : All (Sends signed) rest

-- No node took the transaction, and none that answers knows it.
pub record Refused (deps : SubmitterDeps) (signed : Text) : Type 0 where
  pub primary : deps.primary.send_raw_transaction signed ≡ none
  pub secondary : deps.secondary.send_raw_transaction signed ≡ none
  pub unknown : is_known deps (deps.keccak signed) ≡ false

record Sending (deps : SubmitterDeps) {S : Type 0} (out : Submitted S) : Type 0 where
  pub signed : Text
  pub hooked : Announced deps out signed
  pub failing : out.outcome ≡ none → Refused deps signed

module _ {S : Type 0} (store : NonceStore S) where
  conclude-acts :
      (records : Bool) (done_at : ℕ) (key : Text) (nonce : ℕ) (s : S) (o : Option Text)
      (acts : List Act)
      → (conclude store records done_at key nonce s (o, acts)).acts ≡ acts
  unfolding conclude
  conclude-acts records done_at key nonce s none acts = refl
  conclude-acts records done_at key nonce s (some hash) acts = refl

  conclude-none :
      (records : Bool) (done_at : ℕ) (key : Text) (nonce : ℕ) (s : S) (o : Option Text)
      (acts : List Act)
      → (conclude store records done_at key nonce s (o, acts)).outcome ≡ none
      → o ≡ none
  unfolding conclude
  conclude-none records done_at key nonce s none acts h = refl
  conclude-none records done_at key nonce s (some hash) acts h = cc

  send-Sending :
      (deps : SubmitterDeps) (done_at : ℕ) (key : Text) (nonce : ℕ) (s : S) (o : Option Text)
      → any is_sent (send_signed store deps done_at key nonce s o).acts ≡ true
      → Sending deps (send_signed store deps done_at key nonce s o)
  unfolding send_signed broadcast
  send-Sending deps done_at key nonce s none = λ h. absurd (cc)
  send-Sending deps done_at key nonce s (some signed) =
      elim (Bool-cases (deps.on_before_broadcast (deps.keccak signed))) [
        | inl ok ↦
            rw (ok, send_signed)
              (λ h. record {
                signed = signed;
                hooked = record {
                  accepted = ok;
                  rest = (broadcast deps signed).1;
                  acts = conclude-acts deps.records_nonce done_at key nonce s _ _;
                  only = after-Sends deps signed _ _;
                };
                failing = λ e.
                    let (p, q, u) =
                      broadcast-Refused deps signed _ _
                        (conclude-none deps.records_nonce done_at key nonce s _ _ e) in
                    record { primary = p; secondary = q; unknown = u };
              })
        | inr ko ↦ rw (ko, send_signed) (λ h. absurd (cc))
      ]

  sign-Sending :
      (params : SubmitParams) (deps : SubmitterDeps) (done_at : ℕ) (key : Text) (s : S)
      (o : Option UnsignedTx)
      → any is_sent (sign_and_send store params deps done_at key s o).acts ≡ true
      → Sending deps (sign_and_send store params deps done_at key s o)
  unfolding sign_and_send
  sign-Sending params deps done_at key s none h = cc
  sign-Sending params deps done_at key s (some tx) h = send-Sending deps done_at key tx.nonce s _ h

  submit-Sending :
      (params : SubmitParams) (deps : SubmitterDeps) (read_at done_at : ℕ) (s : S)
      → any is_sent (submit_in_lane store params deps read_at done_at s).acts ≡ true
      → Sending deps (submit_in_lane store params deps read_at done_at s)
  unfolding submit_in_lane
  submit-Sending params deps read_at done_at s h = sign-Sending params deps done_at _ s _ h

  pub submit-Announced :
      (params : SubmitParams) (deps : SubmitterDeps) (read_at done_at : ℕ) (s : S)
      → any is_sent (submit_in_lane store params deps read_at done_at s).acts ≡ true
      → (signed : Text) × Announced deps (submit_in_lane store params deps read_at done_at s) signed
  submit-Announced params deps read_at done_at s h =
      let w = submit-Sending params deps read_at done_at s h in (w.signed, w.hooked)

  -- A submit that sent something and fails had its hash accepted by the hook before, has sent the
  -- one signed transaction alone, and found that both nodes refused it and none that answers knows
  -- it.
  pub submit-failed :
      (params : SubmitParams) (deps : SubmitterDeps) (read_at done_at : ℕ) (s : S)
      → any is_sent (submit_in_lane store params deps read_at done_at s).acts ≡ true
      → (submit_in_lane store params deps read_at done_at s).outcome ≡ none
      → (signed : Text) × Announced deps (submit_in_lane store params deps read_at done_at s) signed
        × Refused deps signed
  submit-failed params deps read_at done_at s h e =
      let w = submit-Sending params deps read_at done_at s h in (w.signed, w.hooked, w.failing e)
