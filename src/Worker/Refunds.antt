-- ===== src/Worker/Refunds.antt =====
-- pre-submit-guard.ts and transaction.processor.ts: no payment is refunded before its outcome on the
-- chain once a transaction of it was sent.
use agentfi.Base.{
  ℕ, ◌+◌, ◌<◌, ◌≡◌, refl, ◌∙◌, inl, inr, Bool, true, false, Option, none, some, List, [], ◌∷◌, ◌==◌,
  if◌then◌else◌, arith, Bool-cases, Option-cases, is_some,
}
use agentfi.Volume.{Tx, Db, find_tx}
use agentfi.Volume.Settle.{is_unsent, StampedStop, handed_to_chain, stopped_failed, not_queued}
use agentfi.Worker.{
  Metadata, Env, BlockReason, bind_skipped, Call, finalize_a2a, World, never_stamped,
  never_stamped_unsent, settle_failed, finish_failed,
}
use agentfi.Worker.Open.{stamp_row}
use agentfi.Worker.Stops.{
  Stops, stop_or_hand-Stops, never_stamped-Stoppable, never_stamped_unsent-Stoppable,
}
use agentfi.Worker.Calm.{last_sent, Sound}
use agentfi.Worker.Guard.{
  after_block, block_row, after_skipped_bind, skip_bind, bind_reason, last_vet, vet_row, guard_row,
  pre_submit_guard, block_reason, deferral,
}
use agentfi.Worker.Process.{after_stop, settle_permanent_failure}
use agentfi.Worker.Runs.{WorkerStep}
use agentfi.Worker.Sends.{after_steps, steps-Sound}

-- The call refunds the payment of this transaction.
abbrev pub refunds_of : ℕ → Call → ℕ
refunds_of id (finalize_a2a i job false) = if i == id then 1 else 0
refunds_of id (finalize_a2a i job true) = 0
refunds_of id _ = 0

abbrev pub refunds : ℕ → List Call → ℕ
refunds id [] = 0
refunds id (c ∷ cs) = refunds_of id c + refunds id cs

finish-refunds :
    (id : ℕ) (job : Option ℕ) (a2a attempted erc8183 : Bool) (w : World)
    → refunds id w.calls < refunds id (finish_failed id job a2a attempted erc8183 w).calls
    → attempted ≡ false
unfolding finish_failed
finish-refunds id (some job) true true erc8183 w h = absurd (omega arith)
finish-refunds id (some job) true false erc8183 w h = refl
finish-refunds id (some job) false attempted true w h = absurd (omega arith)
finish-refunds id (some job) false attempted false w h = absurd (omega arith)
finish-refunds id none a2a attempted true w h = absurd (omega arith)
finish-refunds id none a2a attempted false w h = absurd (omega arith)

-- A row that no attempt is recorded for was not sent.
unsent-none :
    (id : ℕ) (w : World)
    → Sound id w
    → is_some (stamp_row id w.db).attempted_at ≡ false
    → last_sent id w.calls ≡ none
unsent-none id w sound h = elim (Option-cases (last_sent id w.calls)) [
  | inl e ↦ e
  | inr (hash, e) ↦ absurd (let (p, q) = sound hash e in cc)
]

module _ (id : ℕ) (w : World) (sound : Sound id w) where
  stop-refunds :
      (env : Env) (a2a : Bool) (r : Db × StampedStop)
      → Stops id w.db r
      → refunds id w.calls < refunds id (after_stop env id a2a w r).calls
      → last_sent id w.calls ≡ none
  unfolding after_stop settle_failed
  stop-refunds env a2a (db, not_queued) k h = absurd (omega arith)
  stop-refunds env a2a (db, handed_to_chain hash) k h = absurd (omega arith)
  stop-refunds env a2a (db, stopped_failed attempted) k h =
      unsent-none id w sound (k.1 ∙ finish-refunds id _ a2a attempted _ _ h)

  block-refunds :
      (env : Env) (reason : BlockReason) (a2a : Bool) (r : Db × StampedStop)
      → Stops id w.db r
      → refunds id w.calls < refunds id (after_block env id reason a2a w r).0.calls
      → last_sent id w.calls ≡ none
  unfolding after_block settle_failed
  block-refunds env reason a2a (db, not_queued) k h = absurd (omega arith)
  block-refunds env reason a2a (db, handed_to_chain hash) k h = absurd (omega arith)
  block-refunds env reason a2a (db, stopped_failed attempted) k h =
      unsent-none id w sound (k.1 ∙ finish-refunds id _ a2a attempted _ _ h)

bind-refunds :
    (env : Env) (id : ℕ) (reason : BlockReason) (w : World) (r : Db × StampedStop)
    → refunds id (after_skipped_bind env id reason w r).0.calls ≡ refunds id w.calls
unfolding after_skipped_bind
bind-refunds env id reason w (db, not_queued) = refl
bind-refunds env id reason w (db, handed_to_chain hash) = refl
bind-refunds env id reason w (db, stopped_failed attempted) = omega arith

last_vet-refunds :
    (env : Env) (id : ℕ) (m : Metadata) (w : World)
    → refunds id (last_vet env id m w).0.calls ≡ refunds id w.calls
unfolding last_vet skip_bind
last_vet-refunds env id m w = elim (Bool-cases (is_some m.policy_sync)) [
  | inl e ↦ rw (e, last_vet) refl
  | inr e ↦ elim (Option-cases (bind_reason env m)) [
    | inl f ↦ rw (e, f, last_vet) refl
    | inr (why, f) ↦ rw (e, f, last_vet) (bind-refunds env id (bind_skipped why) w _)
  ]
]

vet-refunds :
    (env : Env) (id : ℕ) (w : World) (sound : Sound id w) (m : Metadata)
    (reason : Option BlockReason) (delay : Option ℕ) (a2a : Bool)
    → refunds id w.calls < refunds id (vet_row env id m reason delay a2a w).0.calls
    → last_sent id w.calls ≡ none
unfolding vet_row block_row
vet-refunds env id w sound m (some reason) delay a2a h =
    block-refunds id w sound env reason a2a _
      (stop_or_hand-Stops never_stamped_unsent env.now id _ w.db never_stamped_unsent-Stoppable) h
vet-refunds env id w sound m none (some delay) a2a h = absurd (omega arith)
vet-refunds env id w sound m none none a2a h = absurd (omega (arith, last_vet-refunds env id m w))

guard-refunds :
    (env : Env) (id : ℕ) (seen : Db) (w : World) (sound : Sound id w) (o : Option Tx)
    → refunds id w.calls < refunds id (guard_row env id seen o w).0.calls
    → last_sent id w.calls ≡ none
unfolding guard_row
guard-refunds env id seen w sound none = λ h. absurd (omega arith)
guard-refunds env id seen w sound (some t) = elim (Bool-cases (is_unsent t)) [
  | inl e ↦
      rw (e, guard_row)
        (vet-refunds env id w sound (env.metadata id) (block_reason env (env.metadata id) t seen)
          (deferral env (env.metadata id)) t.a2a_payment)
  | inr e ↦ rw (e, guard_row) (λ h. absurd (omega arith))
]

module _ (steps : List WorkerStep) (db : Db) (env : Env) (id : ℕ) where
  abbrev before : World
  before = after_steps steps db

  -- After any steps of the worker, the settlement of a job that failed for good refunds a payment
  -- only if no transaction was ever sent for it.
  pub failure-refunds :
      (error : ℕ)
      → refunds id before.calls < refunds id (settle_permanent_failure env id error before).calls
      → last_sent id before.calls ≡ none
  unfolding settle_permanent_failure
  failure-refunds error =
      stop-refunds id before (steps-Sound steps db id) env _ _
        (stop_or_hand-Stops never_stamped env.now id error before.db never_stamped-Stoppable)

  -- After any steps of the worker, the guard refunds a payment only if no transaction was ever
  -- sent for it, however old what it has read.
  pub pre_submit_guard-refunds :
      (seen : Db)
      → refunds id before.calls < refunds id (pre_submit_guard env id seen before).0.calls
      → last_sent id before.calls ≡ none
  unfolding pre_submit_guard
  pre_submit_guard-refunds seen =
      guard-refunds env id seen before (steps-Sound steps db id) (find_tx id seen.txs)
