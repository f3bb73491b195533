-- ===== src/Worker/Sends.antt =====
-- transaction.processor.ts: what a delivery that sends a transaction has checked, and that it does not
-- send a second one where the first may still be mined.
use agentfi.Base.{
  ℕ, ◌<◌, ◌≡◌, ◌⊎◌, refl, sym, ap, ◌∙◌, inl, inr, Bool, true, false, Option, none, some, List, [],
  ◌∷◌, ◌==◌, ==_iff, arith, Bool-cases, Option-cases,
}
use agentfi.Volume.{Tx, Db, find_tx}
use agentfi.Volume.Settle.{mark_broadcast_attempt}
use agentfi.Worker.{Env, broadcast, World, log_call}
use agentfi.Worker.Guard.{PreSubmitDecision, proceed, skip, fail, defer}
use agentfi.Worker.Recheck.{recheck_before_broadcast}
use agentfi.Worker.Process.{
  SubmitRun, HookResult, stamped, earlier_live, hook_superseded, hook_deferred, aborted,
  live_answer, earlier_broadcast, stamped_hash, refuse_if_earlier_broadcast_live, record_submitted,
  stop_superseded, after_hook, submit_row, after_guard, process_transaction_job,
}
use agentfi.Worker.Open.{stamp_of}
use agentfi.Worker.Calm.{last_sent, Sound}
use agentfi.Worker.Runs.{WorkerStep, run_steps}
use agentfi.Worker.Observed.{run_steps-Calm}
use agentfi.Worker.Vetted.{broadcasts, Vets, Admitted, guard-Vets}
use agentfi.Worker.Resolved.{Resolved, hook-Resolved}
use agentfi.Worker.Rechecked.{StillAllowed, recheck-StillAllowed}
use agentfi.Volume.Sent.{mark_broadcast_attempt_lem}

-- What a delivery that sends has found: the guard let the row through on what it had read; inside
-- the lane no earlier transaction of the row was live, the row was still to be sent, and it was
-- stamped first. The one transaction sent is the one signed.
pub record Sent (env lane_env : Env) (run : SubmitRun) (id : ℕ) (seen : Db) (w after : World)
    : Type 0 where
  pub hash : ℕ
  pub signed : run.signed ≡ some hash
  pub admitted : Admitted env id seen
  pub no_earlier : refuse_if_earlier_broadcast_live run id hash w.db ≡ none
  pub rechecked : recheck_before_broadcast lane_env id w.db ≡ none
  pub still_allowed : StillAllowed lane_env id w.db
  pub marked : Db
  pub stamp : mark_broadcast_attempt lane_env.now id (some hash) w.db ≡ some marked
  pub log : after.calls ≡ broadcast id hash ∷ w.calls

-- The recorded hash sends nothing.
record-broadcasts :
    (env : Env) (id hash : ℕ) (w : World) → (record_submitted env id hash w).0.calls ≡ w.calls
unfolding record_submitted
record-broadcasts env id hash w = refl

module _ (env lane_env : Env) (run : SubmitRun) (id : ℕ) (seen : Db) (w : World) where
  -- A delivery sends nothing, or one transaction that it may send.
  abbrev Delivered : World → Type 0
  Delivered after =
      (broadcasts after.calls ≡ broadcasts w.calls) ⊎ Sent env lane_env run id seen w after

  hook-Delivered :
      Admitted env id seen
      → (hash : ℕ) → run.signed ≡ some hash
      → (h : HookResult) → Resolved lane_env run id hash w.db h
      → Delivered (after_hook lane_env run id hash w h).0
  unfolding after_hook stop_superseded
  hook-Delivered a hash signed (stamped db) (p, q, m) = inr (record {
    hash = hash;
    signed = signed;
    admitted = a;
    no_earlier = p;
    rechecked = q;
    still_allowed =
        let (t, found, unsent, stored, again) =
          mark_broadcast_attempt_lem lane_env.now id (some hash) w.db db m in
        recheck-StillAllowed lane_env id w.db t found q;
    marked = db;
    stamp = m;
    log = elim (Option-cases run.returned) [
      | inl e ↦ rw (e, after_hook) refl
      | inr (h, e) ↦
          rw (e, after_hook)
            (record-broadcasts lane_env id h (log_call (broadcast id hash) (record w { db = db })))
    ];
  })
  hook-Delivered a hash signed (earlier_live h) r =
      inl (ap broadcasts (record-broadcasts lane_env id h w))
  hook-Delivered a hash signed (hook_superseded why) r = inl refl
  hook-Delivered a hash signed (hook_deferred delay) r = inl refl
  hook-Delivered a hash signed aborted r = inl refl

  submit-Delivered :
      Admitted env id seen
      → (o : Option ℕ) → run.signed ≡ o
      → Delivered (submit_row lane_env run id w o).0
  unfolding submit_row
  submit-Delivered a none signed = inl refl
  submit-Delivered a (some hash) signed =
      hook-Delivered a hash signed _ (hook-Resolved lane_env run id hash w.db)

  guard-Delivered :
      (r : World × PreSubmitDecision)
      → Vets (Admitted env id seen) w r
      → Delivered (after_guard lane_env run id r).0
  unfolding after_guard
  guard-Delivered (v, proceed) (same, a) = rw same (submit-Delivered a run.signed refl)
  guard-Delivered (v, skip why) k = inl k
  guard-Delivered (v, fail why error) k = inl k
  guard-Delivered (v, defer delay) k = inl k

  -- A delivery that sends anything sends the one transaction that was signed, after the guard has
  -- let its row through on what it read, and after the hook has found no earlier transaction of
  -- the row live, no policy that supersedes a sync, and the gates that the row depends on open, and
  -- has stamped the row with its hash.
  pub process-Sent :
      broadcasts w.calls < broadcasts (process_transaction_job env lane_env run id seen w).0.calls
      → Sent env lane_env run id seen w (process_transaction_job env lane_env run id seen w).0
  unfolding process_transaction_job
  process-Sent more = elim (guard-Delivered _ (guard-Vets env id seen w)) [
    | inl none_sent ↦ absurd (omega arith)
    | inr sent ↦ sent
  ]

stamped_hash-stamp_of : (o : Option Tx) → stamped_hash o ≡ (stamp_of o).hash
stamped_hash-stamp_of none = refl
stamped_hash-stamp_of (some t) = refl

-- Where an earlier transaction does not refuse the new one, it is the same or no node knows it.
earlier-unknown :
    (run : SubmitRun) (signed earlier : ℕ)
    → earlier_broadcast run signed (some earlier) ≡ none
    → (earlier ≡ signed) ⊎ (run.is_known_transaction earlier ≡ some false)
unfolding earlier_broadcast live_answer
earlier-unknown run signed earlier h = elim (Bool-cases (earlier == signed)) [
  | inl e ↦ inl ((==_iff earlier signed).0 e)
  | inr e ↦ inr (answer (run.is_known_transaction earlier) (rw (e, earlier_broadcast) at h))
]
  where
    answer : (o : Option Bool) → live_answer earlier o ≡ none → o ≡ some false
    answer none k = absurd (cc)
    answer (some true) k = absurd (cc)
    answer (some false) k = refl

module _ (steps : List WorkerStep) (db : Db) where
  -- The worker's state after some steps from a start where nothing was sent.
  abbrev pub after_steps : World
  after_steps = run_steps steps (record { db = db; calls = [] })

  pub steps-Sound : (id : ℕ) → Sound id after_steps
  steps-Sound id =
      (run_steps-Calm steps (record { db = db; calls = [] })).track id (λ hash h. absurd (cc))

  -- After any steps of the worker, a delivery that sends a transaction for a row that one was sent
  -- for before sends the same one again, or was told that no node knows the earlier one.
  pub process-no_second :
      (env lane_env : Env) (run : SubmitRun) (id : ℕ) (seen : Db) (earlier : ℕ)
      → last_sent id after_steps.calls ≡ some earlier
      → broadcasts after_steps.calls
        < broadcasts (process_transaction_job env lane_env run id seen after_steps).0.calls
      → (run.signed ≡ some earlier) ⊎ (run.is_known_transaction earlier ≡ some false)
  unfolding refuse_if_earlier_broadcast_live
  process-no_second env lane_env run id seen earlier last more =
      let s = process-Sent env lane_env run id seen after_steps more in
      let stored : stamped_hash (find_tx id after_steps.db.txs) ≡ some earlier =
        stamped_hash-stamp_of (find_tx id after_steps.db.txs) ∙ (steps-Sound id earlier last).0 in
      elim (earlier-unknown run s.hash earlier
        (ap (earlier_broadcast run s.hash) (sym stored) ∙ s.no_earlier)) [
          | inl same ↦ inl (s.signed ∙ ap some (sym same))
          | inr gone ↦ inr gone
        ]
