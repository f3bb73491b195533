-- ===== src/Worker/Told.antt =====
-- Every step of the transaction worker, against what it may still tell of each transaction.
use agentfi.Base.{
  ℕ, ◌≡◌, refl, inl, inr, Bool, true, false, Option, none, some, ◌==◌, arith, Bool-cases,
  Option-cases,
}
use agentfi.Volume.{Db, TxStatus, submitted}
use agentfi.Volume.Settle.{
  StampedStop, handed_to_chain, stopped_failed, not_queued, is_unsent, is_terminal,
  mark_broadcast_attempt,
}
use agentfi.Worker.{Env, World, never_stamped, never_stamped_unsent}
use agentfi.Worker.Open.{Marked, Closed→Kept}
use agentfi.Worker.Stops.{
  Stops, stop_or_hand-Stops, never_stamped-Stoppable, never_stamped_unsent-Stoppable, unsent-open,
  mark-Marked,
}
use agentfi.Worker.Settled.{update_where-Kept, status-IsFrame}
use agentfi.Worker.Guard.{PreSubmitDecision, proceed, skip, fail, defer}
use agentfi.Worker.Recheck.{BroadcastRecheck, send_superseded, send_deferred}
use agentfi.Worker.Process.{
  SubmitRun, HookResult, stamped, earlier_live, hook_superseded, hook_deferred, aborted,
  live_answer, earlier_broadcast, refuse_if_earlier_broadcast_live, hook_recheck, hook_from,
  on_before_broadcast, as_submitted, record_submitted, stop_superseded, after_hook, submit_row,
  after_guard, after_stop, settle_permanent_failure, stamp_result,
}
use agentfi.Worker.Outcome.{is_submitted}
use agentfi.Worker.Once.{failed-Calm}
use agentfi.Worker.Calm.{Calm, Calm-refl, Calm-trans, Kept-Calm, Marked-Calm}

-- The stops, whatever follows them in the database alone.
Stops-Calm :
    (id : ℕ) (w : World) (r : Db × StampedStop) → Stops id w.db r → Calm w (record w { db = r.0 })
Stops-Calm id w (db, not_queued) k = Kept-Calm id w db k
Stops-Calm id w (db, handed_to_chain hash) k = Kept-Calm id w db k
Stops-Calm id w (db, stopped_failed attempted) k = Kept-Calm id w db (Closed→Kept k.0)

pub submitted-open : (s : TxStatus) → is_submitted s ≡ true → is_terminal s ≡ false
submitted-open submitted h = refl
submitted-open s h = ground arith

record_submitted-Calm :
    (env : Env) (id hash : ℕ) (w : World) → Calm w (record_submitted env id hash w).0
unfolding record_submitted
record_submitted-Calm env id hash w = Kept-Calm id w _ (
    update_where-Kept id is_unsent (as_submitted env.now hash) w.db (λ t h.
      (status-IsFrame t submitted (some hash) t.error env.now, omega (arith, unsent-open t h))))

-- A hook that resolves has stamped the row.
abbrev Hooked : ℕ → ℕ → Db → HookResult → Type 0
Hooked id signed db (stamped after) = Marked id signed db after
Hooked id signed db _ = Unit

stamp_result-Hooked :
    (now id signed : ℕ) (db : Db) (o : Option Db)
    → mark_broadcast_attempt now id (some signed) db ≡ o
    → Hooked id signed db (stamp_result o)
stamp_result-Hooked now id signed db none h = tt
stamp_result-Hooked now id signed db (some after) h = mark-Marked now id signed db after h

hook_recheck-Hooked :
    (env : Env) (id signed : ℕ) (db : Db) (o : Option BroadcastRecheck)
    → Hooked id signed db (hook_recheck env id signed db o)
unfolding hook_recheck
hook_recheck-Hooked env id signed db (some (send_superseded why)) = tt
hook_recheck-Hooked env id signed db (some (send_deferred delay)) = tt
hook_recheck-Hooked env id signed db none = stamp_result-Hooked env.now id signed db _ refl

earlier-Hooked :
    (env : Env) (run : SubmitRun) (id signed : ℕ) (db : Db) (o : Option ℕ)
    → Hooked id signed db (hook_from env id signed db (earlier_broadcast run signed o))
unfolding hook_from earlier_broadcast live_answer
earlier-Hooked env run id signed db none = hook_recheck-Hooked env id signed db _
earlier-Hooked env run id signed db (some earlier) = elim (Bool-cases (earlier == signed)) [
  | inl e ↦ rw (e, hook_from, earlier_broadcast) (hook_recheck-Hooked env id signed db _)
  | inr e ↦ rw (e, earlier_broadcast) (answered (run.is_known_transaction earlier))
]
  where
    answered :
        (o : Option Bool) → Hooked id signed db (hook_from env id signed db (live_answer earlier o))
    answered none = tt
    answered (some true) = tt
    answered (some false) = hook_recheck-Hooked env id signed db _

after_hook-Calm :
    (env : Env) (run : SubmitRun) (id signed : ℕ) (w : World) (h : HookResult)
    → Hooked id signed w.db h
    → Calm w (after_hook env run id signed w h).0
unfolding after_hook stop_superseded
after_hook-Calm env run id signed w (stamped db) k =
    let out = Marked-Calm id signed w db k in
    elim (Option-cases run.returned) [
      | inl e ↦ rw (e, after_hook) out
      | inr (hash, e) ↦ rw (e, after_hook) (Calm-trans out (record_submitted-Calm env id hash _))
    ]
after_hook-Calm env run id signed w (earlier_live hash) k = record_submitted-Calm env id hash w
after_hook-Calm env run id signed w (hook_superseded why) k =
    Stops-Calm id w _
      (stop_or_hand-Stops never_stamped_unsent env.now id _ w.db never_stamped_unsent-Stoppable)
after_hook-Calm env run id signed w (hook_deferred delay) k = Calm-refl w
after_hook-Calm env run id signed w aborted k = Calm-refl w

submit_row-Calm :
    (env : Env) (run : SubmitRun) (id : ℕ) (w : World) (o : Option ℕ)
    → Calm w (submit_row env run id w o).0
unfolding submit_row on_before_broadcast refuse_if_earlier_broadcast_live
submit_row-Calm env run id w none = Calm-refl w
submit_row-Calm env run id w (some signed) =
    after_hook-Calm env run id signed w _ (earlier-Hooked env run id signed w.db _)

pub after_guard-Calm :
    (env : Env) (run : SubmitRun) (id : ℕ) (w : World) (r : World × PreSubmitDecision)
    → Calm w r.0
    → Calm w (after_guard env run id r).0
unfolding after_guard
after_guard-Calm env run id w (v, proceed) k =
    Calm-trans k (submit_row-Calm env run id v run.signed)
after_guard-Calm env run id w (v, skip why) k = k
after_guard-Calm env run id w (v, fail why error) k = k
after_guard-Calm env run id w (v, defer delay) k = k

after_stop-Calm :
    (env : Env) (id : ℕ) (a2a : Bool) (w : World) (r : Db × StampedStop)
    → Stops id w.db r
    → Calm w (after_stop env id a2a w r)
unfolding after_stop
after_stop-Calm env id a2a w (db, not_queued) k = Kept-Calm id w db k
after_stop-Calm env id a2a w (db, handed_to_chain hash) k = Kept-Calm id w db k
after_stop-Calm env id a2a w (db, stopped_failed attempted) k =
    failed-Calm env.now id w db _ a2a attempted _ k.0

pub settle_permanent_failure-Calm :
    (env : Env) (id error : ℕ) (w : World) → Calm w (settle_permanent_failure env id error w)
unfolding settle_permanent_failure
settle_permanent_failure-Calm env id error w =
    after_stop-Calm env id _ w _
      (stop_or_hand-Stops never_stamped env.now id error w.db never_stamped-Stoppable)
