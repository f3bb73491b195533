-- ===== src/Worker/Once.antt =====
-- The pre-submit guard tells the outcome of a transaction to the job behind it at most once.
use agentfi.Base.{
  ℕ, refl, inl, inr, Bool, true, false, Option, none, some, Bool-cases, Option-cases, is_some,
}
use agentfi.Volume.{Tx, Db, failed}
use agentfi.Volume.Settle.{StampedStop, handed_to_chain, stopped_failed, not_queued, is_unsent}
use agentfi.Worker.{
  Env, Metadata, BlockReason, bind_skipped, World, never_stamped_unsent, settle_failed,
  finish_failed,
}
use agentfi.Worker.Open.{Closed, Closed-Kept}
use agentfi.Worker.Stops.{Stops, stop_or_hand-Stops, never_stamped_unsent-Stoppable}
use agentfi.Worker.Settled.{settle_after_failure-Kept}
use agentfi.Worker.Guard.{
  after_block, block_row, after_skipped_bind, skip_bind, last_vet, vet_row, guard_row,
  pre_submit_guard, bind_reason, block_reason, deferral,
}
use agentfi.Worker.Calm.{
  Calm, Tells, Calm-refl, Kept-Calm, Closed-Calm, tell_escrow-Tells, finalize-Tells, nothing-Tells,
}

finish_failed-Tells :
    (id : ℕ) (job : Option ℕ) (a2a attempted erc8183 : Bool) (w : World)
    → Tells id w (finish_failed id job a2a attempted erc8183 w)
unfolding finish_failed
finish_failed-Tells id (some job) true true erc8183 w = nothing-Tells id w
finish_failed-Tells id (some job) true false erc8183 w = finalize-Tells id job false w
finish_failed-Tells id (some job) false attempted erc8183 w = tell_escrow-Tells erc8183 id failed w
finish_failed-Tells id none a2a attempted erc8183 w = tell_escrow-Tells erc8183 id failed w

-- The end of a stop that fails the row: its volume is settled, its job is told.
pub failed-Calm :
    (now id : ℕ) (w : World) (db : Db) (job : Option ℕ) (a2a attempted erc8183 : Bool)
    → Closed id w.db db
    → Calm w
        (finish_failed id job a2a attempted erc8183 (settle_failed now id (record w { db = db })))
unfolding settle_failed
failed-Calm now id w db job a2a attempted erc8183 k =
    Closed-Calm id w (settle_failed now id (record w { db = db })) _
      (Closed-Kept k (settle_after_failure-Kept now id db)) refl
      (finish_failed-Tells id job a2a attempted erc8183 _)

after_block-Calm :
    (env : Env) (id : ℕ) (reason : BlockReason) (a2a : Bool) (w : World) (r : Db × StampedStop)
    → Stops id w.db r
    → Calm w (after_block env id reason a2a w r).0
unfolding after_block
after_block-Calm env id reason a2a w (db, not_queued) k = Kept-Calm id w db k
after_block-Calm env id reason a2a w (db, handed_to_chain hash) k = Kept-Calm id w db k
after_block-Calm env id reason a2a w (db, stopped_failed attempted) k =
    failed-Calm env.now id w db _ a2a attempted _ k.0

block_row-Calm :
    (env : Env) (id : ℕ) (reason : BlockReason) (a2a : Bool) (w : World)
    → Calm w (block_row env id reason a2a w).0
unfolding block_row
block_row-Calm env id reason a2a w =
    after_block-Calm env id reason a2a w _
      (stop_or_hand-Stops never_stamped_unsent env.now id _ w.db never_stamped_unsent-Stoppable)

after_skipped_bind-Calm :
    (env : Env) (id : ℕ) (reason : BlockReason) (w : World) (r : Db × StampedStop)
    → Stops id w.db r
    → Calm w (after_skipped_bind env id reason w r).0
unfolding after_skipped_bind
after_skipped_bind-Calm env id reason w (db, not_queued) k = Kept-Calm id w db k
after_skipped_bind-Calm env id reason w (db, handed_to_chain hash) k = Kept-Calm id w db k
after_skipped_bind-Calm env id reason w (db, stopped_failed attempted) k =
    Closed-Calm id w (record w { db = db }) _ k.0 refl (tell_escrow-Tells true id failed _)

skip_bind-Calm :
    (env : Env) (id : ℕ) (reason : BlockReason) (w : World) → Calm w (skip_bind env id reason w).0
unfolding skip_bind
skip_bind-Calm env id reason w =
    after_skipped_bind-Calm env id reason w _
      (stop_or_hand-Stops never_stamped_unsent env.now id _ w.db never_stamped_unsent-Stoppable)

last_vet-Calm : (env : Env) (id : ℕ) (m : Metadata) (w : World) → Calm w (last_vet env id m w).0
unfolding last_vet
last_vet-Calm env id m w = elim (Bool-cases (is_some m.policy_sync)) [
  | inl e ↦ rw (e, last_vet) (Calm-refl w)
  | inr e ↦ elim (Option-cases (bind_reason env m)) [
    | inl f ↦ rw (e, f, last_vet) (Calm-refl w)
    | inr (why, f) ↦ rw (e, f, last_vet) (skip_bind-Calm env id (bind_skipped why) w)
  ]
]

vet_row-Calm :
    (env : Env) (id : ℕ) (m : Metadata) (reason : Option BlockReason) (delay : Option ℕ)
    (a2a : Bool) (w : World)
    → Calm w (vet_row env id m reason delay a2a w).0
unfolding vet_row
vet_row-Calm env id m (some reason) delay a2a w = block_row-Calm env id reason a2a w
vet_row-Calm env id m none (some delay) a2a w = Calm-refl w
vet_row-Calm env id m none none a2a w = last_vet-Calm env id m w

guard_row-Calm :
    (env : Env) (id : ℕ) (seen : Db) (o : Option Tx) (w : World)
    → Calm w (guard_row env id seen o w).0
unfolding guard_row
guard_row-Calm env id seen none w = Calm-refl w
guard_row-Calm env id seen (some t) w = elim (Bool-cases (is_unsent t)) [
  | inl e ↦
      rw (e, guard_row)
        (vet_row-Calm env id (env.metadata id) (block_reason env (env.metadata id) t seen)
          (deferral env (env.metadata id)) t.a2a_payment w)
  | inr e ↦ rw (e, guard_row) (Calm-refl w)
]

pub guard-Calm :
    (env : Env) (id : ℕ) (seen : Db) (w : World) → Calm w (pre_submit_guard env id seen w).0
unfolding pre_submit_guard
guard-Calm env id seen w = guard_row-Calm env id seen _ w
