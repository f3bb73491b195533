-- ===== src/Worker/Replayed.antt =====
-- What follows a receipt of the transaction worker, and its re-poll, against what may still be told of
-- each transaction.
use agentfi.Base.{
  ℕ, ◌+◌, ◌≡◌, refl, inl, inr, Bool, true, false, Option, none, some, List, [], ◌∷◌, arith,
  Bool-cases, ltb,
}
use agentfi.Volume.{Tx, Db, TxStatus, confirmed, reverted, failed}
use agentfi.Worker.{Env, count_fees, World, log_call}
use agentfi.Worker.Open.{
  open_tx, Kept, Closed, Kept-refl, Closed-Kept, Updated, missed, wrote, update_where-Updated,
}
use agentfi.Worker.Settled.{
  IsFrame, status-IsFrame, frame-Closed, commit-Kept, hold-Kept, settle_after_revert-Kept,
}
use agentfi.Worker.Outcome.{
  is_submitted, with_receipt, record_receipt_once, settle_outcome, is_confirmed, finish_outcome,
  after_fees, post_confirmation_of, run_post_confirmation, if_recorded, observe_receipt,
  observe_found, RepollAnswers, RepollOptions, drop_row, drop_if_unknown, repoll_receipt,
  repoll_hash, repoll_row, repoll_rows, receipt_status,
}
use agentfi.Worker.Calm.{
  Calm, Tells, Calm-refl, Calm-trans, Kept-Calm, Closed-Calm, tell_escrow-Tells, finalize-Tells,
}
use agentfi.Worker.Open.{Closed→Kept}
use agentfi.Worker.Told.{submitted-open}

finish_outcome-Tells :
    (id : ℕ) (job : Option ℕ) (a2a erc8183 : Bool) (status : TxStatus) (w : World)
    → Tells id w (finish_outcome id job a2a erc8183 status w)
unfolding finish_outcome
finish_outcome-Tells id (some job) true erc8183 status w = finalize-Tells id job _ w
finish_outcome-Tells id (some job) false erc8183 status w = tell_escrow-Tells erc8183 id _ w
finish_outcome-Tells id none a2a erc8183 status w = tell_escrow-Tells erc8183 id _ w

fees-Tells :
    (id : ℕ) (w after : World) → Tells id (log_call (count_fees id) w) after → Tells id w after
fees-Tells id w after t = record {
  same = t.same;
  others = λ other ne. omega (arith, t.others other ne);
  own = omega (arith, t.own);
  sent = λ any. t.sent any;
}

fees_alone : (id : ℕ) (w : World) → Tells id w (log_call (count_fees id) w)
fees_alone id w = record {
  same = refl;
  others = λ other ne. omega arith;
  own = omega arith;
  sent = λ any. refl;
}

after_fees-Tells :
    (env : Env) (id : ℕ) (a2a : Bool) (status : TxStatus) (w : World)
    → Tells id w (after_fees env id a2a status w)
unfolding after_fees
after_fees-Tells env id a2a status w = elim (Bool-cases (is_confirmed status)) [
  | inr e ↦ rw (e, after_fees) (finish_outcome-Tells id _ a2a _ status w)
  | inl e ↦ elim (Bool-cases env.fees_throw) [
    | inl f ↦ rw (e, f, after_fees) (fees_alone id w)
    | inr f ↦ rw (e, f, after_fees) (fees-Tells id w _ (finish_outcome-Tells id _ a2a _ status _))
  ]
]

settle_outcome-Kept :
    (now : ℕ) (status : TxStatus) (id : ℕ) (db : Db) → Kept id db (settle_outcome now status id db)
unfolding settle_outcome
settle_outcome-Kept now confirmed id db = commit-Kept now id db
settle_outcome-Kept now reverted id db = settle_after_revert-Kept now id db
settle_outcome-Kept now failed id db = hold-Kept now id db
settle_outcome-Kept now _ id db = Kept-refl id db

post_confirmation-Calm :
    (env : Env) (id : ℕ) (w : World) (db : Db) (o : Option Tx)
    → Closed id w.db db
    → Calm w (post_confirmation_of env id o (record w { db = db }))
unfolding post_confirmation_of
post_confirmation-Calm env id w db none k = Kept-Calm id w db (Closed→Kept k)
post_confirmation-Calm env id w db (some t) k =
    Closed-Calm id w (record w { db = settle_outcome env.now t.status id db }) _
      (Closed-Kept k (settle_outcome-Kept env.now t.status id db)) refl
      (after_fees-Tells env id t.a2a_payment t.status _)

-- An update that closes the submitted row, and what follows it.
recorded-Calm :
    (env : Env) (id : ℕ) (w : World) (change : Tx → Tx) (r : Db × Bool)
    → ((t : Tx) → IsFrame t (change t) × (open_tx (change t) ≡ 0))
    → Updated id (λ t. is_submitted t.status) change w.db r
    → Calm w (if_recorded env id w r)
unfolding if_recorded run_post_confirmation
recorded-Calm env id w change r closes (missed e) = rw e (Calm-refl w)
recorded-Calm env id w change r closes (wrote t found hit e) = rw e (
    post_confirmation-Calm env id w _ _ (
      frame-Closed id w.db t (change t) found (closes t).0 (rw (submitted-open t.status hit) refl)
        (closes t).1))

receipt_closes : (now : ℕ) (success : Bool) (t : Tx) → open_tx (with_receipt now success t) ≡ 0
receipt_closes now true t = refl
receipt_closes now false t = refl

observe_receipt-Calm :
    (env : Env) (id : ℕ) (success : Bool) (w : World) → Calm w (observe_receipt env id success w)
unfolding observe_receipt record_receipt_once
observe_receipt-Calm env id success w =
    recorded-Calm env id w (with_receipt env.now success) _
      (λ t. (
        status-IsFrame t (receipt_status success) t.tx_hash t.error env.now,
        receipt_closes env.now success t,
      ))
      (update_where-Updated id _ _ w.db)

pub observe_found-Calm :
    (env : Env) (id : ℕ) (o : Option Bool) (w : World) → Calm w (observe_found env id o w)
observe_found-Calm env id none w = Calm-refl w
observe_found-Calm env id (some success) w = observe_receipt-Calm env id success w

drop-Calm :
    (env : Env) (error id : ℕ) (o : Option Bool) (w : World)
    → Calm w (drop_if_unknown env error id o w)
unfolding drop_if_unknown
drop-Calm env error id none w = Calm-refl w
drop-Calm env error id (some true) w = Calm-refl w
drop-Calm env error id (some false) w =
    recorded-Calm env id w (drop_row env.now error) _
      (λ t. (status-IsFrame t failed t.tx_hash (some error) env.now, refl))
      (update_where-Updated id _ _ w.db)

repoll_receipt-Calm :
    (env : Env) (answers : RepollAnswers) (opts : RepollOptions) (error : ℕ) (row : Tx) (hash : ℕ)
    (o : Option (Option Bool)) (w : World)
    → Calm w (repoll_receipt env answers opts error row hash o w)
unfolding repoll_receipt
repoll_receipt-Calm env answers opts error row hash none w = Calm-refl w
repoll_receipt-Calm env answers opts error row hash (some (some success)) w =
    observe_receipt-Calm env row.id success w
repoll_receipt-Calm env answers opts error row hash (some none) w =
    elim (Bool-cases (ltb env.now (row.updated_at + opts.drop_after_ms))) [
      | inl e ↦ rw (e, repoll_receipt) (Calm-refl w)
      | inr e ↦ rw (e, repoll_receipt) (drop-Calm env error row.id _ w)
    ]

repoll_hash-Calm :
    (env : Env) (answers : RepollAnswers) (opts : RepollOptions) (error : ℕ) (row : Tx)
    (o : Option ℕ) (w : World)
    → Calm w (repoll_hash env answers opts error row o w)
unfolding repoll_hash
repoll_hash-Calm env answers opts error row none w = Calm-refl w
repoll_hash-Calm env answers opts error row (some hash) w =
    repoll_receipt-Calm env answers opts error row hash _ w

pub repoll_rows-Calm :
    (env : Env) (answers : RepollAnswers) (opts : RepollOptions) (error : ℕ) (rows : List Tx)
    (w : World)
    → Calm w (repoll_rows env answers opts error rows w)
unfolding repoll_rows repoll_row
repoll_rows-Calm env answers opts error [] w = Calm-refl w
repoll_rows-Calm env answers opts error (row ∷ rows) w =
    Calm-trans (repoll_hash-Calm env answers opts error row row.tx_hash w)
      (repoll_rows-Calm env answers opts error rows _)
