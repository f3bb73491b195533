-- ===== src/Worker/Stops.antt =====
-- The stops of daily-volume.ts, and the worker's own writes, against the open rows.
use agentfi.Base.{
  ℕ, ◌≡◌, refl, ap, ◌∙◌, inl, inr, Bool, true, false, Option, none, some, arith, Bool-cases,
  Option-cases, is_some, List,
}
use agentfi.Volume.{Tx, Db, TxStatus, failed, submitted, find_tx}
use agentfi.Volume.Sent.{mark_broadcast_attempt_lem}
use agentfi.Volume.Approved.{find_tx-set_tx}
use agentfi.Volume.Conserved.{same_counts}
use agentfi.Volume.Settle.{
  is_unsent, is_terminal, can_hand, hand_over, give_up, stop_row, stop_stamped_transaction,
  StampedStop, handed_to_chain, stopped_failed, not_queued, stamp, or_else, mark_broadcast_attempt,
  is_queued,
}
use agentfi.Worker.{never_stamped, never_stamped_unsent, fail_row, or_stop, stop_or_hand}
use agentfi.Worker.Open.{
  open_tx, stamp_of, stamp_row, written-Others, written-own, written-elsewhere, written-conserves,
  Marked, Kept, Closed, Kept-refl, Updated, missed, wrote, update_where-Updated,
}
use agentfi.Worker.Settled.{status-IsFrame, frame-Kept, frame-Closed}

-- A stop that fails the row closes it; any other leaves it open.
abbrev pub Stops : ℕ → Db → Db × StampedStop → Type 0
Stops id db (after, not_queued) = Kept id db after
Stops id db (after, handed_to_chain hash) = Kept id db after
Stops id db (after, stopped_failed attempted) =
    Closed id db after × (is_some (stamp_row id db).attempted_at ≡ attempted)

queued-open : (s : TxStatus) → is_queued s ≡ true → is_terminal s ≡ false
queued-open TxStatus.queued h = refl
queued-open s h = ground arith

pub unsent-open : (t : Tx) → is_unsent t ≡ true → open_tx t ≡ 1
unsent-open t h = rw (queued-open t.status (ground arith))

handed-Stops :
    (id : ℕ) (db after : Db) (hand sent : Bool) (txs : List Tx) (o : Option ℕ)
    → can_hand hand txs o ≡ true
    → Kept id db after
    → Stops id db (after, elim o [ some h ↦ handed_to_chain h | none ↦ stopped_failed sent ])
unfolding can_hand
handed-Stops id db after hand sent txs none h k = cc
handed-Stops id db after hand sent txs (some hash) h k = k

stop_row-Stops :
    (now id err : ℕ) (hand : Bool) (t : Tx) (db : Db)
    → find_tx id db.txs ≡ some t
    → is_unsent t ≡ true
    → Stops id db (stop_row now id err hand t db)
unfolding stop_row
stop_row-Stops now id err hand t db found unsent =
    elim (Bool-cases (can_hand hand db.txs t.broadcast_tx_hash)) [
      | inl can ↦ rw can (
          handed-Stops id db _ hand (is_some t.broadcast_attempted_at) db.txs t.broadcast_tx_hash
            can
            (frame-Kept id db t (hand_over now t) found
              (status-IsFrame t submitted t.broadcast_tx_hash none now)
              (omega (arith, unsent-open t unsent))))
      | inr cannot ↦ rw cannot (
          (
            frame-Closed id db t (give_up now err t) found
                (status-IsFrame t failed none (some err) now) (unsent-open t unsent) refl,
            ap (λ o. is_some (stamp_of o).attempted_at) found,
          ))
    ]

stop_stamped-Stops :
    (now id err : ℕ) (hand : Bool) (db : Db)
    → Stops id db (stop_stamped_transaction now id err hand db)
unfolding stop_stamped_transaction
stop_stamped-Stops now id err hand db = elim (Option-cases (find_tx id db.txs)) [
  | inl e ↦ rw (e, stop_stamped_transaction) (Kept-refl id db)
  | inr (t, e) ↦ elim (Bool-cases (is_unsent t)) [
    | inr miss ↦ rw (e, stop_stamped_transaction) (rw miss (Kept-refl id db))
    | inl hit ↦
        rw (e, stop_stamped_transaction) (rw hit (stop_row-Stops now id err hand t db e hit))
  ]
]

-- The first write of a stop, and what follows it.
abbrev Stoppable : Tx → Type 0
Stoppable t = (open_tx t ≡ 1) × (is_some t.broadcast_attempted_at ≡ false)

fail_row-Stops :
    (now id err : ℕ) (condition : Tx → Bool) (db : Db) (r : Db × Bool)
    → ((t : Tx) → condition t ≡ true → Stoppable t)
    → Updated id condition (fail_row now err) db r
    → Stops id db (or_stop now id err r)
unfolding or_stop
fail_row-Stops now id err condition db r opens (missed e) =
    rw e (stop_stamped-Stops now id err true db)
fail_row-Stops now id err condition db r opens (wrote t found hit e) = rw e (
  frame-Closed id db t (fail_row now err t) found (status-IsFrame t failed t.tx_hash (some err) now)
      (opens t hit).0 refl,
  ap (λ o. is_some (stamp_of o).attempted_at) found ∙ (opens t hit).1,
)

pub stop_or_hand-Stops :
    (condition : Tx → Bool) (now id err : ℕ) (db : Db)
    → ((t : Tx) → condition t ≡ true → Stoppable t)
    → Stops id db (stop_or_hand condition now id err db)
unfolding stop_or_hand
stop_or_hand-Stops condition now id err db opens =
    fail_row-Stops now id err condition db _ opens
      (update_where-Updated id condition (fail_row now err) db)

pub never_stamped-Stoppable : (t : Tx) → never_stamped t ≡ true → Stoppable t
never_stamped-Stoppable t h = (rw (queued-open t.status (ground arith)), ground arith)

pub never_stamped_unsent-Stoppable : (t : Tx) → never_stamped_unsent t ≡ true → Stoppable t
never_stamped_unsent-Stoppable t h = never_stamped-Stoppable t (ground arith)

stamp_time : (o : Option ℕ) (now : ℕ) → is_some (or_else o (some now)) ≡ true
stamp_time none now = refl
stamp_time (some t) now = refl

-- The stamp of a broadcast attempt.
pub mark-Marked :
    (now id signed : ℕ) (db after : Db)
    → mark_broadcast_attempt now id (some signed) db ≡ some after
    → Marked id signed db after
mark-Marked now id signed db after h =
    let (t, found, unsent, stored, again) =
      mark_broadcast_attempt_lem now id (some signed) db after h in
    rw stored (record {
      others = written-Others id db db.volume t (stamp now (some signed) t) found refl;
      own =
          rw found (
            rw (written-own id db db.volume t (stamp now (some signed) t) found refl)
              (omega arith));
      stamps = λ other ne.
          ap stamp_of
            (written-elsewhere id db db.volume t (stamp now (some signed) t) found refl other ne);
      its_hash =
          ap (λ o. (stamp_of o).hash)
            (find_tx-set_tx id t (stamp now (some signed) t) db.txs found refl);
      its_time =
          ap (λ o. is_some (stamp_of o).attempted_at)
            (find_tx-set_tx id t (stamp now (some signed) t) db.txs found refl)
          ∙ stamp_time t.broadcast_attempted_at now;
      conserves =
          written-conserves id db t (stamp now (some signed) t) found
            (λ a d. same_counts a d t _ refl refl refl refl);
    })
