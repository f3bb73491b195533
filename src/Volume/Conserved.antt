-- ===== src/Volume/Conserved.antt =====
-- The settlements, the stamp, the stop and the sweep, against what the rows count.
use agentfi.Base.{
  ℕ, ◌-◌, ◌≡◌, refl, inl, inr, Bool, true, false, ◌&&◌, Option, some, List, [], ◌∷◌, arith,
  Bool-cases, Option-cases, leb, take, length,
}
use agentfi.Volume.{
  Tx, Db, TxStatus, VolumeState, committed, released, held, confirmed, reverted, find_tx,
  micro_or_zero, is_reserved,
}
use agentfi.Volume.Settle.{
  update_where, with_state, commit_transaction_volume, hold_transaction_volume, release_where,
  give_back, or_hold, settle_volume_after_revert, settle_volume_after_failure, never_sent,
  mark_broadcast_attempt, stop_stamped_transaction, stop_row, can_hand, is_unsent, stamp, hand_over,
  give_up, sweep_row, sweep_rows, VolumeSweepSummary, sweep_unsettled_volume, stale_rows,
}
use agentfi.Volume.Counted.{Conserves, counts_on, counted-set_tx, set_tx-Conserves, state_counts}

released_counts : (now a d : ℕ) (t : Tx) → counts_on a d (with_state now released t) ≡ 0
unfolding counts_on
released_counts now a d t = ground arith

pub reserved_counts :
    (now : ℕ) (s : VolumeState)
    → state_counts (some s) ≡ true
    → (a d : ℕ) (t : Tx) → is_reserved t.volume_state ≡ true
    → counts_on a d (with_state now s t) ≡ counts_on a d t
unfolding counts_on
reserved_counts now s live a d t r = ground arith

-- A write that keeps the reservation's fields keeps what the row counts.
pub same_counts :
    (a d : ℕ) (t new : Tx)
    → new.agent ≡ t.agent
    → new.volume_reserved_date ≡ t.volume_reserved_date
    → new.volume_reserved_usd ≡ t.volume_reserved_usd
    → new.volume_state ≡ t.volume_state
    → counts_on a d new ≡ counts_on a d t
unfolding counts_on
same_counts a d t new e f g h = rw (e, f, g, h)

give_back_lem :
    (a d : ℕ) (t : Tx) (volume : ℕ → ℕ → Option ℕ)
    → is_reserved t.volume_state ≡ true
    → micro_or_zero (give_back t.agent t.volume_reserved_usd t.volume_reserved_date volume a d)
      ≡ micro_or_zero (volume a d) - counts_on a d t
unfolding give_back counts_on
give_back_lem a d t volume r = ground arith

module _ (base : ℕ → ℕ → ℕ) where
  update_where-Conserves :
      (id : ℕ) (condition : Tx → Bool) (change : Tx → Tx) (db : Db)
      → ((t : Tx) → condition t ≡ true → (a d : ℕ) → counts_on a d (change t) ≡ counts_on a d t)
      → Conserves base db
      → Conserves base (update_where id condition change db).0
  unfolding update_where
  update_where-Conserves id condition change db same c = elim (Option-cases (find_tx id db.txs)) [
    | inl e ↦ rw (e, update_where) c
    | inr (t, e) ↦ elim (Bool-cases (condition t)) [
      | inl hit ↦
          rw (e, update_where) (rw hit (set_tx-Conserves base db id t (change t) c e (same t hit)))
      | inr miss ↦ rw (e, update_where) (rw miss c)
    ]
  ]

  pub release_where-Conserves :
      (now id : ℕ) (extra : Tx → Bool) (db : Db)
      → Conserves base db
      → Conserves base (release_where now id extra db).0
  unfolding release_where
  release_where-Conserves now id extra db c = elim (Option-cases (find_tx id db.txs)) [
    | inl e ↦ rw (e, release_where) c
    | inr (t, e) ↦ elim (Bool-cases (is_reserved t.volume_state && extra t)) [
      | inr miss ↦ rw (e, release_where) (rw miss c)
      | inl hit ↦
          rw (e, release_where)
            (rw hit (λ a d. omega (
              arith,
              c a d,
              give_back_lem a d t db.volume (ground arith),
              counted-set_tx a d id t (with_state now released t) db.txs e,
              released_counts now a d t,
            )))
    ]
  ]

  pub commit-Conserves :
      (now id : ℕ) (db : Db)
      → Conserves base db
      → Conserves base (commit_transaction_volume now id db).0
  unfolding commit_transaction_volume
  commit-Conserves now id db =
      update_where-Conserves id _ _ db (λ t r a d. reserved_counts now committed refl a d t r)

  pub hold-Conserves :
      (now id : ℕ) (db : Db)
      → Conserves base db
      → Conserves base (hold_transaction_volume now id db).0
  unfolding hold_transaction_volume
  hold-Conserves now id db =
      update_where-Conserves id _ _ db (λ t r a d. reserved_counts now held refl a d t r)

  or_hold-Conserves :
      (now id : ℕ) (r : Db × Bool) → Conserves base r.0 → Conserves base (or_hold now id r).0
  or_hold-Conserves now id (db, true) c = c
  or_hold-Conserves now id (db, false) c = hold-Conserves now id db c

  pub settle_after_revert-Conserves :
      (now id : ℕ) (db : Db)
      → Conserves base db
      → Conserves base (settle_volume_after_revert now id db).0
  unfolding settle_volume_after_revert
  settle_after_revert-Conserves now id db c =
      or_hold-Conserves now id _
        (release_where-Conserves now id (λ t. leb t.broadcast_attempts 1) db c)

  pub settle_after_failure-Conserves :
      (now id : ℕ) (db : Db)
      → Conserves base db
      → Conserves base (settle_volume_after_failure now id db).0
  unfolding settle_volume_after_failure
  settle_after_failure-Conserves now id db c =
      or_hold-Conserves now id _ (release_where-Conserves now id never_sent db c)

  sweep_row-Conserves :
      (now : ℕ) (s : TxStatus) (id : ℕ) (db : Db) (n : VolumeSweepSummary)
      → Conserves base db
      → Conserves base (sweep_row now s id db n).0
  unfolding sweep_row
  sweep_row-Conserves now confirmed id db n c = commit-Conserves now id db c
  sweep_row-Conserves now reverted id db n c = settle_after_revert-Conserves now id db c
  sweep_row-Conserves now _ id db n c = settle_after_failure-Conserves now id db c

  sweep_rows-Conserves :
      (now : ℕ) (ts : List Tx) (db : Db) (n : VolumeSweepSummary)
      → Conserves base db
      → Conserves base (sweep_rows now ts db n).0
  unfolding sweep_rows
  sweep_rows-Conserves now [] db n c = c
  sweep_rows-Conserves now (t ∷ ts) db n c =
      let (after, n') = sweep_row now t.status t.id db n in
      sweep_rows-Conserves now ts after n' (sweep_row-Conserves now t.status t.id db n c)

  pub sweep-Conserves :
      (now older_than limit : ℕ) (db : Db)
      → Conserves base db
      → Conserves base (sweep_unsettled_volume now older_than limit db).0
  unfolding sweep_unsettled_volume
  sweep-Conserves now older_than limit db c =
      let rows = take limit (stale_rows older_than db.txs) in
      sweep_rows-Conserves now rows db
        (record { scanned = length rows; committed_rows = 0; released_rows = 0; held_rows = 0 }) c

  stopped :
      (now id err : ℕ) (hand : Bool) (t : Tx) (db : Db)
      → Conserves base db
      → find_tx id db.txs ≡ some t
      → Conserves base (stop_row now id err hand t db).0
  unfolding stop_row
  stopped now id err hand t db c e = elim (Bool-cases (can_hand hand db.txs t.broadcast_tx_hash)) [
    | inl yes_hand ↦ rw yes_hand (
        set_tx-Conserves base db id t (hand_over now t) c e
          (λ a d. same_counts a d t (hand_over now t) refl refl refl refl))
    | inr no_hand ↦ rw no_hand (
        set_tx-Conserves base db id t (give_up now err t) c e
          (λ a d. same_counts a d t (give_up now err t) refl refl refl refl))
  ]

  pub stop-Conserves :
      (now id err : ℕ) (hand : Bool) (db : Db)
      → Conserves base db
      → Conserves base (stop_stamped_transaction now id err hand db).0
  unfolding stop_stamped_transaction
  stop-Conserves now id err hand db c = elim (Option-cases (find_tx id db.txs)) [
    | inl e ↦ rw (e, stop_stamped_transaction) c
    | inr (t, e) ↦ elim (Bool-cases (is_unsent t)) [
      | inr miss ↦ rw (e, stop_stamped_transaction) (rw miss c)
      | inl hit ↦ rw (e, stop_stamped_transaction) (rw hit (stopped now id err hand t db c e))
    ]
  ]

  pub marked :
      (now id : ℕ) (signed : Option ℕ) (db after : Db)
      → Conserves base db
      → mark_broadcast_attempt now id signed db ≡ some after
      → Conserves base after
  unfolding mark_broadcast_attempt
  marked now id signed db after c h =
      let kept : Conserves base (update_where id is_unsent (stamp now signed) db).0 =
        update_where-Conserves id is_unsent (stamp now signed) db
          (λ t r a d. same_counts a d t (stamp now signed t) refl refl refl refl) c in
      elim (Bool-cases (update_where id is_unsent (stamp now signed) db).1) [
        | inl done ↦
            let e : after ≡ (update_where id is_unsent (stamp now signed) db).0 = ground arith in
            rw e kept
        | inr missed ↦ ground arith
      ]
