-- ===== src/Volume/Sent.antt =====
-- The stamp of a broadcast attempt: what it forbids a later failure and what a later stop does.
use agentfi.Base.{
  ℕ, ◌≡◌, ◌≢◌, refl, ap, inl, inr, true, false, Option, some, List, [], ◌∷◌, arith, ◌==◌,
  Bool-cases, Option-cases, opt_eq, any, ◌∙◌,
}
use agentfi.Volume.{Tx, Db, submitted, find_tx, set_tx}
use agentfi.Volume.Settle.{
  update_where, hold_transaction_volume, release_where, was_released, settle_volume_after_failure,
  never_sent, mark_broadcast_attempt, stamp, is_unsent, handed_to_chain, stop_stamped_transaction,
  stop_row, can_hand, hand_over,
}
use agentfi.Volume.Approved.{find_tx-set_tx}

-- The row found before the stamp, and the row found after it.
pub mark_broadcast_attempt_lem :
    (now id : ℕ) (signed : Option ℕ) (db after : Db)
    → mark_broadcast_attempt now id signed db ≡ some after
    → (t : Tx) × (find_tx id db.txs ≡ some t)
      × (is_unsent t ≡ true)
      × (after ≡ (record db { txs = set_tx id (stamp now signed t) db.txs }))
      × (find_tx id after.txs ≡ some (stamp now signed t))
unfolding mark_broadcast_attempt update_where
mark_broadcast_attempt_lem now id signed db after h = elim (Option-cases (find_tx id db.txs)) [
  | inl missing ↦ ground arith
  | inr (t, found) ↦
      let stored : after ≡ (record db { txs = set_tx id (stamp now signed t) db.txs }) =
        ground arith in
      (
        t,
        found,
        ground arith,
        stored,
        rw stored (find_tx-set_tx id t (stamp now signed t) db.txs found refl),
      )
]

hold_volume : (now id : ℕ) (db : Db) → (hold_transaction_volume now id db).0.volume ≡ db.volume
unfolding hold_transaction_volume update_where
hold_volume now id db = ground arith

stamped_not_released :
    (now id : ℕ) (t : Tx) (db : Db)
    → find_tx id db.txs ≡ some t
    → never_sent t ≡ false
    → release_where now id never_sent db ≡ (db, false)
unfolding release_where
stamped_not_released now id t db e h = ground arith

-- A row whose broadcast attempt is recorded keeps its volume when its transaction fails: what was
-- signed may still be mined. Its reservation is held, or was settled before.
pub mark-settle_failure :
    (now later id : ℕ) (signed : Option ℕ) (db after : Db)
    → mark_broadcast_attempt now id signed db ≡ some after
    → ((settle_volume_after_failure later id after).0.volume ≡ db.volume)
      × ((settle_volume_after_failure later id after).1 ≢ was_released)
unfolding settle_volume_after_failure
mark-settle_failure now later id signed db after h =
    let (t, found, unsent, stored, again) = mark_broadcast_attempt_lem now id signed db after h in
    let same : release_where later id never_sent after ≡ (after, false) =
      stamped_not_released later id (stamp now signed t) after again (ground arith) in
    rw same (hold_volume later id after ∙ ap (λ d. d.volume) stored, ground arith)

-- No row has the hash.
any_hash-set_tx :
    (id h : ℕ) (t new : Tx) (ts : List Tx)
    → find_tx id ts ≡ some t
    → new.tx_hash ≡ t.tx_hash
    → any (λ o. opt_eq o.tx_hash (some h)) (set_tx id new ts)
      ≡ any (λ o. opt_eq o.tx_hash (some h)) ts
unfolding find_tx set_tx
any_hash-set_tx id h t new [] e k = cc
any_hash-set_tx id h t new (u ∷ us) e k = elim (Bool-cases (u.id == id)) [
  | inl hit ↦ ground arith
  | inr miss ↦ rw miss (rw (any_hash-set_tx id h t new us (ground arith) k) refl)
]

stop_row_hands :
    (now id err h : ℕ) (t : Tx) (db : Db)
    → t.broadcast_tx_hash ≡ some h
    → any (λ o. opt_eq o.tx_hash (some h)) db.txs ≡ false
    → stop_row now id err true t db
      ≡ (record db { txs = set_tx id (hand_over now t) db.txs }, handed_to_chain h)
unfolding stop_row can_hand
stop_row_hands now id err h t db e k = ground arith

-- A row stamped with the hash of the signed transaction, which no other row carries, is handed to
-- the chain when it is stopped: it becomes submitted with that hash.
pub mark-stop_stamped :
    (now later id err h : ℕ) (db after : Db)
    → mark_broadcast_attempt now id (some h) db ≡ some after
    → any (λ o. opt_eq o.tx_hash (some h)) db.txs ≡ false
    → ((stop_stamped_transaction later id err true after).1 ≡ handed_to_chain h)
      × ((t : Tx) × (find_tx id (stop_stamped_transaction later id err true after).0.txs ≡ some t)
          × (t.status ≡ submitted)
          × (t.tx_hash ≡ some h))
unfolding stop_stamped_transaction
mark-stop_stamped now later id err h db after m fresh =
    let (t, found, unsent, stored, again) = mark_broadcast_attempt_lem now id (some h) db after m in
    let row = stamp now (some h) t in
    let free : any (λ o. opt_eq o.tx_hash (some h)) after.txs ≡ false =
      rw stored (any_hash-set_tx id h t row db.txs found refl ∙ fresh) in
    let ran : stop_stamped_transaction later id err true after
        ≡ (record after { txs = set_tx id (hand_over later row) after.txs }, handed_to_chain h) =
      rw (again, stop_stamped_transaction)
        (rw unsent (stop_row_hands later id err h row after refl free)) in
    rw ran (
      refl,
      (
        hand_over later row,
        find_tx-set_tx id row (hand_over later row) after.txs again refl,
        refl,
        refl,
      ),
    )
