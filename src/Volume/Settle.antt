-- ===== src/Volume/Settle.antt =====
-- packages/backend/src/services/policy/daily-volume.ts: the settlements of a reservation, the stamp of
-- a broadcast attempt, the stop of a stamped row, and the sweep.
use agentfi.Base.{
  ℕ, ◌+◌, Bool, true, false, not, ◌&&◌, Option, none, some, List, [], ◌∷◌, leb, if◌then◌else◌,
  is_some, opt_eq, any, take, length,
}
use agentfi.Volume.{
  Tx, Db, TxStatus, VolumeState, committed, released, held, queued, submitted, confirmed, failed,
  reverted, find_tx, set_tx, sub_volume, is_reserved,
}

-- `updateMany` on one id with a condition: the write, and whether a row matched.
unfoldable pub update_where : ℕ → (Tx → Bool) → (Tx → Tx) → Db → Db × Bool
update_where id condition change db = elim (find_tx id db.txs) [
  | none ↦ (db, false)
  | some t ↦
      if condition t then (record db { txs = set_tx id (change t) db.txs }, true) else (db, false)
]

abbrev pub with_state : (now : ℕ) → VolumeState → Tx → Tx
with_state now s t = record t { volume_state = some s; updated_at = now }

unfoldable pub commit_transaction_volume : (now id : ℕ) → Db → Db × Bool
unfolding update_where
commit_transaction_volume now id db =
    update_where id (λ t. is_reserved t.volume_state) (with_state now committed) db

unfoldable pub hold_transaction_volume : (now id : ℕ) → Db → Db × Bool
unfolding update_where
hold_transaction_volume now id db =
    update_where id (λ t. is_reserved t.volume_state) (with_state now held) db

-- The day's volume without a reservation, where its amount and its day are stored.
unfoldable pub give_back : ℕ → Option ℕ → Option ℕ → (ℕ → ℕ → Option ℕ) → ℕ → ℕ → Option ℕ
unfolding sub_volume
give_back agent none day volume = volume
give_back agent (some m) none volume = volume
give_back agent (some m) (some day) volume = sub_volume agent day m volume

-- `releaseWhere`: one database transaction.
unfoldable pub release_where : (now id : ℕ) → (Tx → Bool) → Db → Db × Bool
unfolding give_back
release_where now id extra db = elim (find_tx id db.txs) [
  | none ↦ (db, false)
  | some t ↦
      if is_reserved t.volume_state && extra t
      then (
        record db {
          txs = set_tx id (with_state now released t) db.txs;
          volume = give_back t.agent t.volume_reserved_usd t.volume_reserved_date db.volume;
        },
        true,
      )
      else (db, false)
]

pub data Settled : Type 0 where
  was_released was_held none_live : Settled

abbrev pub or_hold : (now id : ℕ) → Db × Bool → Db × Settled
or_hold now id (db, true) = (db, was_released)
or_hold now id (db, false) =
    let (after, done) = hold_transaction_volume now id db in
    (after, if done then was_held else none_live)

-- Released after exactly one signed broadcast, held after more.
unfoldable pub settle_volume_after_revert : (now id : ℕ) → Db → Db × Settled
settle_volume_after_revert now id db =
    or_hold now id (release_where now id (λ t. leb t.broadcast_attempts 1) db)

abbrev pub never_sent : Tx → Bool
never_sent t = not (is_some t.broadcast_attempted_at) && not (is_some t.tx_hash)

-- Released where no broadcast was ever attempted and no hash is recorded, held otherwise.
unfoldable pub settle_volume_after_failure : (now id : ℕ) → Db → Db × Settled
settle_volume_after_failure now id db = or_hold now id (release_where now id never_sent db)

abbrev pub is_queued : TxStatus → Bool
is_queued queued = true
is_queued _ = false

abbrev pub or_else : Option ℕ → Option ℕ → Option ℕ
or_else (some a) b = some a
or_else none b = b

abbrev pub is_unsent : Tx → Bool
is_unsent t = is_queued t.status && not (is_some t.tx_hash)

abbrev pub stamp : ℕ → Option ℕ → Tx → Tx
stamp now signed t = record t {
  broadcast_attempted_at = or_else t.broadcast_attempted_at (some now);
  broadcast_attempts = t.broadcast_attempts + 1;
  broadcast_tx_hash = or_else signed t.broadcast_tx_hash;
}

-- `none` is `BroadcastNotAllowedError`: nothing may be sent.
unfoldable pub mark_broadcast_attempt : ℕ → ℕ → Option ℕ → Db → Option Db
unfolding update_where
mark_broadcast_attempt now id signed db =
    let (after, done) = update_where id is_unsent (stamp now signed) db in
    if done then some after else none

pub data StampedStop : Type 0 where
  handed_to_chain : ℕ → StampedStop
  stopped_failed : (broadcast_attempted : Bool) → StampedStop
  not_queued : StampedStop

-- Whether a row's signed hash is known and no row carries it yet.
unfoldable pub can_hand : Bool → List Tx → Option ℕ → Bool
can_hand hand_to_chain txs none = false
can_hand hand_to_chain txs (some h) =
    hand_to_chain && not (any (λ o. opt_eq o.tx_hash (some h)) txs)

abbrev pub hand_over : ℕ → Tx → Tx
hand_over now t = record t {
  status = submitted;
  tx_hash = t.broadcast_tx_hash;
  error = none;
  updated_at = now;
}

abbrev pub give_up : ℕ → ℕ → Tx → Tx
give_up now err t = record t { status = failed; tx_hash = none; error = some err; updated_at = now }

unfoldable pub stop_row : ℕ → ℕ → ℕ → Bool → Tx → Db → Db × StampedStop
unfolding can_hand
stop_row now id err hand_to_chain t db =
    if can_hand hand_to_chain db.txs t.broadcast_tx_hash
    then (
      record db { txs = set_tx id (hand_over now t) db.txs },
      elim t.broadcast_tx_hash [
        | some h ↦ handed_to_chain h
        | none ↦ stopped_failed (is_some t.broadcast_attempted_at)
      ],
    )
    else (
      record db { txs = set_tx id (give_up now err t) db.txs },
      stopped_failed (is_some t.broadcast_attempted_at),
    )

unfoldable pub stop_stamped_transaction : ℕ → ℕ → ℕ → Bool → Db → Db × StampedStop
unfolding stop_row
stop_stamped_transaction now id err hand_to_chain db = elim (find_tx id db.txs) [
  | none ↦ (db, not_queued)
  | some t ↦ if is_unsent t then stop_row now id err hand_to_chain t db else (db, not_queued)
]

pub record VolumeSweepSummary : Type 0 where
  pub scanned : ℕ
  pub committed_rows : ℕ
  pub released_rows : ℕ
  pub held_rows : ℕ

abbrev pub is_terminal : TxStatus → Bool
is_terminal confirmed = true
is_terminal reverted = true
is_terminal failed = true
is_terminal _ = false

-- The rows of the sweep: reserved, terminal, untouched since `older_than`.
abbrev pub is_stale : ℕ → Tx → Bool
is_stale older_than t =
    is_reserved t.volume_state && (is_terminal t.status && leb t.updated_at older_than)

-- `orderBy: { updatedAt: 'asc' }`.
unfoldable pub insert_by_age : Tx → List Tx → List Tx
insert_by_age t [] = t ∷ []
insert_by_age t (u ∷ us) =
    if leb t.updated_at u.updated_at then t ∷ u ∷ us else u ∷ insert_by_age t us

unfoldable pub stale_rows : ℕ → List Tx → List Tx
unfolding insert_by_age
stale_rows older_than [] = []
stale_rows older_than (t ∷ ts) =
    let rest = stale_rows older_than ts in
    if is_stale older_than t then insert_by_age t rest else rest

abbrev pub count_settled : Settled → VolumeSweepSummary → VolumeSweepSummary
count_settled was_released s = record s { released_rows = s.released_rows + 1 }
count_settled was_held s = record s { held_rows = s.held_rows + 1 }
count_settled none_live s = s

abbrev pub count_committed : Bool → VolumeSweepSummary → VolumeSweepSummary
count_committed true s = record s { committed_rows = s.committed_rows + 1 }
count_committed false s = s

-- One row of the sweep, by its status.
unfoldable pub sweep_row :
    (now : ℕ) → TxStatus → ℕ → Db → VolumeSweepSummary → Db × VolumeSweepSummary
sweep_row now confirmed id db s =
    let (after, done) = commit_transaction_volume now id db in (after, count_committed done s)
sweep_row now reverted id db s =
    let (after, how) = settle_volume_after_revert now id db in (after, count_settled how s)
sweep_row now _ id db s =
    let (after, how) = settle_volume_after_failure now id db in (after, count_settled how s)

unfoldable pub sweep_rows : (now : ℕ) → List Tx → Db → VolumeSweepSummary → Db × VolumeSweepSummary
sweep_rows now [] db s = (db, s)
sweep_rows now (t ∷ ts) db s =
    let (after, s') = sweep_row now t.status t.id db s in sweep_rows now ts after s'

-- `sweepUnsettledVolume`; a database error on a row, which it would count, does not occur here.
unfoldable pub sweep_unsettled_volume : (now : ℕ) → ℕ → ℕ → Db → Db × VolumeSweepSummary
unfolding sweep_rows stale_rows
sweep_unsettled_volume now older_than limit db =
    let rows = take limit (stale_rows older_than db.txs) in
    sweep_rows now rows db
      (record { scanned = length rows; committed_rows = 0; released_rows = 0; held_rows = 0 })
