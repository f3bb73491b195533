-- ===== src/Worker/Settled.antt =====
-- The settlements of daily-volume.ts against the open rows.
use agentfi.Base.{
  ℕ, ◌≤◌, ◌≡◌, refl, inl, inr, Bool, true, false, ◌&&◌, Option, some, arith, Bool-cases,
  Option-cases,
}
use agentfi.Volume.{
  Tx, Db, TxStatus, VolumeState, committed, held, released, find_tx, set_tx, is_reserved,
}
use agentfi.Volume.Counted.{counts_on, state_counts}
use agentfi.Volume.Conserved.{same_counts, reserved_counts, release_where-Conserves}
use agentfi.Volume.Settle.{
  update_where, with_state, commit_transaction_volume, hold_transaction_volume, release_where,
  give_back, or_hold, settle_volume_after_revert, settle_volume_after_failure, never_sent,
}
use agentfi.Worker.Open.{
  open_tx, Conserving, written, written-conserves, Kept, Closed, written-Kept, written-Closed,
  Kept-refl, Kept-trans, Updated, missed, wrote, update_where-Updated,
}

-- A change of a row that keeps its id, its stamp and what it reserves.
pub record IsFrame (t new : Tx) : Type 0 where
  pub id : new.id ≡ t.id
  pub hash : new.broadcast_tx_hash ≡ t.broadcast_tx_hash
  pub time : new.broadcast_attempted_at ≡ t.broadcast_attempted_at
  pub counts : (a d : ℕ) → counts_on a d new ≡ counts_on a d t

-- A change of the status, the hash, the error and the time of a row alone.
pub status-IsFrame :
    (t : Tx) (s : TxStatus) (hash error : Option ℕ) (now : ℕ)
    → IsFrame t (record t { status = s; tx_hash = hash; error = error; updated_at = now })
status-IsFrame t s hash error now = record {
  id = refl;
  hash = refl;
  time = refl;
  counts = λ a d. same_counts a d t _ refl refl refl refl;
}

pub frame-Kept :
    (id : ℕ) (db : Db) (t new : Tx) (found : find_tx id db.txs ≡ some t)
    → IsFrame t new
    → open_tx new ≤ open_tx t
    → Kept id db (record db { txs = set_tx id new db.txs })
frame-Kept id db t new found f le =
    written-Kept id db db.volume t new found f.id f.hash f.time le
      (written-conserves id db t new found f.counts)

pub frame-Closed :
    (id : ℕ) (db : Db) (t new : Tx) (found : find_tx id db.txs ≡ some t)
    → IsFrame t new
    → open_tx t ≡ 1
    → open_tx new ≡ 0
    → Closed id db (record db { txs = set_tx id new db.txs })
frame-Closed id db t new found f p q =
    written-Closed id db db.volume t new found f.id f.hash f.time p q
      (written-conserves id db t new found f.counts)

Updated-Kept :
    (id : ℕ) (condition : Tx → Bool) (change : Tx → Tx) (db : Db) (r : Db × Bool)
    → ((t : Tx) → condition t ≡ true → IsFrame t (change t) × (open_tx (change t) ≤ open_tx t))
    → Updated id condition change db r
    → Kept id db r.0
Updated-Kept id condition change db r keeps (missed e) = rw e (Kept-refl id db)
Updated-Kept id condition change db r keeps (wrote t found hit e) =
    rw e (frame-Kept id db t (change t) found (keeps t hit).0 (keeps t hit).1)

pub update_where-Kept :
    (id : ℕ) (condition : Tx → Bool) (change : Tx → Tx) (db : Db)
    → ((t : Tx) → condition t ≡ true → IsFrame t (change t) × (open_tx (change t) ≤ open_tx t))
    → Kept id db (update_where id condition change db).0
update_where-Kept id condition change db keeps =
    Updated-Kept id condition change db _ keeps (update_where-Updated id condition change db)

state-IsFrame :
    (now : ℕ) (s : VolumeState)
    → state_counts (some s) ≡ true
    → (t : Tx) → is_reserved t.volume_state ≡ true
    → IsFrame t (with_state now s t)
state-IsFrame now s live t r = record {
  id = refl;
  hash = refl;
  time = refl;
  counts = λ a d. reserved_counts now s live a d t r;
}

pub commit-Kept : (now id : ℕ) (db : Db) → Kept id db (commit_transaction_volume now id db).0
unfolding commit_transaction_volume
commit-Kept now id db =
    update_where-Kept id _ (with_state now committed) db
      (λ t h. (state-IsFrame now committed refl t h, omega arith))

pub hold-Kept : (now id : ℕ) (db : Db) → Kept id db (hold_transaction_volume now id db).0
unfolding hold_transaction_volume
hold-Kept now id db =
    update_where-Kept id _ (with_state now held) db
      (λ t h. (state-IsFrame now held refl t h, omega arith))

released-Kept :
    (now id : ℕ) (db : Db) (t : Tx) (found : find_tx id db.txs ≡ some t)
    → (volume : ℕ → ℕ → Option ℕ)
    → Conserving db (written id db volume t (with_state now released t) found refl)
    → Kept id db (written id db volume t (with_state now released t) found refl)
released-Kept now id db t found volume c =
    written-Kept id db volume t (with_state now released t) found refl refl refl (omega arith) c

release_where-Kept :
    (now id : ℕ) (extra : Tx → Bool) (db : Db) → Kept id db (release_where now id extra db).0
unfolding release_where
release_where-Kept now id extra db =
    let c : Conserving db (release_where now id extra db).0 =
      λ base. release_where-Conserves base now id extra db in
    elim (Option-cases (find_tx id db.txs)) [
      | inl e ↦ rw (e, release_where) (Kept-refl id db)
      | inr (t, e) ↦ elim (Bool-cases (is_reserved t.volume_state && extra t)) [
        | inr miss ↦ rw (e, release_where) (rw miss (Kept-refl id db))
        | inl hit ↦
            let ran : (release_where now id extra db).0
                ≡ written id db
                    (give_back t.agent t.volume_reserved_usd t.volume_reserved_date db.volume) t
                    (with_state now released t) e refl =
              rw (e, release_where) (rw hit refl) in
            rw ran (released-Kept now id db t e _ (rw ran at c))
      ]
    ]

or_hold-Kept :
    (now id : ℕ) (db : Db) (r : Db × Bool) → Kept id db r.0 → Kept id db (or_hold now id r).0
or_hold-Kept now id db (after, true) k = k
or_hold-Kept now id db (after, false) k = Kept-trans k (hold-Kept now id after)

pub settle_after_revert-Kept :
    (now id : ℕ) (db : Db) → Kept id db (settle_volume_after_revert now id db).0
unfolding settle_volume_after_revert
settle_after_revert-Kept now id db = or_hold-Kept now id db _ (release_where-Kept now id _ db)

pub settle_after_failure-Kept :
    (now id : ℕ) (db : Db) → Kept id db (settle_volume_after_failure now id db).0
unfolding settle_volume_after_failure
settle_after_failure-Kept now id db =
    or_hold-Kept now id db _ (release_where-Kept now id never_sent db)
