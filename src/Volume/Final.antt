-- ===== src/Volume/Final.antt =====
-- Settlements after a settlement of the same row.
use agentfi.Base.{
  ℕ, ◌≡◌, refl, ap, inl, inr, Bool, true, false, none, some, arith, Bool-cases, Option-cases, leb,
}
use agentfi.Volume.{Tx, Db, VolumeState, committed, released, held, find_tx, set_tx, is_reserved}
use agentfi.Volume.Settle.{
  update_where, with_state, commit_transaction_volume, hold_transaction_volume, release_where,
  or_hold, settle_volume_after_revert, settle_volume_after_failure, never_sent,
}
use agentfi.Volume.Approved.{find_tx-set_tx}

-- No live reservation under this id.
abbrev pub is_live : ℕ → Db → Bool
is_live id db = elim (find_tx id db.txs) [ none ↦ false | some t ↦ is_reserved t.volume_state ]

update_where-not_live :
    (now id : ℕ) (s : VolumeState) (db : Db)
    → is_reserved (some s) ≡ false
    → is_live id (update_where id (λ t. is_reserved t.volume_state) (with_state now s) db).0 ≡ false
unfolding update_where
update_where-not_live now id s db e = elim (Option-cases (find_tx id db.txs)) [
  | inl missing ↦ rw (missing, update_where) (rw (missing, is_live) refl)
  | inr (t, found) ↦ elim (Bool-cases (is_reserved t.volume_state)) [
    | inl live ↦
        rw (found, update_where)
          (rw live (rw (find_tx-set_tx id t (with_state now s t) db.txs found refl, is_live) e))
    | inr dead ↦ rw (found, update_where) (rw dead (rw (found, is_live) dead))
  ]
]

release_where-not_live :
    (now id : ℕ) (extra : Tx → Bool) (db after : Db)
    → release_where now id extra db ≡ (after, true)
    → is_live id after ≡ false
unfolding release_where
release_where-not_live now id extra db after h = elim (Option-cases (find_tx id db.txs)) [
  | inl missing ↦ ground arith
  | inr (t, found) ↦
      let stored : after.txs ≡ set_tx id (with_state now released t) db.txs = ground arith in
      let again : find_tx id after.txs ≡ some (with_state now released t) =
        rw stored (find_tx-set_tx id t (with_state now released t) db.txs found refl) in
      rw (again, is_live) refl
]

-- The four settlements, by what calls them.
pub data Settlement : Type 0 where
  on_confirm on_hold on_revert on_failure : Settlement

unfoldable pub settle : Settlement → (now id : ℕ) → Db → Db
settle on_confirm now id db = (commit_transaction_volume now id db).0
settle on_hold now id db = (hold_transaction_volume now id db).0
settle on_revert now id db = (settle_volume_after_revert now id db).0
settle on_failure now id db = (settle_volume_after_failure now id db).0

hold-not_live : (now id : ℕ) (db : Db) → is_live id (hold_transaction_volume now id db).0 ≡ false
unfolding hold_transaction_volume
hold-not_live now id db = update_where-not_live now id held db refl

or_hold-not_live :
    (now id : ℕ) (r : Db × Bool)
    → (r.1 ≡ true → is_live id r.0 ≡ false)
    → is_live id (or_hold now id r).0 ≡ false
or_hold-not_live now id (db, true) given = given refl
or_hold-not_live now id (db, false) given = hold-not_live now id db

release_or_hold-not_live :
    (now id : ℕ) (extra : Tx → Bool) (db : Db)
    → is_live id (or_hold now id (release_where now id extra db)).0 ≡ false
release_or_hold-not_live now id extra db =
    or_hold-not_live now id (release_where now id extra db) (λ done.
      release_where-not_live now id extra db (release_where now id extra db).0 (ground arith))

settle-not_live : (s : Settlement) (now id : ℕ) (db : Db) → is_live id (settle s now id db) ≡ false
unfolding settle commit_transaction_volume settle_volume_after_revert settle_volume_after_failure
settle-not_live on_confirm now id db = update_where-not_live now id committed db refl
settle-not_live on_hold now id db = hold-not_live now id db
settle-not_live on_revert now id db =
    release_or_hold-not_live now id (λ t. leb t.broadcast_attempts 1) db
settle-not_live on_failure now id db = release_or_hold-not_live now id never_sent db

update_where-dead :
    (now id : ℕ) (s : VolumeState) (db : Db)
    → is_live id db ≡ false
    → update_where id (λ t. is_reserved t.volume_state) (with_state now s) db ≡ (db, false)
unfolding update_where
update_where-dead now id s db h = ground arith

release_where-dead :
    (now id : ℕ) (extra : Tx → Bool) (db : Db)
    → is_live id db ≡ false
    → release_where now id extra db ≡ (db, false)
unfolding release_where
release_where-dead now id extra db h = ground arith

hold-dead :
    (now id : ℕ) (db : Db) → is_live id db ≡ false → hold_transaction_volume now id db ≡ (db, false)
unfolding hold_transaction_volume
hold-dead now id db h = update_where-dead now id held db h

release_or_hold-dead :
    (now id : ℕ) (extra : Tx → Bool) (db : Db)
    → is_live id db ≡ false
    → (or_hold now id (release_where now id extra db)).0 ≡ db
release_or_hold-dead now id extra db h =
    rw (release_where-dead now id extra db h, hold-dead now id db h) refl

settle-dead :
    (s : Settlement) (now id : ℕ) (db : Db) → is_live id db ≡ false → settle s now id db ≡ db
unfolding settle commit_transaction_volume settle_volume_after_revert settle_volume_after_failure
settle-dead on_confirm now id db h = ap (λ r. r.0) (update_where-dead now id committed db h)
settle-dead on_hold now id db h = ap (λ r. r.0) (hold-dead now id db h)
settle-dead on_revert now id db h =
    release_or_hold-dead now id (λ t. leb t.broadcast_attempts 1) db h
settle-dead on_failure now id db h = release_or_hold-dead now id never_sent db h

-- A reservation is settled at most once: after any settlement of a row, no settlement of it changes
-- the rows or the stored volumes.
pub settle-once :
    (first second : Settlement) (now later id : ℕ) (db : Db)
    → settle second later id (settle first now id db) ≡ settle first now id db
settle-once first second now later id db =
    settle-dead second later id (settle first now id db) (settle-not_live first now id db)
