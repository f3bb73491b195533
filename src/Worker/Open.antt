-- ===== src/Worker/Open.antt =====
-- The transaction worker's writes against the rows that are still open: those that no outcome has
-- been recorded for.
use agentfi.Base.{
  ℕ, ◌≤◌, ◌≡◌, ◌≢◌, refl, sym, ap, ◌∙◌, inl, inr, Bool, true, false, Option, none, some, List, [],
  ◌∷◌, ◌==◌, if◌then◌else◌, ==_iff, arith, Bool-cases, Option-cases, is_some,
}
use agentfi.Volume.{Tx, Db, find_tx, set_tx}
use agentfi.Volume.Settle.{update_where, is_terminal}
use agentfi.Volume.Approved.{find_tx-set_tx}
use agentfi.Volume.Counted.{Conserves, counts_on, set_tx-Conserves}

abbrev pub open_tx : Tx → ℕ
open_tx t = if is_terminal t.status then 0 else 1

abbrev pub open_of : Option Tx → ℕ
open_of none = 0
open_of (some t) = open_tx t

-- One where the row is there and open, else zero.
abbrev pub open_row : ℕ → Db → ℕ
open_row id db = open_of (find_tx id db.txs)

-- What the stamp of a broadcast attempt has written to a row.
pub record Stamp : Type 0 where
  pub hash : Option ℕ
  pub attempted_at : Option ℕ

abbrev pub stamp_of : Option Tx → Stamp
stamp_of none = record { hash = none; attempted_at = none }
stamp_of (some t) = record { hash = t.broadcast_tx_hash; attempted_at = t.broadcast_attempted_at }

abbrev pub stamp_row : ℕ → Db → Stamp
stamp_row id db = stamp_of (find_tx id db.txs)

-- The volumes stay what the rows count.
abbrev pub Conserving : Db → Db → Type 0
Conserving db after = (base : ℕ → ℕ → ℕ) → Conserves base db → Conserves base after

abbrev pub Others : ℕ → Db → Db → Type 0
Others id db after = (other : ℕ) → other ≢ id → open_row other after ≡ open_row other db

-- Only this row may have been closed, and no stamp has changed.
pub record Kept (id : ℕ) (db after : Db) : Type 0 where
  pub others : Others id db after
  pub own : open_row id after ≤ open_row id db
  pub stamps : (any : ℕ) → stamp_row any after ≡ stamp_row any db
  pub conserves : Conserving db after

-- This row, and no other, has been closed, and no stamp has changed.
pub record Closed (id : ℕ) (db after : Db) : Type 0 where
  pub others : Others id db after
  pub before : open_row id db ≡ 1
  pub now : open_row id after ≡ 0
  pub stamps : (any : ℕ) → stamp_row any after ≡ stamp_row any db
  pub conserves : Conserving db after

-- This row has been stamped with a hash; it may have been closed.
pub record Marked (id signed : ℕ) (db after : Db) : Type 0 where
  pub others : Others id db after
  pub own : open_row id after ≤ open_row id db
  pub stamps : (any : ℕ) → any ≢ id → stamp_row any after ≡ stamp_row any db
  pub its_hash : (stamp_row id after).hash ≡ some signed
  pub its_time : is_some (stamp_row id after).attempted_at ≡ true
  pub conserves : Conserving db after

find_tx-id : (id : ℕ) (t : Tx) (ts : List Tx) → find_tx id ts ≡ some t → t.id ≡ id
unfolding find_tx
find_tx-id id t [] h = cc
find_tx-id id t (u ∷ us) h = elim (Bool-cases (u.id == id)) [
  | inl hit ↦ ground arith
  | inr miss ↦ find_tx-id id t us (ground arith)
]

pub find_tx-set_tx_other :
    (id other : ℕ) (new : Tx) (ts : List Tx)
    → new.id ≡ id
    → other ≢ id
    → find_tx other (set_tx id new ts) ≡ find_tx other ts
unfolding find_tx set_tx
find_tx-set_tx_other id other new [] e ne = refl
find_tx-set_tx_other id other new (u ∷ us) e ne = elim (Bool-cases (u.id == id)) [
  | inl hit ↦ ground arith
  | inr miss ↦
      rw miss
        (ap (λ o. if u.id == other then some u else o) (find_tx-set_tx_other id other new us e ne))
]

-- A write to the row of an id, with its id kept.
module _ (id : ℕ) (db : Db) (volume : ℕ → ℕ → Option ℕ) (t new : Tx)
    (found : find_tx id db.txs ≡ some t) (same : new.id ≡ t.id) where
  abbrev pub written : Db
  written = record db { txs = set_tx id new db.txs; volume = volume }

  pub written-elsewhere :
      (other : ℕ) → other ≢ id → find_tx other written.txs ≡ find_tx other db.txs
  written-elsewhere other ne =
      find_tx-set_tx_other id other new db.txs (same ∙ find_tx-id id t db.txs found) ne

  pub written-Others : Others id db written
  written-Others other ne = ap open_of (written-elsewhere other ne)

  pub written-own : open_row id written ≡ open_tx new
  written-own = ap open_of (find_tx-set_tx id t new db.txs found same)

  -- A write that keeps the stamp.
  module _ (hash : new.broadcast_tx_hash ≡ t.broadcast_tx_hash)
      (time : new.broadcast_attempted_at ≡ t.broadcast_attempted_at) where
    written-stamps : (any : ℕ) → stamp_row any written ≡ stamp_row any db
    written-stamps any = elim (Bool-cases (any == id)) [
      | inl e ↦
          let q : any ≡ id = (==_iff any id).0 e in
          rw q (
            ap stamp_of (find_tx-set_tx id t new db.txs found same)
            ∙ stamp_kept
            ∙ ap stamp_of (sym found))
      | inr e ↦ ap stamp_of (written-elsewhere any (ground arith))
    ]
      where
        stamp_kept : stamp_of (some new) ≡ stamp_of (some t)
        stamp_kept = ground arith

    pub written-Kept : open_tx new ≤ open_tx t → Conserving db written → Kept id db written
    written-Kept le c = record {
      others = written-Others;
      own = rw (written-own, found) le;
      stamps = written-stamps;
      conserves = c;
    }

    pub written-Closed :
        open_tx t ≡ 1 → open_tx new ≡ 0 → Conserving db written → Closed id db written
    written-Closed p q c = record {
      others = written-Others;
      before = rw found p;
      now = rw written-own q;
      stamps = written-stamps;
      conserves = c;
    }

-- A write that keeps what the row reserves.
pub written-conserves :
    (id : ℕ) (db : Db) (t new : Tx)
    → find_tx id db.txs ≡ some t
    → ((a d : ℕ) → counts_on a d new ≡ counts_on a d t)
    → Conserving db (record db { txs = set_tx id new db.txs })
written-conserves id db t new found same base c = set_tx-Conserves base db id t new c found same

pub Kept-refl : (id : ℕ) (db : Db) → Kept id db db
Kept-refl id db = record {
  others = λ other ne. refl;
  own = omega arith;
  stamps = λ any. refl;
  conserves = λ base c. c;
}

pub Kept-trans : {id : ℕ} {a b c : Db} → Kept id a b → Kept id b c → Kept id a c
Kept-trans k l = record {
  others = λ other ne. l.others other ne ∙ k.others other ne;
  own = omega (arith, k.own, l.own);
  stamps = λ any. l.stamps any ∙ k.stamps any;
  conserves = λ base c. l.conserves base (k.conserves base c);
}

pub Closed-Kept : {id : ℕ} {a b c : Db} → Closed id a b → Kept id b c → Closed id a c
Closed-Kept k l = record {
  others = λ other ne. l.others other ne ∙ k.others other ne;
  before = k.before;
  now = omega (arith, k.now, l.own);
  stamps = λ any. l.stamps any ∙ k.stamps any;
  conserves = λ base c. l.conserves base (k.conserves base c);
}

pub Closed→Kept : {id : ℕ} {a b : Db} → Closed id a b → Kept id a b
Closed→Kept k = record {
  others = k.others;
  own = omega (arith, k.now);
  stamps = k.stamps;
  conserves = k.conserves;
}

-- What an update does: nothing, or it writes the row that meets its condition.
pub data Updated (id : ℕ) (condition : Tx → Bool) (change : Tx → Tx) (db : Db) (r : Db × Bool)
    : Type 0 where
  missed : r ≡ (db, false) → Updated id condition change db r
  wrote :
      (t : Tx)
      → find_tx id db.txs ≡ some t
      → condition t ≡ true
      → r ≡ (record db { txs = set_tx id (change t) db.txs }, true)
      → Updated id condition change db r

pub update_where-Updated :
    (id : ℕ) (condition : Tx → Bool) (change : Tx → Tx) (db : Db)
    → Updated id condition change db (update_where id condition change db)
unfolding update_where
update_where-Updated id condition change db = elim (Option-cases (find_tx id db.txs)) [
  | inl e ↦ missed (ground arith)
  | inr (t, e) ↦ elim (Bool-cases (condition t)) [
    | inl hit ↦ wrote t e hit (ground arith)
    | inr miss ↦ missed (ground arith)
  ]
]
