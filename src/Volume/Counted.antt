-- ===== src/Volume/Counted.antt =====
-- What the rows of an agent and a day count, and how a write to one row changes it.
use agentfi.Base.{
  ℕ, ◌+◌, ◌≡◌, ap, inl, inr, Bool, true, false, ◌&&◌, Option, none, some, List, [], ◌∷◌, arith,
  ◌==◌, if◌then◌else◌, opt_eq, Bool-cases,
}
use agentfi.Volume.{
  Tx, Db, VolumeState, reserved, committed, released, held, find_tx, set_tx, micro_or_zero,
}

-- A released reservation no longer counts; a held one does.
abbrev pub state_counts : Option VolumeState → Bool
state_counts (some reserved) = true
state_counts (some committed) = true
state_counts (some held) = true
state_counts (some released) = false
state_counts none = false

unfoldable pub counts_on : ℕ → ℕ → Tx → ℕ
counts_on a d t =
    if t.agent == a && (opt_eq t.volume_reserved_date (some d) && state_counts t.volume_state)
    then micro_or_zero t.volume_reserved_usd
    else 0

unfoldable pub counted : ℕ → ℕ → List Tx → ℕ
counted a d [] = 0
counted a d (t ∷ ts) = counts_on a d t + counted a d ts

-- The stored volume of each agent and day is what its rows count, plus what the other spend paths
-- (jobs and escrows) put there: `base`.
abbrev pub Conserves : (ℕ → ℕ → ℕ) → Db → Type 0
Conserves base db = (a d : ℕ) → micro_or_zero (db.volume a d) ≡ base a d + counted a d db.txs

pub counted-set_tx :
    (a d id : ℕ) (t new : Tx) (ts : List Tx)
    → find_tx id ts ≡ some t
    → counted a d (set_tx id new ts) + counts_on a d t ≡ counted a d ts + counts_on a d new
unfolding counted find_tx set_tx
counted-set_tx a d id t new [] h = cc
counted-set_tx a d id t new (u ∷ us) h = elim (Bool-cases (u.id == id)) [
  | inl hit ↦
      let same : counts_on a d u ≡ counts_on a d t = ap (counts_on a d) (ground arith) in
      rw hit (omega (arith, same))
  | inr miss ↦ rw miss (omega (arith, counted-set_tx a d id t new us (ground arith)))
]

-- A write that leaves what the row counts.
pub set_tx-Conserves :
    (base : ℕ → ℕ → ℕ) (db : Db) (id : ℕ) (t new : Tx)
    → Conserves base db
    → find_tx id db.txs ≡ some t
    → ((a d : ℕ) → counts_on a d new ≡ counts_on a d t)
    → Conserves base (record db { txs = set_tx id new db.txs })
set_tx-Conserves base db id t new c f same a d =
    omega (arith, c a d, counted-set_tx a d id t new db.txs f, same a d)
