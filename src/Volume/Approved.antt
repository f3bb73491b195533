-- ===== src/Volume/Approved.antt =====
-- What a successful and a refused approval leave.
use agentfi.Base.{
  ℕ, ◌≤◌, ◌≡◌, refl, ap, ◌∙◌, inl, inr, Bool, true, false, none, some, List, [], ◌∷◌, arith, ◌==◌,
  ltb, if◌then◌else◌, Bool-cases,
}
use agentfi.Decimal.{policy_decimal_to_micro}
use agentfi.Ledger.{utc_day}
use agentfi.Policy.Floats.{Floats}
use agentfi.Volume.{Tx, Db, queued, find_tx, set_tx}
use agentfi.Volume.Approve.{
  approved, not_approved, ApprovalRefusalCode, approve_pending_transaction, approve_row,
  approval_barred, approve_reserved, exceeds_approval_day, reservation, queue, move_volume,
  has_daily_limit, limit_text, is_pending_approval, is_active_agent, policy_inactive,
  policy_expired,
}
use agentfi.Volume.Within.{day_total}

-- The row that a write by primary key stored is found again.
pub find_tx-set_tx :
    (id : ℕ) (t new : Tx) (ts : List Tx)
    → find_tx id ts ≡ some t
    → new.id ≡ t.id
    → find_tx id (set_tx id new ts) ≡ some new
unfolding find_tx set_tx
find_tx-set_tx id t new [] h e = cc
find_tx-set_tx id t new (u ∷ us) h e = elim (Bool-cases (u.id == id)) [
  | inl hit ↦ ground arith
  | inr miss ↦ rw miss (rw miss (find_tx-set_tx id t new us (ground arith) e))
]

queue-id : (moved : Bool) (today now : ℕ) (t : Tx) → (queue moved today now t).id ≡ t.id
queue-id true today now t = refl
queue-id false today now t = refl

module _ (fl : Floats) where
  -- What a successful approval needed.
  abbrev pub Approvable : ℕ → Tx → Db → Type 0
  Approvable now t db =
      (is_pending_approval t.status ≡ true)
      × (is_active_agent (db.agent_active t.agent) ≡ true)
      × (policy_inactive (db.policy t.agent) ≡ false)
      × (policy_expired (db.policy t.agent) now ≡ false)

  barred-Approvable :
      (now : ℕ) (t : Tx) (db : Db) → approval_barred fl now t db ≡ none → Approvable now t db
  unfolding approval_barred
  barred-Approvable now t db h = (ground arith, ground arith, ground arith, ground arith)

  approve_reserved-within :
      (id now : ℕ) (t : Tx) (usd made limit : ℕ) (db after : Db) (day : ℕ) (moved : Bool)
      → has_daily_limit fl (db.policy t.agent) ≡ true
      → policy_decimal_to_micro (limit_text (db.policy t.agent)) ≡ some limit
      → approve_reserved fl id now t usd made db ≡ (after, approved day moved)
      → day_total after t.agent day now ≤ limit
  unfolding approve_reserved exceeds_approval_day
  approve_reserved-within id now t usd made limit db after day moved limited e h =
      elim (Bool-cases (exceeds_approval_day fl now t usd made db)) [
        | inl over ↦ ground arith
        | inr fits ↦ elim (Bool-cases (ltb made (utc_day now))) [
          | inl earlier ↦
              let stored : after ≡ (record db {
                txs = set_tx id (queue true (utc_day now) now t) db.txs;
                volume = move_volume true t.agent usd made (utc_day now) db.volume;
              }) =
                ground arith in
              let same : day ≡ utc_day now = ground arith in rw (stored, same) (ground arith)
          | inr today ↦
              let stored : after ≡ (record db {
                txs = set_tx id (queue false (utc_day now) now t) db.txs;
                volume = move_volume false t.agent usd made (utc_day now) db.volume;
              }) =
                ground arith in
              let same : day ≡ made = ground arith in rw (stored, same) (ground arith)
        ]
      ]

  approve_reserved-day :
      (id now : ℕ) (t : Tx) (usd made : ℕ) (db after : Db) (day : ℕ) (moved : Bool)
      → approve_reserved fl id now t usd made db ≡ (after, approved day moved)
      → day ≡ (if ltb made (utc_day now) then utc_day now else made)
  unfolding approve_reserved
  approve_reserved-day id now t usd made db after day moved h = ground arith

  -- A refused approval changes nothing.
  pub approve-refused :
      (id now : ℕ) (db after : Db) (code : ApprovalRefusalCode)
      → approve_pending_transaction fl id now db ≡ (after, not_approved code)
      → after ≡ db
  unfolding approve_pending_transaction approve_row approve_reserved
  approve-refused id now db after code h = ground arith

  approve_row_lem :
      (id now : ℕ) (t : Tx) (db after : Db) (day : ℕ) (moved : Bool)
      → approve_row fl id now t db ≡ (after, approved day moved)
      → (approval_barred fl now t db ≡ none)
        × (after.txs ≡ set_tx id (queue moved (utc_day now) now t) db.txs)
  unfolding approve_row approve_reserved
  approve_row_lem id now t db after day moved h = (ground arith, ground arith)

  queue-row :
      (moved : Bool) (today now : ℕ) (t : Tx)
      → queue moved today now t ≡ record t {
        status = queued;
        volume_reserved_date = if moved then some today else t.volume_reserved_date;
        updated_at = now;
      }
  queue-row true today now t = refl
  queue-row false today now t = refl

  -- An approval that succeeds found the row waiting, the agent active, its policy neither paused nor
  -- expired; the row is then queued, on the day of the approval where its reservation moved, and else
  -- unchanged but for the time of its write.
  pub approve-queued :
      (id now : ℕ) (t : Tx) (db after : Db) (day : ℕ) (moved : Bool)
      → find_tx id db.txs ≡ some t
      → approve_pending_transaction fl id now db ≡ (after, approved day moved)
      → Approvable now t db
        × (find_tx id after.txs
            ≡ some (record t {
              status = queued;
              volume_reserved_date = if moved then some (utc_day now) else t.volume_reserved_date;
              updated_at = now;
            }))
  unfolding approve_pending_transaction
  approve-queued id now t db after day moved e h =
      let (free, stored) = approve_row_lem id now t db after day moved (ground arith) in
      (
        barred-Approvable now t db free,
        rw stored (
              find_tx-set_tx id t (queue moved (utc_day now) now t) db.txs e
                (queue-id moved (utc_day now) now t))
            ∙ ap some (queue-row moved (utc_day now) now t),
      )

  -- An approval of a reservation that succeeds under a daily limit leaves the day it counts on, the
  -- later of the day it was made and the day of the approval, within the limit.
  pub approve-within_limit :
      (id now : ℕ) (t : Tx) (usd made limit : ℕ) (db after : Db) (day : ℕ) (moved : Bool)
      → find_tx id db.txs ≡ some t
      → reservation t ≡ some (usd, made)
      → has_daily_limit fl (db.policy t.agent) ≡ true
      → policy_decimal_to_micro (limit_text (db.policy t.agent)) ≡ some limit
      → approve_pending_transaction fl id now db ≡ (after, approved day moved)
      → (day_total after t.agent day now ≤ limit)
        × (day ≡ (if ltb made (utc_day now) then utc_day now else made))
  unfolding approve_pending_transaction approve_row
  approve-within_limit id now t usd made limit db after day moved e r limited exact h =
      let ran : approve_reserved fl id now t usd made db ≡ (after, approved day moved) =
        ground arith in
      (
        approve_reserved-within id now t usd made limit db after day moved limited exact ran,
        approve_reserved-day id now t usd made db after day moved ran,
      )
