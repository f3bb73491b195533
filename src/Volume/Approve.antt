-- ===== src/Volume/Approve.antt =====
-- packages/backend/src/services/policy/daily-volume.ts: the operator's approval of a row that waits
-- for one, which moves a reservation of an earlier day to the day of the approval.
use agentfi.Base.{
  ℕ, ◌+◌, Bool, true, false, not, ◌&&◌, Option, none, some, Text, ltb, if◌then◌else◌, is_some,
}
use agentfi.Decimal.{policy_decimal_to_micro}
use agentfi.Ledger.{utc_day, resource_payment_spent_today}
use agentfi.Policy.{AgentPolicy, is_expired}
use agentfi.Policy.Floats.{Floats, parse_policy_decimal, is_positive}
use agentfi.Volume.{
  Tx, Db, TxStatus, VolumeAccounting, counted_zero, counted_unpriced, pending_approval, queued,
  find_tx, set_tx, add_volume, sub_volume, is_reserved,
}

pub data ApprovalRefusalCode : Type 0 where
  approval_not_pending approval_agent_paused approval_policy_inactive : ApprovalRefusalCode
  approval_policy_expired approval_daily_limit approval_uncounted_spend : ApprovalRefusalCode

pub data ApprovalResult : Type 0 where
  approved : (day : ℕ) (moved : Bool) → ApprovalResult
  not_approved : ApprovalRefusalCode → ApprovalResult

abbrev pub is_pending_approval : TxStatus → Bool
is_pending_approval pending_approval = true
is_pending_approval _ = false

abbrev pub is_zero_marker : Option VolumeAccounting → Bool
is_zero_marker (some counted_zero) = true
is_zero_marker (some counted_unpriced) = false
is_zero_marker none = false

-- The live reservation of a row: its amount and its day.
unfoldable pub reservation : Tx → Option (ℕ × ℕ)
reservation t =
    if is_reserved t.volume_state
    then elim t.volume_reserved_usd [
      | none ↦ none
      | some usd ↦ elim t.volume_reserved_date [ none ↦ none | some day ↦ some (usd, day) ]
    ]
    else none

-- `agent?.active`.
abbrev pub is_active_agent : Option Bool → Bool
is_active_agent none = false
is_active_agent (some active) = active

abbrev pub policy_inactive : Option AgentPolicy → Bool
policy_inactive none = false
policy_inactive (some policy) = not policy.active

abbrev pub policy_expired : Option AgentPolicy → ℕ → Bool
policy_expired none now = false
policy_expired (some policy) now = is_expired policy.expires_at now

abbrev pub limit_text : Option AgentPolicy → Option Text
limit_text none = none
limit_text (some policy) = some policy.max_daily_volume_usd

-- `updateMany` to QUEUED, on the approval day where the reservation moves.
abbrev pub queue : Bool → (today now : ℕ) → Tx → Tx
queue true today now t = record t {
  status = queued;
  volume_reserved_date = some today;
  updated_at = now;
}
queue false today now t = record t { status = queued; updated_at = now }

-- The daily volumes after the move, with the approval's day and its stored volume.
unfoldable pub move_volume : Bool → ℕ → ℕ → ℕ → ℕ → (ℕ → ℕ → Option ℕ) → ℕ → ℕ → Option ℕ
unfolding add_volume sub_volume
move_volume true agent usd day today volume =
    add_volume agent today usd (sub_volume agent day usd volume)
move_volume false agent usd day today volume = volume

abbrev pub or_reserved : Option ℕ → ℕ → ℕ
or_reserved none usd = usd
or_reserved (some v) usd = v

-- A limit that does not read as an exact amount refuses nothing here.
abbrev pub over_day : ℕ → Option ℕ → Bool
over_day projected none = false
over_day projected (some limit) = ltb limit projected

module _ (fl : Floats) where
  abbrev pub has_daily_limit : Option AgentPolicy → Bool
  has_daily_limit policy = is_positive fl (parse_policy_decimal fl (limit_text policy))

  -- Whether the day that the approved reservation counts on would be above the limit.
  unfoldable pub exceeds_approval_day : ℕ → Tx → ℕ → ℕ → Db → Bool
  unfolding move_volume is_positive
  exceeds_approval_day now t usd day db =
      let today = utc_day now in
      let move = ltb day today in
      let stored =
        move_volume move t.agent usd day today db.volume t.agent (if move then today else day) in
      let projected =
        or_reserved stored usd + resource_payment_spent_today db.payments t.agent now in
      has_daily_limit (db.policy t.agent)
      && over_day projected (policy_decimal_to_micro (limit_text (db.policy t.agent)))

  -- The approval of a reservation of `usd` made on `day`.
  unfoldable pub approve_reserved : ℕ → ℕ → Tx → ℕ → ℕ → Db → Db × ApprovalResult
  unfolding exceeds_approval_day
  approve_reserved id now t usd day db =
      let today = utc_day now in
      let move = ltb day today in
      if exceeds_approval_day now t usd day db then (db, not_approved approval_daily_limit) else (
        record db {
          txs = set_tx id (queue move today now t) db.txs;
          volume = move_volume move t.agent usd day today db.volume;
        },
        approved (if move then today else day) move,
      )

  -- The refusals before the row is written, in the order in which the code tests them.
  unfoldable pub approval_barred : ℕ → Tx → Db → Option ApprovalRefusalCode
  unfolding reservation is_positive
  approval_barred now t db =
      let policy = db.policy t.agent in
      if not (is_pending_approval t.status)
      then some approval_not_pending
      else if not (is_active_agent (db.agent_active t.agent))
      then some approval_agent_paused
      else if policy_inactive policy
      then some approval_policy_inactive
      else if policy_expired policy now
      then some approval_policy_expired
      else if not (is_some (reservation t))
          && (has_daily_limit policy
              && (not t.a2a_payment && not (is_zero_marker t.volume_accounting)))
      then some approval_uncounted_spend
      else none

  unfoldable pub approve_row : ℕ → ℕ → Tx → Db → Db × ApprovalResult
  unfolding approve_reserved approval_barred
  approve_row id now t db = elim (approval_barred now t db) [
    | some code ↦ (db, not_approved code)
    | none ↦ elim (reservation t) [
      | none ↦ (
        record db { txs = set_tx id (queue false (utc_day now) now t) db.txs },
        approved (utc_day now) false,
      )
      | some (usd, day) ↦ approve_reserved id now t usd day db
    ]
  ]

  -- `approvePendingTransaction`.
  unfoldable pub approve_pending_transaction : ℕ → ℕ → Db → Db × ApprovalResult
  unfolding approve_row
  approve_pending_transaction id now db = elim (find_tx id db.txs) [
    | none ↦ (db, not_approved approval_not_pending)
    | some t ↦ approve_row id now t db
  ]
