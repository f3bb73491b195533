-- ===== src/Volume.antt =====
-- packages/backend/src/services/policy/daily-volume.ts: the state. One reservation for each
-- Transaction row, counted in the DailyVolume of its day until it is released. A stored volume is
-- numeric text with six decimals, whose SQL arithmetic is exact: here, a number of micro-dollars.
pub mod Settle
pub mod Counted
pub mod Create
pub mod Approve
pub mod Conserved
pub mod Entry
pub mod Within
pub mod Approved
pub mod Final
pub mod Sent
pub mod Reach
use agentfi.Base.{
  ℕ, suc, ◌+◌, ◌-◌, ◌≡◌, Bool, true, false, ◌&&◌, Option, none, some, List, [], ◌∷◌, ◌==◌,
  if◌then◌else◌,
}
use agentfi.Ledger.{ResourcePayment}
use agentfi.Policy.{AgentPolicy}
use agentfi.Policy.Pricing.{SpendPriceSource}

pub data VolumeState : Type 0 where
  reserved committed released held : VolumeState

pub data TxStatus : Type 0 where
  pending pending_approval simulating queued submitted confirmed failed reverted : TxStatus

-- `metadata.volumeAccounting`: why a row reserved nothing.
pub data VolumeAccounting : Type 0 where
  counted_zero counted_unpriced : VolumeAccounting

-- A Transaction row. Identifiers, hashes and days are numbers; an absent idempotency key stands for
-- an empty one too.
pub record Tx : Type 0 where
  pub id : ℕ
  pub agent : ℕ
  pub idempotency_key : Option ℕ
  pub status : TxStatus
  pub volume_state : Option VolumeState
  pub volume_reserved_usd : Option ℕ
  pub volume_reserved_date : Option ℕ
  pub volume_price_source : Option SpendPriceSource
  pub volume_accounting : Option VolumeAccounting
  pub a2a_payment : Bool
  pub tx_hash : Option ℕ
  pub broadcast_tx_hash : Option ℕ
  pub broadcast_attempted_at : Option ℕ
  pub broadcast_attempts : ℕ
  pub error : Option ℕ
  pub updated_at : ℕ

-- The tables that the module reads and writes; `volume agent day` is a DailyVolume row.
pub record Db : Type 0 where
  pub txs : List Tx
  pub volume : ℕ → ℕ → Option ℕ
  pub agent_active : ℕ → Option Bool
  pub policy : ℕ → Option AgentPolicy
  pub payments : List ResourcePayment

-- `findUnique` by the primary key.
unfoldable pub find_tx : ℕ → List Tx → Option Tx
find_tx id [] = none
find_tx id (t ∷ ts) = if t.id == id then some t else find_tx id ts

-- A write to the row of a primary key.
unfoldable pub set_tx : ℕ → Tx → List Tx → List Tx
set_tx id new [] = []
set_tx id new (t ∷ ts) = if t.id == id then new ∷ ts else t ∷ set_tx id new ts

abbrev pub micro_or_zero : Option ℕ → ℕ
micro_or_zero none = 0
micro_or_zero (some m) = m

-- `INSERT … ON CONFLICT DO UPDATE SET volumeUsd = volumeUsd + m`.
unfoldable pub add_volume : ℕ → ℕ → ℕ → (ℕ → ℕ → Option ℕ) → ℕ → ℕ → Option ℕ
add_volume agent day m volume a d =
    if a == agent && d == day then some (micro_or_zero (volume a d) + m) else volume a d

abbrev pub sub_stored : ℕ → Option ℕ → Option ℕ
sub_stored m none = none
sub_stored m (some v) = some (v - m)

-- `UPDATE … SET volumeUsd = GREATEST(0, volumeUsd - m)`: nothing where there is no row.
unfoldable pub sub_volume : ℕ → ℕ → ℕ → (ℕ → ℕ → Option ℕ) → ℕ → ℕ → Option ℕ
sub_volume agent day m volume a d =
    if a == agent && d == day then sub_stored m (volume a d) else volume a d

abbrev pub is_reserved : Option VolumeState → Bool
is_reserved (some reserved) = true
is_reserved (some committed) = false
is_reserved (some released) = false
is_reserved (some held) = false
is_reserved none = false
