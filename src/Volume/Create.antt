-- ===== src/Volume/Create.antt =====
-- packages/backend/src/services/policy/daily-volume.ts: the creation of a row with its reservation.
-- The agent row lock makes the body one atomic step; a refusal rolls its writes back.
use agentfi.Base.{
  ℕ, ◌+◌, Bool, true, false, not, ◌&&◌, ◌||◌, Option, none, some, List, [], ◌∷◌, Text, ltb, ◌==◌,
  if◌then◌else◌, is_some, opt_eq, any,
}
use agentfi.Decimal.{policy_decimal_to_micro}
use agentfi.Ledger.{utc_day, resource_payment_spent_today}
use agentfi.Policy.{AgentPolicy}
use agentfi.Policy.Floats.{Floats, parse_policy_decimal, is_positive}
use agentfi.Policy.Pricing.{SpendPriceSource}
use agentfi.Volume.{
  Tx, Db, VolumeAccounting, reserved, counted_zero, counted_unpriced, micro_or_zero, add_volume,
}

-- `unpriced` is the presence of a reason; `data` is the row to insert.
pub record CreateParams : Type 0 where
  pub agent : ℕ
  pub value_usd : Option Text
  pub unpriced : Bool
  pub price_source : Option SpendPriceSource
  pub row : Tx
  pub now : ℕ

pub data CreateCode : Type 0 where
  daily_limit price_unavailable : CreateCode

pub data CreateWithVolumeResult : Type 0 where
  created : (transaction : Tx) (replayed : Bool) → CreateWithVolumeResult
  not_created : CreateCode → CreateWithVolumeResult

-- `findUnique` by the agent and its idempotency key.
abbrev pub has_key : ℕ → ℕ → Tx → Bool
has_key agent key t = t.agent == agent && opt_eq t.idempotency_key (some key)

unfoldable pub find_key : ℕ → ℕ → List Tx → Option Tx
find_key agent key [] = none
find_key agent key (t ∷ ts) = if has_key agent key t then some t else find_key agent key ts

abbrev pub existing_row : ℕ → Option ℕ → List Tx → Option Tx
existing_row agent none txs = none
existing_row agent (some key) txs = find_key agent key txs

-- `transaction.create`; `none` is the exception on a primary key or an idempotency key in use.
unfoldable pub insert_tx : Tx → Db → Option Db
insert_tx row db =
    if any (λ t. t.id == row.id) db.txs
      || is_some (existing_row row.agent row.idempotency_key db.txs)
    then none
    else some (record db { txs = row ∷ db.txs })

-- `policy.active ? policy.maxDailyVolumeUsd : …`: the text of the limit that applies.
abbrev pub active_limit : Option AgentPolicy → Option Text
active_limit none = none
active_limit (some policy) = if policy.active then some policy.max_daily_volume_usd else none

-- A projected total above the limit; a limit without an exact value is 0.
abbrev pub over_limit : ℕ → Option Text → Bool
over_limit projected raw = ltb (micro_or_zero (policy_decimal_to_micro raw)) projected

abbrev pub with_accounting : VolumeAccounting → Tx → Tx
with_accounting marker row = record row { volume_accounting = some marker }

abbrev pub with_reservation : ℕ → ℕ → Option SpendPriceSource → Tx → Tx
with_reservation micro day source row = record row {
  volume_reserved_usd = some micro;
  volume_reserved_date = some day;
  volume_state = some reserved;
  volume_price_source = source;
}

-- An insertion and what the caller gets.
unfoldable pub create_row : Tx → Db → Option (Db × CreateWithVolumeResult)
create_row row db = elim (insert_tx row db) [
  | none ↦ none
  | some after ↦ some (after, created row false)
]

module _ (fl : Floats) where
  open fl use {Float, parse_float, is_finite, gt, zero_float, to_fixed_micro}

  -- `reservableUsd`; `none` is 0, nothing to reserve.
  unfoldable pub reservable_usd : Option Text → Option Float
  reservable_usd raw =
      let usd = parse_float (elim raw [ none ↦ b'0' ∷ [] | some text ↦ text ]) in
      if is_finite usd && gt usd zero_float then some usd else none

  abbrev pub has_limit : Option AgentPolicy → Bool
  has_limit policy = is_positive fl (parse_policy_decimal fl (active_limit policy))

  -- Whether the day of `now`, with `micro` added, would be above the limit.
  unfoldable pub exceeds_day : CreateParams → ℕ → Db → Bool
  unfolding add_volume is_positive
  exceeds_day params micro db =
      let day = utc_day params.now in
      let projected =
        micro_or_zero (add_volume params.agent day micro db.volume params.agent day)
        + resource_payment_spent_today db.payments params.agent params.now in
      has_limit (db.policy params.agent)
      && over_limit projected (active_limit (db.policy params.agent))

  -- The reservation of `micro` on the day of `now`, after the binding check of the limit.
  unfoldable pub reserve : CreateParams → ℕ → Db → Option (Db × CreateWithVolumeResult)
  unfolding exceeds_day create_row
  reserve params micro db =
      let day = utc_day params.now in
      if exceeds_day params micro db
      then some (db, not_created daily_limit)
      else create_row (with_reservation micro day params.price_source params.row)
          (record db { volume = add_volume params.agent day micro db.volume })

  unfoldable pub create_fresh : CreateParams → Db → Option (Db × CreateWithVolumeResult)
  unfolding reserve
  create_fresh params db =
      if params.unpriced && has_limit (db.policy params.agent)
      then some (db, not_created price_unavailable)
      else elim (reservable_usd params.value_usd) [
        | none ↦
            create_row
              (with_accounting (if params.unpriced then counted_unpriced else counted_zero)
                params.row)
              db
        | some usd ↦ reserve params (to_fixed_micro usd) db
      ]

  abbrev pub needs_lock : CreateParams → Bool
  needs_lock params =
      is_some (reservable_usd params.value_usd)
      || params.unpriced
      || is_some params.row.idempotency_key

  -- `createTransactionWithVolume`; `none` is what `transaction.create` throws.
  unfoldable pub create_transaction_with_volume :
      CreateParams → Db → Option (Db × CreateWithVolumeResult)
  unfolding create_fresh
  create_transaction_with_volume params db =
      if not (needs_lock params)
      then create_row (with_accounting counted_zero params.row) db
      else elim (existing_row params.agent params.row.idempotency_key db.txs) [
        | some existing ↦ some (db, created existing true)
        | none ↦ create_fresh params db
      ]
