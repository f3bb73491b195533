-- ===== src/Ledger.antt =====
-- packages/backend/src/services/payments/resource-payment-ledger.ts: which x402 payment rows count
-- against a job budget and the payer's daily volume. Times are milliseconds since the epoch.
pub mod Split
use agentfi.Base.{
  ℕ, ◌+◌, ◌*◌, ◌/◌, Bool, true, false, not, ◌&&◌, ◌||◌, Option, none, some, List, [], ◌∷◌, Text,
  ltb, leb, ◌==◌, if◌then◌else◌,
}
use agentfi.Decimal.{digits1, big_int}

pub data ResourcePaymentStatus : Type 0 where
  reserved pending settled unknown refused failed_before_signing : ResourcePaymentStatus

pub record ResourcePayment : Type 0 where
  pub agent : ℕ
  pub status : ResourcePaymentStatus
  pub authorization_valid_before : Option ℕ
  pub updated_at : ℕ
  pub reserved_at : ℕ
  pub amount : Text

-- `LEGACY_REFUSAL_WINDOW_SECONDS`, in milliseconds.
abbrev pub legacy_refusal_window : ℕ
legacy_refusal_window = 600 * 1000

abbrev pub always_counted : ResourcePaymentStatus → Bool
always_counted reserved = true
always_counted pending = true
always_counted settled = true
always_counted unknown = true
always_counted refused = false
always_counted failed_before_signing = false

abbrev pub is_refused : ResourcePaymentStatus → Bool
is_refused refused = true
is_refused _ = false

abbrev pub is_unsigned : ResourcePaymentStatus → Bool
is_unsigned failed_before_signing = true
is_unsigned _ = false

-- `{ gt: now }` on a nullable column, which no null satisfies.
abbrev pub later_than : Option ℕ → ℕ → Bool
later_than none now = false
later_than (some t) now = ltb now t

abbrev pub not_later_than : Option ℕ → ℕ → Bool
not_later_than none now = false
not_later_than (some t) now = leb t now

abbrev pub is_null : Option ℕ → Bool
is_null none = true
is_null (some t) = false

-- `updatedAt > now - window`, written without the subtraction.
unfoldable pub after_cutoff : ℕ → ℕ → Bool
after_cutoff updated_at now = ltb now (updated_at + legacy_refusal_window)

-- `liveRefusalWhere`, `countedWhere` and `retryableWhere` as tests of one row.
unfoldable pub live_refusal_where : ℕ → ResourcePayment → Bool
unfolding after_cutoff
live_refusal_where now row =
    is_refused row.status
    && (later_than row.authorization_valid_before now
        || is_null row.authorization_valid_before && after_cutoff row.updated_at now)

unfoldable pub counted_where : ℕ → ResourcePayment → Bool
unfolding after_cutoff
counted_where now row =
    always_counted row.status
    || is_refused row.status && later_than row.authorization_valid_before now
    || is_refused row.status
      && (is_null row.authorization_valid_before && after_cutoff row.updated_at now)

unfoldable pub retryable_where : ℕ → ResourcePayment → Bool
unfolding after_cutoff
retryable_where now row =
    is_unsigned row.status
    || is_refused row.status && not_later_than row.authorization_valid_before now
    || is_refused row.status
      && (is_null row.authorization_valid_before && not (after_cutoff row.updated_at now))

unfoldable pub refusal_live_until : ResourcePayment → Option ℕ
refusal_live_until row =
    if not (is_refused row.status) then none else elim row.authorization_valid_before [
      | some t ↦ some t
      | none ↦ some (row.updated_at + legacy_refusal_window)
    ]

unfoldable pub is_live_refusal : ResourcePayment → ℕ → Bool
unfolding refusal_live_until
is_live_refusal row now = later_than (refusal_live_until row) now

unfoldable pub is_retryable : ResourcePayment → ℕ → Bool
unfolding is_live_refusal
is_retryable row now =
    if is_unsigned row.status then true else is_refused row.status && not (is_live_refusal row now)

-- `sumBaseUnits`: rows with a malformed amount are skipped.
unfoldable pub sum_base_units : List ResourcePayment → ℕ
sum_base_units [] = 0
sum_base_units (row ∷ rows) =
    (if digits1 row.amount then big_int row.amount else 0) + sum_base_units rows

abbrev pub day_ms : ℕ
day_ms = 86_400_000

-- `utcDay`: the days since the epoch, which order as the `YYYY-MM-DD` texts do.
unfoldable pub utc_day : ℕ → ℕ
utc_day now = now / day_ms

unfoldable pub start_of_utc_day : ℕ → ℕ
unfolding utc_day
start_of_utc_day now = utc_day now * day_ms

unfoldable pub counts_today : ℕ → ℕ → ResourcePayment → Bool
unfolding start_of_utc_day counted_where
counts_today agent now row =
    row.agent == agent && (leb (start_of_utc_day now) row.reserved_at && counted_where now row)

unfoldable pub select_today : ℕ → ℕ → List ResourcePayment → List ResourcePayment
unfolding counts_today
select_today agent now [] = []
select_today agent now (row ∷ rows) =
    let rest = select_today agent now rows in
    if counts_today agent now row then row ∷ rest else rest

-- `resourcePaymentSpentToday`.
unfoldable pub resource_payment_spent_today : List ResourcePayment → ℕ → ℕ → ℕ
unfolding select_today sum_base_units
resource_payment_spent_today rows agent now = sum_base_units (select_today agent now rows)
