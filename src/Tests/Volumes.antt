-- ===== src/Tests/Volumes.antt =====
-- The theorems on reservations, payments and logins at sample inputs.
use agentfi.Base.{
  ℕ, ◌≡◌, ◌≢◌, ◌≤◌, ◌+◌, refl, Bool, true, false, not, Option, none, some, List, [], ◌∷◌, Text,
  codes, ltb, leb, length, if◌then◌else◌, arith, text_eq, ◌==◌, ◌&&◌,
}
use agentfi.Decimal
use agentfi.Decimal.{policy_decimal_to_micro}
use agentfi.Ledger
use agentfi.Ledger.{
  ResourcePayment, utc_day, counted_where, retryable_where, is_retryable, is_live_refusal,
  live_refusal_where,
}
use agentfi.Ledger.Split.{counted_where-not-retryable}
use agentfi.Login.{Limits, get_attempt, register_login_failure}
use agentfi.Login.Lockout.{register_all, register_all-locked}
use agentfi.Policy.Floats
use agentfi.Policy.Pricing.{oracle}
use agentfi.Volume
use agentfi.Volume.{
  Tx, Db, TxStatus, pending_approval, queued, submitted, find_tx, add_volume, micro_or_zero,
}
use agentfi.Volume.Create
use agentfi.Volume.Create.{
  CreateParams, created, not_created, price_unavailable, create_transaction_with_volume,
  with_reservation, active_limit,
}
use agentfi.Volume.Approve
use agentfi.Volume.Approve.{
  approved, not_approved, approval_not_pending, approve_pending_transaction, queue,
}
use agentfi.Volume.Settle.{
  mark_broadcast_attempt, stamp, settle_volume_after_failure, was_released,
  stop_stamped_transaction, handed_to_chain,
}
use agentfi.Volume.Counted.{counted, Conserves}
use agentfi.Volume.Within.{day_total, create-within_limit, create-replayed}
use agentfi.Volume.Approved.{Approvable, approve-queued, approve-within_limit}
use agentfi.Volume.Final.{settle, settle-once, on_failure, on_confirm}
use agentfi.Volume.Sent.{mark-settle_failure, mark-stop_stamped}
use agentfi.Volume.Reach.{Operation, perform_all, perform_all-Conserves}
use agentfi.Tests.{micro_floats, sample_policy}

abbrev pub row_one : Tx
row_one = record {
  id = 1;
  agent = 1;
  idempotency_key = some 77;
  status = pending_approval;
  volume_state = none;
  volume_reserved_usd = none;
  volume_reserved_date = none;
  volume_price_source = none;
  volume_accounting = none;
  a2a_payment = false;
  tx_hash = none;
  broadcast_tx_hash = none;
  broadcast_attempted_at = none;
  broadcast_attempts = 0;
  error = none;
  updated_at = 0;
}

-- One agent with a policy, no rows yet.
abbrev pub empty_db : Db
empty_db = record {
  txs = [];
  volume = λ a d. none;
  agent_active = λ a. some true;
  policy = λ a. some sample_policy;
  payments = [];
}

-- Three dollars and a half, on day 20.
abbrev first_create : CreateParams
first_create = record {
  agent = 1;
  value_usd = some (codes "3.5");
  unpriced = false;
  price_source = some oracle;
  row = row_one;
  now = 1_728_000_005;
}

abbrev reserved_one : Tx
reserved_one = with_reservation 3_500_000 20 (some oracle) row_one

abbrev created_db : Db
created_db = record empty_db {
  txs = reserved_one ∷ [];
  volume = add_volume 1 20 3_500_000 (λ a d. none);
}

first_created :
    create_transaction_with_volume micro_floats first_create empty_db
    ≡ some (created_db, created reserved_one false)
unfolding create_transaction_with_volume Create.reservable_usd Decimal.fixed_point
    Decimal.fixed_parts Decimal.big_int agentfi.Base.split Create.find_key
    Floats.parse_policy_decimal Decimal.is_policy_decimal Decimal.decimal_shape Decimal.digits1
    Decimal.is_digit policy_decimal_to_micro utc_day Ledger.resource_payment_spent_today
    Create.insert_tx
first_created = refl

first_usd : Create.reservable_usd micro_floats first_create.value_usd ≡ some 3_500_000
unfolding Create.reservable_usd Decimal.fixed_point Decimal.fixed_parts Decimal.big_int
    agentfi.Base.split
first_usd = refl

limited : Create.has_limit micro_floats (some sample_policy) ≡ true
unfolding Floats.is_positive Floats.parse_policy_decimal Decimal.is_policy_decimal
    Decimal.decimal_shape agentfi.Base.split Decimal.digits1 Decimal.is_digit Decimal.fixed_point
    Decimal.fixed_parts Decimal.big_int
limited = refl

create-within_limit_example :
    (day_total created_db 1 (utc_day 1_728_000_005) 1_728_000_005
      ≤ micro_or_zero (policy_decimal_to_micro (active_limit (some sample_policy))))
    × (reserved_one
        ≡ with_reservation
            (micro_floats.to_fixed_micro 3_500_000)
            (utc_day 1_728_000_005)
            (some oracle)
            row_one)
create-within_limit_example =
    create-within_limit micro_floats first_create 3_500_000 empty_db created_db reserved_one limited
      first_usd first_created

create-replayed_example :
    create_transaction_with_volume micro_floats first_create created_db
    ≡ some (created_db, created reserved_one true)
create-replayed_example =
    create-replayed micro_floats first_create first_create 77 empty_db created_db reserved_one false
      refl refl refl refl first_created

-- The approval on the next day.
abbrev next_day : ℕ
next_day = 1_814_400_001

abbrev approved_db : Db
approved_db = (approve_pending_transaction micro_floats 1 next_day created_db).0

first_approved :
    approve_pending_transaction micro_floats 1 next_day created_db ≡ (approved_db, approved 21 true)
unfolding approve_pending_transaction find_tx Floats.parse_policy_decimal Decimal.is_policy_decimal
    Decimal.decimal_shape agentfi.Base.split Decimal.digits1 Decimal.is_digit Decimal.fixed_point
    Decimal.fixed_parts Decimal.big_int policy_decimal_to_micro utc_day
    Ledger.resource_payment_spent_today
first_approved = refl

found_one : find_tx 1 created_db.txs ≡ some reserved_one
unfolding find_tx
found_one = refl

reservation_one : Approve.reservation reserved_one ≡ some (3_500_000, 20)
unfolding Approve.reservation
reservation_one = refl

limited_approval : Approve.has_daily_limit micro_floats (some sample_policy) ≡ true
unfolding Floats.is_positive Floats.parse_policy_decimal Decimal.is_policy_decimal
    Decimal.decimal_shape agentfi.Base.split Decimal.digits1 Decimal.is_digit Decimal.fixed_point
    Decimal.fixed_parts Decimal.big_int
limited_approval = refl

exact_limit : policy_decimal_to_micro (Approve.limit_text (some sample_policy)) ≡ some 50_500_000
unfolding policy_decimal_to_micro Decimal.is_policy_decimal Decimal.decimal_shape agentfi.Base.split
    Decimal.digits1 Decimal.is_digit Decimal.fixed_point Decimal.fixed_parts Decimal.big_int
exact_limit = refl

approve-queued_example :
    Approvable micro_floats next_day reserved_one created_db
    × (find_tx 1 approved_db.txs
        ≡ some (record reserved_one {
          status = queued;
          volume_reserved_date = some (utc_day next_day);
          updated_at = next_day;
        }))
approve-queued_example =
    approve-queued micro_floats 1 next_day reserved_one created_db approved_db 21 true found_one
      first_approved

approve-within_limit_example :
    (day_total approved_db 1 21 next_day ≤ 50_500_000)
    × (21 ≡ (if ltb 20 (utc_day next_day) then utc_day next_day else 20))
approve-within_limit_example =
    approve-within_limit micro_floats 1 next_day reserved_one 3_500_000 20 50_500_000 created_db
      approved_db 21 true found_one reservation_one limited_approval exact_limit first_approved

settle-once_example :
    settle on_confirm 8 1 (settle on_failure 7 1 created_db) ≡ settle on_failure 7 1 created_db
settle-once_example = settle-once on_failure on_confirm 7 8 1 created_db

abbrev queued_one : Tx
queued_one = record reserved_one { status = queued }

abbrev queued_db : Db
queued_db = record created_db { txs = queued_one ∷ [] }

abbrev marked_db : Db
marked_db = record created_db { txs = stamp 5 (some 99) queued_one ∷ [] }

first_marked : mark_broadcast_attempt 5 1 (some 99) queued_db ≡ some marked_db
unfolding mark_broadcast_attempt find_tx Volume.set_tx
first_marked = refl

mark-settle_failure_example :
    ((settle_volume_after_failure 6 1 marked_db).0.volume ≡ queued_db.volume)
    × ((settle_volume_after_failure 6 1 marked_db).1 ≢ was_released)
mark-settle_failure_example = mark-settle_failure 5 6 1 (some 99) queued_db marked_db first_marked

mark-stop_stamped_example :
    ((stop_stamped_transaction 6 1 0 true marked_db).1 ≡ handed_to_chain 99)
    × ((t : Tx) × (find_tx 1 (stop_stamped_transaction 6 1 0 true marked_db).0.txs ≡ some t)
        × (t.status ≡ submitted)
        × (t.tx_hash ≡ some 99))
mark-stop_stamped_example = mark-stop_stamped 5 6 1 0 99 queued_db marked_db first_marked refl

-- A creation, its approval on the next day, and a revert.
abbrev sample_run : List Operation
sample_run =
    Operation.create first_create ∷ Operation.approve 1 next_day ∷ Operation.after_revert 9 1 ∷ []

empty_Conserves : Conserves (λ a d. 0) empty_db
unfolding counted
empty_Conserves a d = refl

perform_all-Conserves_example :
    micro_or_zero ((perform_all micro_floats sample_run empty_db).volume 1 21)
    ≡ 0 + counted 1 21 (perform_all micro_floats sample_run empty_db).txs
perform_all-Conserves_example =
    perform_all-Conserves micro_floats (λ a d. 0) sample_run empty_db ((refl, refl), (tt, (tt, tt)))
      empty_Conserves 1 21

abbrev refused_payment : ResourcePayment
refused_payment = record {
  agent = 1;
  status = Ledger.ResourcePaymentStatus.refused;
  authorization_valid_before = some 50;
  updated_at = 10;
  reserved_at = 10;
  amount = codes "2500";
}

counted_where-not-retryable_example :
    (counted_where 60 refused_payment ≡ not (retryable_where 60 refused_payment))
    × (is_retryable refused_payment 60 ≡ retryable_where 60 refused_payment)
    × (is_live_refusal refused_payment 60 ≡ live_refusal_where 60 refused_payment)
counted_where-not-retryable_example = counted_where-not-retryable refused_payment 60

abbrev three_tries : Limits
three_tries = record { max_attempts = 3; window_ms = 600; lockout_ms = 1000 }

abbrev user_key : Text
user_key = codes "u|1"

no_attempt : get_attempt user_key [] ≡ none
unfolding get_attempt
no_attempt = refl

register_all-locked_example :
    (register_login_failure three_tries user_key 12
      (register_all three_tries user_key (10 ∷ 11 ∷ []) [])).1.locked
    ≡ (true && leb 3 (2 + 1))
register_all-locked_example =
    register_all-locked three_tries user_key (10 ∷ 11 ∷ []) 12 [] no_attempt
      ((omega arith, tt), omega arith) (omega arith)
