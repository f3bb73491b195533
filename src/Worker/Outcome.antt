-- ===== src/Worker/Outcome.antt =====
-- packages/backend/src/queues/transaction.processor.ts and services/transaction/monitor.service.ts:
-- the receipt of a submitted transaction, recorded once, and what follows it.
use agentfi.Base.{
  ℕ, zero, suc, ◌+◌, Bool, true, false, ◌&&◌, Option, none, some, List, [], ◌∷◌, ltb, leb,
  if◌then◌else◌, is_some, take,
}
use agentfi.Volume.{Tx, Db, TxStatus, submitted, confirmed, reverted, failed, find_tx}
use agentfi.Volume.Settle.{
  update_where, commit_transaction_volume, hold_transaction_volume, settle_volume_after_revert,
  insert_by_age,
}
use agentfi.Worker.{Env, finalize_a2a, count_fees, World, log_call, tell_escrow}

abbrev pub is_submitted : TxStatus → Bool
is_submitted submitted = true
is_submitted _ = false

abbrev pub receipt_status : Bool → TxStatus
receipt_status true = confirmed
receipt_status false = reverted

abbrev pub with_receipt : ℕ → Bool → Tx → Tx
with_receipt now success t = record t { status = receipt_status success; updated_at = now }

-- `recordReceiptOnce`: whether this call moved the row out of SUBMITTED.
unfoldable pub record_receipt_once : ℕ → ℕ → Bool → Db → Db × Bool
unfolding update_where
record_receipt_once now id success db =
    update_where id (λ t. is_submitted t.status) (with_receipt now success) db

-- The reservation, by the recorded outcome.
unfoldable pub settle_outcome : (now : ℕ) → TxStatus → ℕ → Db → Db
settle_outcome now confirmed id db = (commit_transaction_volume now id db).0
settle_outcome now reverted id db = (settle_volume_after_revert now id db).0
settle_outcome now failed id db = (hold_transaction_volume now id db).0
settle_outcome now _ id db = db

abbrev pub is_confirmed : TxStatus → Bool
is_confirmed confirmed = true
is_confirmed _ = false

abbrev pub escrow_status : TxStatus → TxStatus
escrow_status confirmed = confirmed
escrow_status reverted = reverted
escrow_status _ = failed

-- The job behind a transaction with an outcome.
unfoldable pub finish_outcome : ℕ → Option ℕ → (a2a erc8183 : Bool) → TxStatus → World → World
finish_outcome id (some job) true erc8183 status w =
    log_call (finalize_a2a id job (is_confirmed status)) w
finish_outcome id (some job) false erc8183 status w =
    tell_escrow erc8183 id (escrow_status status) w
finish_outcome id none a2a erc8183 status w = tell_escrow erc8183 id (escrow_status status) w

-- The fees of a confirmed transaction; where the fee service throws, nothing follows.
unfoldable pub after_fees : Env → ℕ → Bool → TxStatus → World → World
unfolding finish_outcome
after_fees env id a2a status w =
    let m = env.metadata id in
    let counted = if is_confirmed status then log_call (count_fees id) w else w in
    if is_confirmed status && env.fees_throw
    then counted
    else finish_outcome id m.job_id a2a m.erc8183 status counted

unfoldable pub post_confirmation_of : Env → ℕ → Option Tx → World → World
unfolding after_fees settle_outcome
post_confirmation_of env id none w = w
post_confirmation_of env id (some t) w =
    after_fees env id t.a2a_payment t.status
      (record w { db = settle_outcome env.now t.status id w.db })

-- `runPostConfirmation`.
unfoldable pub run_post_confirmation : Env → ℕ → World → World
unfolding post_confirmation_of
run_post_confirmation env id w = post_confirmation_of env id (find_tx id w.db.txs) w

-- What follows the record of a receipt: the outcome, for the observer that recorded it.
unfoldable pub if_recorded : Env → ℕ → World → Db × Bool → World
unfolding run_post_confirmation
if_recorded env id w (db, true) = run_post_confirmation env id (record w { db = db })
if_recorded env id w (db, false) = record w { db = db }

unfoldable pub observe_receipt : Env → ℕ → Bool → World → World
unfolding if_recorded record_receipt_once
observe_receipt env id success w =
    if_recorded env id w (record_receipt_once env.now id success w.db)

-- `waitForConfirmation` with `runPostConfirmation`: the first receipt of at most 20 polls. A poll
-- answers whether the transaction succeeded, or that there is no receipt.
unfoldable pub first_receipt : ℕ → List (Option Bool) → Option Bool
first_receipt zero polls = none
first_receipt (suc n) [] = none
first_receipt (suc n) (some success ∷ polls) = some success
first_receipt (suc n) (none ∷ polls) = first_receipt n polls

abbrev pub max_polls : ℕ
max_polls = 20

abbrev pub observe_found : Env → ℕ → Option Bool → World → World
observe_found env id none w = w
observe_found env id (some success) w = observe_receipt env id success w

unfoldable pub wait_for_confirmation : Env → ℕ → List (Option Bool) → World → World
unfolding first_receipt observe_receipt
wait_for_confirmation env id polls w = observe_found env id (first_receipt max_polls polls) w

-- What the re-poll asks about a row: its receipt, and whether any node knows it. `none` is an error.
pub record RepollAnswers : Type 0 where
  pub receipt : ℕ → Option (Option Bool)
  pub is_known_transaction : ℕ → Option Bool

pub record RepollOptions : Type 0 where
  pub older_than_ms : ℕ
  pub drop_after_ms : ℕ
  pub limit : ℕ

abbrev pub drop_row : ℕ → ℕ → Tx → Tx
drop_row now error t = record t { status = failed; error = some error; updated_at = now }

-- A row without a receipt.
unfoldable pub drop_if_unknown : Env → (error : ℕ) → ℕ → Option Bool → World → World
unfolding update_where if_recorded
drop_if_unknown env error id none w = w
drop_if_unknown env error id (some true) w = w
drop_if_unknown env error id (some false) w =
    if_recorded env id w
      (update_where id (λ t. is_submitted t.status) (drop_row env.now error) w.db)

unfoldable pub repoll_receipt :
    Env
    → RepollAnswers
    → RepollOptions
    → (error : ℕ) → Tx
    → ℕ
    → Option (Option Bool)
    → World
    → World
unfolding drop_if_unknown observe_receipt
repoll_receipt env answers opts error row hash none w = w
repoll_receipt env answers opts error row hash (some (some success)) w =
    observe_receipt env row.id success w
repoll_receipt env answers opts error row hash (some none) w =
    if ltb env.now (row.updated_at + opts.drop_after_ms)
    then w
    else drop_if_unknown env error row.id (answers.is_known_transaction hash) w

unfoldable pub repoll_hash :
    Env → RepollAnswers → RepollOptions → (error : ℕ) → Tx → Option ℕ → World → World
unfolding repoll_receipt
repoll_hash env answers opts error row none w = w
repoll_hash env answers opts error row (some hash) w =
    repoll_receipt env answers opts error row hash (answers.receipt hash) w

unfoldable pub repoll_row : Env → RepollAnswers → RepollOptions → (error : ℕ) → Tx → World → World
unfolding repoll_hash
repoll_row env answers opts error row w = repoll_hash env answers opts error row row.tx_hash w

abbrev pub is_repolled : ℕ → ℕ → Tx → Bool
is_repolled now older_than t =
    is_submitted t.status && (is_some t.tx_hash && leb (t.updated_at + older_than) now)

unfoldable pub submitted_rows : ℕ → ℕ → List Tx → List Tx
unfolding insert_by_age
submitted_rows now older_than [] = []
submitted_rows now older_than (t ∷ ts) =
    let rest = submitted_rows now older_than ts in
    if is_repolled now older_than t then insert_by_age t rest else rest

unfoldable pub repoll_rows :
    Env → RepollAnswers → RepollOptions → (error : ℕ) → List Tx → World → World
unfolding repoll_row
repoll_rows env answers opts error [] w = w
repoll_rows env answers opts error (row ∷ rows) w =
    repoll_rows env answers opts error rows (repoll_row env answers opts error row w)

-- `repollSubmittedTransactions`, without its summary.
unfoldable pub repoll_submitted_transactions :
    Env → RepollAnswers → RepollOptions → (error : ℕ) → World → World
unfolding repoll_rows submitted_rows
repoll_submitted_transactions env answers opts error w =
    repoll_rows env answers opts error
      (take opts.limit (submitted_rows env.now opts.older_than_ms w.db.txs)) w
