-- ===== src/Ledger/Split.antt =====
-- Counted and retryable rows against each other.
use agentfi.Base.{ℕ, ◌≤◌, ◌≡◌, true, not, arith}
use agentfi.Ledger.{
  ResourcePayment, counted_where, retryable_where, live_refusal_where, is_live_refusal,
  is_retryable,
}

-- At every time each row is counted or may be retried, and never both: the queries and the tests in
-- memory agree, so a retry never takes over a row whose amount still counts.
pub counted_where-not-retryable :
    (row : ResourcePayment) (now : ℕ)
    → (counted_where now row ≡ not (retryable_where now row))
      × (is_retryable row now ≡ retryable_where now row)
      × (is_live_refusal row now ≡ live_refusal_where now row)
unfolding counted_where retryable_where is_retryable live_refusal_where
counted_where-not-retryable row now = (ground arith, ground arith, ground arith)

-- A row that may be retried may be retried at every later time, while nothing is written to it.
pub retryable_where_mono :
    (row : ResourcePayment) (now later : ℕ)
    → now ≤ later
    → retryable_where now row ≡ true
    → retryable_where later row ≡ true
unfolding retryable_where
retryable_where_mono row now later h r = ground arith
