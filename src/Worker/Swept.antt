-- ===== src/Worker/Swept.antt =====
-- stranded-queued.ts: what the sweep counts, and which rows it adds to the queue again.
use agentfi.Base.{
  ℕ, ◌+◌, ◌≡◌, refl, inl, inr, Bool, true, false, ◌||◌, Option, none, some, List, [], ◌∷◌, arith,
  Bool-cases, is_some, length, take,
}
use agentfi.Volume.{Tx}
use agentfi.Worker.{Env, World}
use agentfi.Worker.Stranded.{
  JobState, is_live_state, is_failed_state, StrandedSweepSummary, QueueAnswers, RowOutcome,
  was_requeued, count_row, is_given, requeue, recover_idle, recover_state, recover_row,
  recover_rows, no_row_counted, stranded_rows, recover_stranded_queued_transactions,
}

abbrev pub counted_rows : StrandedSweepSummary → ℕ
counted_rows s = s.live + s.requeued + s.settled + s.left_alone + s.errors

count_row-counted :
    (how : RowOutcome) (s : StrandedSweepSummary)
    → counted_rows (count_row how s) ≡ counted_rows s + 1
unfolding count_row
count_row-counted how s = ground arith

count_row-scanned :
    (how : RowOutcome) (s : StrandedSweepSummary) → (count_row how s).scanned ≡ s.scanned
unfolding count_row
count_row-scanned how s = ground arith

module _ (env : Env) (queue : QueueAnswers) (error : ℕ) where
  rows-counted :
      (rows : List Tx) (w : World) (s : StrandedSweepSummary)
      → (counted_rows (recover_rows env queue error rows w s).1 ≡ counted_rows s + length rows)
        × ((recover_rows env queue error rows w s).1.scanned ≡ s.scanned)
  unfolding recover_rows
  rows-counted [] w s = (omega arith, refl)
  rows-counted (row ∷ rows) w s =
      let (w', how) = recover_row env queue error row w in
      let (p, q) = rows-counted rows w' (count_row how s) in
      (omega (arith, p, count_row-counted how s), omega (arith, q, count_row-scanned how s))

  -- The sweep counts every row that it scanned exactly once, as live, added again, settled, left
  -- alone or an error.
  pub recover-counted :
      (older_than limit : ℕ) (w : World)
      → counted_rows (recover_stranded_queued_transactions env queue error older_than limit w).1
        ≡ (recover_stranded_queued_transactions env queue error older_than limit w).1.scanned
  unfolding recover_stranded_queued_transactions
  recover-counted older_than limit w =
      let rows = take limit (stranded_rows env older_than w.db.txs) in
      let (p, q) = rows-counted rows w (no_row_counted rows) in omega (arith, p, q)

-- No job of the row runs or will run: it is missing or finished.
abbrev pub is_over : Option JobState → Bool
is_over (some JobState.completed) = true
is_over (some JobState.missing) = true
is_over _ = false

-- A row that is added again: no escrow step, never stamped, without a job that may still run, and
-- with a payload to rebuild the job from.
pub record Requeued (env : Env) (queue : QueueAnswers) (row : Tx) : Type 0 where
  pub no_escrow_step : (env.metadata row.id).erc8183 ≡ false
  pub not_stamped : row.broadcast_attempted_at ≡ none
  pub job_over : is_over (queue.job_state row.id) ≡ true
  pub target : is_given (env.metadata row.id).payload_to ≡ true
  pub payload : is_given (env.metadata row.id).payload_data ≡ true

module _ (env : Env) (queue : QueueAnswers) (error : ℕ) (row : Tx) where
  requeue-given :
      (w : World)
      → (requeue env queue error row.id w).1 ≡ was_requeued
      → (is_given (env.metadata row.id).payload_to ≡ true)
        × (is_given (env.metadata row.id).payload_data ≡ true)
  unfolding requeue
  requeue-given w h = ground arith

  idle-Requeued :
      (state : JobState) (w : World)
      → (recover_idle env queue error row.id state w).1 ≡ was_requeued
      → (is_over (some state) ≡ true)
        × (is_given (env.metadata row.id).payload_to ≡ true)
        × (is_given (env.metadata row.id).payload_data ≡ true)
  unfolding recover_idle
  idle-Requeued JobState.completed w = elim (Bool-cases (queue.removes row.id)) [
    | inl e ↦ rw (e, recover_idle) (λ h. let (p, q) = requeue-given _ h in (refl, p, q))
    | inr e ↦ rw (e, recover_idle) (λ h. absurd (cc))
  ]
  idle-Requeued JobState.missing w = λ h. let (p, q) = requeue-given w h in (refl, p, q)
  idle-Requeued _ w = λ h. absurd (cc)

  no_stamp : (o : Option ℕ) (b : Bool) → (is_some o || b) ≡ false → o ≡ none
  no_stamp none b h = refl
  no_stamp (some t) b h = absurd (cc)

  state-Requeued :
      (o : Option JobState) (w : World)
      → (recover_state env queue error row o w).1 ≡ was_requeued
      → (row.broadcast_attempted_at ≡ none)
        × (is_over o ≡ true)
        × (is_given (env.metadata row.id).payload_to ≡ true)
        × (is_given (env.metadata row.id).payload_data ≡ true)
  unfolding recover_state
  state-Requeued none w = λ h. absurd (cc)
  state-Requeued (some state) w = elim (Bool-cases (is_live_state state)) [
    | inl e ↦ rw (e, recover_state) (λ h. absurd (cc))
    | inr e ↦ elim (Bool-cases (is_some row.broadcast_attempted_at || is_failed_state state)) [
      | inl f ↦ rw (e, f, recover_state) (λ h. absurd (cc))
      | inr f ↦
          rw (e, f, recover_state)
            (λ h.
              let (o, p, q) = idle-Requeued state w h in
              (no_stamp row.broadcast_attempted_at _ f, o, p, q))
    ]
  ]

  -- The sweep adds a job again only for a row that is no escrow step, was never stamped, has no
  -- job that may still run, and stores a target and data.
  pub recover_row-Requeued :
      (w : World) → (recover_row env queue error row w).1 ≡ was_requeued → Requeued env queue row
  unfolding recover_row
  recover_row-Requeued w = elim (Bool-cases (env.metadata row.id).erc8183) [
    | inl e ↦ rw (e, recover_row) (λ h. absurd (cc))
    | inr e ↦
        rw (e, recover_row)
          (λ h.
            let (s, o, p, q) = state-Requeued (queue.job_state row.id) w h in
            record { no_escrow_step = e; not_stamped = s; job_over = o; target = p; payload = q })
  ]
