-- ===== src/Volume/Within.antt =====
-- The daily limit after a creation or an approval, and what a refusal or a replay leaves.
use agentfi.Base.{
  ℕ, ◌+◌, ◌≤◌, ◌≡◌, refl, ap, inl, inr, Bool, true, false, some, ◌∷◌, arith, if◌then◌else◌,
  Bool-cases, Option-cases,
}
use agentfi.Decimal.{policy_decimal_to_micro}
use agentfi.Ledger.{utc_day, resource_payment_spent_today}
use agentfi.Policy.Floats.{Floats}
use agentfi.Volume.{Tx, Db, counted_zero, counted_unpriced, micro_or_zero, add_volume}
use agentfi.Volume.Create.{
  CreateParams, CreateWithVolumeResult, created, not_created, CreateCode,
  create_transaction_with_volume, create_fresh, reserve, exceeds_day, create_row, with_reservation,
  existing_row, reservable_usd, has_limit, active_limit, find_key, with_accounting,
}
use agentfi.Volume.Entry.{create_row_lem}

-- The total of an agent's day: the stored volume and the counted x402 payments.
abbrev pub day_total : Db → ℕ → ℕ → ℕ → ℕ
day_total db agent day now =
    micro_or_zero (db.volume agent day) + resource_payment_spent_today db.payments agent now

module _ (fl : Floats) where
  reserve-within :
      (params : CreateParams) (micro : ℕ) (db after : Db) (t : Tx) (replayed : Bool)
      → has_limit fl (db.policy params.agent) ≡ true
      → reserve fl params micro db ≡ some (after, created t replayed)
      → (day_total after params.agent (utc_day params.now) params.now
          ≤ micro_or_zero (policy_decimal_to_micro (active_limit (db.policy params.agent))))
        × (t ≡ with_reservation micro (utc_day params.now) params.price_source params.row)
  unfolding reserve exceeds_day
  reserve-within params micro db after t replayed limited h =
      elim (Bool-cases (exceeds_day fl params micro db)) [
        | inl over ↦ ground arith
        | inr fits ↦
            let e =
              create_row_lem
                (with_reservation micro (utc_day params.now) params.price_source params.row)
                (record db {
                  volume = add_volume params.agent (utc_day params.now) micro db.volume;
                })
                (after, created t replayed) (ground arith) in
            let stored : after ≡ (record db {
              txs =
                  with_reservation micro (utc_day params.now) params.price_source params.row
                  ∷ db.txs;
              volume = add_volume params.agent (utc_day params.now) micro db.volume;
            }) =
              ap (λ r. r.0) e in
            (rw stored (ground arith), ground arith)
      ]

  -- A creation that reserves under a daily limit leaves the day of the agent, this reservation and
  -- the counted x402 payments included, within the limit; its row holds the reservation.
  pub create-within_limit :
      (params : CreateParams) (usd : fl.Float) (db after : Db) (t : Tx)
      → has_limit fl (db.policy params.agent) ≡ true
      → reservable_usd fl params.value_usd ≡ some usd
      → create_transaction_with_volume fl params db ≡ some (after, created t false)
      → (day_total after params.agent (utc_day params.now) params.now
          ≤ micro_or_zero (policy_decimal_to_micro (active_limit (db.policy params.agent))))
        × (t
            ≡ with_reservation
                (fl.to_fixed_micro usd)
                (utc_day params.now)
                params.price_source
                params.row)
  unfolding create_transaction_with_volume create_fresh
  create-within_limit params usd db after t limited e h =
      reserve-within params (fl.to_fixed_micro usd) db after t false limited
        (elim (Option-cases (existing_row params.agent params.row.idempotency_key db.txs)) [
          | inl fresh ↦ ground arith
          | inr (old, found) ↦ ground arith
        ])

  -- A refused creation changes nothing.
  pub create-refused :
      (params : CreateParams) (db after : Db) (code : CreateCode)
      → create_transaction_with_volume fl params db ≡ some (after, not_created code)
      → after ≡ db
  unfolding create_transaction_with_volume create_fresh reserve create_row
  create-refused params db after code h = ground arith

  created-find_key :
      (row : Tx) (agent key : ℕ) (db : Db) (r : Db × CreateWithVolumeResult)
      → row.agent ≡ agent
      → row.idempotency_key ≡ some key
      → create_row row db ≡ some r
      → (find_key agent key r.0.txs ≡ some row) × (r.1 ≡ created row false)
  unfolding find_key
  created-find_key row agent key db r a k h = rw (create_row_lem row db r h) (ground arith, refl)

  create_fresh-find_key :
      (params : CreateParams) (key : ℕ) (db after : Db) (t : Tx) (replayed : Bool)
      → params.row.agent ≡ params.agent
      → params.row.idempotency_key ≡ some key
      → create_fresh fl params db ≡ some (after, created t replayed)
      → find_key params.agent key after.txs ≡ some t
  unfolding create_fresh reserve
  create_fresh-find_key params key db after t replayed a k h =
      elim (Option-cases (reservable_usd fl params.value_usd)) [
        | inl nothing ↦
            let (f, e) =
              created-find_key
                (with_accounting (if params.unpriced then counted_unpriced else counted_zero)
                  params.row)
                params.agent key db (after, created t replayed) a k (ground arith) in
            ground arith
        | inr (usd, e) ↦
            let day = utc_day params.now in
            let (f, e) =
              created-find_key
                (with_reservation (fl.to_fixed_micro usd) day params.price_source params.row)
                params.agent key
                (record db {
                  volume = add_volume params.agent day (fl.to_fixed_micro usd) db.volume;
                })
                (after, created t replayed) a k (ground arith) in
            ground arith
      ]

  -- A row is found again by its key: a creation with the same agent and idempotency key returns the
  -- row that the first one returned and changes nothing.
  pub create-replayed :
      (params retry : CreateParams) (key : ℕ) (db after : Db) (t : Tx) (replayed : Bool)
      → params.row.agent ≡ params.agent
      → params.row.idempotency_key ≡ some key
      → retry.agent ≡ params.agent
      → retry.row.idempotency_key ≡ some key
      → create_transaction_with_volume fl params db ≡ some (after, created t replayed)
      → create_transaction_with_volume fl retry after ≡ some (after, created t true)
  unfolding create_transaction_with_volume
  create-replayed params retry key db after t replayed a k a' k' h =
      let kept : find_key params.agent key after.txs ≡ some t =
        elim (Option-cases (find_key params.agent key db.txs)) [
          | inl fresh ↦ create_fresh-find_key params key db after t replayed a k (ground arith)
          | inr (old, found) ↦ ground arith
        ] in
      ground arith
