-- ===== src/Volume/Entry.antt =====
-- The creation and the approval of a row, against what the rows count.
use agentfi.Base.{
  ℕ, ◌+◌, ◌-◌, ◌≡◌, refl, ◌⊎◌, inl, inr, true, false, ◌&&◌, Option, none, some, ◌∷◌, arith, ltb,
  if◌then◌else◌, Bool-cases, Option-cases, opt_eq,
}
use agentfi.Ledger.{utc_day}
use agentfi.Policy.Pricing.{SpendPriceSource}
use agentfi.Policy.Floats.{Floats}
use agentfi.Volume.{
  Tx, Db, VolumeAccounting, counted_zero, counted_unpriced, find_tx, set_tx, micro_or_zero,
  add_volume, sub_volume, is_reserved,
}
use agentfi.Volume.Create.{
  CreateParams, CreateWithVolumeResult, created, not_created, daily_limit, price_unavailable,
  create_transaction_with_volume, create_fresh, reserve, exceeds_day, create_row, insert_tx,
  with_accounting, with_reservation, existing_row, needs_lock, reservable_usd, has_limit,
}
use agentfi.Volume.Approve.{
  approve_pending_transaction, approve_row, approval_barred, approve_reserved, exceeds_approval_day,
  reservation, queue, move_volume,
}
use agentfi.Volume.Conserved.{same_counts}
use agentfi.Volume.Counted.{Conserves, counted, counts_on, counted-set_tx, set_tx-Conserves}

-- The row that a caller hands in belongs to the agent and reserves nothing by itself.
abbrev pub IsFresh : CreateParams → Type 0
IsFresh params = (params.row.agent ≡ params.agent) × (params.row.volume_state ≡ none)

reservation_counts :
    (a d agent day micro : ℕ) (source : Option SpendPriceSource) (t : Tx)
    (volume : ℕ → ℕ → Option ℕ)
    → t.agent ≡ agent
    → micro_or_zero (add_volume agent day micro volume a d)
      ≡ micro_or_zero (volume a d) + counts_on a d (with_reservation micro day source t)
unfolding add_volume counts_on
reservation_counts a d agent day micro source t volume e = ground arith

nothing_counts : (a d : ℕ) (t : Tx) → t.volume_state ≡ none → counts_on a d t ≡ 0
unfolding counts_on
nothing_counts a d t e = ground arith

-- A successful insertion puts the row in front and changes nothing else.
pub create_row_lem :
    (row : Tx) (db : Db) (r : Db × CreateWithVolumeResult)
    → create_row row db ≡ some r
    → r ≡ (record db { txs = row ∷ db.txs }, created row false)
unfolding create_row insert_tx
create_row_lem row db r h = ground arith

-- What the row of a reservation holds.
reservation_lem :
    (t : Tx) (usd day : ℕ)
    → reservation t ≡ some (usd, day)
    → (is_reserved t.volume_state ≡ true)
      × (t.volume_reserved_usd ≡ some usd)
      × (t.volume_reserved_date ≡ some day)
unfolding reservation
reservation_lem t usd day h = ground arith

moved :
    (a d : ℕ) (t : Tx) (usd day today now : ℕ) (volume : ℕ → ℕ → Option ℕ)
    → is_reserved t.volume_state ≡ true
    → t.volume_reserved_usd ≡ some usd
    → t.volume_reserved_date ≡ some day
    → ltb day today ≡ true
    → micro_or_zero (move_volume true t.agent usd day today volume a d)
      ≡ micro_or_zero (volume a d) - counts_on a d t + counts_on a d (queue true today now t)
unfolding move_volume add_volume sub_volume counts_on
moved a d t usd day today now volume r e f h = ground arith

-- The row counts on one day, before or after the move.
one_day :
    (a d : ℕ) (t : Tx) (day today now : ℕ)
    → t.volume_reserved_date ≡ some day
    → ltb day today ≡ true
    → (counts_on a d t ≡ 0) ⊎ (counts_on a d (queue true today now t) ≡ 0)
unfolding counts_on
one_day a d t day today now f h = elim (Bool-cases (opt_eq t.volume_reserved_date (some d))) [
  | inl hit ↦ inr (ground arith)
  | inr miss ↦ inl (ground arith)
]

module _ (base : ℕ → ℕ → ℕ) where
  -- An insertion whose row counts what the volumes gained.
  create_row-Conserves :
      (row : Tx) (db : Db) (r : Db × CreateWithVolumeResult)
      → ((a d : ℕ)
          → micro_or_zero (db.volume a d) ≡ base a d + (counts_on a d row + counted a d db.txs))
      → create_row row db ≡ some r
      → Conserves base r.0
  unfolding counted
  create_row-Conserves row db r c h = rw (create_row_lem row db r h) c

  module _ (fl : Floats) where
    reserve-Conserves :
        (params : CreateParams) (micro : ℕ) (db : Db) (r : Db × CreateWithVolumeResult)
        → IsFresh params
        → Conserves base db
        → reserve fl params micro db ≡ some r
        → Conserves base r.0
    unfolding reserve
    reserve-Conserves params micro db r fresh c h =
        elim (Bool-cases (exceeds_day fl params micro db)) [
          | inl over ↦ let e : r ≡ (db, not_created daily_limit) = ground arith in rw e c
          | inr fits ↦
              let day = utc_day params.now in
              create_row-Conserves (with_reservation micro day params.price_source params.row)
                (record db { volume = add_volume params.agent day micro db.volume }) r
                (λ a d. omega (
                  arith,
                  c a d,
                  reservation_counts a d params.agent day micro params.price_source params.row
                      db.volume fresh.0,
                ))
                (ground arith)
        ]

    unreserved-Conserves :
        (marker : VolumeAccounting) (params : CreateParams) (db : Db)
        (r : Db × CreateWithVolumeResult)
        → IsFresh params
        → Conserves base db
        → create_row (with_accounting marker params.row) db ≡ some r
        → Conserves base r.0
    unreserved-Conserves marker params db r fresh c h =
        create_row-Conserves (with_accounting marker params.row) db r
          (λ a d.
            omega (arith, c a d, nothing_counts a d (with_accounting marker params.row) fresh.1))
          h

    create_fresh-Conserves :
        (params : CreateParams) (db : Db) (r : Db × CreateWithVolumeResult)
        → IsFresh params
        → Conserves base db
        → create_fresh fl params db ≡ some r
        → Conserves base r.0
    unfolding create_fresh
    create_fresh-Conserves params db r fresh c h =
        elim (Bool-cases (params.unpriced && has_limit fl (db.policy params.agent))) [
          | inl refused ↦ let e : r ≡ (db, not_created price_unavailable) = ground arith in rw e c
          | inr judged ↦ elim (Option-cases (reservable_usd fl params.value_usd)) [
            | inl nothing ↦
                unreserved-Conserves (if params.unpriced then counted_unpriced else counted_zero)
                  params db r fresh c (ground arith)
            | inr (usd, e) ↦
                reserve-Conserves params (fl.to_fixed_micro usd) db r fresh c (ground arith)
          ]
        ]

    pub create-Conserves :
        (params : CreateParams) (db : Db) (r : Db × CreateWithVolumeResult)
        → IsFresh params
        → Conserves base db
        → create_transaction_with_volume fl params db ≡ some r
        → Conserves base r.0
    unfolding create_transaction_with_volume
    create-Conserves params db r fresh c h = elim (Bool-cases (needs_lock fl params)) [
      | inr free ↦ unreserved-Conserves counted_zero params db r fresh c (ground arith)
      | inl lock ↦
          elim (Option-cases (existing_row params.agent params.row.idempotency_key db.txs)) [
            | inr (old, e) ↦ let same : r ≡ (db, created old true) = ground arith in rw same c
            | inl fresh_key ↦ create_fresh-Conserves params db r fresh c (ground arith)
          ]
    ]

    queue-Conserves :
        (id : ℕ) (t : Tx) (today now : ℕ) (db : Db)
        → Conserves base db
        → find_tx id db.txs ≡ some t
        → Conserves base (record db { txs = set_tx id (queue false today now t) db.txs })
    queue-Conserves id t today now db c e =
        set_tx-Conserves base db id t (queue false today now t) c e
          (λ a d. same_counts a d t (queue false today now t) refl refl refl refl)

    move-Conserves :
        (id : ℕ) (t : Tx) (usd day today now : ℕ) (db : Db)
        → Conserves base db
        → find_tx id db.txs ≡ some t
        → reservation t ≡ some (usd, day)
        → ltb day today ≡ true
        → Conserves base (record db {
          txs = set_tx id (queue true today now t) db.txs;
          volume = move_volume true t.agent usd day today db.volume;
        })
    move-Conserves id t usd day today now db c e r h a d =
        let (live, amount, date) = reservation_lem t usd day r in
        elim (one_day a d t day today now date h) [
          | inl old ↦ omega (
            arith,
            old,
            c a d,
            moved a d t usd day today now db.volume live amount date h,
            counted-set_tx a d id t (queue true today now t) db.txs e,
          )
          | inr new ↦ omega (
            arith,
            new,
            c a d,
            moved a d t usd day today now db.volume live amount date h,
            counted-set_tx a d id t (queue true today now t) db.txs e,
          )
        ]

    approve_reserved-Conserves :
        (id now : ℕ) (t : Tx) (usd day : ℕ) (db : Db)
        → Conserves base db
        → find_tx id db.txs ≡ some t
        → reservation t ≡ some (usd, day)
        → Conserves base (approve_reserved fl id now t usd day db).0
    unfolding approve_reserved move_volume
    approve_reserved-Conserves id now t usd day db c e r =
        elim (Bool-cases (exceeds_approval_day fl now t usd day db)) [
          | inl over ↦ rw (over, approve_reserved) c
          | inr fits ↦ elim (Bool-cases (ltb day (utc_day now))) [
            | inl earlier ↦
                rw (fits, approve_reserved)
                  (rw earlier (move-Conserves id t usd day (utc_day now) now db c e r earlier))
            | inr same ↦
                rw (fits, approve_reserved)
                  (rw same (queue-Conserves id t (utc_day now) now db c e))
          ]
        ]

    approve_row-Conserves :
        (id now : ℕ) (t : Tx) (db : Db)
        → Conserves base db
        → find_tx id db.txs ≡ some t
        → Conserves base (approve_row fl id now t db).0
    unfolding approve_row
    approve_row-Conserves id now t db c e = elim (Option-cases (approval_barred fl now t db)) [
      | inr (code, barred) ↦ rw (barred, approve_row) c
      | inl open_row ↦ elim (Option-cases (reservation t)) [
        | inl nothing ↦
            rw (open_row, nothing, approve_row) (queue-Conserves id t (utc_day now) now db c e)
        | inr ((usd, day), r) ↦
            rw (open_row, r, approve_row) (approve_reserved-Conserves id now t usd day db c e r)
      ]
    ]

    pub approve-Conserves :
        (id now : ℕ) (db : Db)
        → Conserves base db
        → Conserves base (approve_pending_transaction fl id now db).0
    unfolding approve_pending_transaction
    approve-Conserves id now db c = elim (Option-cases (find_tx id db.txs)) [
      | inl e ↦ rw (e, approve_pending_transaction) c
      | inr (t, e) ↦ rw (e, approve_pending_transaction) (approve_row-Conserves id now t db c e)
    ]
