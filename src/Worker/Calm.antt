-- ===== src/Worker/Calm.antt =====
-- What the transaction worker has told of each transaction, and may still tell.
use agentfi.Base.{
  ℕ, ◌+◌, ◌≤◌, ◌≡◌, ◌≢◌, refl, sym, ap, ◌∙◌, inl, inr, Bool, true, false, Option, none, some, List,
  [], ◌∷◌, ◌==◌, if◌then◌else◌, ==_iff, arith, Bool-cases, is_some,
}
use agentfi.Volume.{Db, TxStatus}
use agentfi.Worker.{
  Call, broadcast, finalize_a2a, escrow_outcome, count_fees, remove_job, enqueue, World, log_call,
  tell_escrow,
}
use agentfi.Worker.Open.{open_row, stamp_row, Conserving, Marked, Kept, Closed}

-- The call tells the outcome of this transaction to its job.
abbrev pub tells : ℕ → Call → ℕ
tells id (finalize_a2a i job ok) = if i == id then 1 else 0
tells id (escrow_outcome i status) = if i == id then 1 else 0
tells id _ = 0

abbrev pub told : ℕ → List Call → ℕ
told id [] = 0
told id (c ∷ cs) = tells id c + told id cs

-- The last hash that was broadcast for a transaction.
abbrev pub last_sent : ℕ → List Call → Option ℕ
last_sent id [] = none
last_sent id (broadcast i hash ∷ cs) = if i == id then some hash else last_sent id cs
last_sent id (finalize_a2a i job ok ∷ cs) = last_sent id cs
last_sent id (escrow_outcome i status ∷ cs) = last_sent id cs
last_sent id (count_fees i ∷ cs) = last_sent id cs
last_sent id (remove_job i ∷ cs) = last_sent id cs
last_sent id (enqueue i ∷ cs) = last_sent id cs

-- What was broadcast last for a transaction is what its row is stamped with.
abbrev pub Sound : ℕ → World → Type 0
Sound id w =
    (hash : ℕ)
    → last_sent id w.calls ≡ some hash
    → ((stamp_row id w.db).hash ≡ some hash) × (is_some (stamp_row id w.db).attempted_at ≡ true)

-- What a world may still tell, and has told, of each transaction does not grow; its stamps stay
-- those of what was broadcast, its volumes what the rows count.
pub record Calm (w after : World) : Type 0 where
  pub all :
      (id : ℕ) → told id after.calls + open_row id after.db ≤ told id w.calls + open_row id w.db
  pub track : (id : ℕ) → Sound id w → Sound id after
  pub conserves : Conserving w.db after.db

-- At most one call is logged, which tells the outcome of this transaction.
pub record Tells (id : ℕ) (w after : World) : Type 0 where
  pub same : after.db ≡ w.db
  pub others : (other : ℕ) → other ≢ id → told other after.calls ≡ told other w.calls
  pub own : told id after.calls ≤ told id w.calls + 1
  pub sent : (any : ℕ) → last_sent any after.calls ≡ last_sent any w.calls

pub Calm-refl : (w : World) → Calm w w
Calm-refl w = record { all = λ id. omega arith; track = λ id s. s; conserves = λ base c. c }

pub Calm-trans : {a b c : World} → Calm a b → Calm b c → Calm a c
Calm-trans k l = record {
  all = λ id. omega (arith, k.all id, l.all id);
  track = λ id s. l.track id (k.track id s);
  conserves = λ base c. l.conserves base (k.conserves base c);
}

-- The same log, over a database with the same stamps.
Sound-same :
    (id : ℕ) (w after : World)
    → last_sent id after.calls ≡ last_sent id w.calls
    → stamp_row id after.db ≡ stamp_row id w.db
    → Sound id w
    → Sound id after
Sound-same id w after logs stamps s hash h =
    let (p, q) = s hash (sym logs ∙ h) in
    (ap (λ x. x.hash) stamps ∙ p, ap (λ x. is_some x.attempted_at) stamps ∙ q)

pub Kept-Calm : (id : ℕ) (w : World) (db : Db) → Kept id w.db db → Calm w (record w { db = db })
Kept-Calm id w db k = record {
  all = λ other. elim (Bool-cases (other == id)) [
    | inl e ↦ let q : other ≡ id = (==_iff other id).0 e in rw q (omega (arith, k.own))
    | inr e ↦ omega (arith, k.others other (ground arith))
  ];
  track = λ any. Sound-same any w (record w { db = db }) refl (k.stamps any);
  conserves = k.conserves;
}

pub Closed-Calm :
    (id : ℕ) (w mid after : World)
    → Closed id w.db mid.db
    → mid.calls ≡ w.calls
    → Tells id mid after
    → Calm w after
Closed-Calm id w mid after k same t = record {
  all = λ other. elim (Bool-cases (other == id)) [
    | inl e ↦
        let q : other ≡ id = (==_iff other id).0 e in
        rw q (omega (arith, k.before, k.now, t.own, ap (told id) same, ap (open_row id) t.same))
    | inr e ↦
        let ne : other ≢ id = ground arith in
        omega (
          arith,
          k.others other ne,
          t.others other ne,
          ap (told other) same,
          ap (open_row other) t.same,
        )
  ];
  track = λ any.
      Sound-same any w after (t.sent any ∙ ap (last_sent any) same)
        (ap (stamp_row any) t.same ∙ k.stamps any);
  conserves = λ base c. rw t.same (k.conserves base c);
}

-- The broadcast of the hash that the row has just been stamped with.
module _ (id signed : ℕ) (w : World) (db : Db) (k : Marked id signed w.db db) where
  marked_open : (other : ℕ) → open_row other db ≤ open_row other w.db
  marked_open other = elim (Bool-cases (other == id)) [
    | inl e ↦ let q : other ≡ id = (==_iff other id).0 e in rw q (k.own)
    | inr e ↦ omega (arith, k.others other (ground arith))
  ]

  marked-Sound :
      (any hash : ℕ) (b : Bool)
      → (id == any) ≡ b
      → (if b then some signed else last_sent any w.calls) ≡ some hash
      → Sound any w
      → ((stamp_row any db).hash ≡ some hash) × (is_some (stamp_row any db).attempted_at ≡ true)
  marked-Sound any hash true e h s =
      let q : any ≡ id = sym ((==_iff id any).0 e) in rw q (k.its_hash ∙ h, k.its_time)
  marked-Sound any hash false e h s =
      let (p, t) = s hash h in
      let same : stamp_row any db ≡ stamp_row any w.db = k.stamps any (ground arith) in
      (ap (λ x. x.hash) same ∙ p, ap (λ x. is_some x.attempted_at) same ∙ t)

  pub Marked-Calm : Calm w (log_call (broadcast id signed) (record w { db = db }))
  Marked-Calm = record {
    all = λ other. omega (arith, marked_open other);
    track = λ any s hash h. marked-Sound any hash (id == any) refl h s;
    conserves = k.conserves;
  }

-- A call that tells nothing and sends nothing.
pub quiet-Calm :
    (c : Call) (w : World)
    → ((id : ℕ) → tells id c ≡ 0)
    → ((id : ℕ) → last_sent id (c ∷ w.calls) ≡ last_sent id w.calls)
    → Calm w (log_call c w)
quiet-Calm c w q r = record {
  all = λ id. omega (arith, q id);
  track = λ id. Sound-same id w (log_call c w) (r id) refl;
  conserves = λ base k. k;
}

pub tell_escrow-Tells :
    (erc8183 : Bool) (id : ℕ) (status : TxStatus) (w : World)
    → Tells id w (tell_escrow erc8183 id status w)
tell_escrow-Tells true id status w = record {
  same = refl;
  others = λ other ne. ground arith;
  own = ground arith;
  sent = λ any. refl;
}
tell_escrow-Tells false id status w = record {
  same = refl;
  others = λ other ne. refl;
  own = omega arith;
  sent = λ any. refl;
}

pub finalize-Tells :
    (id job : ℕ) (ok : Bool) (w : World) → Tells id w (log_call (finalize_a2a id job ok) w)
finalize-Tells id job ok w = record {
  same = refl;
  others = λ other ne. ground arith;
  own = ground arith;
  sent = λ any. refl;
}

pub nothing-Tells : (id : ℕ) (w : World) → Tells id w w
nothing-Tells id w = record {
  same = refl;
  others = λ other ne. refl;
  own = omega arith;
  sent = λ any. refl;
}
