-- ===== src/Volume/Reach.antt =====
-- Every operation of the module, in any order.
use agentfi.Base.{ℕ, inl, inr, Bool, Option, none, some, List, [], ◌∷◌, All, Option-cases}
use agentfi.Policy.Floats.{Floats}
use agentfi.Volume.{Db}
use agentfi.Volume.Create.{CreateParams, CreateWithVolumeResult, create_transaction_with_volume}
use agentfi.Volume.Approve.{approve_pending_transaction}
use agentfi.Volume.Settle.{
  commit_transaction_volume, hold_transaction_volume, settle_volume_after_revert,
  settle_volume_after_failure, mark_broadcast_attempt, stop_stamped_transaction,
  sweep_unsettled_volume,
}
use agentfi.Volume.Counted.{Conserves}
use agentfi.Volume.Conserved.{
  commit-Conserves, hold-Conserves, settle_after_revert-Conserves, settle_after_failure-Conserves,
  sweep-Conserves, stop-Conserves, marked,
}
use agentfi.Volume.Entry.{IsFresh, create-Conserves, approve-Conserves}

pub data Operation : Type 0 where
  create : CreateParams → Operation
  approve : (id now : ℕ) → Operation
  commit : (now id : ℕ) → Operation
  hold : (now id : ℕ) → Operation
  after_revert : (now id : ℕ) → Operation
  after_failure : (now id : ℕ) → Operation
  mark : (now id : ℕ) (signed : Option ℕ) → Operation
  stop : (now id err : ℕ) (hand : Bool) → Operation
  sweep : (now older_than limit : ℕ) → Operation

-- What is inserted belongs to the agent and carries no reservation.
abbrev pub IsSound : Operation → Type 0
IsSound (create params) = IsFresh params
IsSound _ = Unit

abbrev pub state_of : Db → Option (Db × CreateWithVolumeResult) → Db
state_of db none = db
state_of db (some r) = r.0

abbrev pub or_unchanged : Db → Option Db → Db
or_unchanged db none = db
or_unchanged db (some after) = after

module _ (fl : Floats) where
  -- An operation that throws writes nothing.
  unfoldable pub perform : Operation → Db → Db
  perform (create params) db = state_of db (create_transaction_with_volume fl params db)
  perform (approve id now) db = (approve_pending_transaction fl id now db).0
  perform (commit now id) db = (commit_transaction_volume now id db).0
  perform (hold now id) db = (hold_transaction_volume now id db).0
  perform (after_revert now id) db = (settle_volume_after_revert now id db).0
  perform (after_failure now id) db = (settle_volume_after_failure now id db).0
  perform (mark now id signed) db = or_unchanged db (mark_broadcast_attempt now id signed db)
  perform (stop now id err hand) db = (stop_stamped_transaction now id err hand db).0
  perform (sweep now older_than limit) db = (sweep_unsettled_volume now older_than limit db).0

  unfoldable pub perform_all : List Operation → Db → Db
  unfolding perform
  perform_all [] db = db
  perform_all (op ∷ ops) db = perform_all ops (perform op db)

  module _ (base : ℕ → ℕ → ℕ) where
    perform-Conserves :
        (op : Operation) (db : Db) → IsSound op → Conserves base db → Conserves base (perform op db)
    unfolding perform
    perform-Conserves (create params) db fresh c =
        elim (Option-cases (create_transaction_with_volume fl params db)) [
          | inl thrown ↦ rw (thrown, perform) c
          | inr (r, e) ↦ rw (e, perform) (create-Conserves base fl params db r fresh c e)
        ]
    perform-Conserves (approve id now) db u c = approve-Conserves base fl id now db c
    perform-Conserves (commit now id) db u c = commit-Conserves base now id db c
    perform-Conserves (hold now id) db u c = hold-Conserves base now id db c
    perform-Conserves (after_revert now id) db u c = settle_after_revert-Conserves base now id db c
    perform-Conserves (after_failure now id) db u c =
        settle_after_failure-Conserves base now id db c
    perform-Conserves (mark now id signed) db u c =
        elim (Option-cases (mark_broadcast_attempt now id signed db)) [
          | inl refused ↦ rw (refused, perform) c
          | inr (after, e) ↦ rw (e, perform) (marked base now id signed db after c e)
        ]
    perform-Conserves (stop now id err hand) db u c = stop-Conserves base now id err hand db c
    perform-Conserves (sweep now older_than limit) db u c =
        sweep-Conserves base now older_than limit db c

    -- Whatever operations run, in whatever order, the stored volume of each agent and day stays what
    -- the rows count on it, where every inserted row belongs to its agent and reserves nothing yet.
    pub perform_all-Conserves :
        (ops : List Operation) (db : Db)
        → All IsSound ops
        → Conserves base db
        → Conserves base (perform_all ops db)
    unfolding perform_all
    perform_all-Conserves [] db sound c = c
    perform_all-Conserves (op ∷ ops) db sound c =
        perform_all-Conserves ops (perform op db) sound.1 (perform-Conserves op db sound.0 c)
