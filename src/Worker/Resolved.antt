-- ===== src/Worker/Resolved.antt =====
-- packages/backend/src/queues/transaction.processor.ts: what onBeforeBroadcast has found where it
-- resolves.
use agentfi.Base.{ℕ, ◌≡◌, refl, inl, inr, Bool, true, false, Option, none, some, ◌==◌, Bool-cases}
use agentfi.Volume.{Db, find_tx}
use agentfi.Volume.Settle.{mark_broadcast_attempt}
use agentfi.Worker.{Env}
use agentfi.Worker.Recheck.{
  BroadcastRecheck, send_superseded, send_deferred, recheck_before_broadcast,
}
use agentfi.Worker.Process.{
  SubmitRun, HookResult, stamped, earlier_live, hook_superseded, hook_deferred, aborted,
  live_answer, earlier_broadcast, stamped_hash, refuse_if_earlier_broadcast_live, hook_recheck,
  hook_from, on_before_broadcast, stamp_result,
}

-- What the hook found where it resolves.
abbrev pub Resolved : Env → SubmitRun → ℕ → ℕ → Db → HookResult → Type 0
Resolved env run id hash db (stamped after) =
    (refuse_if_earlier_broadcast_live run id hash db ≡ none)
    × (recheck_before_broadcast env id db ≡ none)
    × (mark_broadcast_attempt env.now id (some hash) db ≡ some after)
Resolved env run id hash db _ = Unit

module _ (env : Env) (run : SubmitRun) (id hash : ℕ) (db : Db) where
  stamp-Resolved :
      refuse_if_earlier_broadcast_live run id hash db ≡ none
      → recheck_before_broadcast env id db ≡ none
      → (o : Option Db) → mark_broadcast_attempt env.now id (some hash) db ≡ o
      → Resolved env run id hash db (stamp_result o)
  stamp-Resolved p q none e = tt
  stamp-Resolved p q (some after) e = (p, q, e)

  recheck-Resolved :
      refuse_if_earlier_broadcast_live run id hash db ≡ none
      → (o : Option BroadcastRecheck) → recheck_before_broadcast env id db ≡ o
      → Resolved env run id hash db (hook_recheck env id hash db o)
  unfolding hook_recheck
  recheck-Resolved p (some (send_superseded why)) e = tt
  recheck-Resolved p (some (send_deferred delay)) e = tt
  recheck-Resolved p none e = stamp-Resolved p e _ refl

  -- The check of an earlier broadcast never resolves by itself.
  abbrev IsRefusal : Option HookResult → Type 0
  IsRefusal none = Unit
  IsRefusal (some (stamped after)) = ⊥
  IsRefusal (some _) = Unit

  from-Resolved :
      (o : Option HookResult)
      → IsRefusal o
      → refuse_if_earlier_broadcast_live run id hash db ≡ o
      → Resolved env run id hash db (hook_from env id hash db o)
  unfolding hook_from
  from-Resolved none r e = recheck-Resolved e _ refl
  from-Resolved (some (stamped after)) r e = absurd r
  from-Resolved (some (earlier_live h)) r e = tt
  from-Resolved (some (hook_superseded why)) r e = tt
  from-Resolved (some (hook_deferred delay)) r e = tt
  from-Resolved (some aborted) r e = tt

  live-IsRefusal : (earlier : ℕ) (o : Option Bool) → IsRefusal (live_answer earlier o)
  unfolding live_answer
  live-IsRefusal earlier none = tt
  live-IsRefusal earlier (some true) = tt
  live-IsRefusal earlier (some false) = tt

  earlier-IsRefusal : (o : Option ℕ) → IsRefusal (earlier_broadcast run hash o)
  unfolding earlier_broadcast
  earlier-IsRefusal none = tt
  earlier-IsRefusal (some earlier) = elim (Bool-cases (earlier == hash)) [
    | inl e ↦ rw (e, earlier_broadcast) tt
    | inr e ↦ rw (e, earlier_broadcast) (live-IsRefusal earlier _)
  ]

  pub hook-Resolved : Resolved env run id hash db (on_before_broadcast env run id hash db)
  unfolding on_before_broadcast refuse_if_earlier_broadcast_live
  hook-Resolved = from-Resolved _ (earlier-IsRefusal (stamped_hash (find_tx id db.txs))) refl
