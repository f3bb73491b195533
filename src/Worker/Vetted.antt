-- ===== src/Worker/Vetted.antt =====
-- pre-submit-guard.ts: what the guard has found where it lets a transaction through.
use agentfi.Base.{
  ℕ, ◌+◌, ◌≡◌, refl, sym, ap, ◌∙◌, inl, inr, Bool, true, false, not, ◌&&◌, ◌||◌, Option, none, some,
  List, [], ◌∷◌, if◌then◌else◌, arith, Bool-cases, Option-cases, is_some,
}
use agentfi.Policy.{AgentPolicy, is_expired}
use agentfi.Volume.{Tx, Db, find_tx}
use agentfi.Volume.Settle.{is_unsent, StampedStop, handed_to_chain, stopped_failed, not_queued}
use agentfi.Worker.{
  Metadata, ChainGate, Env, BlockReason, bind_skipped, Call, broadcast, World, settle_failed,
  finish_failed,
}
use agentfi.Worker.Guard.{
  PreSubmitDecision, proceed, skip, fail, defer, gate_delay, escrow_config_deferral,
  contracts_deferral, block_by, deferral, deferral_by, first_of, is_active, policy_block,
  resolve_block_reason, block_reason, after_block, block_row, after_skipped_bind, skip_bind,
  bind_reason, last_vet, vet_row, guard_row, pre_submit_guard,
}

-- How many transactions were sent.
abbrev pub sends : Call → ℕ
sends (broadcast id hash) = 1
sends _ = 0

abbrev pub broadcasts : List Call → ℕ
broadcasts [] = 0
broadcasts (c ∷ cs) = sends c + broadcasts cs

-- A policy that lets a transaction through at a time.
abbrev pub is_current : ℕ → Option AgentPolicy → Bool
is_current now none = true
is_current now (some policy) = policy.active && not (is_expired policy.expires_at now)

-- A gate that a transaction depends on is open.
abbrev pub passes : Bool → ChainGate → Bool
passes depends gate = not depends || gate.allowed

-- What the guard has found where it lets the row through. A policy sync is judged by the stored
-- policy, any other row by the pause and the expiry.
pub record Admitted (env : Env) (id : ℕ) (seen : Db) : Type 0 where
  pub row : Tx
  pub found : find_tx id seen.txs ≡ some row
  pub unsent : is_unsent row ≡ true
  pub not_blocked : block_reason env (env.metadata id) row seen ≡ none
  pub not_deferred : deferral env (env.metadata id) ≡ none

-- A vet that lets the row through writes nothing; no vet sends anything.
abbrev pub Vets : (admitted : Type 0) → World → World × PreSubmitDecision → Type 0
Vets admitted w (v, proceed) = (v ≡ w) × admitted
Vets admitted w (v, skip why) = broadcasts v.calls ≡ broadcasts w.calls
Vets admitted w (v, fail why error) = broadcasts v.calls ≡ broadcasts w.calls
Vets admitted w (v, defer delay) = broadcasts v.calls ≡ broadcasts w.calls

pub finish_failed-broadcasts :
    (id : ℕ) (job : Option ℕ) (a2a attempted erc8183 : Bool) (w : World)
    → broadcasts (finish_failed id job a2a attempted erc8183 w).calls ≡ broadcasts w.calls
unfolding finish_failed
finish_failed-broadcasts id (some job) true attempted erc8183 w = ground arith
finish_failed-broadcasts id (some job) false attempted erc8183 w = ground arith
finish_failed-broadcasts id none a2a attempted erc8183 w = ground arith

module _ (admitted : Type 0) (env : Env) (id : ℕ) where
  after_block-Vets :
      (reason : BlockReason) (a2a : Bool) (w : World) (r : Db × StampedStop)
      → Vets admitted w (after_block env id reason a2a w r)
  unfolding after_block settle_failed
  after_block-Vets reason a2a w (db, not_queued) = refl
  after_block-Vets reason a2a w (db, handed_to_chain hash) = refl
  after_block-Vets reason a2a w (db, stopped_failed attempted) =
      finish_failed-broadcasts id _ a2a attempted _ _

  after_skipped_bind-Vets :
      (reason : BlockReason) (w : World) (r : Db × StampedStop)
      → Vets admitted w (after_skipped_bind env id reason w r)
  unfolding after_skipped_bind
  after_skipped_bind-Vets reason w (db, not_queued) = refl
  after_skipped_bind-Vets reason w (db, handed_to_chain hash) = refl
  after_skipped_bind-Vets reason w (db, stopped_failed attempted) = omega arith

  last_vet-Vets : (m : Metadata) (w : World) → admitted → Vets admitted w (last_vet env id m w)
  unfolding last_vet skip_bind
  last_vet-Vets m w a = elim (Bool-cases (is_some m.policy_sync)) [
    | inl e ↦ rw (e, last_vet) (refl, a)
    | inr e ↦ elim (Option-cases (bind_reason env m)) [
      | inl f ↦ rw (e, f, last_vet) (refl, a)
      | inr (why, f) ↦ rw (e, f, last_vet) (after_skipped_bind-Vets (bind_skipped why) w _)
    ]
  ]

  vet_row-Vets :
      (m : Metadata) (reason : Option BlockReason) (delay : Option ℕ) (a2a : Bool) (w : World)
      → (reason ≡ none → delay ≡ none → admitted)
      → Vets admitted w (vet_row env id m reason delay a2a w)
  unfolding vet_row block_row
  vet_row-Vets m (some reason) delay a2a w a = after_block-Vets reason a2a w _
  vet_row-Vets m none (some delay) a2a w a = refl
  vet_row-Vets m none none a2a w a = last_vet-Vets m w (a refl refl)

module _ (env : Env) (id : ℕ) (seen : Db) (w : World) where
  guard_row-Vets :
      (o : Option Tx)
      → find_tx id seen.txs ≡ o
      → Vets (Admitted env id seen) w (guard_row env id seen o w)
  unfolding guard_row
  guard_row-Vets none found = refl
  guard_row-Vets (some t) found = elim (Bool-cases (is_unsent t)) [
    | inl e ↦
        rw (e, guard_row)
          (vet_row-Vets (Admitted env id seen) env id (env.metadata id)
            (block_reason env (env.metadata id) t seen) (deferral env (env.metadata id))
            t.a2a_payment w
            (λ p q. record {
              row = t;
              found = found;
              unsent = e;
              not_blocked = p;
              not_deferred = q;
            }))
    | inr e ↦ rw (e, guard_row) refl
  ]

  pub guard-Vets : Vets (Admitted env id seen) w (pre_submit_guard env id seen w)
  unfolding pre_submit_guard
  guard-Vets = guard_row-Vets (find_tx id seen.txs) refl

pub Vets-proceed :
    (admitted : Type 0) (w : World) (r : World × PreSubmitDecision)
    → Vets admitted w r
    → r.1 ≡ proceed
    → (r.0 ≡ w) × admitted
Vets-proceed admitted w (v, proceed) k e = k
Vets-proceed admitted w (v, skip why) k e = absurd (cc)
Vets-proceed admitted w (v, fail why error) k e = absurd (cc)
Vets-proceed admitted w (v, defer delay) k e = absurd (cc)

resolve-live :
    (now : ℕ) (agent_active : Option Bool) (policy : Option AgentPolicy)
    → resolve_block_reason now agent_active policy ≡ none
    → (is_active agent_active ≡ true) × (is_current now policy ≡ true)
unfolding resolve_block_reason policy_block
resolve-live now agent_active none h = (ground arith, refl)
resolve-live now agent_active (some policy) h = (ground arith, ground arith)

pub gate-passes :
    (depends : Bool) (gate : ChainGate)
    → (if depends then gate_delay gate else none) ≡ none
    → passes depends gate ≡ true
gate-passes true gate h = ground arith
gate-passes false gate h = refl

pub first_of-none : (o p : Option ℕ) → first_of o p ≡ none → (o ≡ none) × (p ≡ none)
first_of-none none p h = (refl, h)
first_of-none (some d) p h = absurd (cc)

or_false : (b : Bool) → (b || false) ≡ b
or_false true = refl
or_false false = refl

-- What an ordinary transaction was found to be, where the guard lets it through.
pub record IsLive (env : Env) (id : ℕ) (seen : Db) : Type 0 where
  pub row : Tx
  pub found : find_tx id seen.txs ≡ some row
  pub unsent : is_unsent row ≡ true
  pub agent_active : is_active (seen.agent_active row.agent) ≡ true
  pub policy_current : is_current env.now (seen.policy row.agent) ≡ true
  pub escrow_verified :
      passes (env.metadata id).erc8183 (env.escrow_config_gate (env.metadata id).chain_id) ≡ true
  pub contracts_verified :
      passes
        (env.metadata id).routed_via_executor
        (env.policy_stack_gate (env.metadata id).chain_id)
      ≡ true

Admitted-IsLive :
    (env : Env) (id : ℕ) (seen : Db)
    → (env.metadata id).policy_sync ≡ none
    → Admitted env id seen
    → IsLive env id seen
unfolding block_reason block_by deferral deferral_by escrow_config_deferral contracts_deferral
Admitted-IsLive env id seen ordinary a =
    let m = env.metadata id in
    let live =
      resolve-live env.now (seen.agent_active a.row.agent) (seen.policy a.row.agent)
        (ap (block_by env m a.row seen) (sym ordinary) ∙ a.not_blocked) in
    let gates =
      first_of-none (escrow_config_deferral env m) (contracts_deferral env m false)
        (ap (λ o. deferral_by env m (is_some o)) (sym ordinary) ∙ a.not_deferred) in
    record {
      row = a.row;
      found = a.found;
      unsent = a.unsent;
      agent_active = live.0;
      policy_current = live.1;
      escrow_verified = gate-passes m.erc8183 _ gates.0;
      contracts_verified = gate-passes m.routed_via_executor _ (
          ap (λ b. if b then gate_delay (env.policy_stack_gate m.chain_id) else none)
            (sym (or_false m.routed_via_executor))
          ∙ gates.1);
    }

-- The guard lets a row that is no policy sync through only if what it read shows the row queued
-- without a hash, the agent active, its policy neither paused nor expired, and the gates that the
-- row depends on open.
pub guard-IsLive :
    (env : Env) (id : ℕ) (seen : Db) (w : World)
    → (env.metadata id).policy_sync ≡ none
    → (pre_submit_guard env id seen w).1 ≡ proceed
    → IsLive env id seen
guard-IsLive env id seen w ordinary e =
    Admitted-IsLive env id seen ordinary
      (Vets-proceed (Admitted env id seen) w _ (guard-Vets env id seen w) e).1
