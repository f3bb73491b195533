-- ===== src/Policy/Service/Row/Pause.antt =====
-- The operator's pause and resume against the other writers of `active`.
use agentfi.Base.{
  ℕ, ◌≡◌, refl, ap, ◌⊎◌, inl, inr, Bool, true, false, not, Option, none, some, List, [], ◌∷◌, ◌++◌,
  arith, is_some, all, Bool-cases,
}
use agentfi.Policy.{AgentPolicy}
use agentfi.Policy.Authority.{PolicyPatch}
use agentfi.Policy.Service.Row.{
  default_policy, set_policy, write_patch, emergency_pause, pause_by_operator, resume_by_operator,
  reactivated,
}

-- The writers of a policy row.
pub data Write : Type 0 where
  patches : PolicyPatch → Write
  emergency : Write
  pauses : ℕ → Write
  resumes : Write

unfoldable pub write : Write → Option AgentPolicy → Option AgentPolicy
unfolding set_policy write_patch emergency_pause pause_by_operator resume_by_operator
write (patches p) row = some (set_policy row p)
write emergency row = emergency_pause row
write (pauses now) row = (pause_by_operator now row).0
write resumes row = (resume_by_operator row).0

-- A history, newest write first.
unfoldable pub run : Option AgentPolicy → List Write → Option AgentPolicy
run row [] = row
run row (w ∷ ws) = write w (run row ws)

abbrev pub is_stamped : Option AgentPolicy → Bool
is_stamped none = false
is_stamped (some row) = is_some row.paused_by_operator_at

abbrev pub is_active : Option AgentPolicy → Bool
is_active none = false
is_active (some row) = row.active

-- A write that says nothing of `active`: a patch of other fields, or an operator's pause of an
-- inactive row.
abbrev pub is_silent : Write → Bool
is_silent (patches p) = not (is_some p.active)
is_silent emergency = false
is_silent (pauses now) = true
is_silent resumes = false

-- The last write to `active` was an operator's pause of an active row.
abbrev pub PausedLast : Option AgentPolicy → List Write → Type 0
PausedLast row ws =
    (later : List Write) × (now : ℕ) × (earlier : List Write) × (ws ≡ later ++ pauses now ∷ earlier)
    × (is_active (run row earlier) ≡ true)
    × (all is_silent later ≡ true)

-- A stamped row is inactive.
abbrev StampInv : Option AgentPolicy → Type 0
StampInv row = is_stamped row ≡ true → is_active row ≡ false

write-StampInv : (w : Write) (row : Option AgentPolicy) → StampInv row → StampInv (write w row)
unfolding write default_policy
write-StampInv (patches p) none inv = ground arith
write-StampInv (patches p) (some row) inv = ground arith
write-StampInv emergency none inv = ground arith
write-StampInv emergency (some row) inv = ground arith
write-StampInv (pauses now) none inv = ground arith
write-StampInv (pauses now) (some row) inv = ground arith
write-StampInv resumes none inv = ground arith
write-StampInv resumes (some row) inv = ground arith

stamp_step :
    (w : Write) (row : Option AgentPolicy)
    → StampInv row
    → is_stamped (write w row) ≡ true
    → ((is_silent w ≡ true) × (is_stamped row ≡ true))
      ⊎ ((now : ℕ) × (w ≡ pauses now) × (is_active row ≡ true))
unfolding write default_policy
stamp_step (patches p) none inv h = absurd (ground arith)
stamp_step (patches p) (some row) inv h = inl (ground arith, ground arith)
stamp_step emergency none inv h = cc
stamp_step emergency (some row) inv h = cc
stamp_step (pauses now) none inv h = cc
stamp_step (pauses now) (some row) inv h = elim (Bool-cases row.active) [
  | inl e ↦ inr (now, refl, e)
  | inr e ↦ inl (refl, ground arith)
]
stamp_step resumes none inv h = cc
stamp_step resumes (some row) inv h = absurd (ground arith)

run-StampInv :
    (row : Option AgentPolicy) (ws : List Write) → is_stamped row ≡ false → StampInv (run row ws)
unfolding run
run-StampInv row [] clean = λ h. cc
run-StampInv row (w ∷ ws) clean = write-StampInv w (run row ws) (run-StampInv row ws clean)

run-PausedLast :
    (row : Option AgentPolicy) (ws : List Write)
    → is_stamped row ≡ false
    → is_stamped (run row ws) ≡ true
    → PausedLast row ws
unfolding run
run-PausedLast row [] clean h = cc
run-PausedLast row (w ∷ ws) clean h =
    elim (stamp_step w (run row ws) (run-StampInv row ws clean) h) [
      | inl (quiet, before) ↦
          let (later, now, earlier, e, a, q) = run-PausedLast row ws clean before in
          (w ∷ later, now, earlier, ap (◌∷◌ w) e, a, rw (quiet, q))
      | inr (now, e, a) ↦ ([], now, ws, ap (λ x. x ∷ ws) e, a, refl)
    ]

resume_reactivated :
    (row : Option AgentPolicy) → (resume_by_operator row).1 ≡ reactivated → is_stamped row ≡ true
unfolding resume_by_operator
resume_reactivated none h = cc
resume_reactivated (some row) h = ground arith

-- An operator's resume re-activates a policy only if the last write to its `active` field was an
-- operator's pause of an active policy, whatever patches, emergency pauses, operator pauses and
-- resumes the history holds since a row without a pause stamp.
pub resume_by_operator_reactivated :
    (row : Option AgentPolicy) (ws : List Write)
    → is_stamped row ≡ false
    → (resume_by_operator (run row ws)).1 ≡ reactivated
    → PausedLast row ws
resume_by_operator_reactivated row ws clean h =
    run-PausedLast row ws clean (resume_reactivated (run row ws) h)
