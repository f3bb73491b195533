-- ===== src/Login/Lockout.antt =====
-- What a lockout does.
use agentfi.Base.{
  ℕ, ◌+◌, ◌≤◌, ◌<◌, ◌≡◌, refl, sym, ap, ◌∙◌, inl, inr, Bool, true, false, Option, none, some, List,
  [], ◌∷◌, Text, ltb, leb, if◌then◌else◌, text_eq, text_eq→eq, text_eq_sym, text_eq_refl, All,
  length, arith, Bool-cases, not, ◌&&◌, is_empty,
}
use agentfi.Login.{
  AttemptState, Limits, Attempts, get_attempt, set_attempt, block_state, is_login_blocked,
  starts_window, first_failure, next_failure, next_result, register_login_failure,
}

pub get-set_attempt :
    (key other : Text) (s : AttemptState) (m : Attempts)
    → get_attempt other (set_attempt key s m)
      ≡ (if text_eq key other then some s else get_attempt other m)
unfolding get_attempt set_attempt
get-set_attempt key other s [] = refl
get-set_attempt key other s ((k, t) ∷ m) = elim (Bool-cases (text_eq k key)) [
  | inl same ↦
      rw (same, text_eq→eq k key same)
        (elim (Bool-cases (text_eq key other)) [ inl hit ↦ rw hit refl | inr miss ↦ rw miss refl ])
  | inr differs ↦
      rw (differs, get-set_attempt key other s m)
        (elim (Bool-cases (text_eq k other)) [
          | inl hit ↦
              let away : text_eq key other ≡ false =
                ap (text_eq key) (sym (text_eq→eq k other hit)) ∙ text_eq_sym key k ∙ differs in
              rw (hit, away) refl
          | inr miss ↦ rw miss refl
        ])
]

-- The state that a failure stores, by what was stored.
abbrev pub failure_state : Limits → ℕ → Option AttemptState → AttemptState
failure_state limits now none = first_failure now
failure_state limits now (some current) =
    if starts_window limits now (some current)
    then first_failure now
    else next_failure limits now current

register_lem :
    (limits : Limits) (key : Text) (now : ℕ) (attempts : Attempts)
    → (register_login_failure limits key now attempts).0
      ≡ set_attempt key (failure_state limits now (get_attempt key attempts)) attempts
unfolding register_login_failure
register_lem limits key now attempts = ground arith

get-register :
    (limits : Limits) (key other : Text) (now : ℕ) (attempts : Attempts)
    → get_attempt other (register_login_failure limits key now attempts).0 ≡ (
        if text_eq key other
        then some (failure_state limits now (get_attempt key attempts))
        else get_attempt other attempts)
get-register limits key other now attempts =
    ap (get_attempt other) (register_lem limits key now attempts)
    ∙ get-set_attempt key other (failure_state limits now (get_attempt key attempts)) attempts

locked_state :
    (limits : Limits) (key : Text) (now : ℕ) (attempts : Attempts)
    → (register_login_failure limits key now attempts).1.locked ≡ true
    → (failure_state limits now (get_attempt key attempts)).locked_until_ms
      ≡ now + limits.lockout_ms
unfolding register_login_failure next_failure next_result starts_window
locked_state limits key now attempts h = ground arith

blocked_by :
    (key : Text) (later : ℕ) (s : AttemptState) (m : Attempts)
    → get_attempt key m ≡ some s
    → (is_login_blocked key later m).1.blocked ≡ ltb later s.locked_until_ms
unfolding is_login_blocked block_state
blocked_by key later s m h = ground arith

-- A failure that locks a key blocks it for the lockout, and from its end on no longer.
pub register-is_login_blocked :
    (limits : Limits) (key : Text) (now later : ℕ) (attempts : Attempts)
    → (register_login_failure limits key now attempts).1.locked ≡ true
    → (is_login_blocked key later (register_login_failure limits key now attempts).0).1.blocked
      ≡ ltb later (now + limits.lockout_ms)
register-is_login_blocked limits key now later attempts h =
    let s = failure_state limits now (get_attempt key attempts) in
    let stored : get_attempt key (register_login_failure limits key now attempts).0 ≡ some s =
      get-register limits key key now attempts
      ∙ ap (λ (b : Bool). if b then some s else get_attempt key attempts) (text_eq_refl key) in
    blocked_by key later s (register_login_failure limits key now attempts).0 stored
    ∙ ap (ltb later) (locked_state limits key now attempts h)

-- Failures of a key at the times of a list.
unfoldable pub register_all : Limits → Text → List ℕ → Attempts → Attempts
register_all limits key [] attempts = attempts
register_all limits key (t ∷ ts) attempts =
    register_all limits key ts (register_login_failure limits key t attempts).0

abbrev pub at_count : ℕ → ℕ → AttemptState
at_count start n = record { count = n; window_start_ms = start; locked_until_ms = 0 }

register_own :
    (limits : Limits) (key : Text) (now : ℕ) (attempts : Attempts)
    → get_attempt key (register_login_failure limits key now attempts).0
      ≡ some (failure_state limits now (get_attempt key attempts))
register_own limits key now attempts =
    get-register limits key key now attempts
    ∙ ap
        (λ (b : Bool).
          if b
          then some (failure_state limits now (get_attempt key attempts))
          else get_attempt key attempts)
        (text_eq_refl key)

counts_up :
    (limits : Limits) (now start n : ℕ)
    → now ≤ start + limits.window_ms
    → n + 1 < limits.max_attempts
    → failure_state limits now (some (at_count start n)) ≡ at_count start (n + 1)
unfolding starts_window next_failure
counts_up limits now start n h fits = ground arith

counting :
    (limits : Limits) (key : Text) (start n : ℕ) (ts : List ℕ) (attempts : Attempts)
    → All (λ t. t ≤ start + limits.window_ms) ts
    → n + length ts < limits.max_attempts
    → get_attempt key attempts ≡ some (at_count start n)
    → get_attempt key (register_all limits key ts attempts) ≡ some (at_count start (n + length ts))
unfolding register_all
counting limits key start n [] attempts h fits stored =
    stored ∙ ap (λ k. some (at_count start k)) (omega arith)
counting limits key start n (t ∷ ts) attempts h fits stored =
    let next : get_attempt key (register_login_failure limits key t attempts).0
        ≡ some (at_count start (n + 1)) =
      register_own limits key t attempts
      ∙ ap (λ o. some (failure_state limits t o)) stored
      ∙ ap some (counts_up limits t start n h.0 (omega arith)) in
    counting limits key start (n + 1) ts (register_login_failure limits key t attempts).0 h.1
      (omega arith) next
    ∙ ap (λ k. some (at_count start k)) (omega arith)

locks :
    (limits : Limits) (key : Text) (now start n : ℕ) (attempts : Attempts)
    → now ≤ start + limits.window_ms
    → get_attempt key attempts ≡ some (at_count start n)
    → (register_login_failure limits key now attempts).1.locked ≡ leb limits.max_attempts (n + 1)
unfolding register_login_failure starts_window next_result
locks limits key now start n attempts h stored = ground arith

-- Earlier failures and a last one, all within the window that the first of them starts.
abbrev pub OneWindow : Limits → List ℕ → ℕ → Type 0
OneWindow limits [] last = Unit
OneWindow limits (start ∷ ts) last =
    All (λ t. t ≤ start + limits.window_ms) ts × (last ≤ start + limits.window_ms)

first-locked :
    (limits : Limits) (key : Text) (last : ℕ) (attempts : Attempts)
    → get_attempt key attempts ≡ none
    → (register_login_failure limits key last attempts).1.locked ≡ false
unfolding register_login_failure
first-locked limits key last attempts fresh = rw (fresh, register_login_failure) refl

-- After fewer than the limit of failures of a fresh key, the next one in the same window locks the
-- key exactly when it is not the first one and is the last that the limit allows. So a first failure
-- never locks, also where the limit is one.
pub register_all-locked :
    (limits : Limits) (key : Text) (ts : List ℕ) (last : ℕ) (attempts : Attempts)
    → get_attempt key attempts ≡ none
    → OneWindow limits ts last
    → length ts < limits.max_attempts
    → (register_login_failure limits key last (register_all limits key ts attempts)).1.locked
      ≡ (not (is_empty ts) && leb limits.max_attempts (length ts + 1))
unfolding register_all
register_all-locked limits key [] last attempts fresh h fits =
    first-locked limits key last attempts fresh
register_all-locked limits key (start ∷ ts) last attempts fresh (h, hl) fits =
    let first : get_attempt key (register_login_failure limits key start attempts).0
        ≡ some (at_count start 1) =
      register_own limits key start attempts
      ∙ ap (λ o. some (failure_state limits start o)) fresh in
    locks limits key last start (1 + length ts) _ hl (
      counting limits key start 1 ts (register_login_failure limits key start attempts).0 h
        (omega arith) first)
    ∙ ap (leb limits.max_attempts) (omega arith)

-- The failures of one key leave every other key as it was.
pub register-other :
    (limits : Limits) (key other : Text) (now : ℕ) (attempts : Attempts)
    → text_eq key other ≡ false
    → get_attempt other (register_login_failure limits key now attempts).0
      ≡ get_attempt other attempts
register-other limits key other now attempts differs =
    get-register limits key other now attempts
    ∙ ap
        (λ (b : Bool).
          if b
          then some (failure_state limits now (get_attempt key attempts))
          else get_attempt other attempts)
        differs
