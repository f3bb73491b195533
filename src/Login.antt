-- ===== src/Login.antt =====
-- packages/admin/src/lib/login-rate-limit.ts: failed logins counted for each user name and address,
-- and the lockout. Times are milliseconds; the table is an association list.
pub mod Lockout
use agentfi.Base.{
  ℕ, suc, ◌+◌, ◌-◌, Bool, true, false, not, ◌&&◌, Option, none, some, List, [], ◌∷◌, ◌++◌, Text,
  codes, ltb, leb, ◌==◌, if◌then◌else◌, is_empty, lower, trim, text_eq,
}

pub record AttemptState : Type 0 where
  pub count : ℕ
  pub window_start_ms : ℕ
  pub locked_until_ms : ℕ

-- `MAX_ATTEMPTS`, `WINDOW_MS` and `LOCKOUT_MS`, which the environment sets.
pub record Limits : Type 0 where
  pub max_attempts : ℕ
  pub window_ms : ℕ
  pub lockout_ms : ℕ

pub record LoginBlockState : Type 0 where
  pub blocked : Bool
  pub retry_after_ms : ℕ

pub record LoginFailureState : Type 0 where
  pub locked : Bool
  pub retry_after_ms : ℕ
  pub remaining_attempts : ℕ

-- `attemptsByKey`.
abbrev pub Attempts : Type 0
Attempts = List (Text × AttemptState)

unfoldable pub get_attempt : Text → Attempts → Option AttemptState
get_attempt key [] = none
get_attempt key ((k, s) ∷ m) = if text_eq k key then some s else get_attempt key m

unfoldable pub set_attempt : Text → AttemptState → Attempts → Attempts
set_attempt key s [] = (key, s) ∷ []
set_attempt key s ((k, t) ∷ m) = if text_eq k key then (k, s) ∷ m else (k, t) ∷ set_attempt key s m

unfoldable pub delete_attempt : Text → Attempts → Attempts
delete_attempt key [] = []
delete_attempt key ((k, t) ∷ m) = if text_eq k key then m else (k, t) ∷ delete_attempt key m

abbrev pub known_user : Text → Text
known_user [] = codes "unknown-user"
known_user (c ∷ s) = c ∷ s

-- The trimmed name in lower case, a bar, and the address.
unfoldable pub build_attempt_key : Text → Text → Text
build_attempt_key username ip = known_user (lower (trim username)) ++ (b'|' ∷ ip)

abbrev pub not_blocked : LoginBlockState
not_blocked = record { blocked = false; retry_after_ms = 0 }

-- `isLoginBlocked`, which clears a lockout that has passed.
unfoldable pub block_state : Text → ℕ → AttemptState → Attempts → Attempts × LoginBlockState
unfolding set_attempt
block_state key now state attempts =
    if ltb now state.locked_until_ms
    then (attempts, record { blocked = true; retry_after_ms = state.locked_until_ms - now })
    else if leb state.locked_until_ms now && not (state.locked_until_ms == 0)
    then (
      set_attempt key (record { count = 0; window_start_ms = now; locked_until_ms = 0 }) attempts,
      not_blocked,
    )
    else (attempts, not_blocked)

unfoldable pub is_login_blocked : Text → ℕ → Attempts → Attempts × LoginBlockState
unfolding block_state
is_login_blocked key now attempts = elim (get_attempt key attempts) [
  | none ↦ (attempts, not_blocked)
  | some state ↦ block_state key now state attempts
]

-- A first failure, or the first one after the window has passed: `now - start > window`.
unfoldable pub starts_window : Limits → ℕ → Option AttemptState → Bool
starts_window limits now none = true
starts_window limits now (some current) = ltb (current.window_start_ms + limits.window_ms) now

abbrev pub first_failure : ℕ → AttemptState
first_failure now = record { count = 1; window_start_ms = now; locked_until_ms = 0 }

unfoldable pub next_failure : Limits → ℕ → AttemptState → AttemptState
next_failure limits now current =
    if leb limits.max_attempts (current.count + 1)
    then record {
      count = 0;
      window_start_ms = current.window_start_ms;
      locked_until_ms = now + limits.lockout_ms;
    }
    else record {
      count = current.count + 1;
      window_start_ms = current.window_start_ms;
      locked_until_ms = current.locked_until_ms;
    }

unfoldable pub next_result : Limits → AttemptState → LoginFailureState
next_result limits current =
    if leb limits.max_attempts (current.count + 1)
    then record { locked = true; retry_after_ms = limits.lockout_ms; remaining_attempts = 0 }
    else record {
      locked = false;
      retry_after_ms = 0;
      remaining_attempts = limits.max_attempts - (current.count + 1);
    }

abbrev pub first_result : Limits → LoginFailureState
first_result limits = record {
  locked = false;
  retry_after_ms = 0;
  remaining_attempts = limits.max_attempts - 1;
}

unfoldable pub register_login_failure : Limits → Text → ℕ → Attempts → Attempts × LoginFailureState
unfolding set_attempt get_attempt next_failure next_result starts_window
register_login_failure limits key now attempts = elim (get_attempt key attempts) [
  | none ↦ (set_attempt key (first_failure now) attempts, first_result limits)
  | some current ↦
      if starts_window limits now (some current)
      then (set_attempt key (first_failure now) attempts, first_result limits)
      else (set_attempt key (next_failure limits now current) attempts, next_result limits current)
]

unfoldable pub clear_login_failures : Text → Attempts → Attempts
unfolding delete_attempt
clear_login_failures key attempts = delete_attempt key attempts
