-- ===== src/Auth/Throttle.antt =====
-- The throttle of failed logins (server/src/auth.rs): a window of 15 minutes and ten failures to a key. A lock
-- that is poisoned is the failing step `attempts_lock`.
pub mod Window
use nexa_drive.Prelude.{
  ℕ, ◌+◌, ◌-◌, ◌<◌, Bool, true, false, not, ◌&&◌, ◌||◌, Option, none, some, List, ◌++◌, ltb, leb,
  ◌==◌, if◌then◌else◌,
}
use nexa_drive.Text.{Text, codes, text_eq, trim}
use nexa_drive.Text.Decimal.{}
use nexa_drive.Error.{Result, AppError, internal, too_many_requests}
use nexa_drive.Error.Exec.{Exec, gets, check, modify, pure, raise, ◌>>=◌, ◌>>◌}
use nexa_drive.Auth.{LoginAttempt, Store, Crypto, Step, Tick, step}

-- Duration::from_secs(15 * 60)
abbrev pub window : ℕ
window = 900

abbrev pub max_failures : ℕ
max_failures = 10

-- `u32::MAX`, the bound of the counter.
abbrev pub u32_max : ℕ
u32_max = 4294967295

abbrev pub Attempts : Type 0
Attempts = Text → Option LoginAttempt

unfoldable pub login_key : Crypto → Text → Text
login_key c username = codes "user:" ++ c.to_lowercase (trim username)

unfoldable pub set_attempt : Text → Option LoginAttempt → Attempts → Attempts
set_attempt key a attempts k = if text_eq k key then a else attempts k

-- One more failure, in a new window where there is none or the old one is over.
unfoldable pub next_failure : ℕ → Option LoginAttempt → LoginAttempt
next_failure now none = record { window_started = now; failures = 1 }
next_failure now (some a) =
    if ltb window (now - a.window_started)
    then record { window_started = now; failures = 1 }
    else record a { failures = if ltb a.failures u32_max then a.failures + 1 else u32_max }

unfoldable pub register_failure : ℕ → Text → Attempts → Attempts
register_failure now key attempts =
    set_attempt key (some (next_failure now (attempts key))) attempts

unfoldable pub is_blocked : ℕ → Option LoginAttempt → Bool
is_blocked now none = false
is_blocked now (some a) = leb (now - a.window_started) window && leb max_failures a.failures

unfoldable pub without_stale : ℕ → Option LoginAttempt → Option LoginAttempt
without_stale now none = none
without_stale now (some a) = if ltb window (now - a.window_started) then none else some a

abbrev pub set_attempts : (Attempts → Attempts) → Exec Store (Unit {0})
set_attempts f = modify (λ w. record w { login_attempts = f w.login_attempts })

unfoldable pub register_failed_login : Tick → Text → Exec Store (Unit {0})
register_failed_login t key = do
  step t Step.attempts_lock internal
  set_attempts (register_failure t.instant key)

unfoldable pub check_login_allowed : Tick → Text → Exec Store (Unit {0})
check_login_allowed t key = do
  step t Step.attempts_lock internal
  entry ← gets (λ w. w.login_attempts key)
  check (not (is_blocked t.instant entry)) too_many_requests
  set_attempts (λ a. set_attempt key (without_stale t.instant entry) a)

unfoldable pub clear_failed_logins : Tick → Text → Exec Store (Unit {0})
clear_failed_logins t key = do
  step t Step.attempts_lock internal
  set_attempts (set_attempt key none)

-- The throttle of share downloads has the same table and window; a poisoned lock is passed over.
unfoldable pub register_failed_share_download : Bool → ℕ → Text → Attempts → Attempts
register_failed_share_download poisoned now key attempts =
    if poisoned then attempts else register_failure now key attempts

unfoldable pub clear_share_download_attempts : Bool → Text → Attempts → Attempts
clear_share_download_attempts poisoned key attempts =
    if poisoned then attempts else set_attempt key none attempts
