-- ===== src/Console.antt =====
-- The console of the administrator (server/src/console/session.rs): its own sessions, its own throttle of
-- sign-ins and the audit log.
pub mod Cookies
pub mod Session
pub mod Gate
pub mod Refreshed
pub mod Opened
pub mod SignedOut
use nexa_drive.Prelude.{ℕ, Bool, not, Option, List, ◌∷◌, String}
use nexa_drive.Text.{Text}
use nexa_drive.Error.{AppError, database}
use nexa_drive.Error.Exec.{Exec, check, modify, ◌>>=◌, ◌>>◌}
use nexa_drive.Auth.{Account}
use nexa_drive.Auth.Throttle.{Attempts}

-- A row of `console_sessions`.
pub record ConsoleSession : Type 0 where
  pub user_id : ℕ
  pub token_hash : Text
  pub csrf_hash : Text
  pub last_seen_at : Option ℕ
  pub expires_at : ℕ

-- A row of `audit_logs`, as `audit_event` and `audit_login_failure` write it.
pub record Event : Type 0 where
  pub user_id : Option ℕ
  pub action : String
  pub target : Option Text
  pub outcome : String
  pub detail : Option String

pub record Console : Type 0 where
  pub accounts : List Account
  pub sessions : List ConsoleSession
  pub attempts : Attempts
  pub events : List Event

-- The statements and locks that can fail.
pub data Fault : Type 0 where
  attempts_lock select_account select_session insert_session delete_session refresh_session
        write_event encode_body :
      Fault

-- What a request meets: failing steps, the clocks (seconds, and the monotonic one in seconds), and
-- the two random tokens.
pub record Visit : Type 0 where
  pub fails : Fault → Bool
  pub now : ℕ
  pub instant : ℕ
  pub new_token : Text
  pub new_csrf : Text

-- The crates' functions and the configuration.
pub record Site : Type 0 where
  pub to_lowercase : Text → Text
  pub verify_password : Text → Text → Bool
  pub token_hash : Text → Text
  pub is_header_value : Text → Bool
  pub session_ttl_hours : ℕ

abbrev pub attempt : Visit → Fault → AppError → Exec Console (Unit {0})
attempt v f e = check (not (v.fails f)) e

abbrev pub set_sessions : (List ConsoleSession → List ConsoleSession) → Exec Console (Unit {0})
set_sessions f = modify (λ w. record w { sessions = f w.sessions })

abbrev pub set_attempts : (Attempts → Attempts) → Exec Console (Unit {0})
set_attempts f = modify (λ w. record w { attempts = f w.attempts })

unfoldable pub add_event : Event → Exec Console (Unit {0})
add_event e = modify (λ w. record w { events = e ∷ w.events })

unfoldable pub audit_event : Visit → Event → Exec Console (Unit {0})
audit_event v e = do attempt v Fault.write_event database; add_event e
