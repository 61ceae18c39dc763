-- ===== src/Auth.antt =====
-- Accounts, sessions and the throttle of failed logins (server/src/auth.rs and
-- server/src/handlers/sessions.rs). Password hashes (argon2), token digests (sha2), Unicode case
-- mapping and the random source are parameters.
pub mod Throttle
pub mod Platform
pub mod Sessions
pub mod Login
use nexa_drive.Prelude.{ℕ, Bool, not, Option, none, some, List, ◌∷◌, String}
use nexa_drive.Text.{Text}
use nexa_drive.Error.{AppError, database}
use nexa_drive.Error.Exec.{Exec, check, modify, ◌>>=◌, ◌>>◌}

pub record LoginAttempt : Type 0 where
  pub window_started : ℕ
  pub failures : ℕ

-- A row of `users`.
pub record Account : Type 0 where
  pub id : ℕ
  pub username : Text
  pub display_name : Text
  pub password_hash : Text
  pub role : Text
  pub disabled : Bool

-- A row of `sessions`; times are in seconds.
pub record Session : Type 0 where
  pub id : ℕ
  pub user_id : ℕ
  pub token_hash : Text
  pub created_at : ℕ
  pub expires_at : ℕ
  pub last_activity_at : Option ℕ
  pub device_name : Option Text
  pub platform : Option Text

-- What the log of a session handler names: nothing, a session, or a number of them.
pub data Subject : Type 0 where
  nothing : Subject
  one_session : ℕ → Subject
  many_sessions : ℕ → Subject
  one_account : ℕ → Subject

pub record Entry : Type 0 where
  pub user_id : ℕ
  pub action : String
  pub subject : Subject

pub record Store : Type 0 where
  pub accounts : List Account
  pub sessions : List Session
  pub login_attempts : Text → Option LoginAttempt
  pub audit_logs : List Entry

pub record Crypto : Type 0 where
  pub to_lowercase : Text → Text
  pub verify_password : Text → Text → Bool
  pub token_hash : Text → Text

-- The statements and locks that can fail.
pub data Step : Type 0 where
  attempts_lock select_account select_session select_stale delete_stale touch_session insert_session
        delete_session write_audit count_sessions :
      Step

-- What a request meets: failing steps, deletions that fail (by session), the clocks (seconds, and
-- the monotonic one in seconds), and the random id and token.
pub record Tick : Type 0 where
  pub fails : Step → Bool
  pub fails_delete : ℕ → Bool
  pub now : ℕ
  pub instant : ℕ
  pub new_id : ℕ
  pub new_token : Text

abbrev pub step : Tick → Step → AppError → Exec Store (Unit {0})
step t s e = check (not (t.fails s)) e

abbrev pub set_sessions : (List Session → List Session) → Exec Store (Unit {0})
set_sessions f = modify (λ w. record w { sessions = f w.sessions })

-- `audit`: one row of the log.
unfoldable pub log_action : Tick → ℕ → String → Subject → Exec Store (Unit {0})
log_action t user action subject = do
  step t Step.write_audit database
  modify (λ w. record w {
    audit_logs = record { user_id = user; action = action; subject = subject } ∷ w.audit_logs;
  })
