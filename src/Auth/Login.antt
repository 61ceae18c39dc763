-- ===== src/Auth/Login.antt =====
-- Login, logout, the account of a request, and the roles (server/src/auth.rs).
pub mod Access
use nexa_drive.Prelude.{
  ℕ, ◌+◌, Bool, true, false, not, ◌&&◌, ◌||◌, Option, none, some, List, [], ◌∷◌, ltb, ◌==◌,
  if◌then◌else◌, take,
}
use nexa_drive.Text.{Text, codes, text_eq, trim, is_empty}
use nexa_drive.Error.{
  Result, ok, err, AppError, database, unauthorized, forbidden, not_found, bad_request, plain,
  or_error,
}
use nexa_drive.Error.Exec.{Exec, gets, check, lift, modify, pure, raise, ◌>>=◌, ◌>>◌}
use nexa_drive.Auth.{
  Account, Session, nothing, Store, Crypto, Step, Tick, step, set_sessions, log_action,
}
use nexa_drive.Auth.Throttle.{
  login_key, register_failed_login, check_login_allowed, clear_failed_logins,
}
use nexa_drive.Auth.Platform.{normalize_platform}
use nexa_drive.Auth.Sessions.{bearer, has_token, first, update_where, delete_where, touch}

pub record LoginRequest : Type 0 where
  pub username : Text
  pub password : Text
  pub device_name : Option Text
  pub platform : Option Text

pub record UserResponse : Type 0 where
  pub id : ℕ
  pub username : Text
  pub display_name : Text
  pub role : Text

pub record LoginResponse : Type 0 where
  pub token : Text
  pub user : UserResponse

unfoldable pub find_account : (Account → Bool) → List Account → Option Account
find_account p [] = none
find_account p (a ∷ accounts) = if p a then some a else find_account p accounts

unfoldable pub is_enabled_named : Text → Account → Bool
is_enabled_named username a = text_eq a.username username && not a.disabled

unfoldable pub user_of : Account → UserResponse
user_of a = record {
  id = a.id;
  username = a.username;
  display_name = a.display_name;
  role = a.role;
}

unfoldable pub named_device : Text → Option Text
named_device v = if is_empty v then none else some (take 64 v)

unfoldable pub device_label : Option Text → Option Text
device_label none = none
device_label (some v) = named_device (trim v)

unfoldable pub reject_login : {A : Type 0} → Tick → Text → Exec Store A
reject_login t key = do register_failed_login t key; raise unauthorized

-- `datetime('now', '+30 days')`, in seconds
abbrev pub session_lifetime : ℕ
session_lifetime = 2592000

unfoldable pub new_session : Crypto → Tick → ℕ → LoginRequest → Session
new_session c t user payload = record {
  id = t.new_id;
  user_id = user;
  token_hash = c.token_hash t.new_token;
  created_at = t.now;
  expires_at = t.now + session_lifetime;
  last_activity_at = some t.now;
  device_name = device_label payload.device_name;
  platform = normalize_platform payload.platform;
}

unfoldable pub open_session :
    Crypto → Tick → LoginRequest → Text → Account → Exec Store LoginResponse
open_session c t payload key a = do
  clear_failed_logins t key
  step t Step.insert_session database
  set_sessions (λ ss. new_session c t a.id payload ∷ ss)
  log_action t a.id "login" nothing
  pure (record { token = t.new_token; user = user_of a })

unfoldable pub login_as :
    Crypto → Tick → LoginRequest → Text → Option Account → Exec Store LoginResponse
login_as c t payload key none = reject_login t key
login_as c t payload key (some a) =
    if c.verify_password payload.password a.password_hash
    then open_session c t payload key a
    else reject_login t key

unfoldable pub login : Crypto → Tick → LoginRequest → Exec Store LoginResponse
login c t payload = do
  check_login_allowed t (login_key c payload.username)
  step t Step.select_account database
  row ← gets (λ w. find_account (is_enabled_named payload.username) w.accounts)
  login_as c t payload (login_key c payload.username) row

unfoldable pub delete_token : Crypto → Tick → ℕ → Option Text → Exec Store (Unit {0})
delete_token c t user none = pure tt
delete_token c t user (some token) = do
  step t Step.delete_session database
  set_sessions (delete_where (has_token user (c.token_hash token)))

unfoldable pub logout : Crypto → Tick → ℕ → Option Text → Exec Store (Unit {0})
logout c t user authorization = do
  delete_token c t user (bearer authorization)
  log_action t user "logout" nothing

unfoldable pub has_id : ℕ → Account → Bool
has_id user a = a.id == user

unfoldable pub has_account_as : Bool → List Account → ℕ → Bool
has_account_as d [] user = false
has_account_as d (a ∷ accounts) user =
    if has_id user a && (if d then a.disabled else not a.disabled)
    then true
    else has_account_as d accounts user

-- A session of the token, of an enabled account, that is not over.
unfoldable pub is_admitted : List Account → ℕ → Text → Session → Bool
is_admitted accounts now hash s =
    text_eq s.token_hash hash && (ltb now s.expires_at && has_account_as false accounts s.user_id)

unfoldable pub is_stale : List Account → Text → Session → Bool
is_stale accounts hash s = text_eq s.token_hash hash && has_account_as true accounts s.user_id

-- The session of a disabled account is deleted, if that succeeds.
unfoldable pub drop_stale : Tick → Option Session → Exec Store (Unit {0})
drop_stale t none = pure tt
drop_stale t (some s) =
    set_sessions
      (λ ss. if t.fails Step.delete_stale then ss else delete_where (λ r. r.id == s.id) ss)

unfoldable pub is_idle : ℕ → ℕ → Session → Bool
is_idle id now s =
    s.id == id && (elim s.last_activity_at [ none ↦ true | some a ↦ ltb (a + 60) now ])

unfoldable pub admit : Tick → Text → Option Session → Exec Store (ℕ × ℕ)
admit t hash none = do
  step t Step.select_stale database
  stale ← gets (λ w. first (is_stale w.accounts hash) w.sessions)
  drop_stale t stale
  raise unauthorized
admit t hash (some s) = do
  set_sessions (λ ss.
      if t.fails Step.touch_session then ss else update_where (is_idle s.id t.now) (touch t.now) ss)
  pure (s.user_id, s.id)

-- `auth_middleware`: the account and the session that the request is made for.
unfoldable pub auth_middleware : Crypto → Tick → Option Text → Exec Store (ℕ × ℕ)
auth_middleware c t authorization = do
  token ← lift (or_error (bearer authorization) unauthorized)
  step t Step.select_session database
  row ← gets (λ w. first (is_admitted w.accounts t.now (c.token_hash token)) w.sessions)
  admit t (c.token_hash token) row

unfoldable pub me : Tick → ℕ → Exec Store UserResponse
me t user = do
  step t Step.select_account database
  row ← gets (λ w. find_account (has_id user) w.accounts)
  a ← lift (or_error row not_found)
  pure (user_of a)

unfoldable pub is_enabled_id : ℕ → Account → Bool
is_enabled_id user a = has_id user a && not a.disabled

unfoldable pub role_of : Tick → ℕ → Exec Store Text
role_of t user = do
  step t Step.select_account database
  row ← gets (λ w. find_account (is_enabled_id user) w.accounts)
  a ← lift (or_error row unauthorized)
  pure a.role

unfoldable pub require_admin : Tick → ℕ → Exec Store (Unit {0})
require_admin t user = do role ← role_of t user; check (text_eq role (codes "admin")) forbidden

unfoldable pub validate_role : Text → Result Text
validate_role role =
    if text_eq role (codes "admin") || text_eq role (codes "user")
    then ok role
    else err (bad_request (plain "Role must be admin or user"))

unfoldable pub permission_allows : Text → Bool → Bool
permission_allows permission needed_write =
    text_eq permission (codes "write") || (not needed_write && text_eq permission (codes "read"))
