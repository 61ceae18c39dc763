-- ===== src/Console/Session.antt =====
-- The handlers of server/src/console/session.rs.
use nexa_drive.Prelude.{
  ℕ, ◌+◌, ◌*◌, Bool, true, false, not, ◌&&◌, Option, none, some, List, [], ◌∷◌, ◌++◌, ltb, ◌==◌,
  if◌then◌else◌, take,
}
use nexa_drive.Prelude.Rows.{find_row, update_rows, delete_rows}
use nexa_drive.Text.{Text, codes, text_eq, trim}
use nexa_drive.Error.{database, internal, unauthorized, forbidden, too_many_requests, or_error}
use nexa_drive.Error.Exec.{Exec, gets, check, lift, pure, raise, ◌>>=◌, ◌>>◌}
use nexa_drive.Auth.{Account}
use nexa_drive.Auth.Throttle.{is_blocked, register_failure, set_attempt}
use nexa_drive.Console.{
  ConsoleSession, Console, Event, Fault, Visit, Site, attempt, set_sessions, set_attempts,
  add_event, audit_event,
}
use nexa_drive.Console.Cookies.{
  console_cookie, csrf_cookie, parse_cookie, cookie_header, clear_cookie_header,
}

pub record ConsoleUser : Type 0 where
  pub id : ℕ
  pub username : Text
  pub display_name : Text
  pub role : Text

-- What a sign-in sends: the account, the CSRF token and the two cookies.
pub record ConsoleLoginResponse : Type 0 where
  pub user : ConsoleUser
  pub csrf_token : Text
  pub set_cookie : List Text

pub data Method : Type 0 where
  get head options other_method : Method

-- The parts of a request that the gate reads: the method and the headers `Cookie` and
-- `x-csrf-token`, where they are texts.
pub record Request : Type 0 where
  pub method : Method
  pub cookie : Option Text
  pub csrf : Option Text

unfoldable pub append_set_cookie : Site → Text → List Text → Exec Console (List Text)
append_set_cookie c value cookies = do
  check (c.is_header_value value) internal
  pure (cookies ++ value ∷ [])

unfoldable pub check_attempts : Visit → Text → Exec Console (Unit {0})
check_attempts v key = do
  attempt v Fault.attempts_lock internal
  entry ← gets (λ w. w.attempts key)
  check (not (is_blocked v.instant entry)) too_many_requests

-- A lock that is poisoned leaves the count as it is: the caller passes over the error.
unfoldable pub register_attempt : Visit → Text → Exec Console (Unit {0})
register_attempt v key =
    set_attempts (λ a. if v.fails Fault.attempts_lock then a else register_failure v.instant key a)

unfoldable pub clear_attempts : Visit → Text → Exec Console (Unit {0})
clear_attempts v key = do
  attempt v Fault.attempts_lock internal
  set_attempts (set_attempt key none)

unfoldable pub login_failure : Option ℕ → Text → Event
login_failure user subject = record {
  user_id = user;
  action = "login";
  target = some (take 64 subject);
  outcome = "failed";
  detail = some "invalid credentials";
}

-- An error of the insertion is passed over.
unfoldable pub audit_login_failure : Visit → Option ℕ → Text → Exec Console (Unit {0})
audit_login_failure v user subject =
    if v.fails Fault.write_event then pure tt else add_event (login_failure user subject)

unfoldable pub is_enabled_as : Text → Account → Bool
is_enabled_as username a = text_eq a.username username && not a.disabled

unfoldable pub is_enabled_with : ℕ → Account → Bool
is_enabled_with user a = a.id == user && not a.disabled

unfoldable pub console_user : Account → ConsoleUser
console_user a = record {
  id = a.id;
  username = a.username;
  display_name = a.display_name;
  role = a.role;
}

unfoldable pub session_info : Visit → ℕ → Exec Console ConsoleUser
session_info v user = do
  attempt v Fault.select_account database
  row ← gets (λ w. find_row (is_enabled_with user) w.accounts)
  a ← lift (or_error row unauthorized)
  pure (console_user a)

unfoldable pub refuse_login : Visit → Text → Option ℕ → Text → Exec Console ConsoleLoginResponse
refuse_login v key user subject = do
  register_attempt v key
  audit_login_failure v user subject
  raise unauthorized

unfoldable pub deny_login : Visit → ℕ → Text → Exec Console ConsoleLoginResponse
deny_login v user subject = do
  audit_event v (record {
    user_id = some user;
    action = "login";
    target = some subject;
    outcome = "denied";
    detail = some "console requires an administrator account";
  })
  raise forbidden

unfoldable pub login_success : ℕ → Option Text → Event
login_success user target = record {
  user_id = some user;
  action = "login";
  target = target;
  outcome = "success";
  detail = none;
}

unfoldable pub new_console_session : Site → Visit → ℕ → ConsoleSession
new_console_session c v user = record {
  user_id = user;
  token_hash = c.token_hash v.new_token;
  csrf_hash = c.token_hash v.new_csrf;
  last_seen_at = some v.now;
  expires_at = v.now + c.session_ttl_hours * 3600;
}

unfoldable pub send_session : Site → Visit → Account → Exec Console ConsoleLoginResponse
send_session c v a = do
  attempt v Fault.encode_body internal
  one ←
      append_set_cookie c
        (cookie_header console_cookie v.new_token (c.session_ttl_hours * 3600) true) []
  both ←
      append_set_cookie c (cookie_header csrf_cookie v.new_csrf (c.session_ttl_hours * 3600) false)
        one
  pure (record { user = console_user a; csrf_token = v.new_csrf; set_cookie = both })

unfoldable pub open_console :
    Site → Visit → Text → Text → Account → Exec Console ConsoleLoginResponse
open_console c v key subject a = do
  clear_attempts v key
  attempt v Fault.insert_session database
  set_sessions (λ ss. new_console_session c v a.id ∷ ss)
  audit_event v (login_success a.id (some subject))
  send_session c v a

unfoldable pub login_found :
    Site → Visit → Text → Text → Text → Option Account → Exec Console ConsoleLoginResponse
login_found c v key subject password none = refuse_login v key none subject
login_found c v key subject password (some a) =
    if not (c.verify_password password a.password_hash)
    then refuse_login v key (some a.id) subject
    else if not (text_eq a.role (codes "admin"))
    then deny_login v a.id subject
    else open_console c v key subject a

unfoldable pub login_key_of : Site → Text → Text
login_key_of c subject = codes "user:" ++ c.to_lowercase subject

unfoldable pub console_login : Site → Visit → Text → Text → Exec Console ConsoleLoginResponse
console_login c v username password = do
  check_attempts v (login_key_of c (trim username))
  attempt v Fault.select_account database
  row ← gets (λ w. find_row (is_enabled_as (trim username)) w.accounts)
  login_found c v (login_key_of c (trim username)) (trim username) password row

unfoldable pub has_hash : Text → ConsoleSession → Bool
has_hash hash s = text_eq s.token_hash hash

unfoldable pub delete_cookie_session : Site → Visit → Option Text → Exec Console (Unit {0})
delete_cookie_session c v none = pure tt
delete_cookie_session c v (some token) = do
  attempt v Fault.delete_session database
  set_sessions (delete_rows (has_hash (c.token_hash token)))

-- The cookies that the answer sets. An error of the log is passed over.
unfoldable pub console_logout : Site → Visit → Option Text → ℕ → Exec Console (List Text)
console_logout c v cookie user = do
  delete_cookie_session c v (parse_cookie cookie console_cookie)
  if v.fails Fault.write_event
      then pure tt
      else add_event (record {
        user_id = some user;
        action = "logout";
        target = none;
        outcome = "success";
        detail = none;
      })
  one ← append_set_cookie c (clear_cookie_header console_cookie) []
  append_set_cookie c (clear_cookie_header csrf_cookie) one

-- `FROM console_sessions cs JOIN users u …`: a session of the token that is not over, with its enabled
-- account.
unfoldable pub joined : ConsoleSession → Option Account → Option (ConsoleSession × Account)
joined s none = none
joined s (some a) = some (s, a)

unfoldable pub or_row :
    Option (ConsoleSession × Account)
    → Option (ConsoleSession × Account)
    → Option (ConsoleSession × Account)
or_row none rest = rest
or_row (some row) rest = some row

unfoldable pub admitted_row :
    List Account → ℕ → Text → List ConsoleSession → Option (ConsoleSession × Account)
admitted_row accounts now hash [] = none
admitted_row accounts now hash (s ∷ ss) =
    let rest = admitted_row accounts now hash ss in
    if has_hash hash s && ltb now s.expires_at
    then or_row (joined s (find_row (is_enabled_with s.user_id) accounts)) rest
    else rest

unfoldable pub is_read_only : Method → Bool
is_read_only Method.other_method = false
is_read_only _ = true

unfoldable pub csrf_matches : Site → Text → Option Text → Bool
csrf_matches c stored none = false
csrf_matches c stored (some csrf) = text_eq (c.token_hash csrf) stored

unfoldable pub is_unseen : Text → ℕ → ConsoleSession → Bool
is_unseen hash now s =
    has_hash hash s && (elim s.last_seen_at [ none ↦ true | some a ↦ ltb (a + 60) now ])

unfoldable pub see : ℕ → ConsoleSession → ConsoleSession
see now s = record s { last_seen_at = some now }

-- The handler behind the gate takes the account of the session.
unfoldable pub require_console_admin :
    {A : Type 0} → Site → Visit → Request → (ℕ → Exec Console A) → Exec Console A
require_console_admin c v r next = do
  token ← lift (or_error (parse_cookie r.cookie console_cookie) unauthorized)
  attempt v Fault.select_session database
  found ← gets (λ w. admitted_row w.accounts v.now (c.token_hash token) w.sessions)
  row ← lift (or_error found unauthorized)
  check (text_eq row.1.role (codes "admin")) forbidden
  check (if is_read_only r.method then true else csrf_matches c row.0.csrf_hash r.csrf) forbidden
  set_sessions (λ ss.
      if v.fails Fault.refresh_session
      then ss
      else update_rows (is_unseen (c.token_hash token) v.now) (see v.now) ss)
  next row.1.id

unfoldable pub reauthenticate : Site → Visit → ℕ → Text → Exec Console (Unit {0})
reauthenticate c v user password = do
  attempt v Fault.select_account database
  row ← gets (λ w. find_row (is_enabled_with user) w.accounts)
  a ← lift (or_error row unauthorized)
  check (c.verify_password password a.password_hash) forbidden

unfoldable pub confirm_password : Site → Visit → ℕ → Text → Exec Console (Unit {0})
confirm_password c v user password = reauthenticate c v user password
