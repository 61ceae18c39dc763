-- ===== src/Auth/Sessions.antt =====
-- The session handlers (server/src/handlers/sessions.rs).
pub mod Scope
use nexa_drive.Prelude.{
  ℕ, ◌+◌, Bool, true, false, not, ◌&&◌, ◌||◌, Option, none, some, List, [], ◌∷◌, ltb, leb, ◌==◌,
  if◌then◌else◌, keep, length, map, String,
}
use nexa_drive.Text.{Text, codes, text_eq, strip_prefix}
use nexa_drive.Error.{
  Result, ok, err, AppError, database, unauthorized, not_found, bad_request, plain, or_error,
}
use nexa_drive.Error.Exec.{Exec, gets, check, lift, modify, pure, raise, ◌>>=◌, ◌>>◌}
use nexa_drive.Auth.{
  Session, Subject, nothing, one_session, many_sessions, one_account, Store, Crypto, Step, Tick,
  step, set_sessions, log_action,
}

pub record SessionInfo : Type 0 where
  pub session_id : ℕ
  pub created_at : ℕ
  pub last_activity_at : Option ℕ
  pub expires_at : ℕ
  pub is_current : Bool
  pub device_name : Option Text
  pub platform : Option Text

unfoldable pub info_of : Bool → Session → SessionInfo
info_of current s = record {
  session_id = s.id;
  created_at = s.created_at;
  last_activity_at = s.last_activity_at;
  expires_at = s.expires_at;
  is_current = current;
  device_name = s.device_name;
  platform = s.platform;
}

-- The value of the header `Authorization`, if it is a text.
unfoldable pub bearer : Option Text → Option Text
bearer none = none
bearer (some value) = strip_prefix (codes "Bearer ") value

unfoldable pub is_of : ℕ → Session → Bool
is_of user s = s.user_id == user

unfoldable pub has_token : ℕ → Text → Session → Bool
has_token user hash s = is_of user s && text_eq s.token_hash hash

unfoldable pub is_named : ℕ → ℕ → Session → Bool
is_named id user s = s.id == id && is_of user s

-- `user_id = $1 AND expires_at > CURRENT_TIMESTAMP`
unfoldable pub is_live : ℕ → ℕ → Session → Bool
is_live user now s = is_of user s && ltb now s.expires_at

-- … `AND id <> $2`
unfoldable pub is_other : ℕ → ℕ → ℕ → Session → Bool
is_other user now current s = is_live user now s && not (s.id == current)

unfoldable pub first : (Session → Bool) → List Session → Option Session
first p [] = none
first p (s ∷ ss) = if p s then some s else first p ss

-- UPDATE and DELETE of the rows that a test selects.
unfoldable pub update_where : (Session → Bool) → (Session → Session) → List Session → List Session
update_where p f [] = []
update_where p f (s ∷ ss) = (if p s then f s else s) ∷ update_where p f ss

unfoldable pub delete_where : (Session → Bool) → List Session → List Session
delete_where p ss = keep (λ s. not (p s)) ss

unfoldable pub count_where : (Session → Bool) → List Session → ℕ
count_where p ss = length (keep p ss)

unfoldable pub touch : ℕ → Session → Session
touch now s = record s { last_activity_at = some now }

-- `ORDER BY last_activity_at DESC`, where no time comes last.
unfoldable pub no_later : Option ℕ → Option ℕ → Bool
no_later none b = true
no_later (some a) none = false
no_later (some a) (some b) = leb a b

unfoldable pub insert_recent : Session → List Session → List Session
insert_recent s [] = s ∷ []
insert_recent s (r ∷ rs) =
    let rest = insert_recent s rs in
    if no_later r.last_activity_at s.last_activity_at then s ∷ r ∷ rs else r ∷ rest

unfoldable pub by_recency : List Session → List Session
by_recency [] = []
by_recency (s ∷ ss) = insert_recent s (by_recency ss)

unfoldable pub current_session : Crypto → Tick → ℕ → Option Text → Exec Store SessionInfo
current_session c t user authorization = do
  token ← lift (or_error (bearer authorization) unauthorized)
  step t Step.touch_session database
  set_sessions (update_where (has_token user (c.token_hash token)) (touch t.now))
  step t Step.select_session database
  row ← gets (λ w. first (has_token user (c.token_hash token)) w.sessions)
  s ← lift (or_error row not_found)
  pure (info_of true s)

unfoldable pub unwrap_or : Option Bool → Bool
unwrap_or none = true
unwrap_or (some b) = b

unfoldable pub list_sessions : Tick → ℕ → ℕ → Option Bool → Exec Store (List SessionInfo)
list_sessions t user current include_current = do
  step t Step.select_session database
  rows ← gets (λ w. by_recency (keep (is_live user t.now) w.sessions))
  pure (map (λ s. info_of (unwrap_or include_current && (s.id == current)) s) rows)

unfoldable pub revoke_session : Tick → ℕ → Option ℕ → Exec Store ℕ
revoke_session t user session_id = do
  id ← lift (or_error session_id (bad_request (plain "session_id is required")))
  step t Step.delete_session database
  affected ← gets (λ w. count_where (is_named id user) w.sessions)
  set_sessions (delete_where (is_named id user))
  check (not (affected == 0)) not_found
  log_action t user "revoke_session" (one_session id)
  pure affected

-- The deletions, one by one.
unfoldable pub delete_each : Tick → ℕ → List ℕ → Exec Store (Unit {0})
delete_each t user [] = pure tt
delete_each t user (id ∷ ids) = do
  check (not (t.fails_delete id)) database
  set_sessions (delete_where (is_named id user))
  delete_each t user ids

unfoldable pub revoke_listed : Tick → ℕ → List ℕ → Exec Store ℕ
revoke_listed t user [] = pure 0
revoke_listed t user (id ∷ ids) = do
  delete_each t user (id ∷ ids)
  log_action t user "revoke_other_sessions" (many_sessions (length (id ∷ ids)))
  pure (length (id ∷ ids))

unfoldable pub is_revoked : ℕ → ℕ → ℕ → Bool → Session → Bool
is_revoked user now current true s = is_other user now current s
is_revoked user now current false s = is_live user now s

unfoldable pub revoke_other_sessions : Tick → ℕ → ℕ → Option Bool → Exec Store ℕ
revoke_other_sessions t user current exclude_current = do
  step t Step.select_session database
  ids ← gets (λ w.
      map (λ s. s.id) (keep (is_revoked user t.now current (unwrap_or exclude_current)) w.sessions))
  revoke_listed t user ids

unfoldable pub revoke_user : Tick → ℕ → ℕ → String → Subject → Exec Store ℕ
revoke_user t user acted_by action subject = do
  step t Step.delete_session database
  affected ← gets (λ w. count_where (is_of user) w.sessions)
  set_sessions (delete_where (is_of user))
  log_action t acted_by action subject
  pure affected

unfoldable pub sign_out_everywhere : Tick → ℕ → Exec Store ℕ
sign_out_everywhere t user = revoke_user t user user "sign_out_everywhere" nothing

unfoldable pub revoke_all_for_user : Tick → ℕ → ℕ → String → Exec Store ℕ
revoke_all_for_user t user acted_by reason = revoke_user t user acted_by reason (one_account user)
