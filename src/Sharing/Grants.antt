-- ===== src/Sharing/Grants.antt =====
-- Giving and taking back shares (server/src/handlers/sharing.rs).
use nexa_drive.Prelude.{
  ℕ, Bool, true, false, not, ◌&&◌, ◌||◌, Option, none, some, List, [], ◌∷◌, ◌++◌, if◌then◌else◌,
  map, ltb, ◌==◌, keep, length, take, String,
}
use nexa_drive.Prelude.Rows.{find_row, delete_rows}
use nexa_drive.Text.{Text, codes, text_eq, trim, is_empty, to_ascii_lowercase, starts_with}
use nexa_drive.Error.{bad_request, plain, database, not_found, or_error}
use nexa_drive.Error.Exec.{Exec, pure, gets, lift, check, ◌>>=◌, ◌>>◌}
use nexa_drive.Paths.{FilePath, safe_relative_path, relative_text}
use nexa_drive.Auth.{Account}
use nexa_drive.Upload.World.{Host, audit}
use nexa_drive.Shelf.{in_world, is_dir}
use nexa_drive.Shelf.Entry.{ensure_supported_entry}
use nexa_drive.Shelf.Transfer.{path_of, is_root}
use nexa_drive.Sharing.{
  ShareRow, Exchange, Errand, ShareCall, attempt_share, in_vault, set_shares, is_user, is_received,
  is_account,
}

pub record CreateShareRequest : Type 0 where
  pub path : Text
  pub username : Option Text
  pub permission : Text
  pub expires_at : Option ℕ

pub record ShareResponse : Type 0 where
  pub id : ℕ
  pub path : Text
  pub permission : Text
  pub recipient : Option Text
  pub is_link : Bool
  pub token : Option Text
  pub expires_at : Option ℕ

pub record SharedRootResponse : Type 0 where
  pub id : ℕ
  pub name : Text
  pub path : Text
  pub permission : Text
  pub owner : Text

abbrev pub name_of : Option Account → Option Text
name_of none = none
name_of (some a) = some a.username

abbrev pub account_of : Option ℕ → List Account → Option Account
account_of none accounts = none
account_of (some user) accounts = find_row (is_account user) accounts

unfoldable pub share_response : List Account → ShareRow → ShareResponse
share_response accounts s = record {
  id = s.id;
  path = s.path;
  permission = s.permission;
  recipient = name_of (account_of s.recipient_user_id accounts);
  is_link = s.is_link;
  token = none;
  expires_at = s.expires_at;
}

unfoldable pub is_owned : ℕ → ShareRow → Bool
is_owned user s = s.owner_id == user

unfoldable pub list_shares : Errand → ℕ → Exec Exchange (List ShareResponse)
list_shares e user = do
  attempt_share e ShareCall.select_share database
  gets (λ x. map (share_response x.accounts) (keep (is_owned user) x.shares))

unfoldable pub link_share_is_allowed : Bool → Bool → Bool
link_share_is_allowed dir has_recipient = not dir || has_recipient

abbrev pub has_name : Option Text → Bool
has_name none = false
has_name (some name) = true

-- `LOWER(username)=LOWER($1) AND disabled=FALSE`; SQLite's LOWER maps ASCII letters.
unfoldable pub is_named_like : Text → Account → Bool
is_named_like name a =
    text_eq (to_ascii_lowercase a.username) (to_ascii_lowercase name) && not a.disabled

-- Whom a share is for: an account, or whoever has the token.
pub data Audience : Type 0 where
  person : Account → Audience
  bearer : Text → Audience

unfoldable pub audience_of : Errand → Option Text → Exec Exchange Audience
audience_of e none = pure (bearer e.new_token)
audience_of e (some username) = do
  attempt_share e ShareCall.select_accounts database
  row ← gets (λ x. find_row (is_named_like (trim username)) x.accounts)
  a ← lift (or_error row not_found)
  pure (person a)

-- A new row, for a digest of tokens.
unfoldable pub new_share :
    (Text → Text) → Errand → ℕ → FilePath → CreateShareRequest → Audience → ShareRow
new_share digest e owner path payload (person a) = record {
  id = e.new_id;
  owner_id = owner;
  recipient_user_id = some a.id;
  path = relative_text path;
  permission = payload.permission;
  is_link = false;
  token_hash = none;
  expires_at = payload.expires_at;
  recipient_name = some a.username;
  link_label = none;
}
new_share digest e owner path payload (bearer token) = record {
  id = e.new_id;
  owner_id = owner;
  recipient_user_id = none;
  path = relative_text path;
  permission = payload.permission;
  is_link = true;
  token_hash = some (digest token);
  expires_at = payload.expires_at;
  recipient_name = none;
  link_label = some (codes "Link to " ++ payload.path);
}

abbrev pub share_action : Audience → String
share_action (person a) = "share"
share_action (bearer token) = "create_share_link"

abbrev pub token_of : Audience → Option Text
token_of (person a) = none
token_of (bearer token) = some token

abbrev pub is_for_bearer : Audience → Bool
is_for_bearer (person a) = false
is_for_bearer (bearer token) = true

abbrev pub person_name : Audience → Option Text
person_name (person a) = some a.username
person_name (bearer token) = none

unfoldable pub create_share :
    (Text → Text) → Host → Errand → ℕ → CreateShareRequest → Exec Exchange ShareResponse
create_share digest host e owner payload = do
  path ← lift (safe_relative_path payload.path)
  check (not (is_root path)) (bad_request (plain "Cannot share the root"))
  kind ← in_vault (ensure_supported_entry e.pass (path_of host owner path))
  check (text_eq payload.permission (codes "read") || text_eq payload.permission (codes "write"))
      (bad_request (plain "Permission must be read or write"))
  check (link_share_is_allowed (is_dir kind) (has_name payload.username)) (
      bad_request (
        plain
          "Folders cannot be shared as public links. Share the folder with a NexaDrive user instead."))
  audience ← audience_of e payload.username
  attempt_share e ShareCall.insert_share database
  set_shares (λ rows. new_share digest e owner path payload audience ∷ rows)
  in_vault (in_world (audit e.pass.moment owner (share_action audience) (some payload.path)))
  pure (record {
    id = e.new_id;
    path = payload.path;
    permission = payload.permission;
    recipient = person_name audience;
    is_link = is_for_bearer audience;
    token = token_of audience;
    expires_at = payload.expires_at;
  })

pub record NameMatches : Type 0 where
  pub exact : Option Text
  pub partial : List Text

abbrev pub non_empty : Option Text → Option Text
non_empty none = none
non_empty (some v) = if is_empty (trim v) then none else some (trim v)

-- `LIKE LOWER('q%')`, with per cent signs and underscores of the query as plain characters.
unfoldable pub begins_like : Text → Account → Bool
begins_like q a =
    starts_with (to_ascii_lowercase q) (to_ascii_lowercase a.username) && not a.disabled

-- `query.len() < 2` counts bytes; `byte_len` is the length of a text in UTF-8, and `by_name` the order of the query.
unfoldable pub resolve_username :
    (Text → ℕ) → (List Text → List Text) → Errand → Option Text → Exec Exchange NameMatches
resolve_username byte_len by_name e q = do
  query ← lift (or_error (non_empty q) (bad_request (plain "q is required")))
  if ltb (byte_len query) 2 then pure (record { exact = none; partial = [] }) else (do
    attempt_share e ShareCall.select_accounts database
    accounts ← gets (λ x. x.accounts)
    pure (record {
      exact = name_of (find_row (is_named_like query) accounts);
      partial = take 20 (by_name (map (λ a. a.username) (keep (begins_like query) accounts)));
    }))

unfoldable pub is_share_of : ℕ → ℕ → ShareRow → Bool
is_share_of id user s = (s.id == id) && is_owned user s

unfoldable pub is_share_for : ℕ → ℕ → ShareRow → Bool
is_share_for id user s = (s.id == id) && (is_user s.recipient_user_id user && not s.is_link)

-- The rows that a test selects are deleted; there must be one.
unfoldable pub delete_selected : Errand → (ShareRow → Bool) → Exec Exchange (Unit {0})
delete_selected e selects = do
  attempt_share e ShareCall.delete_share database
  affected ← gets (λ x. length (keep selects x.shares))
  set_shares (delete_rows selects)
  check (not (affected == 0)) not_found

unfoldable pub delete_share : Host → Errand → ℕ → Option ℕ → Exec Exchange (Unit {0})
delete_share host e user id = do
  i ← lift (or_error id (bad_request (plain "Share id is required")))
  delete_selected e (is_share_of i user)
  in_vault (in_world (audit e.pass.moment user "delete_share" (some (host.uuid_text i))))

unfoldable pub leave_share : Host → Errand → ℕ → Option ℕ → Exec Exchange (Unit {0})
leave_share host e user id = do
  i ← lift (or_error id (bad_request (plain "Share id is required")))
  delete_selected e (is_share_for i user)
  in_vault (in_world (audit e.pass.moment user "leave_shared_item" (some (host.uuid_text i))))

abbrev pub or_no_name : Option Text → Text
or_no_name none = []
or_no_name (some name) = name

-- The rows of the account whose owner exists; `last_piece` is `Path::file_name` of a stored text.
unfoldable pub shared_root :
    (Text → Option Text) → List Account → ShareRow → List SharedRootResponse
shared_root last_piece accounts s = elim (find_row (is_account s.owner_id) accounts) [
  | none ↦ []
  | some owner ↦
      record {
        id = s.id;
        name = or_no_name (last_piece s.path);
        path = s.path;
        permission = s.permission;
        owner = owner.username;
      }
      ∷ []
]

unfoldable pub shared_roots :
    (Text → Option Text) → List Account → List ShareRow → List SharedRootResponse
shared_roots last_piece accounts [] = []
shared_roots last_piece accounts (s ∷ ss) =
    shared_root last_piece accounts s ++ shared_roots last_piece accounts ss

unfoldable pub list_shared :
    (Text → Option Text) → Errand → ℕ → Exec Exchange (List SharedRootResponse)
list_shared last_piece e user = do
  attempt_share e ShareCall.select_share database
  gets (λ x. shared_roots last_piece x.accounts (keep (is_received e.now user) x.shares))
