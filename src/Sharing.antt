-- ===== src/Sharing.antt =====
-- Shares (server/src/handlers/sharing.rs): with a user, or as a public link.
pub mod Grants
pub mod Received
pub mod Action
pub mod Link
pub mod Scope
pub mod Untouched
pub mod Named
pub mod Inside
pub mod Within
pub mod Reached
use nexa_drive.Prelude.{ℕ, Bool, true, false, not, ◌&&◌, Option, none, some, List, ◌==◌, ltb}
use nexa_drive.Prelude.Rows.{find_row}
use nexa_drive.Text.{Text, text_eq}
use nexa_drive.Error.{AppError, Result, ok, err, database, not_found, or_error}
use nexa_drive.Error.Exec.{Exec, pure, gets, lift, check, modify, ◌>>=◌, ◌>>◌}
use nexa_drive.Paths.{FilePath, safe_relative_path}
use nexa_drive.Auth.{Account}
use nexa_drive.Auth.Throttle.{Attempts}
use nexa_drive.Upload.World.{World}
use nexa_drive.Shelf.{Vault, Pass, in_world}

-- A row of `shares`, the newest first.
pub record ShareRow : Type 0 where
  pub id : ℕ
  pub owner_id : ℕ
  pub recipient_user_id : Option ℕ
  pub path : Text
  pub permission : Text
  pub is_link : Bool
  pub token_hash : Option Text
  pub expires_at : Option ℕ
  pub recipient_name : Option Text
  pub link_label : Option Text

pub record Exchange : Type 0 where
  pub vault : Vault
  pub shares : List ShareRow
  pub accounts : List Account
  pub share_download_attempts : Attempts

pub data ShareCall : Type 0 where
  select_share select_accounts insert_share delete_share open_file read_metadata attempts_lock :
      ShareCall

-- What a request meets: the entries' pass, the failing calls, the clocks (seconds), the id and the token of a
-- new share, and the reads of the opened file that fail.
pub record Errand : Type 0 where
  pub pass : Pass
  pub fails : ShareCall → Bool
  pub now : ℕ
  pub instant : ℕ
  pub new_id : ℕ
  pub new_token : Text
  pub read_fails : ℕ → Bool
  pub seek_fails : Bool

abbrev pub attempt_share : Errand → ShareCall → AppError → Exec Exchange (Unit {0})
attempt_share e c a = check (not (e.fails c)) a

abbrev pub vault_back : {A : Type 0} → Exchange → Result A × Vault → Result A × Exchange
vault_back x (r, v) = (r, record x { vault = v })

-- A handler of the entries.
unfoldable pub in_vault : {A : Type 0} → Exec Vault A → Exec Exchange A
in_vault m x = vault_back x (m x.vault)

abbrev pub set_shares : (List ShareRow → List ShareRow) → Exec Exchange (Unit {0})
set_shares f = modify (λ x. record x { shares = f x.shares })

-- `expires_at IS NULL OR expires_at > CURRENT_TIMESTAMP`
abbrev pub is_unexpired : ℕ → Option ℕ → Bool
is_unexpired now none = true
is_unexpired now (some end) = ltb now end

abbrev pub is_user : Option ℕ → ℕ → Bool
is_user none user = false
is_user (some u) user = u == user

unfoldable pub is_received : ℕ → ℕ → ShareRow → Bool
is_received now user s =
    is_user s.recipient_user_id user && (not s.is_link && is_unexpired now s.expires_at)

unfoldable pub is_account : ℕ → Account → Bool
is_account user a = a.id == user

-- What `resolve_share` gives: the owner, the path, the permission and the owner's name.
pub record Resolved : Type 0 where
  pub owner_id : ℕ
  pub base : FilePath
  pub permission : Text
  pub owner : Text

unfoldable pub resolve_share : Errand → ℕ → ℕ → Exec Exchange Resolved
resolve_share e user id = do
  attempt_share e ShareCall.select_share database
  row ← gets (λ x. find_row (λ s. (s.id == id) && is_received e.now user s) x.shares)
  s ← lift (or_error row not_found)
  found ← gets (λ x. find_row (is_account s.owner_id) x.accounts)
  owner ← lift (or_error found not_found)
  base ← lift (safe_relative_path s.path)
  pure (record {
    owner_id = s.owner_id;
    base = base;
    permission = s.permission;
    owner = owner.username;
  })
