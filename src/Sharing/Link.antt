-- ===== src/Sharing/Link.antt =====
-- Downloads by a public link (server/src/handlers/sharing.rs, `public_share_download`).
use nexa_drive.Prelude.{
  ℕ, ◌-◌, Bool, false, not, ◌&&◌, Option, none, some, [], ◌∷◌, ◌++◌, leb, length,
}
use nexa_drive.Prelude.Rows.{find_row}
use nexa_drive.Text.{Text, codes, text_eq, join}
use nexa_drive.Error.{database, internal, not_found, too_many_requests}
use nexa_drive.Error.Exec.{Exec, pure, raise, gets, lift, check, modify, ◌>>=◌, ◌>>◌}
use nexa_drive.Paths.{FilePath, safe_relative_path}
use nexa_drive.Paths.Mime.{file_name}
use nexa_drive.Auth.{LoginAttempt}
use nexa_drive.Auth.Throttle.{
  Attempts, window, register_failed_share_download, clear_share_download_attempts,
}
use nexa_drive.Upload.World.{Host, audit}
use nexa_drive.Download.{Response, file_response}
use nexa_drive.Shelf.{in_world}
use nexa_drive.Shelf.Transfer.{path_of}
use nexa_drive.Shelf.Trash.{unwrap_path, name_or_empty}
use nexa_drive.Sharing.{
  ShareRow, Exchange, Errand, ShareCall, attempt_share, in_vault, is_unexpired,
}
use nexa_drive.Sharing.Received.{open_shared, download_name, file_of}

abbrev pub max_link_failures : ℕ
max_link_failures = 30

unfoldable pub is_link_blocked : ℕ → Option LoginAttempt → Bool
is_link_blocked now none = false
is_link_blocked now (some a) =
    leb (now - a.window_started) window && leb max_link_failures a.failures

abbrev pub throttle_key : Text → Text
throttle_key hash = codes "share:" ++ hash

abbrev pub same_hash : Option Text → Text → Bool
same_hash none hash = false
same_hash (some h) hash = text_eq h hash

unfoldable pub is_link_of : ℕ → Text → ShareRow → Bool
is_link_of now hash s = same_hash s.token_hash hash && (s.is_link && is_unexpired now s.expires_at)

abbrev pub set_download_attempts : (Attempts → Attempts) → Exec Exchange (Unit {0})
set_download_attempts f =
    modify (λ x. record x { share_download_attempts = f x.share_download_attempts })

-- The row of the link, or a failure that counts against the token.
unfoldable pub found_link : Errand → Text → Option ShareRow → Exec Exchange ShareRow
found_link e hash none = do
  set_download_attempts (
      register_failed_share_download (e.fails ShareCall.attempts_lock) e.instant
        (throttle_key hash))
  raise not_found
found_link e hash (some s) = do
  set_download_attempts
      (clear_share_download_attempts (e.fails ShareCall.attempts_lock) (throttle_key hash))
  pure s

-- The name of the file: of the path below the share, or of the share.
abbrev pub link_name : FilePath → FilePath → Text
link_name [] base = name_or_empty (file_name base)
link_name (w ∷ ws) base = name_or_empty (file_name (w ∷ ws))

-- `digest` is `token_hash`.
unfoldable pub public_share_download :
    (Text → Text) → Host → Errand → Text → Option Text → Option Text → Exec Exchange Response
public_share_download digest host e token path range = do
  let hash = digest token
  attempt_share e ShareCall.attempts_lock internal
  entry ← gets (λ x. x.share_download_attempts (throttle_key hash))
  check (not (is_link_blocked e.instant entry)) too_many_requests
  attempt_share e ShareCall.select_share database
  row ← gets (λ x. find_row (is_link_of e.now hash) x.shares)
  s ← found_link e hash row
  base ← lift (safe_relative_path s.path)
  rel ← lift (safe_relative_path (unwrap_path path))
  b ← open_shared e (path_of host s.owner_id (base ++ rel)) false
  in_vault (
      in_world (
        audit e.pass.moment s.owner_id "public_share_download"
          (some (hash ++ (codes ":" ++ join 47 rel)))))
  pure (file_response (file_of e b) (length b) (download_name (link_name rel base)) range)
