-- ===== src/Upload/World.antt =====
-- What an upload request reads and writes: the tables and the files it shares with all others (the
-- world), what the server is configured with (the host), and what the request meets (the moment):
-- the clocks, the result of the walk over the user's files, and which calls fail.
use nexa_drive.Prelude.{ℕ, Bool, not, Option, none, some, List, [], ◌∷◌, if◌then◌else◌, String}
use nexa_drive.Text.{Text}
use nexa_drive.Error.{Result, ok, err, AppError, database, io, unauthorized}
use nexa_drive.Error.Exec.{Exec, pure, lift, gets, check, modify, ◌>>=◌, ◌>>◌}
use nexa_drive.Paths.{FilePath}
use nexa_drive.Upload.Files.{Files, make_folders, is_blocked}
use nexa_drive.Upload.Jobs.{Job}

-- A BIGINT column.
pub data I64 : Type 0 where
  nonneg : ℕ → I64
  negative : ℕ → I64

pub record User : Type 0 where
  pub role : Text
  pub disabled : Bool
  pub quota_bytes : Option I64

-- A cached reading of the bytes that a user's files take.
pub record QuotaCacheEntry : Type 0 where
  pub at : ℕ
  pub cutoff : ℕ
  pub bytes : ℕ

pub record AuditRow : Type 0 where
  pub user_id : ℕ
  pub action : String
  pub path : Option Text

pub record World : Type 0 where
  pub users : ℕ → Option User
  pub jobs : List Job
  pub files : Files
  pub tombstones : List (ℕ × Text)
  pub audit_logs : List AuditRow
  pub quota_cache : ℕ → Option QuotaCacheEntry

-- A user id or an upload id is a number; `uuid_text` is how the `uuid` crate writes it, and `sha256`
-- the digest of the `sha2` crate in hexadecimal.
pub record Host : Type 0 where
  pub storage_root : FilePath
  pub max_upload_bytes : ℕ
  pub uuid_text : ℕ → Text
  pub sha256 : List ℕ → Text

-- The calls of a request that can fail for reasons outside of the model.
pub data Call : Type 0 where
  lock_map upload_slot role_query create_dirs select_job quota_query walk_files reserved_query
        completed_query insert_job cut_staging sync_staging update_offset create_staging
        open_staging write_body flush_body sync_body update_progress hash_staging rename_staging
        remove_target rename_again update_failed transaction audit_insert remove_staging update_job
        prune_jobs :
      Call

pub record Moment : Type 0 where
  pub fails : Call → Bool
  -- CURRENT_TIMESTAMP, in seconds, and the monotonic clock, in milliseconds
  pub clock : ℕ
  pub instant : ℕ
  -- the bytes that the walk over the user's files adds up (`tree_stats`)
  pub tree_used : ℕ
  -- of a body whose write is abandoned, the bytes that have left the buffer
  pub reached : ℕ
  -- the length that the file system reports for a folder
  pub folder_len : ℕ

-- A call without an effect of its own, and the error that its failure is reported as.
abbrev pub attempt : Moment → Call → AppError → Exec World (Unit {0})
attempt m c e = check (not (m.fails c)) e

abbrev pub set_files : (Files → Files) → Exec World (Unit {0})
set_files f = modify (λ w. record w { files = f w.files })

abbrev pub set_jobs : (List Job → List Job) → Exec World (Unit {0})
set_jobs f = modify (λ w. record w { jobs = f w.jobs })

-- One row of the audit log (`audit`).
unfoldable pub audit : Moment → ℕ → String → Option Text → Exec World (Unit {0})
audit m user action path = do
  attempt m Call.audit_insert database
  modify (λ w. record w {
    audit_logs = record { user_id = user; action = action; path = path } ∷ w.audit_logs;
  })

unfoldable pub enabled_user : Option User → Result User
enabled_user none = err unauthorized
enabled_user (some u) = if u.disabled then err unauthorized else ok u

-- `current_role`: the role of an account that is not disabled.
unfoldable pub current_role : Moment → ℕ → Exec World Text
current_role m user = do
  attempt m Call.role_query database
  row ← gets (λ w. w.users user)
  u ← lift (enabled_user row)
  pure u.role

-- Every enabled account may write in its own storage; the path is not looked at.
unfoldable pub require_write_access : Moment → ℕ → Exec World (Unit {0})
require_write_access m user = do role ← current_role m user; pure tt

-- The folders above an entry.
unfoldable pub create_dir_all : Moment → FilePath → Exec World (Unit {0})
create_dir_all m p = do
  attempt m Call.create_dirs io
  blocked ← gets (λ w. is_blocked [] p w.files)
  set_files (make_folders [] p)
  check (not blocked) io
