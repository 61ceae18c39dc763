-- ===== src/Upload/Cancel.antt =====
-- The end of an upload from outside: `cancel_upload` and `upload_status`, and the reconciliation of
-- the journal with the disk at the start of the server (`recover_upload_jobs`).
pub mod Kept
use nexa_drive.Prelude.{
  ℕ, zero, Bool, true, false, not, ◌&&◌, ◌||◌, Option, none, some, List, [], ◌∷◌, ◌++◌, ltb, ◌==◌,
  if◌then◌else◌, keep,
}
use nexa_drive.Text.{Text}
use nexa_drive.Error.{Result, ok, err, database, or_error}
use nexa_drive.Error.Exec.{Exec, pure, raise, lift, gets, check, modify, ◌>>=◌, ◌>>◌}
use nexa_drive.Paths.{FilePath, safe_relative_path, user_root}
use nexa_drive.Upload.Files.{Node, file, put, exists, is_file}
use nexa_drive.Upload.Jobs.{
  Job, Status, receiving, completed, failed, JobError, cancelled, find, update, is_completed,
  is_live,
}
use nexa_drive.Upload.World.{World, Host, Moment, Call, attempt, set_files, set_jobs}
use nexa_drive.Upload.Chunk.{set_failed}
use nexa_drive.Upload.Staging.{staging_path, staging_len, is_folder}

pub data CancelReply : Type 0 where
  unknown already_done now_cancelled : CancelReply

unfoldable pub absolute_of : Host → ℕ → FilePath → FilePath
absolute_of host user p = user_root host.storage_root (host.uuid_text user) ++ p

-- `let _ = fs::remove_file(…)`: what cannot be removed stays.
unfoldable pub removed : Bool → Option Node → Option Node
removed fails node = if fails || is_folder node then node else none

unfoldable pub try_remove : Moment → FilePath → Exec World (Unit {0})
try_remove m p = set_files (λ files. put p (removed (m.fails Call.remove_staging) (files p)) files)

unfoldable pub cancel_row : Host → Moment → ℕ → ℕ → Job → Exec World CancelReply
cancel_row host m user id row = do
  relative ← lift (safe_relative_path row.path)
  try_remove m (staging_path host (absolute_of host user relative) id)
  attempt m Call.update_job database
  set_jobs (update id user (set_failed m cancelled))
  pure now_cancelled

unfoldable pub cancel_found : Host → Moment → ℕ → ℕ → Option Job → Exec World CancelReply
cancel_found host m user id none = pure unknown
cancel_found host m user id (some row) =
    if is_completed row.status then pure already_done else cancel_row host m user id row

-- The source takes no lock of the upload here; the steps between the statements are one step of the model, so a
-- chunk of the same upload that runs between them is not described.
unfoldable pub cancel_upload : Host → Moment → ℕ → ℕ → Exec World CancelReply
cancel_upload host m user id = do
  attempt m Call.select_job database
  row ← gets (λ w. find id user w.jobs)
  cancel_found host m user id row

-- The row as it is, or nothing ("unknown").
unfoldable pub upload_status : Moment → ℕ → ℕ → Exec World (Option Job)
upload_status m user id = do attempt m Call.select_job database; gets (λ w. find id user w.jobs)

-- `WHERE id=$1`
unfoldable pub update_id : ℕ → (Job → Job) → List Job → List Job
update_id id f [] = []
update_id id f (j ∷ js) = (if j.id == id then f j else j) ∷ update_id id f js

unfoldable pub fail_row : Moment → Job → Job
fail_row m j = record j { status = failed; updated_at = m.clock }

unfoldable pub complete_row : Moment → ℕ → Job → Job
complete_row m size j = record j {
  size_bytes = size;
  bytes_received = size;
  status = completed;
  updated_at = m.clock;
}

unfoldable pub resume_row : Moment → Job → Job
resume_row m j = record j { status = receiving; updated_at = m.clock }

unfoldable pub reset_row : Moment → Job → Job
reset_row m j = record j {
  bytes_received = 0;
  size_bytes = 0;
  status = receiving;
  updated_at = m.clock;
}

unfoldable pub set_row : Moment → ℕ → (Job → Job) → Exec World (Unit {0})
set_row m id f = do attempt m Call.update_job database; set_jobs (update_id id f)

unfoldable pub reset_upload : Moment → ℕ → FilePath → Exec World (Unit {0})
reset_upload m id staging = do try_remove m staging; set_row m id (reset_row m)

-- The journal's offset against the staging file's length.
unfoldable pub recover_staging : Moment → Job → FilePath → Option Node → Exec World (Unit {0})
recover_staging m row staging node =
    if (staging_len m node == row.bytes_received) && ltb 0 row.bytes_received
    then set_row m row.id (resume_row m)
    else reset_upload m row.id staging

unfoldable pub recover_at : Host → Moment → Job → FilePath → Exec World (Unit {0})
recover_at host m row final_path = do
  node ← gets (λ w. w.files final_path)
  staged ← gets (λ w. w.files (staging_path host final_path row.id))
  (if is_file node
      then set_row m row.id (complete_row m (staging_len m node))
      else recover_staging m row (staging_path host final_path row.id) staged)

unfoldable pub recover_path : Host → Moment → Job → Result FilePath → Exec World (Unit {0})
recover_path host m row (err e) = set_row m row.id (fail_row m)
recover_path host m row (ok relative) =
    recover_at host m row (absolute_of host row.user_id relative)

unfoldable pub recover_each : Host → Moment → List Job → Exec World (Unit {0})
recover_each host m [] = pure tt
recover_each host m (row ∷ rows) = do
  recover_path host m row (safe_relative_path row.path)
  recover_each host m rows

unfoldable pub recover_upload_jobs : Host → Moment → Exec World (Unit {0})
recover_upload_jobs host m = do
  attempt m Call.select_job database
  rows ← gets (λ w. keep (λ j. is_live j.status) w.jobs)
  recover_each host m rows
