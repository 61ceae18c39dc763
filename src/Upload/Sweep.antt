-- ===== src/Upload/Sweep.antt =====
-- The expiry of abandoned uploads (`sweep_expired_uploads` of server/src/handlers/upload.rs).
pub mod Spared
use nexa_drive.Prelude.{ℕ, ◌+◌, ◌*◌, Bool, not, ◌&&◌, some, List, [], ◌∷◌, leb, keep}
use nexa_drive.Prelude.Rows.{delete_rows}
use nexa_drive.Error.{Result, ok, err, AppError, database}
use nexa_drive.Error.Exec.{Exec, pure, gets, ◌>>=◌, ◌>>◌}
use nexa_drive.Paths.{FilePath, safe_relative_path}
use nexa_drive.Upload.Jobs.{Job, Status, failed, JobError, is_live}
use nexa_drive.Upload.World.{World, Host, Moment, Call, attempt, set_jobs}
use nexa_drive.Upload.Staging.{staging_path}
use nexa_drive.Upload.Cancel.{absolute_of, try_remove, set_row}

-- `updated_at <= datetime('now', '-ttl hours')`
unfoldable pub is_older : ℕ → ℕ → Job → Bool
is_older now ttl_hours j = leb (j.updated_at + ttl_hours * 3600) now

unfoldable pub is_expired : ℕ → ℕ → Job → Bool
is_expired now ttl_hours j = is_live j.status && is_older now ttl_hours j

unfoldable pub is_prunable : ℕ → ℕ → Job → Bool
is_prunable now ttl_hours j = not (is_live j.status) && is_older now ttl_hours j

unfoldable pub expire_row : Moment → Job → Job
expire_row m j = record j {
  status = failed;
  last_error = some JobError.expired;
  updated_at = m.clock;
}

unfoldable pub remove_staging_of : Host → Moment → Job → Result FilePath → Exec World (Unit {0})
remove_staging_of host m row (err e) = pure tt
remove_staging_of host m row (ok relative) =
    try_remove m (staging_path host (absolute_of host row.user_id relative) row.id)

unfoldable pub expire_each : Host → Moment → List Job → Exec World ℕ
expire_each host m [] = pure 0
expire_each host m (row ∷ rows) = do
  remove_staging_of host m row (safe_relative_path row.path)
  set_row m row.id (expire_row m)
  more ← expire_each host m rows
  pure (1 + more)

-- The number of expired uploads.
unfoldable pub sweep_expired_uploads : Host → Moment → ℕ → Exec World ℕ
sweep_expired_uploads host m ttl_hours = do
  attempt m Call.select_job database
  rows ← gets (λ w. keep (is_expired m.clock ttl_hours) w.jobs)
  expired ← expire_each host m rows
  attempt m Call.prune_jobs database
  set_jobs (delete_rows (is_prunable m.clock ttl_hours))
  pure expired
