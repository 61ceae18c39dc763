-- ===== src/Upload/Chunk.antt =====
-- The resumable upload: one chunk (`upload_chunk`), in the order of the handler. The lock of the
-- upload id makes the chunks of one upload follow one another, so a chunk is one step here.
pub mod Prefix
pub mod Intact
pub mod Align
pub mod Write
pub mod Claim
pub mod Finish
pub mod Integrity
pub mod Progress
use nexa_drive.Prelude.{
  ℕ, ◌+◌, Bool, true, false, not, ◌&&◌, ◌||◌, Option, none, some, List, [], ◌∷◌, ◌++◌, ltb, leb,
  ◌==◌, if◌then◌else◌, take, length,
}
use nexa_drive.Text.{Text, codes, text_eq, is_empty, trim}
use nexa_drive.Text.Decimal.{saturating_add}
use nexa_drive.Error.{
  Result, ok, err, AppError, Message, plain, numbered, database, io, internal, bad_request,
  conflict, conflict_code, service_unavailable, or_error,
}
use nexa_drive.Error.Exec.{Exec, pure, raise, lift, gets, check, modify, on_error, ◌>>=◌, ◌>>◌}
use nexa_drive.Paths.{
  FilePath, Component, normal, components, safe_relative_path, user_root, relative_text,
}
use nexa_drive.Upload.Files.{Node, file, folder, Files, put, exists, is_file, write_at, parent}
use nexa_drive.Upload.Jobs.{
  Job, Status, receiving, completed, failed, JobError, from_error, find, update, has_id,
  is_completed,
}
use nexa_drive.Upload.World.{
  World, Host, Moment, Call, attempt, set_files, set_jobs, audit, require_write_access,
  create_dir_all,
}
use nexa_drive.Upload.Quota.{ensure_quota}
use nexa_drive.Upload.Staging.{
  staging_path, Frame, staging_len, cut, cut_staging, create_missing, write_body, content_of,
  replace_file, bytes,
}

-- Path::file_name of a text: its last component, if that is a normal one.
unfoldable pub last_name : List Component → Option Text
last_name [] = none
last_name (normal w ∷ []) = some w
last_name (c ∷ []) = none
last_name (c ∷ d ∷ cs) = last_name (d ∷ cs)

pub record ChunkQuery : Type 0 where
  pub upload_id : ℕ
  pub path : Text
  pub name : Text
  pub total : ℕ
  pub offset : ℕ

-- The parts of the answer that differ from case to case.
pub data ChunkReply : Type 0 where
  already_completed : ℕ → Text → ChunkReply
  still_receiving : ℕ → ℕ → ChunkReply
  now_completed : ℕ → Text → Text → ChunkReply

-- Where a chunk belongs.
pub record Target : Type 0 where
  pub text : Text
  pub absolute : FilePath

-- What the journal says about an upload.
pub record JobView : Type 0 where
  pub db_path : Text
  pub status : Status
  pub received : ℕ
  pub db_total : Option ℕ

unfoldable pub checked_name : Text → Result Text
checked_name name =
    if is_empty (trim name)
    then err (bad_request (plain "name is required"))
    else or_error (last_name (components name)) (bad_request (plain "Invalid filename"))

unfoldable pub not_special : Text → Bool
not_special filename =
    not (is_empty filename || (text_eq filename (codes ".") || text_eq filename (codes "..")))

unfoldable pub target_of : Host → ℕ → FilePath → Text → Target
target_of host user dir filename = record {
  text = relative_text (dir ++ filename ∷ []);
  absolute = user_root host.storage_root (host.uuid_text user) ++ (dir ++ filename ∷ []);
}

unfoldable pub chunk_target : Host → Moment → ℕ → ChunkQuery → Exec World Target
chunk_target host m user q = do
  dir ← lift (safe_relative_path q.path)
  require_write_access m user
  filename ← lift (checked_name q.name)
  check (not_special filename) (bad_request (plain "Invalid filename"))
  pure (target_of host user dir filename)

unfoldable pub view_of : Job → JobView
view_of j = record {
  db_path = j.path;
  status = j.status;
  received = j.bytes_received;
  db_total = j.total_bytes;
}

unfoldable pub new_job : Moment → ℕ → ℕ → Text → ℕ → Job
new_job m id user text total = record {
  id = id;
  user_id = user;
  path = text;
  size_bytes = 0;
  status = receiving;
  updated_at = m.clock;
  bytes_received = 0;
  total_bytes = some total;
  checksum_sha256 = none;
  last_error = none;
}

-- `INSERT … ON CONFLICT (id) DO NOTHING`, and the test of `rows_affected`.
unfoldable pub insert_job : Job → Exec World (Unit {0})
insert_job j = do
  taken ← gets (λ w. has_id j.id w.jobs)
  check (not taken) (conflict (plain "Upload id is already in use"))
  set_jobs (λ js. j ∷ js)

unfoldable pub found_or_new : Moment → ℕ → ℕ → Text → ℕ → Option Job → Exec World JobView
found_or_new m id user text total (some j) = pure (view_of j)
found_or_new m id user text total none = do
  ensure_quota m user total (some id)
  attempt m Call.insert_job database
  insert_job (new_job m id user text total)
  pure (view_of (new_job m id user text total))

-- The row of the upload, made anew if there is none.
unfoldable pub claim_job : Moment → ℕ → ℕ → Text → ℕ → Exec World JobView
claim_job m user id text total = do
  attempt m Call.select_job database
  row ← gets (λ w. find id user w.jobs)
  found_or_new m id user text total row

unfoldable pub same_total : Option ℕ → ℕ → Bool
same_total none total = false
same_total (some t) total = t == total

-- A declared length beyond the file's end.
unfoldable pub too_long : Option ℕ → ℕ → ℕ → Bool
too_long none offset total = false
too_long (some length) offset total = ltb total (saturating_add offset length)

unfoldable pub set_offset : Moment → ℕ → Job → Job
set_offset m received j = record j {
  bytes_received = received;
  size_bytes = received;
  updated_at = m.clock;
}

unfoldable pub lower_offset : Moment → ℕ → ℕ → ℕ → Exec World ℕ
lower_offset m user id received = do
  attempt m Call.update_offset database
  set_jobs (update id user (set_offset m received))
  pure received

-- The staging file and the recorded offset are brought to agree: the file is cut to the offset, or
-- the offset is lowered to the file's length. The result is the offset from which to go on.
unfoldable pub reconcile : Moment → ℕ → ℕ → FilePath → ℕ → Exec World ℕ
reconcile m user id staging received = do
  node ← gets (λ w. w.files staging)
  (if staging_len m node == received
      then pure received
      else if ltb received (staging_len m node)
      then cut_staging m staging received
      else lower_offset m user id (staging_len m node))

unfoldable pub set_progress : Moment → ℕ → Job → Job
set_progress m received j = record j {
  bytes_received = received;
  size_bytes = received;
  status = receiving;
  updated_at = m.clock;
  last_error = none;
}

unfoldable pub set_failed : Moment → JobError → Job → Job
set_failed m e j = record j { status = failed; last_error = some e; updated_at = m.clock }

unfoldable pub set_completed : Moment → ℕ → Text → Job → Job
set_completed m total checksum j = record j {
  bytes_received = total;
  size_bytes = total;
  status = completed;
  checksum_sha256 = some checksum;
  updated_at = m.clock;
  last_error = none;
}

-- `e.to_string()` of the errors that `replace_file` returns
abbrev pub io_text : JobError
io_text = from_error (plain "io error")

unfoldable pub other_row : ℕ → Text → (ℕ × Text) → Bool
other_row user path (u, p) = not (u == user && text_eq p path)

unfoldable pub remove_tombstone : ℕ → Text → List (ℕ × Text) → List (ℕ × Text)
remove_tombstone user path [] = []
remove_tombstone user path (t ∷ ts) =
    if other_row user path t
    then t ∷ remove_tombstone user path ts
    else remove_tombstone user path ts

-- The file is complete: its digest, its move into place, and the journal.
unfoldable pub finish : Host → Moment → ℕ → ℕ → Target → FilePath → ℕ → Exec World ChunkReply
finish host m user id target staging total = do
  attempt m Call.hash_staging io
  node ← gets (λ w. w.files staging)
  content ← lift (content_of node)
  on_error (replace_file m staging target.absolute) (λ e. do
    attempt m Call.update_failed database
    set_jobs (update id user (set_failed m io_text))
    raise e)
  attempt m Call.transaction database
  set_jobs (update id user (set_completed m total (host.sha256 content)))
  modify (λ w. record w { tombstones = remove_tombstone user target.text w.tombstones })
  audit m user "upload" (some target.text)
  pure (now_completed total (host.sha256 content) target.text)

unfoldable pub record_progress : Moment → ℕ → ℕ → ℕ → ℕ → Exec World ChunkReply
record_progress m user id received total = do
  attempt m Call.update_progress database
  set_jobs (update id user (set_progress m received))
  pure (still_receiving received total)

-- What follows the body: the end of the file is made durable, an overlong file is refused, and the
-- upload goes on or is finished.
unfoldable pub after_body :
    Host → Moment → ℕ → ℕ → Target → FilePath → ℕ → ℕ → Exec World ChunkReply
after_body host m user id target staging total received = do
  check (ltb received total || not (m.fails Call.sync_body)) io
  check (leb received total) (bad_request (plain "Upload exceeds declared size"))
  (if ltb received total
      then record_progress m user id received total
      else finish host m user id target staging total)

unfoldable pub resume_upload :
    Host → Moment → ℕ → ChunkQuery → Option ℕ → List Frame → Target → ℕ → Exec World ChunkReply
resume_upload host m user q expected frames target recorded = do
  let staging = staging_path host target.absolute q.upload_id
  received ← reconcile m user q.upload_id staging recorded
  create_missing m staging
  check (q.offset == received)
      (conflict_code (numbered "Resume from offset " received "") "offset_mismatch")
  written ← write_body m staging q.offset expected frames
  after_body host m user q.upload_id target staging q.total (saturating_add received written)

unfoldable pub continue_job :
    Host
    → Moment
    → ℕ
    → ChunkQuery
    → Option ℕ
    → List Frame
    → Target
    → JobView
    → Exec World ChunkReply
continue_job host m user q expected frames target job =
    if is_completed job.status then pure (already_completed job.received job.db_path) else (do
      check (text_eq job.db_path target.text && same_total job.db_total q.total)
          (conflict (plain "Upload metadata does not match the existing transfer"))
      check (not (too_long expected q.offset q.total))
          (bad_request (plain "Chunk exceeds total file size"))
      resume_upload host m user q expected frames target job.received)

unfoldable pub upload_chunk :
    Host → Moment → ℕ → ChunkQuery → Option ℕ → List Frame → Exec World ChunkReply
upload_chunk host m user q expected frames = do
  attempt m Call.lock_map internal
  attempt m Call.upload_slot service_unavailable
  target ← chunk_target host m user q
  create_dir_all m (parent target.absolute)
  check (leb q.total host.max_upload_bytes) (
      bad_request
        (numbered "Upload exceeds the configured maximum of " host.max_upload_bytes " bytes"))
  job ← claim_job m user q.upload_id target.text q.total
  continue_job host m user q expected frames target job
