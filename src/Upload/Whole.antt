-- ===== src/Upload/Whole.antt =====
-- The upload of a whole file by a form (`upload_file`).
pub mod Stored
use nexa_drive.Prelude.{
  ℕ, ◌+◌, Bool, true, false, not, ◌&&◌, ◌||◌, Option, none, some, List, [], ◌∷◌, ◌++◌, ◌==◌,
  if◌then◌else◌, length, take,
}
use nexa_drive.Text.{Text, codes}
use nexa_drive.Error.{
  Result, ok, err, AppError, Message, message_of, plain, database, io, internal, bad_request,
  conflict, or_error, service_unavailable,
}
use nexa_drive.Error.Exec.{Exec, pure, raise, lift, gets, check, modify, on_error, ◌>>=◌, ◌>>◌}
use nexa_drive.Paths.{FilePath, components, safe_relative_path}
use nexa_drive.Upload.Files.{Node, file, put, parent}
use nexa_drive.Upload.Jobs.{
  Job, Status, receiving, staging, completed, failed, JobError, from_error, find, update, has_id,
  is_completed,
}
use nexa_drive.Upload.World.{
  World, Host, Moment, Call, attempt, set_files, set_jobs, audit, require_write_access,
  create_dir_all,
}
use nexa_drive.Upload.Quota.{ensure_quota}
use nexa_drive.Upload.Chunk.{
  Target, last_name, not_special, target_of, set_failed, io_text, remove_tombstone,
}
use nexa_drive.Upload.Staging.{
  Frame, arrived, break_of, is_broken, broken_error, written_from, stop_if, staging_path, is_folder,
  replace_file,
}
use nexa_drive.Upload.Cancel.{try_remove}

-- A field of the form.  The id is what `Uuid::parse_str` makes of the text of its field.
pub data Field : Type 0 where
  path_field : Text → Field
  id_field : Option ℕ → Field
  file_field : Option Text → List Frame → Field
  other_field : Field
  broken_field : Message → Field

pub record FileReply : Type 0 where
  pub name : Text
  pub path : Text
  pub size : ℕ

unfoldable pub or_empty : Option Text → Text
or_empty none = []
or_empty (some t) = t

unfoldable pub file_name_of : Option Text → Result Text
file_name_of none =
    or_error (last_name (components (codes "file.bin"))) (bad_request (plain "Invalid filename"))
file_name_of (some name) =
    or_error (last_name (components name)) (bad_request (plain "Invalid filename"))

unfoldable pub reclaimed : Moment → Text → Job → Job
reclaimed m path j = record j { path = path; status = receiving; updated_at = m.clock }

unfoldable pub first_row : Moment → ℕ → ℕ → Text → Job
first_row m id user path = record {
  id = id;
  user_id = user;
  path = path;
  size_bytes = 0;
  status = receiving;
  updated_at = m.clock;
  bytes_received = 0;
  total_bytes = none;
  checksum_sha256 = none;
  last_error = none;
}

-- `ON CONFLICT (id) DO UPDATE … WHERE upload_jobs.user_id=excluded.user_id`
unfoldable pub claim_row : Moment → ℕ → ℕ → Text → Option Job → Exec World (Unit {0})
claim_row m id user path (some j) = set_jobs (update id user (reclaimed m path))
claim_row m id user path none = do
  taken ← gets (λ w. has_id id w.jobs)
  check (not taken) (conflict (plain "Upload id is already in use"))
  set_jobs (λ js. first_row m id user path ∷ js)

unfoldable pub create_file : Moment → FilePath → Exec World (Unit {0})
create_file m p = do
  node ← gets (λ w. w.files p)
  check (not (m.fails Call.create_staging) && not (is_folder node)) io
  set_files (put p (some (file [])))

unfoldable pub leave_part : Moment → FilePath → List Frame → AppError → Exec World (Unit {0})
leave_part m p frames e = do
  set_files (put p (some (file (take m.reached (arrived frames)))))
  raise e

-- The body into a new staging file; a body that breaks off leaves a part of it there.
unfoldable pub receive_body : Moment → FilePath → List Frame → Exec World ℕ
receive_body m p frames = do
  create_file m p
  stop_if (m.fails Call.write_body) (do try_remove m p; raise io)
  stop_if (is_broken (break_of frames)) (leave_part m p frames (broken_error (break_of frames)))
  stop_if (m.fails Call.flush_body) (leave_part m p frames io)
  set_files (put p (some (file (arrived frames))))
  check (not (m.fails Call.sync_body)) io
  pure (written_from 0 frames)

unfoldable pub set_staging : Moment → ℕ → Job → Job
set_staging m size j = record j { size_bytes = size; status = staging; updated_at = m.clock }

unfoldable pub set_stored : Moment → ℕ → Job → Job
set_stored m size j = record j { status = completed; bytes_received = size; updated_at = m.clock }

-- What a failed step leaves: no staging file, a failed row, and the error.
unfoldable pub give_up : Moment → ℕ → ℕ → FilePath → AppError → Exec World (Unit {0})
give_up m user id p e = do
  try_remove m p
  attempt m Call.update_failed database
  set_jobs (update id user (set_failed m (from_error (message_of e))))
  raise e

unfoldable pub store_file : Host → Moment → ℕ → ℕ → Target → List Frame → Exec World ℕ
store_file host m user id target frames = do
  let p = staging_path host target.absolute id
  size ← receive_body m p frames
  attempt m Call.update_progress database
  set_jobs (update id user (set_staging m size))
  on_error (ensure_quota m user size (some id)) (give_up m user id p)
  on_error (replace_file m p target.absolute) (give_up m user id p)
  attempt m Call.update_job database
  set_jobs (update id user (set_stored m size))
  attempt m Call.transaction database
  modify (λ w. record w { tombstones = remove_tombstone user target.text w.tombstones })
  audit m user "upload" (some target.text)
  pure size

unfoldable pub file_target :
    Host → Moment → ℕ → Option Text → Option Text → Exec World (Text × Target)
file_target host m user path name = do
  dir ← lift (safe_relative_path (or_empty path))
  require_write_access m user
  filename ← lift (file_name_of name)
  check (not_special filename) (bad_request (plain "Invalid filename"))
  pure (filename, target_of host user dir filename)

unfoldable pub fresh_file :
    Host → Moment → ℕ → Option Text → ℕ → Option Text → List Frame → Exec World FileReply
fresh_file host m user path id name frames = do
  t ← file_target host m user path name
  create_dir_all m (parent (t.1).absolute)
  attempt m Call.insert_job database
  row ← gets (λ w. find id user w.jobs)
  claim_row m id user (t.1).text row
  size ← store_file host m user id t.1 frames
  pure (record { name = t.0; path = (t.1).text; size = size })

-- An upload that is complete is answered from its row, whatever the body is, and ends the request.
unfoldable pub done_before : Option Job → Option FileReply
done_before none = none
done_before (some j) =
    if is_completed j.status
    then some (record {
      name = or_empty (last_name (components j.path));
      path = j.path;
      size = j.size_bytes;
    })
    else none

unfoldable pub answer_or : Option FileReply → Exec World FileReply → Exec World FileReply
answer_or (some reply) go_on = pure reply
answer_or none go_on = go_on

-- The fields one after the other: the path, the id and the last reply so far.
unfoldable pub read_fields :
    Host
    → Moment
    → ℕ
    → List Field
    → Option Text
    → Option ℕ
    → Option FileReply
    → Exec World FileReply
read_fields host m user [] path id reply =
    lift (or_error reply (bad_request (plain "file is required")))
read_fields host m user (broken_field e ∷ fs) path id reply = raise (bad_request e)
read_fields host m user (other_field ∷ fs) path id reply = read_fields host m user fs path id reply
read_fields host m user (path_field p ∷ fs) path id reply =
    read_fields host m user fs (some p) id reply
read_fields host m user (id_field none ∷ fs) path id reply =
    raise (bad_request (plain "Invalid upload_id"))
read_fields host m user (id_field (some n) ∷ fs) path id reply =
    read_fields host m user fs path (some n) reply
read_fields host m user (file_field name frames ∷ fs) path none reply =
    raise (bad_request (plain "upload_id is required"))
read_fields host m user (file_field name frames ∷ fs) path (some id) reply = do
  attempt m Call.lock_map internal
  attempt m Call.select_job database
  row ← gets (λ w. find id user w.jobs)
  answer_or (done_before row) (do
    answer ← fresh_file host m user path id name frames
    read_fields host m user fs path (some id) (some answer))

unfoldable pub upload_file : Host → Moment → ℕ → List Field → Exec World FileReply
upload_file host m user fields = read_fields host m user fields none none none
