-- ===== src/Upload/Staging.antt =====
-- The staging file of an upload (server/src/handlers/upload.rs): its name, its length, the body that is
-- written into it, and its move into place.
use nexa_drive.Prelude.{
  ℕ, Bool, true, false, not, ◌&&◌, Option, none, some, List, [], ◌∷◌, ◌++◌, ◌==◌, if◌then◌else◌,
  take, length,
}
use nexa_drive.Text.{Text, codes, contains}
use nexa_drive.Text.Decimal.{saturating_add}
use nexa_drive.Error.{Result, ok, err, AppError, Message, plain, io, bad_request}
use nexa_drive.Error.Exec.{Exec, pure, raise, gets, check, on_error, ◌>>=◌, ◌>>◌}
use nexa_drive.Paths.{FilePath}
use nexa_drive.Upload.Files.{Node, file, folder, put, exists, is_file, write_at}
use nexa_drive.Upload.World.{World, Host, Moment, Call, attempt, set_files}

-- `UPLOAD_STAGING_MARKER`
abbrev pub upload_staging_marker : Text
upload_staging_marker = codes ".nexadrive-upload-"

-- The name of the file that is uploaded, followed by the marker and the upload id.
unfoldable pub staging_path : Host → FilePath → ℕ → FilePath
staging_path host [] id = (codes "upload.bin" ++ (upload_staging_marker ++ host.uuid_text id)) ∷ []
staging_path host (w ∷ []) id = (w ++ (upload_staging_marker ++ host.uuid_text id)) ∷ []
staging_path host (w ∷ v ∷ ws) id = w ∷ staging_path host (v ∷ ws) id

-- A frame of the request's body: bytes, or the error of a connection that broke.
pub data Frame : Type 0 where
  bytes : List ℕ → Frame
  broken : Message → Frame

-- `fs::metadata(&staging).len()`, and 0 where there is nothing.
unfoldable pub staging_len : Moment → Option Node → ℕ
staging_len m none = 0
staging_len m (some (file b)) = length b
staging_len m (some folder) = m.folder_len

unfoldable pub cut : ℕ → Option Node → Option Node
cut n (some (file b)) = some (file (take n b))
cut n other = other

-- A folder is neither replaced nor removed as a file.
unfoldable pub is_folder : Option Node → Bool
is_folder (some folder) = true
is_folder _ = false

unfoldable pub cut_staging : Moment → FilePath → ℕ → Exec World ℕ
cut_staging m staging received = do
  node ← gets (λ w. w.files staging)
  check (is_file node && not (m.fails Call.cut_staging)) io
  set_files (put staging (cut received node))
  attempt m Call.sync_staging io
  pure received

unfoldable pub create_missing : Moment → FilePath → Exec World (Unit {0})
create_missing m staging = do
  node ← gets (λ w. w.files staging)
  (if exists node
      then pure tt
      else do attempt m Call.create_staging io; set_files (put staging (some (file []))))

-- The bytes of the frames up to the first that is broken.
unfoldable pub arrived : List Frame → List ℕ
arrived [] = []
arrived (bytes b ∷ fs) = b ++ arrived fs
arrived (broken e ∷ fs) = []

unfoldable pub break_of : List Frame → Option Message
break_of [] = none
break_of (bytes b ∷ fs) = break_of fs
break_of (broken e ∷ fs) = some e

-- `written`, counted frame by frame.
unfoldable pub written_from : ℕ → List Frame → ℕ
written_from written [] = written
written_from written (bytes b ∷ fs) = written_from (saturating_add written (length b)) fs
written_from written (broken e ∷ fs) = written

unfoldable pub overwrite : ℕ → List ℕ → Option Node → Option Node
overwrite offset data_bytes (some (file b)) = some (file (write_at offset data_bytes b))
overwrite offset data_bytes other = other

unfoldable pub store_bytes : FilePath → ℕ → List ℕ → Exec World (Unit {0})
store_bytes staging offset data_bytes =
    set_files (λ files. put staging (overwrite offset data_bytes (files staging)) files)

-- The request ends early: a part of what arrived has left the buffer.
unfoldable pub abandon : Moment → FilePath → ℕ → List Frame → AppError → Exec World (Unit {0})
abandon m staging offset frames e = do
  store_bytes staging offset (take m.reached (arrived frames))
  raise e

unfoldable pub wrong_length : Option ℕ → ℕ → Bool
wrong_length none written = false
wrong_length (some n) written = not (n == written)

unfoldable pub broken_error : Option Message → AppError
broken_error none = io
broken_error (some e) = bad_request e

unfoldable pub is_broken : Option Message → Bool
is_broken none = false
is_broken (some e) = true

-- An early return.
unfoldable pub stop_if : Bool → Exec World (Unit {0}) → Exec World (Unit {0})
stop_if true stop = stop
stop_if false stop = pure tt

-- The body is written at the offset; the result is the number of its bytes.
unfoldable pub write_body : Moment → FilePath → ℕ → Option ℕ → List Frame → Exec World ℕ
write_body m staging offset expected frames = do
  node ← gets (λ w. w.files staging)
  check (is_file node && not (m.fails Call.open_staging)) io
  stop_if (m.fails Call.write_body) (abandon m staging offset frames io)
  stop_if (is_broken (break_of frames))
      (abandon m staging offset frames (broken_error (break_of frames)))
  stop_if (wrong_length expected (written_from 0 frames)) (
      abandon m staging offset frames
        (bad_request (plain "Chunk length did not match Content-Length")))
  stop_if (m.fails Call.flush_body) (abandon m staging offset frames io)
  store_bytes staging offset (arrived frames)
  pure (written_from 0 frames)

unfoldable pub content_of : Option Node → Result (List ℕ)
content_of (some (file b)) = ok b
content_of _ = err io

-- `fs::rename`: it replaces a file, and fails on a folder, without a source, or by itself.
unfoldable pub rename : Moment → Call → FilePath → FilePath → Exec World (Unit {0})
rename m call source target = do
  from ← gets (λ w. w.files source)
  to ← gets (λ w. w.files target)
  check (not (m.fails call) && (exists from && not (is_folder to))) io
  set_files (λ files. put source none (put target from files))

unfoldable pub remove_file : Moment → Call → FilePath → Exec World (Unit {0})
remove_file m call p = do
  node ← gets (λ w. w.files p)
  check (not (m.fails call) && (exists node && not (is_folder node))) io
  set_files (put p none)

-- The second attempt of `replace_file`: the target is removed and the rename made again.
unfoldable pub rename_over : Moment → FilePath → FilePath → AppError → Exec World (Unit {0})
rename_over m staging target first = do
  node ← gets (λ w. w.files target)
  check (exists node) first
  remove_file m Call.remove_target target
  rename m Call.rename_again staging target

unfoldable pub replace_file : Moment → FilePath → FilePath → Exec World (Unit {0})
replace_file m staging target =
    on_error (rename m Call.rename_staging staging target) (rename_over m staging target)

-- Whether the name of a file is one of a file that is still being uploaded.
unfoldable pub is_staging_name : Text → Bool
is_staging_name name = contains upload_staging_marker name
