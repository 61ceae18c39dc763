-- ===== src/Paths.antt =====
-- Paths inside a user's storage (server/src/paths.rs), on Linux: a relative path is the list of its
-- normal components, as `PathBuf` holds it.
pub mod Safety
pub mod RoundTrip
pub mod Walk
pub mod Names
pub mod Range
pub mod Mime
use nexa_drive.Prelude.{
  Bool, true, false, ◌||◌, not, Option, none, some, List, [], ◌∷◌, ◌++◌, any, if◌then◌else◌, ℕ,
}
use nexa_drive.Text.{
  Text, codes, text_eq, is_empty, trim, contains_char, starts_with, split, join, replace,
}
use nexa_drive.Error.{Result, ok, err, guard, ◌>>=◌, ◌>>◌, AppError, bad_request, forbidden, plain}

abbrev pub FilePath : Type 0
FilePath = List Text

-- std::path::Component. (A `Prefix` occurs on Windows only.)
pub data Component : Type 0 where
  normal : Text → Component
  cur_dir parent_dir root_dir : Component

-- Empty pieces and `.` are dropped by `Path::components`.
unfoldable pub piece_components : Text → List Component
unfolding text_eq is_empty
piece_components w =
    if is_empty w
    then []
    else if text_eq w (codes ".")
    then []
    else if text_eq w (codes "..")
    then parent_dir ∷ []
    else normal w ∷ []

unfoldable pub pieces_components : List Text → List Component
unfolding piece_components
pieces_components [] = []
pieces_components (w ∷ ws) = piece_components w ++ pieces_components ws

-- A leading `.` alone is kept, and a leading `/` is the root.
unfoldable pub leading_components : List Text → List Component
unfolding text_eq
leading_components [] = []
leading_components (w ∷ []) = if text_eq w (codes ".") then cur_dir ∷ [] else []
leading_components ([] ∷ v ∷ ws) = root_dir ∷ []
leading_components ((c ∷ w) ∷ v ∷ ws) = if text_eq (c ∷ w) (codes ".") then cur_dir ∷ [] else []

-- Path::components
unfoldable pub components : Text → List Component
components s = leading_components (split 47 s) ++ pieces_components (split 47 s)

-- The loop that pushes the normal components.
unfoldable pub clean_components : List Component → Result FilePath
clean_components [] = ok []
clean_components (normal w ∷ cs) = do rest ← clean_components cs; ok (w ∷ rest)
clean_components (cur_dir ∷ cs) = clean_components cs
clean_components (parent_dir ∷ cs) = err (bad_request (plain "Invalid path"))
clean_components (root_dir ∷ cs) = err (bad_request (plain "Invalid path"))

unfoldable pub is_trash_name : Text → Bool
unfolding text_eq
is_trash_name w = text_eq w (codes ".trash")

-- `path.is_absolute()` is `path.has_root()` on Linux.
unfoldable pub safe_relative_path : Text → Result FilePath
safe_relative_path raw =
    let trimmed = trim raw in
    let rest = do
      guard (not (starts_with (codes "/") trimmed))
          (bad_request (plain "Absolute paths are not allowed"))
      guard (not (contains_char 0 trimmed))
          (bad_request (plain "Null bytes are not allowed in paths"))
      guard (not (starts_with (codes "/") trimmed))
          (bad_request (plain "Absolute paths are not allowed"))
      clean ← clean_components (components trimmed)
      guard (not (any is_trash_name clean)) forbidden
      ok clean
    in if is_empty trimmed then ok [] else rest

-- `state.storage_root.join(user_id)`; a user id is written by its text.
unfoldable pub user_root : FilePath → Text → FilePath
user_root storage_root user = storage_root ++ user ∷ []

unfoldable pub trash_root : FilePath → Text → FilePath
trash_root storage_root user = storage_root ++ codes ".trash" ∷ user ∷ []

unfoldable pub sanitize_name : Text → Result Text
sanitize_name raw = do
  let name = trim raw
  guard (not (is_empty name || (text_eq name (codes ".") || text_eq name (codes ".."))))
      (bad_request (plain "Invalid name"))
  guard (not (contains_char b'/' name || contains_char 92 name))
      (bad_request (plain "Name cannot contain path separators"))
  guard (not (text_eq name (codes ".trash"))) forbidden
  ok name

-- `path.to_string_lossy().replace('\\', "/")`: how a path is written to the database.
unfoldable pub relative_text : FilePath → Text
unfolding join replace
relative_text p = replace 92 47 (join 47 p)
