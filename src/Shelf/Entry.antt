-- ===== src/Shelf/Entry.antt =====
-- The calls on one entry that the file handlers share (server/src/handlers/files.rs).
use nexa_drive.Prelude.{
  ℕ, Bool, true, false, not, ◌&&◌, ◌||◌, Option, none, some, ◌++◌, if◌then◌else◌, length,
}
use nexa_drive.Error.{bad_request, plain, io, not_found, or_error}
use nexa_drive.Error.Exec.{Exec, pure, gets, check, lift, modify, ◌>>=◌, ◌>>◌}
use nexa_drive.Paths.{FilePath}
use nexa_drive.Upload.Files.{Node, file, Files, parent, path_eq}
use nexa_drive.Storage.Stats.{folder_size}
use nexa_drive.Shelf.{
  Special, FileType, Vault, Op, Pass, type_at, is_symlink, is_dir, is_file_type, is_some_dir,
  walked,
}
use nexa_drive.Shelf.Subtree.{below, is_below, relocate}

unfoldable pub ensure_supported_entry : Pass → FilePath → Exec Vault FileType
ensure_supported_entry t p = do
  found ← gets (type_at p)
  kind ← lift (or_error (if t.fails Op.stat_entry then none else found) not_found)
  check (not (is_symlink kind)) (bad_request (plain "Symbolic links are not supported"))
  check (is_file_type kind || is_dir kind) (bad_request (plain "Unsupported file type"))
  pure kind

-- What may stand where an entry is moved to: nothing, for a file another file, for a folder an empty one.
abbrev pub may_replace : Bool → FileType → Option FileType → Bool
may_replace vacant k none = true
may_replace vacant k (some old) = if is_dir k then is_dir old && vacant else not (is_dir old)

abbrev pub may_move : Bool → Option FileType → Option FileType → Bool
may_move vacant none old = false
may_move vacant (some k) old = may_replace vacant k old

unfoldable pub can_rename : Pass → FilePath → FilePath → Vault → Bool
can_rename t src dst v =
    may_move (t.is_vacant dst) (type_at src v) (type_at dst v)
    && (is_some_dir (type_at (parent dst) v) && (not (is_below src dst) || path_eq src dst))

abbrev pub relocate_all : FilePath → FilePath → Vault → Vault
relocate_all src dst v = record v {
  world = record v.world { files = relocate src dst v.world.files };
  specials = relocate src dst v.specials;
}

-- `fs::rename`
unfoldable pub rename_entry : Pass → FilePath → FilePath → Exec Vault (Unit {0})
rename_entry t src dst = do
  possible ← gets (can_rename t src dst)
  check (not (t.fails Op.rename_entry) && possible) io
  modify (relocate_all src dst)

abbrev pub copied_node : Bool → Option Special → Option Node → Option Node → Option Node
copied_node true none (some n) old = some n
copied_node _ _ _ old = old

abbrev pub copied_at :
    (FilePath → Bool)
    → (FilePath → Option Special)
    → Files
    → FilePath
    → Option FilePath
    → Option Node
    → Option Node
copied_at reached specials files src none old = old
copied_at reached specials files src (some rest) old =
    copied_node (reached rest) (specials (src ++ rest)) (files (src ++ rest)) old

-- The files and folders below `src`, as far as the copy reaches them, stand below `dst` too; what is neither is
-- passed over.
unfoldable pub copy_below :
    (FilePath → Bool) → (FilePath → Option Special) → FilePath → FilePath → Files → Files
copy_below reached specials src dst files p =
    copied_at reached specials files src (below dst p) (files p)

unfoldable pub copy_entry : Pass → FilePath → FilePath → Exec Vault (Unit {0})
copy_entry t src dst = do
  found ← gets (type_at src)
  kind ← lift (or_error (if t.fails Op.stat_entry then none else found) io)
  check (not (is_symlink kind)) (bad_request (plain "Symbolic links are not supported"))
  modify (λ v. record v {
    world = record v.world {
      files =
          copy_below (λ rest. not (t.fails Op.copy_entries) || t.reached rest) v.specials src dst
            v.world.files;
    };
  })
  check (not (t.fails Op.copy_entries)) io

abbrev pub file_len : Option Node → ℕ
file_len (some (file b)) = length b
file_len _ = 0

-- `fs::metadata(p).len()` of a file, and the size of all files below a folder.
unfoldable pub entry_size : Pass → Bool → FilePath → Exec Vault ℕ
entry_size t is_folder p =
    if is_folder
    then lift (walked (folder_size (t.tree p)))
    else (do check (not (t.fails Op.read_length)) io; gets (λ v. file_len (v.world.files p)))
