-- ===== src/Shelf/Transfer.antt =====
-- Renaming, moving and copying entries, and making folders (server/src/handlers/files.rs).
use nexa_drive.Prelude.{
  ℕ, Bool, true, false, not, ◌&&◌, ◌||◌, none, some, [], ◌∷◌, ◌++◌, if◌then◌else◌, String, ◌==◌,
}
use nexa_drive.Prelude.Rows.{delete_rows}
use nexa_drive.Text.{Text, codes, text_eq, join, starts_with}
use nexa_drive.Error.{bad_request, conflict, plain, not_found, database, or_error}
use nexa_drive.Error.Exec.{Exec, pure, gets, check, lift, modify, ◌>>=◌, ◌>>◌}
use nexa_drive.Paths.{FilePath, safe_relative_path, sanitize_name, user_root, relative_text}
use nexa_drive.Paths.Mime.{file_name}
use nexa_drive.Upload.Files.{parent, path_eq}
use nexa_drive.Upload.World.{Host, audit, require_write_access, create_dir_all}
use nexa_drive.Upload.Quota.{ensure_quota}
use nexa_drive.Shelf.{
  Vault, Op, Pass, attempt_op, in_world, type_at, leads_to, is_dir, is_some, is_some_dir,
}
use nexa_drive.Shelf.Subtree.{is_below}
use nexa_drive.Shelf.Entry.{ensure_supported_entry, rename_entry, copy_entry, entry_size}

unfoldable pub path_of : Host → ℕ → FilePath → FilePath
path_of host user p = user_root host.storage_root (host.uuid_text user) ++ p

abbrev pub is_root : FilePath → Bool
is_root [] = true
is_root (w ∷ ws) = false

-- `format!("{} -> {}", source, out)`
abbrev pub arrow_text : FilePath → FilePath → Text
arrow_text source out = join 47 source ++ (codes " -> " ++ relative_text out)

unfoldable pub rename_file : Host → Pass → ℕ → Text → Text → Exec Vault Text
rename_file host t user source_raw name_raw = do
  source ← lift (safe_relative_path source_raw)
  in_world (require_write_access t.moment user)
  check (not (is_root source)) (bad_request (plain "Cannot rename root"))
  name ← lift (sanitize_name name_raw)
  let destination = parent source ++ name ∷ []
  kind ← ensure_supported_entry t (path_of host user source)
  found ← gets (leads_to t (path_of host user destination))
  check (not (is_some found)) (conflict (plain "An item with that name already exists"))
  rename_entry t (path_of host user source) (path_of host user destination)
  in_world (audit t.moment user "rename" (some (arrow_text source destination)))
  pure (relative_text destination)

-- `symlink_metadata` of the destination: a folder that is not a link.
unfoldable pub require_folder : Pass → FilePath → Exec Vault (Unit {0})
require_folder t p = do
  found ← gets (type_at p)
  kind ← lift (or_error (if t.fails Op.stat_destination then none else found) not_found)
  check (is_dir kind) (bad_request (plain "Destination must be a real folder"))

unfoldable pub ensure_not_within : Pass → FilePath → FilePath → Exec Vault (Unit {0})
ensure_not_within t src dir = do
  src_canonical ← lift (or_error (t.canonical src) not_found)
  dir_canonical ← lift (or_error (t.canonical dir) not_found)
  found ← gets (leads_to t src_canonical)
  check (not (is_some_dir found && is_below src_canonical dir_canonical))
      (bad_request (plain "Cannot move or copy a folder into itself"))

unfoldable pub carry_over : Pass → ℕ → Bool → FilePath → FilePath → Exec Vault (Unit {0})
carry_over t user copy src dst =
    if copy
    then (do
      found ← gets (leads_to t src)
      incoming ← entry_size t (is_some_dir found) src
      in_world (ensure_quota t.moment user incoming none)
      copy_entry t src dst)
    else rename_entry t src dst

abbrev pub transfer_action : Bool → String
transfer_action true = "copy"
transfer_action false = "move"

unfoldable pub transfer_entry : Host → Pass → ℕ → Text → Text → Bool → Exec Vault Text
transfer_entry host t user source_raw destination_raw copy = do
  source ← lift (safe_relative_path source_raw)
  in_world (require_write_access t.moment user)
  destination ← lift (safe_relative_path destination_raw)
  check (not (is_root source)) (bad_request (plain "Invalid source"))
  kind ← ensure_supported_entry t (path_of host user source)
  require_folder t (path_of host user destination)
  name ← lift (or_error (file_name source) (bad_request (plain "Invalid source")))
  let dst_rel = destination ++ name ∷ []
  check (not (path_eq dst_rel source)) (conflict (plain "Source and destination are the same"))
  ensure_not_within t (path_of host user source) (path_of host user destination)
  found ← gets (leads_to t (path_of host user dst_rel))
  check (not (is_some found)) (conflict (plain "An item with that name already exists"))
  carry_over t user copy (path_of host user source) (path_of host user dst_rel)
  in_world (audit t.moment user (transfer_action copy) (some (arrow_text source dst_rel)))
  pure (relative_text dst_rel)

unfoldable pub move_file : Host → Pass → ℕ → Text → Text → Exec Vault Text
move_file host t user source destination = transfer_entry host t user source destination false

unfoldable pub copy_file : Host → Pass → ℕ → Text → Text → Exec Vault Text
copy_file host t user source destination = transfer_entry host t user source destination true

-- `user_id=$1 AND (path=$2 OR path LIKE $3)`, with the pattern as a prefix. (Per cent signs and underscores in a
-- path are wildcards of LIKE; they are taken as plain characters.)
unfoldable pub is_at_or_below : ℕ → Text → ℕ × Text → Bool
is_at_or_below user path row =
    (row.0 == user) && (text_eq row.1 path || starts_with (path ++ 47 ∷ []) row.1)

unfoldable pub create_folder : Host → Pass → ℕ → Text → Exec Vault (Unit {0})
create_folder host t user path = do
  relative ← lift (safe_relative_path path)
  in_world (require_write_access t.moment user)
  check (not (is_root relative)) (bad_request (plain "Folder path is required"))
  in_world (create_dir_all t.moment (path_of host user relative))
  attempt_op t Op.delete_tombstone database
  modify (λ v. record v {
    world = record v.world {
      tombstones = delete_rows (is_at_or_below user path) v.world.tombstones;
    };
  })
  in_world (audit t.moment user "create_folder" (some path))
