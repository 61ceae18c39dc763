-- ===== src/Shelf/Trash.antt =====
-- The trash: deleting (server/src/handlers/files.rs), listing, restoring and deleting for good
-- (server/src/handlers/storage.rs).
use nexa_drive.Prelude.{
  ℕ, Bool, true, false, not, ◌&&◌, ◌||◌, Option, none, some, List, [], ◌∷◌, ◌++◌, if◌then◌else◌,
  ltb, ◌==◌, keep, length,
}
use nexa_drive.Prelude.Rows.{find_row, delete_rows}
use nexa_drive.Text.{Text, codes, text_eq, join}
use nexa_drive.Error.{bad_request, conflict, forbidden, plain, io, not_found, database, or_error}
use nexa_drive.Error.Exec.{Exec, pure, raise, gets, check, lift, modify, ◌>>=◌, ◌>>◌}
use nexa_drive.Paths.{FilePath, safe_relative_path, trash_root, relative_text}
use nexa_drive.Paths.Mime.{file_name}
use nexa_drive.Upload.Files.{parent}
use nexa_drive.Upload.World.{Host, audit, create_dir_all}
use nexa_drive.Shelf.{
  FileType, TrashItem, Vault, Op, Pass, attempt_op, in_world, leads_to, is_dir, is_some,
}
use nexa_drive.Shelf.Subtree.{below, is_below}
use nexa_drive.Shelf.Entry.{ensure_supported_entry, rename_entry, entry_size}
use nexa_drive.Shelf.Transfer.{path_of, is_root, transfer_entry}

unfoldable pub trash_of : Host → ℕ → FilePath
trash_of host user = trash_root host.storage_root (host.uuid_text user)

abbrev pub name_or_empty : Option Text → Text
name_or_empty none = []
name_or_empty (some name) = name

unfoldable pub new_trash_item : ℕ → Pass → FilePath → FilePath → FileType → ℕ → TrashItem
new_trash_item user t relative trash_path kind size = record {
  id = t.new_id;
  user_id = user;
  original_path = relative_text relative;
  trash_path = trash_path;
  name = name_or_empty (file_name relative);
  kind = kind;
  size_bytes = size;
}

unfoldable pub is_tombstone : ℕ → Text → ℕ × Text → Bool
is_tombstone user path row = (row.0 == user) && text_eq row.1 path

abbrev pub add_row : Option (ℕ × Text) → ℕ × Text → List (ℕ × Text) → List (ℕ × Text)
add_row none row rows = row ∷ rows
add_row (some old) row rows = rows

-- `ON CONFLICT(user_id,path) DO UPDATE`: one row for a path. (Its time is not kept.)
unfoldable pub add_tombstone : ℕ → Text → List (ℕ × Text) → List (ℕ × Text)
add_tombstone user path rows = add_row (find_row (is_tombstone user path) rows) (user, path) rows

abbrev pub set_tombstones : (List (ℕ × Text) → List (ℕ × Text)) → Exec Vault (Unit {0})
set_tombstones f =
    modify (λ v. record v { world = record v.world { tombstones = f v.world.tombstones } })

abbrev pub set_trash : (List TrashItem → List TrashItem) → Exec Vault (Unit {0})
set_trash f = modify (λ v. record v { trash_items = f v.trash_items })

unfoldable pub record_trash : Pass → ℕ → FilePath → FilePath → FileType → Exec Vault (Unit {0})
record_trash t user relative trash_path kind = do
  size ← entry_size t (is_dir kind) trash_path
  attempt_op t Op.insert_trash database
  set_trash (λ items. new_trash_item user t relative trash_path kind size ∷ items)
  attempt_op t Op.insert_tombstone database
  set_tombstones (add_tombstone user (relative_text relative))
  in_world (audit t.moment user "trash" (some (join 47 relative)))

unfoldable pub delete_one_to_trash : Host → Pass → ℕ → FilePath → Exec Vault (Unit {0})
delete_one_to_trash host t user relative = do
  kind ← ensure_supported_entry t (path_of host user relative)
  let trash_path = trash_of host user ++ host.uuid_text t.new_id ∷ []
  in_world (create_dir_all t.moment (trash_of host user))
  rename_entry t (path_of host user relative) trash_path
  record_trash t user relative trash_path kind

unfoldable pub unwrap_path : Option Text → Text
unwrap_path none = []
unwrap_path (some p) = p

unfoldable pub delete_file : Host → Pass → ℕ → Option Text → Exec Vault (Unit {0})
delete_file host t user path = do
  relative ← lift (safe_relative_path (unwrap_path path))
  check (not (is_root relative)) (bad_request (plain "Cannot delete root"))
  delete_one_to_trash host t user relative

-- The action of a batch.
abbrev pub batch_item : Host → Pass → ℕ → Text → Option Text → Text → FilePath → Exec Vault Text
batch_item host t user action destination path rel =
    if text_eq action (codes "delete")
    then (do delete_one_to_trash host t user rel; pure (relative_text rel))
    else if text_eq action (codes "move") || text_eq action (codes "copy")
    then (do
      d ← lift (or_error destination (bad_request (plain "Destination is required")))
      transfer_entry host t user path d (text_eq action (codes "copy")))
    else raise (bad_request (plain "Unsupported batch action"))

-- One after the other, up to the first error; each item meets its own pass.
unfoldable pub batch_each :
    Host → (ℕ → Pass) → ℕ → Text → Option Text → List Text → Exec Vault (List Text)
batch_each host t user action destination [] = pure []
batch_each host t user action destination (path ∷ paths) = do
  rel ← lift (safe_relative_path path)
  check (not (is_root rel)) (bad_request (plain "Cannot operate on the root"))
  out ← batch_item host (t (length paths)) user action destination path rel
  rest ← batch_each host t user action destination paths
  pure (out ∷ rest)

abbrev pub is_empty_batch : List Text → Bool
is_empty_batch [] = true
is_empty_batch (p ∷ ps) = false

unfoldable pub batch_files :
    Host → (ℕ → Pass) → ℕ → Text → Option Text → List Text → Exec Vault (List Text)
batch_files host t user action destination paths = do
  check (not (is_empty_batch paths)) (bad_request (plain "At least one path is required"))
  check (not (ltb 100 (length paths)))
      (bad_request (plain "At most 100 items can be processed at once"))
  batch_each host t user action destination paths

unfoldable pub is_item : ℕ → ℕ → TrashItem → Bool
is_item id user i = (i.id == id) && (i.user_id == user)

unfoldable pub is_item_of : ℕ → TrashItem → Bool
is_item_of user i = i.user_id == user

-- The rows of the account; the newest stand first, as they are inserted.
unfoldable pub list_trash : Pass → ℕ → Exec Vault (List TrashItem)
list_trash t user = do
  attempt_op t Op.select_trash database
  gets (λ v. keep (is_item_of user) v.trash_items)

unfoldable pub find_item : Pass → ℕ → Option ℕ → Exec Vault TrashItem
find_item t user id = do
  i ← lift (or_error id (bad_request (plain "Trash id is required")))
  attempt_op t Op.select_trash database
  row ← gets (λ v. find_row (is_item i user) v.trash_items)
  lift (or_error row not_found)

unfoldable pub restore_item : Host → Pass → ℕ → TrashItem → Exec Vault (Unit {0})
restore_item host t user item = do
  relative ← lift (safe_relative_path item.original_path)
  found ← gets (leads_to t (path_of host user relative))
  check (not (is_some found)) (conflict (plain "An item already exists at the original location"))
  in_world (create_dir_all t.moment (parent (path_of host user relative)))
  rename_entry t item.trash_path (path_of host user relative)
  attempt_op t Op.delete_tombstone database
  set_tombstones (delete_rows (is_tombstone user item.original_path))
  attempt_op t Op.delete_trash database
  set_trash (delete_rows (is_item item.id user))
  in_world (audit t.moment user "restore" (some item.original_path))

unfoldable pub restore_trash : Host → Pass → ℕ → Option ℕ → Exec Vault (Unit {0})
restore_trash host t user id = do item ← find_item t user id; restore_item host t user item

-- `remove_dir_all` or `remove_file`: nothing is left of what is reached below the path.
unfoldable pub remove_below :
    {A : Type 0} → (FilePath → Bool) → FilePath → (FilePath → Option A) → FilePath → Option A
remove_below reached top f p = elim (below top p) [
  | none ↦ f p
  | some rest ↦ if reached rest then none else f p
]

abbrev pub remove_all : (FilePath → Bool) → FilePath → Vault → Vault
remove_all reached top v = record v {
  world = record v.world { files = remove_below reached top v.world.files };
  specials = remove_below reached top v.specials;
}

unfoldable pub remove_if_there : Pass → FilePath → Exec Vault (Unit {0})
remove_if_there t p = do
  found ← gets (leads_to t p)
  if is_some found
      then (do
        modify (remove_all (λ rest. not (t.fails Op.remove_entry) || t.reached rest) p)
        check (not (t.fails Op.remove_entry)) io)
      else pure tt

unfoldable pub permanently_delete_trash : Host → Pass → ℕ → Option ℕ → Exec Vault (Unit {0})
permanently_delete_trash host t user id = do
  item ← find_item t user id
  check (is_below (trash_of host user) item.trash_path) forbidden
  remove_if_there t item.trash_path
  attempt_op t Op.delete_trash database
  set_trash (delete_rows (is_item item.id user))
  in_world (audit t.moment user "permanent_delete" (some item.original_path))
