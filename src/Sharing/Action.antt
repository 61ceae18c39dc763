-- ===== src/Sharing/Action.antt =====
-- Deleting, renaming and moving inside a share (server/src/handlers/sharing.rs, `shared_action`).
use nexa_drive.Prelude.{ℕ, true, not, Option, none, some, [], ◌∷◌, ◌++◌, if◌then◌else◌}
use nexa_drive.Text.{Text, codes, text_eq, join}
use nexa_drive.Error.{bad_request, conflict, forbidden, database, plain, not_found, or_error}
use nexa_drive.Error.Exec.{Exec, pure, raise, gets, lift, check, ◌>>=◌, ◌>>◌}
use nexa_drive.Paths.{FilePath, safe_relative_path, sanitize_name, relative_text}
use nexa_drive.Paths.Mime.{file_name}
use nexa_drive.Auth.Login.{permission_allows}
use nexa_drive.Upload.Files.{parent}
use nexa_drive.Upload.World.{Host, audit, create_dir_all}
use nexa_drive.Shelf.{
  Vault, Op, Pass, attempt_op, in_world, type_at, leads_to, is_dir, is_some, is_some_dir,
}
use nexa_drive.Shelf.Subtree.{is_below}
use nexa_drive.Shelf.Entry.{ensure_supported_entry, rename_entry, entry_size}
use nexa_drive.Shelf.Transfer.{path_of, is_root}
use nexa_drive.Shelf.Trash.{trash_of, new_trash_item, set_trash}
use nexa_drive.Sharing.{Exchange, Errand, in_vault, Resolved, resolve_share}

pub record SharedActionRequest : Type 0 where
  pub share_id : ℕ
  pub action : Text
  pub path : Text
  pub name : Option Text
  pub destination : Option Text

-- Who acts, on whose storage, below which folder, on which path below it.
pub record Site : Type 0 where
  pub actor : ℕ
  pub owner_id : ℕ
  pub base : FilePath
  pub base_canonical : FilePath
  pub rel : FilePath

abbrev pub target_abs : Host → Site → FilePath
target_abs host c = path_of host c.owner_id (c.base ++ c.rel)

-- `canonicalize`, and whether it stays below the share's folder.
unfoldable pub ensure_inside : Pass → FilePath → FilePath → Exec Vault FilePath
ensure_inside t base p = do
  canonical ← lift (or_error (t.canonical p) not_found)
  check (is_below base canonical) forbidden
  pure canonical

unfoldable pub shared_delete : Host → Pass → Site → Text → Exec Vault Text
shared_delete host t c path = do
  first ← ensure_supported_entry t (target_abs host c)
  let trash_path = trash_of host c.owner_id ++ host.uuid_text t.new_id ∷ []
  in_world (create_dir_all t.moment (trash_of host c.owner_id))
  kind ← ensure_supported_entry t (target_abs host c)
  rename_entry t (target_abs host c) trash_path
  size ← entry_size t (is_dir kind) trash_path
  attempt_op t Op.insert_trash database
  set_trash (λ items. new_trash_item c.owner_id t (c.base ++ c.rel) trash_path kind size ∷ items)
  in_world (audit t.moment c.actor "shared_delete" (some path))
  pure path

unfoldable pub shared_rename : Host → Pass → Site → Text → Option Text → Exec Vault Text
shared_rename host t c path given = do
  raw ← lift (or_error given (bad_request (plain "Name is required")))
  name ← lift (sanitize_name raw)
  kind ← ensure_supported_entry t (target_abs host c)
  let dest = parent (target_abs host c) ++ name ∷ []
  inside ← ensure_inside t c.base_canonical (parent (target_abs host c))
  found ← gets (leads_to t dest)
  check (not (is_some found)) (conflict (plain "An item with that name already exists"))
  rename_entry t (target_abs host c) dest
  let out = parent c.rel ++ name ∷ []
  in_world (audit t.moment c.actor "shared_rename" (some (path ++ (codes " -> " ++ join 47 out))))
  pure (relative_text out)

-- A folder is not moved into itself.
unfoldable pub ensure_not_inside_target : Pass → FilePath → FilePath → Exec Vault (Unit {0})
ensure_not_inside_target t target dest_canonical = do
  found ← gets (leads_to t target)
  if is_some_dir found
      then (do
        canonical ← lift (or_error (t.canonical target) not_found)
        check (not (is_below canonical dest_canonical))
            (bad_request (plain "Cannot move a folder into itself")))
      else pure tt

unfoldable pub shared_move : Host → Pass → Site → Text → Option Text → Exec Vault Text
shared_move host t c path given = do
  raw ← lift (or_error given (bad_request (plain "Destination is required")))
  dest_rel ← lift (safe_relative_path raw)
  let dest_abs = path_of host c.owner_id (c.base ++ dest_rel)
  found ← gets (type_at dest_abs)
  kind ← lift (or_error (if t.fails Op.stat_destination then none else found) not_found)
  check (is_dir kind) (bad_request (plain "Destination must be a folder"))
  dest_canonical ← ensure_inside t c.base_canonical dest_abs
  name ← lift (or_error (file_name (c.base ++ c.rel)) (bad_request (plain "Invalid source")))
  let final_abs = dest_abs ++ name ∷ []
  taken ← gets (leads_to t final_abs)
  check (not (is_some taken)) (conflict (plain "An item with that name already exists"))
  ensure_not_inside_target t (target_abs host c) dest_canonical
  rename_entry t (target_abs host c) final_abs
  let out = dest_rel ++ name ∷ []
  in_world (audit t.moment c.actor "shared_move" (some (path ++ (codes " -> " ++ join 47 out))))
  pure (relative_text out)

unfoldable pub act : Host → Pass → Site → SharedActionRequest → Exec Vault Text
act host t c r =
    if text_eq r.action (codes "delete")
    then shared_delete host t c r.path
    else if text_eq r.action (codes "rename")
    then shared_rename host t c r.path r.name
    else if text_eq r.action (codes "move")
    then shared_move host t c r.path r.destination
    else raise (bad_request (plain "Unsupported shared action"))

-- The share's folder and the folder of the target, where they really are.
unfoldable pub act_inside :
    Host → Pass → ℕ → Resolved → FilePath → SharedActionRequest → Exec Vault Text
act_inside host t user share rel r = do
  base ← lift (or_error (t.canonical (path_of host share.owner_id share.base)) not_found)
  inside ← ensure_inside t base (parent (path_of host share.owner_id (share.base ++ rel)))
  act host t
      (record {
        actor = user;
        owner_id = share.owner_id;
        base = share.base;
        base_canonical = base;
        rel = rel;
      })
      r

unfoldable pub shared_action : Host → Errand → ℕ → SharedActionRequest → Exec Exchange Text
shared_action host e user r = do
  share ← resolve_share e user r.share_id
  check (permission_allows share.permission true) forbidden
  rel ← lift (safe_relative_path r.path)
  check (not (is_root rel)) (bad_request (plain "Path is required"))
  in_vault (act_inside host e.pass user share rel r)
