-- ===== src/Devices/Requests.antt =====
-- The requests on linked devices and the deletion by a sync client (server/src/handlers/sync.rs).
use nexa_drive.Prelude.{
  ℕ, Bool, not, ◌&&◌, Option, none, some, List, leb, ◌==◌, keep, length, if◌then◌else◌,
}
use nexa_drive.Prelude.Rows.{update_rows, delete_rows}
use nexa_drive.Text.{Text, trim, is_empty}
use nexa_drive.Error.{Result, bad_request, plain, database, not_found, forbidden, or_error}
use nexa_drive.Error.Exec.{Exec, gets, lift, check, modify, ◌>>=◌, ◌>>◌}
use nexa_drive.Paths.{safe_relative_path}
use nexa_drive.Upload.World.{Host, World, audit}
use nexa_drive.Shelf.{Vault, Pass, Op, type_at, is_symlink, in_world}
use nexa_drive.Shelf.Transfer.{path_of, is_root}
use nexa_drive.Shelf.Trash.{delete_one_to_trash}
use nexa_drive.Devices.{Device, SyncMoment, is_row}

-- The table of devices beside the uploads' world, whose log these requests write.
pub record Desk : Type 0 where
  pub devices : List Device
  pub world : World

abbrev pub world_back : {A : Type 0} → Desk → Result A × World → Result A × Desk
world_back x (r, w) = (r, record x { world = w })

unfoldable pub on_world : {A : Type 0} → Exec World A → Exec Desk A
on_world m x = world_back x (m x.world)

abbrev pub set_devices : (List Device → List Device) → Exec Desk (Unit {0})
set_devices f = modify (λ x. record x { devices = f x.devices })

-- A statement on the rows of an id and an account: there must be one.
unfoldable pub change_row : SyncMoment → ℕ → ℕ → (List Device → List Device) → Exec Desk (Unit {0})
change_row m id user f = do
  check (not m.write_fails) database
  affected ← gets (λ x. length (keep (is_row id user) x.devices))
  set_devices f
  check (not (affected == 0)) not_found

unfoldable pub renamed : Text → Device → Device
renamed name d = record d { name = name }

-- Between 1 and 64 characters, without white space at the ends.
unfoldable pub is_device_name : Text → Bool
is_device_name name = not (is_empty name) && leb (length name) 64

unfoldable pub rename_sync_device : Host → Pass → SyncMoment → ℕ → ℕ → Text → Exec Desk (Unit {0})
rename_sync_device host t m user id name = do
  check (is_device_name (trim name)) (bad_request (plain "Device name must be 1-64 characters"))
  change_row m id user (update_rows (is_row id user) (renamed (trim name)))
  on_world (audit t.moment user "sync_device_rename" (some (host.uuid_text id)))

unfoldable pub delete_sync_device : Host → Pass → SyncMoment → ℕ → Option ℕ → Exec Desk (Unit {0})
delete_sync_device host t m user id = do
  i ← lift (or_error id (bad_request (plain "id is required")))
  change_row m i user (delete_rows (is_row i user))
  on_world (audit t.moment user "sync_device_revoke" (some (host.uuid_text i)))

unfoldable pub sync_delete : Host → Pass → ℕ → Text → Exec Vault (Unit {0})
sync_delete host t user path = do
  relative ← lift (safe_relative_path path)
  check (not (is_root relative)) (bad_request (plain "Cannot delete the sync root"))
  found ← gets (type_at (path_of host user relative))
  kind ← lift (or_error (if t.fails Op.stat_entry then none else found) not_found)
  check (not (is_symlink kind)) forbidden
  delete_one_to_trash host t user relative
  in_world (audit t.moment user "sync_delete" (some path))
