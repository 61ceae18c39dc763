-- ===== src/Shelf/Listing/Requests.antt =====
-- The handlers that list files, search them, and list photos (server/src/handlers/files.rs).
use nexa_drive.Prelude.{ℕ, Option, List, [], if◌then◌else◌}
use nexa_drive.Text.{Text, trim, is_empty}
use nexa_drive.Error.Exec.{Exec, pure, lift, ◌>>=◌, ◌>>◌}
use nexa_drive.Paths.{safe_relative_path, user_root}
use nexa_drive.Upload.World.{Host, create_dir_all}
use nexa_drive.Storage.Tree.{walk_tree}
use nexa_drive.Shelf.{Vault, Pass, in_world, walked}
use nexa_drive.Shelf.Transfer.{path_of}
use nexa_drive.Shelf.Trash.{unwrap_path}
use nexa_drive.Sharing.Received.{FileEntry, sort_entries}
use nexa_drive.Shelf.Listing.{
  PhotoEntry, read_directory, search_tree, sort_found, photos_walker, sort_photos,
}

-- `lower` is `to_lowercase`.
unfoldable pub list_files :
    (Text → Text) → Host → Pass → ℕ → Option Text → Exec Vault (List FileEntry)
list_files lower host t user path = do
  relative ← lift (safe_relative_path (unwrap_path path))
  in_world (create_dir_all t.moment (path_of host user relative))
  entries ← lift (read_directory relative (t.tree (path_of host user relative)))
  pure (sort_entries lower entries)

unfoldable pub search_root : (Text → Text) → Host → Pass → ℕ → Text → Exec Vault (List FileEntry)
search_root lower host t user needle = do
  in_world (create_dir_all t.moment (user_root host.storage_root (host.uuid_text user)))
  found ← lift (
      walked
        (search_tree lower needle (t.tree (user_root host.storage_root (host.uuid_text user)))))
  pure (sort_found lower found)

unfoldable pub search_files : (Text → Text) → Host → Pass → ℕ → Text → Exec Vault (List FileEntry)
search_files lower host t user q =
    if is_empty (lower (trim q)) then pure [] else search_root lower host t user (lower (trim q))

unfoldable pub list_photos : Host → Pass → ℕ → Exec Vault (List PhotoEntry)
list_photos host t user = do
  photos ← lift (
      walked
        (walk_tree photos_walker (t.tree (user_root host.storage_root (host.uuid_text user))) []))
  pure (sort_photos photos)
