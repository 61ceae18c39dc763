-- ===== src/Examples/Shelf.antt =====
-- A small storage with one account (server/src/handlers/files.rs), and the theorems at it.
use nexa_drive.Prelude.{◌≡◌, refl, false, none, some, [], ◌∷◌, ◌++◌, if◌then◌else◌}
use nexa_drive.Text.{
  codes, text_eq, trim, trim_start, trim_cons, trim_end, is_empty, is_whitespace, starts_with,
  strip_prefix, contains_char, split, split_cons, join, replace,
}
use nexa_drive.Error.{ok}
use nexa_drive.Error.Exec.{◌>>=◌, ◌>>◌}
use nexa_drive.Error.Ensures.{Ensures}
use nexa_drive.Paths.{
  FilePath, safe_relative_path, relative_text, components, pieces_components, piece_components,
  leading_components, clean_components, is_trash_name, user_root, trash_root,
}
use nexa_drive.Upload.Files.{
  file, folder, path_eq, is_blocked, is_file, make_folders, put, mkdir_node, parent,
}
use nexa_drive.Upload.World.{World, Host, Moment, create_dir_all, audit}
use nexa_drive.Storage.Tree.{listing, end}
use nexa_drive.Prelude.Rows.{find_row, delete_rows}
use nexa_drive.Paths.Mime.{file_name}
use nexa_drive.Shelf.{Vault, Pass, type_at, in_world, leads_to}
use nexa_drive.Shelf.Entry.{ensure_supported_entry, rename_entry, can_rename, entry_size}
use nexa_drive.Shelf.Subtree.{below, is_below, relocate}
use nexa_drive.Shelf.Apart.{Kept}
use nexa_drive.Shelf.Confined.{Outside, batch_files-Outside}
use nexa_drive.Shelf.Refused.{move_file-Kept, rename_file-Kept}
use nexa_drive.Shelf.Restored.{IsBack, restore_trash-delete_one_to_trash}
use nexa_drive.Shelf.Transfer.{path_of, rename_file, move_file}
use nexa_drive.Shelf.Trash.{
  trash_of, record_trash, add_tombstone, is_tombstone, new_trash_item, delete_one_to_trash,
  find_item, restore_item, is_item, restore_trash, batch_files,
}

abbrev pub a_host : Host
a_host = record {
  storage_root = codes "s" ∷ [];
  max_upload_bytes = 1000;
  uuid_text = λ n. n ∷ [];
  sha256 = λ b. b;
}

abbrev pub a_moment : Moment
a_moment = record {
  fails = λ c. false;
  clock = 5;
  instant = 5;
  tree_used = 1;
  reached = 0;
  folder_len = 0;
}

abbrev pub a_pass : Pass
a_pass = record {
  moment = a_moment;
  fails = λ o. false;
  new_id = 7;
  tree = λ p. listing end;
  canonical = λ p. some p;
  link_leads = λ p. none;
  is_vacant = λ p. false;
  reached = λ p. false;
}

abbrev pub a_home : FilePath
a_home = codes "s" ∷ (1 ∷ []) ∷ []

abbrev pub a_name : FilePath
a_name = codes "a" ∷ []

abbrev pub a_world : World
a_world = record {
  users = λ n. some (record { role = codes "user"; disabled = false; quota_bytes = none });
  jobs = [];
  files = λ p.
      if path_eq p a_home
      then some folder
      else if path_eq p (a_home ++ a_name)
      then some (file (9 ∷ []))
      else none;
  tombstones = [];
  audit_logs = [];
  quota_cache = λ n. none;
}

abbrev pub a_vault : Vault
a_vault = record { world = a_world; specials = λ p. none; trash_items = [] }

own_folder : text_eq (a_host.uuid_text 1) (codes ".trash") ≡ false
unfolding text_eq
own_folder = refl

a_name_read : safe_relative_path (relative_text a_name) ≡ ok a_name
unfolding safe_relative_path relative_text join replace trim trim_start trim_cons trim_end is_empty
    is_whitespace starts_with strip_prefix contains_char split split_cons components
    pieces_components piece_components leading_components clean_components is_trash_name text_eq
a_name_read = refl

pub a_name_is_read : safe_relative_path (codes "a") ≡ ok a_name
unfolding safe_relative_path trim trim_start trim_cons trim_end is_empty is_whitespace starts_with
    strip_prefix contains_char split split_cons components pieces_components piece_components
    leading_components clean_components is_trash_name text_eq
a_name_is_read = refl

restore_trash-delete_one_to_trash_example :
    Ensures
      (λ _. Unit {0})
      (λ _ after. IsBack a_host 1 a_name a_vault after)
      ((delete_one_to_trash a_host a_pass 1 a_name >> restore_trash a_host a_pass 1 (some 7))
        a_vault)
restore_trash-delete_one_to_trash_example =
    restore_trash-delete_one_to_trash a_host a_pass a_pass 1 a_name a_vault own_folder refl
      a_name_read

deleted_and_restored :
    ((delete_one_to_trash a_host a_pass 1 a_name >> restore_trash a_host a_pass 1 (some 7))
      a_vault).0
    ≡ ok tt
unfolding delete_one_to_trash ◌>>=◌ ensure_supported_entry type_at path_eq path_of user_root text_eq
    in_world create_dir_all is_blocked trash_of trash_root is_file rename_entry can_rename
    make_folders put mkdir_node parent below is_below relocate record_trash entry_size add_tombstone
    is_tombstone new_trash_item find_row relative_text join replace audit file_name restore_trash
    find_item restore_item is_item safe_relative_path trim trim_start trim_cons trim_end is_empty
    is_whitespace starts_with strip_prefix contains_char split split_cons components
    pieces_components piece_components leading_components clean_components is_trash_name leads_to
    delete_rows
deleted_and_restored = refl

-- The folder of another account.
abbrev pub another_home : FilePath
another_home = codes "s" ∷ (2 ∷ []) ∷ []

another-Outside : Outside a_host 1 another_home
unfolding below user_root trash_root trash_of text_eq
another-Outside = record {
  from_home = record { not_below = refl; not_above = refl };
  from_trash = record { not_below = refl; not_above = refl };
}

batch_files-Outside_example :
    Ensures
      (Kept another_home (a_vault.world.files another_home) (a_vault.specials another_home))
      (λ _. Kept another_home (a_vault.world.files another_home) (a_vault.specials another_home))
      (batch_files a_host (λ i. a_pass) 1 (codes "delete") none (codes "a" ∷ []) a_vault)
batch_files-Outside_example =
    batch_files-Outside a_host (λ i. a_pass) 1 (codes "delete") none (codes "a" ∷ []) another_home
      a_vault another-Outside

move_file-Kept_example :
    Ensures
      (Kept a_home (a_vault.world.files a_home) (a_vault.specials a_home))
      (λ _ _. Unit {0})
      (move_file a_host a_pass 1 (codes "a") (codes "b") a_vault)
move_file-Kept_example = move_file-Kept a_host a_pass 1 (codes "a") (codes "b") a_home a_vault refl

rename_file-Kept_example :
    Ensures
      (Kept a_home (a_vault.world.files a_home) (a_vault.specials a_home))
      (λ _ _. Unit {0})
      (rename_file a_host a_pass 1 (codes "a") (codes "b") a_vault)
rename_file-Kept_example =
    rename_file-Kept a_host a_pass 1 (codes "a") (codes "b") a_home a_vault refl
