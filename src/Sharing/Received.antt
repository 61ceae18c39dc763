-- ===== src/Sharing/Received.antt =====
-- What a recipient reads of a share (server/src/handlers/sharing.rs).
use nexa_drive.Prelude.{
  ℕ, Bool, true, false, not, ◌&&◌, ◌||◌, Option, none, some, List, [], ◌∷◌, ◌++◌, if◌then◌else◌,
  ltb, length, ◌==◌,
}
use nexa_drive.Text.{Text, codes, join, replace}
use nexa_drive.Error.{Result, ok, err, bad_request, forbidden, plain, io, not_found, or_error}
use nexa_drive.Error.Exec.{Exec, pure, gets, lift, check, ◌>>=◌, ◌>>◌}
use nexa_drive.Paths.{FilePath, safe_relative_path, relative_text}
use nexa_drive.Paths.Mime.{file_name}
use nexa_drive.Auth.Login.{permission_allows}
use nexa_drive.Upload.Files.{Node, file}
use nexa_drive.Upload.World.{Host, audit}
use nexa_drive.Download.{OpenFile, Response, file_response}
use nexa_drive.Storage.Tree.{
  Directory, Entries, Entry, listing, directory_gone, directory_error, regular, present, missing,
  failing, symlink, special, entry_gone, entry_error, end, item, listing_error,
}
use nexa_drive.Shelf.{
  Special, FileType, dir_type, file_type, Vault, Pass, in_world, type_at, is_dir,
}
use nexa_drive.Shelf.Transfer.{path_of}
use nexa_drive.Shelf.Trash.{unwrap_path, name_or_empty}
use nexa_drive.Sharing.{Exchange, Errand, ShareCall, attempt_share, in_vault, resolve_share}

pub record FileEntry : Type 0 where
  pub name : Text
  pub path : Text
  pub kind : FileType
  pub size : ℕ
  pub modified_at : Option ℕ

unfoldable pub file_entry : FilePath → Text → FileType → ℕ → Option ℕ → FileEntry
file_entry relative name kind size modified = record {
  name = name;
  path = relative_text (relative ++ name ∷ []);
  kind = kind;
  size = size;
  modified_at = modified;
}

unfoldable pub with_entry :
    FilePath → Text → Entry → Result (List FileEntry) → Result (List FileEntry)
with_entry relative name symlink rest = rest
with_entry relative name entry_gone rest = err io
with_entry relative name entry_error rest = err io
with_entry relative name (regular missing) rest = err io
with_entry relative name (regular failing) rest = err io
with_entry relative name (regular (present m)) (ok es) =
    ok (file_entry relative name file_type m.len m.modified ∷ es)
with_entry relative name (Entry.folder d) (ok es) =
    ok (file_entry relative name dir_type 0 none ∷ es)
with_entry relative name special (ok es) = ok (file_entry relative name file_type 0 none ∷ es)
with_entry relative name (regular (present m)) (err e) = err e
with_entry relative name (Entry.folder d) (err e) = err e
with_entry relative name special (err e) = err e

-- The loop over a folder's entries. (The time of the last change of a folder, and of what is neither file nor folder,
-- is not kept.)
unfoldable pub read_entries : FilePath → Entries → Result (List FileEntry)
read_entries relative end = ok []
read_entries relative (item name e rest) = with_entry relative name e (read_entries relative rest)
read_entries relative listing_error = err io

unfoldable pub read_folder : FilePath → Directory → Result (List FileEntry)
read_folder relative (listing es) = read_entries relative es
read_folder relative directory_gone = err io
read_folder relative directory_error = err io

-- The order of texts by code points, that of their UTF-8 bytes.
unfoldable pub text_le : Text → Text → Bool
text_le [] t = true
text_le (a ∷ s) [] = false
text_le (a ∷ s) (b ∷ t) = ltb a b || ((a == b) && text_le s t)

-- Folders first, and then by name in lower case.
unfoldable pub comes_first : (Text → Text) → FileEntry → FileEntry → Bool
comes_first lower a b =
    if is_dir a.kind
    then not (is_dir b.kind) || text_le (lower a.name) (lower b.name)
    else not (is_dir b.kind) && text_le (lower a.name) (lower b.name)

unfoldable pub insert_entry : (Text → Text) → FileEntry → List FileEntry → List FileEntry
insert_entry lower a [] = a ∷ []
insert_entry lower a (b ∷ bs) =
    let rest = insert_entry lower a bs in if comes_first lower a b then a ∷ b ∷ bs else b ∷ rest

unfoldable pub sort_entries : (Text → Text) → List FileEntry → List FileEntry
sort_entries lower [] = []
sort_entries lower (a ∷ as_) = insert_entry lower a (sort_entries lower as_)

-- `symlink_metadata`, of a path that ends in a slash where `join("")` made it so: then only a folder has any.
unfoldable pub list_shared_items :
    (Text → Text) → Host → Errand → ℕ → ℕ → Option Text → Exec Exchange (List FileEntry)
list_shared_items lower host e user id path = do
  share ← resolve_share e user id
  relative ← lift (safe_relative_path (unwrap_path path))
  let directory = path_of host share.owner_id (share.base ++ relative)
  found ← gets (λ x. type_at directory x.vault)
  kind ← lift (or_error found not_found)
  check (is_dir kind) (bad_request (plain "Not a folder"))
  entries ← lift (read_folder relative (e.pass.tree directory))
  pure (sort_entries lower entries)

-- What `File::open` finds: nothing, something else than a file, or the bytes of a file.
pub data Opened : Type 0 where
  absent : Opened
  no_file : Opened
  content : List ℕ → Opened

abbrev pub opened_node : Option Node → Opened
opened_node none = absent
opened_node (some (file b)) = content b
opened_node (some Node.folder) = no_file

abbrev pub opened : Option Special → Option Node → Option Node → Opened
opened none n link = opened_node n
opened (some Special.symlink) n link = opened_node link
opened (some Special.other) n link = no_file

-- A path that ends in a slash does not open a file.
abbrev pub opened_as_folder : Opened → Opened
opened_as_folder (content b) = absent
opened_as_folder o = o

unfoldable pub open_at : Pass → FilePath → Vault → Opened
open_at t p v = opened (v.specials p) (v.world.files p) (t.link_leads p)

abbrev pub ends_in_slash : FilePath → Bool
ends_in_slash [] = true
ends_in_slash (w ∷ ws) = false

abbrev pub content_of_opened : Opened → Result (List ℕ)
content_of_opened absent = err not_found
content_of_opened no_file = err (bad_request (plain "Not a file"))
content_of_opened (content b) = ok b

unfoldable pub open_shared : Errand → FilePath → Bool → Exec Exchange (List ℕ)
open_shared e p slash = do
  attempt_share e ShareCall.open_file not_found
  found ← gets (λ x. open_at e.pass p x.vault)
  attempt_share e ShareCall.read_metadata io
  lift (content_of_opened (if slash then opened_as_folder found else found))

-- `.replace('"', "'").replace(['\r', '\n'], "_")`
unfoldable pub download_name : Text → Text
download_name name = replace 10 95 (replace 13 95 (replace 34 39 name))

abbrev pub file_of : Errand → List ℕ → OpenFile
file_of e b = record { content = b; read_fails = e.read_fails; seek_fails = e.seek_fails }

-- `base.join(rel)` ends in a slash where `rel` is empty.
unfoldable pub download_shared_file :
    Host → Errand → ℕ → ℕ → Option Text → Option Text → Exec Exchange Response
download_shared_file host e user id path range = do
  share ← resolve_share e user id
  check (permission_allows share.permission false) forbidden
  rel ← lift (safe_relative_path (unwrap_path path))
  b ← open_shared e (path_of host share.owner_id (share.base ++ rel)) (ends_in_slash rel)
  in_vault (
      in_world (
        audit e.pass.moment user "shared_download"
          (some (host.uuid_text id ++ (codes ":" ++ join 47 rel)))))
  pure
      (file_response (file_of e b) (length b) (download_name (name_or_empty (file_name rel))) range)
