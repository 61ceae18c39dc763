-- ===== src/Shelf/Listing.antt =====
-- Lists of files, of what a search finds, and of photos (server/src/handlers/files.rs).
pub mod Requests
pub mod Ends
use nexa_drive.Prelude.{
  ℕ, zero, suc, Bool, true, false, ◌&&◌, ◌||◌, Option, none, some, List, [], ◌∷◌, ◌++◌, leb, length,
  if◌then◌else◌,
}
use nexa_drive.Text.{Text, trim, is_empty, contains}
use nexa_drive.Error.{Result, ok, err, io, ◌>>=◌}
use nexa_drive.Paths.{FilePath, safe_relative_path, relative_text, user_root}
use nexa_drive.Paths.Mime.{is_photo}
use nexa_drive.Upload.Staging.{is_staging_name}
use nexa_drive.Upload.World.{Host, create_dir_all}
use nexa_drive.Storage.Tree.{
  Directory, Entries, Entry, Reading, Stack, Walker, listing, directory_gone, directory_error,
  regular, present, missing, failing, symlink, special, entry_gone, entry_error, end, item,
  listing_error, directories, walk_tree,
}
use nexa_drive.Shelf.{Vault, Pass, in_world, walked}
use nexa_drive.Shelf.Transfer.{path_of}
use nexa_drive.Shelf.Trash.{unwrap_path}
use nexa_drive.Sharing.Received.{FileEntry, with_entry, sort_entries, text_le}

-- The entries of a folder, without links and without files that are still being uploaded. (Their metadata is read
-- all the same.)
unfoldable pub read_listed : FilePath → Entries → Result (List FileEntry)
read_listed relative end = ok []
read_listed relative (item name e rest) =
    let tail = read_listed relative rest in
    if is_staging_name name
    then (with_entry relative name e tail >>= λ es. tail)
    else with_entry relative name e tail
read_listed relative listing_error = err io

unfoldable pub read_directory : FilePath → Directory → Result (List FileEntry)
read_directory relative (listing es) = read_listed relative es
read_directory relative directory_gone = err io
read_directory relative directory_error = err io

-- The entries that match are appended; folders are to be searched too. A link and a staging name are passed over.
unfoldable pub push_folder : FilePath → Text → Entry → Stack → Stack
push_folder at name (Entry.folder d) stack = (at ++ name ∷ [], d) ∷ stack
push_folder at name _ stack = stack

module _ (lower : Text → Text) (needle : Text) where
  unfoldable pub search_named :
      FilePath → Text → Entry → Stack → List FileEntry → Result (Stack × List FileEntry)
  search_named at name e stack found =
      if is_staging_name name
      then ok (stack, found)
      else if contains needle (lower name)
      then (with_entry at name e (ok []) >>= λ es. ok (push_folder at name e stack, found ++ es))
      else ok (push_folder at name e stack, found)

  unfoldable pub search_entry :
      FilePath → Text → Entry → Stack → List FileEntry → Result (Stack × List FileEntry)
  search_entry at name symlink stack found = ok (stack, found)
  search_entry at name entry_gone stack found = err io
  search_entry at name entry_error stack found = err io
  search_entry at name (regular r) stack found = search_named at name (regular r) stack found
  search_entry at name (Entry.folder d) stack found =
      search_named at name (Entry.folder d) stack found
  search_entry at name special stack found = search_named at name special stack found

  unfoldable pub search_entries :
      FilePath → Entries → Stack → List FileEntry → Result (Stack × List FileEntry)
  search_entries at end stack found = ok (stack, found)
  search_entries at (item name e rest) stack found =
      search_entry at name e stack found >>= λ s. search_entries at rest s.0 s.1
  search_entries at listing_error stack found = err io

  unfoldable pub search_directory :
      FilePath → Directory → Stack → List FileEntry → Result (Stack × List FileEntry)
  search_directory at (listing es) stack found = search_entries at es stack found
  search_directory at directory_gone stack found = err io
  search_directory at directory_error stack found = err io

  abbrev pub go_on :
      (Stack → List FileEntry → Option (Result (List FileEntry)))
      → Result (Stack × List FileEntry)
      → Option (Result (List FileEntry))
  go_on next (err e) = some (err e)
  go_on next (ok s) = next s.0 s.1

  -- The loop over the folders still to read, which stops at 500 results; `none` where the fuel is too small.
  unfoldable pub search_walk : ℕ → Stack → List FileEntry → Option (Result (List FileEntry))
  search_walk fuel [] found = some (ok found)
  search_walk zero (d ∷ stack) found = none
  search_walk (suc n) ((at, d) ∷ stack) found =
      let rest = go_on (search_walk n) (search_directory at d stack found) in
      if leb 500 (length found) then some (ok found) else rest

  unfoldable pub search_tree : Directory → Option (Result (List FileEntry))
  search_tree d = search_walk (directories d) (([], d) ∷ []) []

-- By name in lower case, and then by path.
unfoldable pub is_before : (Text → Text) → FileEntry → FileEntry → Bool
is_before lower a b =
    if text_le (lower b.name) (lower a.name)
    then text_le (lower a.name) (lower b.name) && text_le a.path b.path
    else true

unfoldable pub insert_found : (Text → Text) → FileEntry → List FileEntry → List FileEntry
insert_found lower a [] = a ∷ []
insert_found lower a (b ∷ bs) =
    let rest = insert_found lower a bs in if is_before lower a b then a ∷ b ∷ bs else b ∷ rest

unfoldable pub sort_found : (Text → Text) → List FileEntry → List FileEntry
sort_found lower [] = []
sort_found lower (a ∷ as_) = insert_found lower a (sort_found lower as_)

pub record PhotoEntry : Type 0 where
  pub name : Text
  pub path : Text
  pub size : ℕ
  pub modified_at : Option ℕ

unfoldable pub read_photo : FilePath → Text → Reading → List PhotoEntry → Result (List PhotoEntry)
read_photo at name (present m) photos = ok (
    photos
    ++ record {
      name = name;
      path = relative_text (at ++ name ∷ []);
      size = m.len;
      modified_at = m.modified;
    }
      ∷ [])
read_photo at name missing photos = ok photos
read_photo at name failing photos = err io

unfoldable pub photos_walker : Walker (List PhotoEntry)
photos_walker = record {
  is_lenient = false;
  visit = λ at name r photos.
      if is_photo (at ++ name ∷ [])
      then (if is_staging_name name then ok photos else read_photo at name r photos)
      else ok photos;
}

-- `sort_by_key(Reverse(modified_at))`: the newest first, those without a time last.
unfoldable pub no_newer : Option ℕ → Option ℕ → Bool
no_newer none b = true
no_newer (some a) none = false
no_newer (some a) (some b) = leb a b

unfoldable pub insert_photo : PhotoEntry → List PhotoEntry → List PhotoEntry
insert_photo p [] = p ∷ []
insert_photo p (q ∷ qs) =
    let rest = insert_photo p qs in
    if no_newer q.modified_at p.modified_at then p ∷ q ∷ qs else q ∷ rest

unfoldable pub sort_photos : List PhotoEntry → List PhotoEntry
sort_photos [] = []
sort_photos (p ∷ ps) = insert_photo p (sort_photos ps)
