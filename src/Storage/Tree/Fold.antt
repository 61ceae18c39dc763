-- ===== src/Storage/Tree/Fold.antt =====
-- A walk over a tree that can be read (server/src/handlers/storage.rs), as a loop over the list of its files.
use nexa_drive.Prelude.{
  ◌≡◌, refl, ap, sym, ◌∙◌, Bool, true, false, ◌&&◌, some, List, [], ◌∷◌, ◌++◌, both_of_and,
}
use nexa_drive.Text.{Text}
use nexa_drive.Error.{ok, ◌>>=◌}
use nexa_drive.Paths.{FilePath}
use nexa_drive.Storage.Tree.{
  Metadata, Reading, present, missing, failing, Directory, Entry, Entries, listing, directory_gone,
  directory_error, regular, folder, symlink, special, entry_gone, entry_error, end, item,
  listing_error, Walker, pass_gone, visit_entry, walk_tree,
}
use nexa_drive.Storage.Tree.Complete.{
  visit_files, visit_directory, visit_folders, visit_folder, walk_tree-visit_directory,
}

-- A file with its directory and its name.
pub record Found : Type 0 where
  pub at : FilePath
  pub name : Text
  pub metadata : Metadata

-- No directory, entry or file fails to be read; they may be gone.
unfoldable mutual
  pub is_readable : Directory → Bool
  is_readable (listing es) = are_readable es
  is_readable directory_gone = true
  is_readable directory_error = false

  pub is_readable_entry : Entry → Bool
  is_readable_entry (folder d) = is_readable d
  is_readable_entry (regular (present m)) = true
  is_readable_entry (regular missing) = true
  is_readable_entry (regular failing) = false
  is_readable_entry symlink = true
  is_readable_entry special = true
  is_readable_entry entry_gone = true
  is_readable_entry entry_error = false

  pub are_readable : Entries → Bool
  are_readable end = true
  are_readable (item name e rest) = is_readable_entry e && are_readable rest
  are_readable listing_error = false

unfoldable pub found_file : FilePath → Text → Reading → List Found
found_file at name (present m) = record { at = at; name = name; metadata = m } ∷ []
found_file at name missing = []
found_file at name failing = []

unfoldable pub found_entry : FilePath → Text → Entry → List Found
found_entry at name (regular r) = found_file at name r
found_entry at name _ = []

unfoldable pub files_in : FilePath → Entries → List Found
files_in at end = []
files_in at (item name e rest) = found_entry at name e ++ files_in at rest
files_in at listing_error = []

-- The files of a tree, in the order of the walk.
unfoldable mutual
  pub files_of : FilePath → Directory → List Found
  files_of at (listing es) = files_in at es ++ files_below at es
  files_of at directory_gone = []
  files_of at directory_error = []

  pub files_below : FilePath → Entries → List Found
  files_below at end = []
  files_below at (item name e rest) = files_below at rest ++ files_under at name e
  files_below at listing_error = []

  pub files_under : FilePath → Text → Entry → List Found
  files_under at name (folder d) = files_of (at ++ name ∷ []) d
  files_under at name (regular r) = []
  files_under at name symlink = []
  files_under at name special = []
  files_under at name entry_gone = []
  files_under at name entry_error = []

unfoldable pub fold : {S : Type 0} → (Found → S → S) → List Found → S → S
fold f [] s = s
fold f (x ∷ xs) s = fold f xs (f x s)

fold-append :
    {S : Type 0} (f : Found → S → S) (xs ys : List Found) (s : S)
    → fold f (xs ++ ys) s ≡ fold f ys (fold f xs s)
unfolding fold
fold-append f [] ys s = refl
fold-append f (x ∷ xs) ys s = fold-append f xs ys (f x s)

-- A lenient walker that takes each file into its state by a function.
pub record Collects {S : Type 0} (k : Walker S) (f : Found → S → S) : Type 0 where
  pub is_lenient : k.is_lenient ≡ true
  pub on_present :
      (at : FilePath) (name : Text) (m : Metadata) (s : S)
      → k.visit at name (present m) s ≡ ok (f (record { at = at; name = name; metadata = m }) s)
  pub on_missing : (at : FilePath) (name : Text) (s : S) → k.visit at name missing s ≡ ok s

module _ {S : Type 0} (k : Walker S) (f : Found → S → S) (c : Collects k f) where
  gone-fold : (s : S) → pass_gone k s ≡ ok s
  unfolding pass_gone
  gone-fold s = rw (c.is_lenient) refl

  visit_entry-fold :
      (at : FilePath) (name : Text) (e : Entry) (s : S)
      → is_readable_entry e ≡ true
      → visit_entry k at name e s ≡ ok (fold f (found_entry at name e) s)
  unfolding visit_entry found_entry found_file fold is_readable
  visit_entry-fold at name (regular (present m)) s h = c.on_present at name m s
  visit_entry-fold at name (regular missing) s h = c.on_missing at name s
  visit_entry-fold at name (regular failing) s h = cc
  visit_entry-fold at name (folder d) s h = refl
  visit_entry-fold at name symlink s h = refl
  visit_entry-fold at name special s h = refl
  visit_entry-fold at name entry_gone s h = gone-fold s
  visit_entry-fold at name entry_error s h = cc

  visit_files-fold :
      (at : FilePath) (es : Entries) (s : S)
      → are_readable es ≡ true
      → visit_files k at es s ≡ ok (fold f (files_in at es) s)
  unfolding visit_files files_in is_readable fold
  visit_files-fold at end s h = refl
  visit_files-fold at listing_error s h = cc
  visit_files-fold at (item name e rest) s h =
      let r = both_of_and (is_readable_entry e) (are_readable rest) h in
      ap (λ x. x >>= visit_files k at rest) (visit_entry-fold at name e s r.0)
      ∙ visit_files-fold at rest (fold f (found_entry at name e) s) r.1
      ∙ ap ok (sym (fold-append f (found_entry at name e) (files_in at rest) s))

  mutual
    unfolding visit_directory files_of is_readable fold

    visit_directory-fold :
        (at : FilePath) (d : Directory) (s : S)
        → is_readable d ≡ true
        → visit_directory k at d s ≡ ok (fold f (files_of at d) s)
    visit_directory-fold at (listing es) s h =
        ap (λ x. x >>= visit_folders k at es) (visit_files-fold at es s h)
        ∙ visit_folders-fold at es (fold f (files_in at es) s) h
        ∙ ap ok (sym (fold-append f (files_in at es) (files_below at es) s))
    visit_directory-fold at directory_gone s h = gone-fold s
    visit_directory-fold at directory_error s h = cc

    visit_folders-fold :
        (at : FilePath) (es : Entries) (s : S)
        → are_readable es ≡ true
        → visit_folders k at es s ≡ ok (fold f (files_below at es) s)
    visit_folders-fold at end s h = refl
    visit_folders-fold at listing_error s h = cc
    visit_folders-fold at (item name e rest) s h =
        let r = both_of_and (is_readable_entry e) (are_readable rest) h in
        ap (λ x. x >>= visit_folder k at name e) (visit_folders-fold at rest s r.1)
        ∙ visit_folder-fold at name e (fold f (files_below at rest) s) r.0
        ∙ ap ok (sym (fold-append f (files_below at rest) (files_under at name e) s))

    visit_folder-fold :
        (at : FilePath) (name : Text) (e : Entry) (s : S)
        → is_readable_entry e ≡ true
        → visit_folder k at name e s ≡ ok (fold f (files_under at name e) s)
    visit_folder-fold at name (folder d) s h = visit_directory-fold (at ++ name ∷ []) d s h
    visit_folder-fold at name (regular r) s h = refl
    visit_folder-fold at name symlink s h = refl
    visit_folder-fold at name special s h = refl
    visit_folder-fold at name entry_gone s h = refl
    visit_folder-fold at name entry_error s h = refl

  -- The whole walk, where nothing fails.
  pub walk_tree-fold :
      (d : Directory) (s : S)
      → is_readable d ≡ true
      → walk_tree k d s ≡ some (ok (fold f (files_of [] d) s))
  walk_tree-fold d s h = walk_tree-visit_directory k d s ∙ ap some (visit_directory-fold [] d s h)
