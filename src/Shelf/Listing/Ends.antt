-- ===== src/Shelf/Listing/Ends.antt =====
-- The search of server/src/handlers/files.rs ends.
use nexa_drive.Prelude.{
  ℕ, zero, suc, ◌+◌, ◌≤◌, ◌≡◌, refl, Bool, true, false, some, List, [], ◌∷◌, ◌++◌, arith, leb,
  length, if◌then◌else◌,
}
use nexa_drive.Text.{Text, contains}
use nexa_drive.Error.{Result, ok, err, ◌>>=◌}
use nexa_drive.Paths.{FilePath}
use nexa_drive.Upload.Staging.{is_staging_name}
use nexa_drive.Storage.Tree.{
  Directory, Entries, Entry, Stack, listing, directory_gone, directory_error, regular, symlink,
  special, entry_gone, entry_error, end, item, listing_error, directories, directories_at,
  directories_below,
}
use nexa_drive.Sharing.Received.{FileEntry, with_entry}
use nexa_drive.Shelf.Listing.{
  push_folder, search_named, search_entry, search_entries, search_directory, go_on, search_walk,
  search_tree,
}

-- The directories of all that is still to read.
unfoldable pub waiting : Stack → ℕ
waiting [] = 0
waiting (p ∷ stack) = directories p.1 + waiting stack

abbrev Within : ℕ → Result (Stack × List FileEntry) → Type 0
Within n (ok s) = waiting s.0 ≤ n
Within n (err e) = Unit

push_folder-waiting :
    (at : FilePath) (name : Text) (e : Entry) (stack : Stack)
    → waiting (push_folder at name e stack) ≤ directories_at e + waiting stack
unfolding waiting push_folder directories
push_folder-waiting at name (Entry.folder d) stack = omega arith
push_folder-waiting at name (regular r) stack = omega arith
push_folder-waiting at name symlink stack = omega arith
push_folder-waiting at name special stack = omega arith
push_folder-waiting at name entry_gone stack = omega arith
push_folder-waiting at name entry_error stack = omega arith

some_directory : (d : Directory) → 1 ≤ directories d
unfolding directories
some_directory (listing es) = omega arith
some_directory directory_gone = omega arith
some_directory directory_error = omega arith

module _ (lower : Text → Text) (needle : Text) where
  search_named-Within :
      (at : FilePath) (name : Text) (e : Entry) (stack : Stack) (found : List FileEntry)
      → Within (directories_at e + waiting stack) (search_named lower needle at name e stack found)
  unfolding search_named
  search_named-Within at name e stack found =
      branch (is_staging_name name) (contains needle (lower name)) (with_entry at name e (ok []))
    where
      branch :
          (b c : Bool) (r : Result (List FileEntry))
          → Within (directories_at e + waiting stack) (
              if b
              then ok (stack, found)
              else if c
              then (r >>= λ es. ok (push_folder at name e stack, found ++ es))
              else ok (push_folder at name e stack, found))
      branch true c r = omega arith
      branch false true (ok es) = push_folder-waiting at name e stack
      branch false true (err a) = tt
      branch false false r = push_folder-waiting at name e stack

  search_entry-Within :
      (at : FilePath) (name : Text) (e : Entry) (stack : Stack) (found : List FileEntry)
      → Within (directories_at e + waiting stack) (search_entry lower needle at name e stack found)
  unfolding search_entry
  search_entry-Within at name symlink stack found = omega arith
  search_entry-Within at name entry_gone stack found = tt
  search_entry-Within at name entry_error stack found = tt
  search_entry-Within at name (regular r) stack found =
      search_named-Within at name (regular r) stack found
  search_entry-Within at name (Entry.folder d) stack found =
      search_named-Within at name (Entry.folder d) stack found
  search_entry-Within at name special stack found = search_named-Within at name special stack found

  search_entries-Within :
      (at : FilePath) (es : Entries) (stack : Stack) (found : List FileEntry)
      → Within
          (directories_below es + waiting stack)
          (search_entries lower needle at es stack found)
  unfolding search_entries directories
  search_entries-Within at end stack found = omega arith
  search_entries-Within at listing_error stack found = tt
  search_entries-Within at (item name e rest) stack found =
      onward (λ u f. search_entries-Within at rest u f)
        (search_entry lower needle at name e stack found)
        (search_entry-Within at name e stack found)
    where
      weaker : (a b : ℕ) (r : Result (Stack × List FileEntry)) → a ≤ b → Within a r → Within b r
      weaker a b (ok s) h k = omega arith
      weaker a b (err x) h k = tt

      onward :
          ((u : Stack) (f : List FileEntry)
            → Within (directories_below rest + waiting u) (search_entries lower needle at rest u f))
          → (r : Result (Stack × List FileEntry)) → Within (directories_at e + waiting stack) r
          → Within
              (directories_at e + directories_below rest + waiting stack)
              (r >>= λ s. search_entries lower needle at rest s.0 s.1)
      onward go (ok s) h = weaker _ _ _ (omega arith) (go s.0 s.1)
      onward go (err x) h = tt

  search_directory-Within :
      (at : FilePath) (d : Directory) (stack : Stack) (found : List FileEntry) (n : ℕ)
      → directories d + waiting stack ≤ suc n
      → Within n (search_directory lower needle at d stack found)
  unfolding search_directory directories
  search_directory-Within at (listing es) stack found n h =
      counted n h (search_entries lower needle at es stack found)
        (search_entries-Within at es stack found)
    where
      counted :
          (n : ℕ)
          → suc (directories_below es) + waiting stack ≤ suc n
          → (r : Result (Stack × List FileEntry)) → Within (directories_below es + waiting stack) r
          → Within n r
      counted n h (ok s) k = omega arith
      counted n h (err x) k = tt
  search_directory-Within at directory_gone stack found n h = tt
  search_directory-Within at directory_error stack found n h = tt

  search_walk-ends :
      (n : ℕ) (stack : Stack) (found : List FileEntry)
      → waiting stack ≤ n
      → (r : Result (List FileEntry)) × (search_walk lower needle n stack found ≡ some r)
  unfolding search_walk waiting
  search_walk-ends n [] found h = (ok found, refl)
  search_walk-ends zero ((at, d) ∷ stack) found h = absurd (omega (arith, some_directory d))
  search_walk-ends (suc n) ((at, d) ∷ stack) found h = stopped (leb 500 (length found)) (
      went (λ u f k. search_walk-ends n u f k) (search_directory lower needle at d stack found)
        (search_directory-Within at d stack found n h))
    where
      went :
          ((u : Stack) (f : List FileEntry)
            → waiting u ≤ n
            → (r : Result (List FileEntry)) × (search_walk lower needle n u f ≡ some r))
          → (x : Result (Stack × List FileEntry)) → Within n x
          → (r : Result (List FileEntry)) × (go_on lower needle (search_walk lower needle n) x
              ≡ some r)
      went go (ok s) k = go s.0 s.1 k
      went go (err e) k = (err e, refl)

      stopped :
          (b : Bool)
          → (r : Result (List FileEntry)) × (go_on lower needle
                (search_walk lower needle n)
                (search_directory lower needle at d stack found)
              ≡ some r)
          → (r : Result (List FileEntry)) × ((if b
                then some (ok found)
                else go_on lower needle
                    (search_walk lower needle n)
                    (search_directory lower needle at d stack found))
              ≡ some r)
      stopped true q = (ok found, refl)
      stopped false q = q

-- The search ends, whatever the tree: with fuel for each of its directories it has a result.
pub search_tree-ends :
    (lower : Text → Text) (needle : Text) (d : Directory)
    → (r : Result (List FileEntry)) × (search_tree lower needle d ≡ some r)
unfolding search_tree
search_tree-ends lower needle d =
    search_walk-ends lower needle (directories d) (([], d) ∷ []) [] (unfold waiting in omega arith)
