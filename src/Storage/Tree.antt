-- ===== src/Storage/Tree.antt =====
-- A directory tree as a walk of server/src/handlers/storage.rs meets it, and the walk: a stack of directories
-- still to read. What vanishes or cannot be read under way is part of the tree.
pub mod Complete
pub mod Fold
use nexa_drive.Prelude.{
  ℕ, zero, suc, ◌+◌, Bool, true, false, Option, none, some, List, [], ◌∷◌, ◌++◌, if◌then◌else◌,
}
use nexa_drive.Text.{Text}
use nexa_drive.Error.{Result, ok, err, AppError, io, ◌>>=◌}
use nexa_drive.Paths.{FilePath}

-- `Metadata`: the length, and the time of the last change in seconds, if there is one.
pub record Metadata : Type 0 where
  pub len : ℕ
  pub modified : Option ℕ

-- What reading a file's metadata gives: the file is gone, or an error.
pub data Reading : Type 0 where
  present : Metadata → Reading
  missing : Reading
  failing : Reading

mutual
  -- A directory that lists its entries, is gone, or cannot be read.
  pub data Directory : Type 0 where
    listing : Entries → Directory
    directory_gone directory_error : Directory

  -- An entry is a file, a directory, a symbolic link, something else, gone, or has no type to read.
  pub data Entry : Type 0 where
    regular : Reading → Entry
    folder : Directory → Entry
    symlink special entry_gone entry_error : Entry

  -- The entries in the order in which they are read; reading the next one can fail.
  pub data Entries : Type 0 where
    end : Entries
    item : Text → Entry → Entries → Entries
    listing_error : Entries

-- A walk: whether it passes over directories and entries that are gone, and what it does with a file.
pub record Walker (S : Type 0) : Type 0 where
  pub is_lenient : Bool
  pub visit : FilePath → Text → Reading → S → Result S

abbrev pub Stack : Type 0
Stack = List (FilePath × Directory)

module _ {S : Type 0} (k : Walker S) where
  unfoldable pub pass_gone : S → Result S
  pass_gone s = if k.is_lenient then ok s else err io

  unfoldable pub visit_entry : FilePath → Text → Entry → S → Result S
  visit_entry at name (regular r) s = k.visit at name r s
  visit_entry at name (folder d) s = ok s
  visit_entry at name symlink s = ok s
  visit_entry at name special s = ok s
  visit_entry at name entry_gone s = pass_gone s
  visit_entry at name entry_error s = err io

  unfoldable pub push_entry : FilePath → Text → Entry → Stack → Stack
  push_entry at name (folder d) stack = (at ++ name ∷ [], d) ∷ stack
  push_entry at name _ stack = stack

  -- The entries of one directory: its files are visited, its directories pushed.
  unfoldable pub scan : FilePath → Entries → Stack → S → Result (Stack × S)
  scan at end stack s = ok (stack, s)
  scan at (item name e rest) stack s =
      visit_entry at name e s >>= λ t. scan at rest (push_entry at name e stack) t
  scan at listing_error stack s = err io

  unfoldable pub scan_directory : FilePath → Directory → Stack → S → Result (Stack × S)
  scan_directory at (listing es) stack s = scan at es stack s
  scan_directory at directory_gone stack s = pass_gone s >>= λ t. ok (stack, t)
  scan_directory at directory_error stack s = err io

  abbrev pub resume : (Stack → S → Option (Result S)) → Result (Stack × S) → Option (Result S)
  resume go (err e) = some (err e)
  resume go (ok (stack, s)) = go stack s

  -- `while let Some(dir) = stack.pop()`; `none` where the fuel, a bound on the directories read, is
  -- too small.
  unfoldable pub walk : ℕ → Stack → S → Option (Result S)
  walk fuel [] s = some (ok s)
  walk zero (d ∷ stack) s = none
  walk (suc n) ((at, d) ∷ stack) s = resume (walk n) (scan_directory at d stack s)

-- The directories of a tree, the root included.
unfoldable mutual
  pub directories : Directory → ℕ
  directories (listing es) = suc (directories_below es)
  directories directory_gone = 1
  directories directory_error = 1

  pub directories_at : Entry → ℕ
  directories_at (folder d) = directories d
  directories_at _ = 0

  pub directories_below : Entries → ℕ
  directories_below end = 0
  directories_below (item name e rest) = directories_at e + directories_below rest
  directories_below listing_error = 0

-- The walk from a root, with as much fuel as the tree has directories.
unfoldable pub walk_tree : {S : Type 0} → Walker S → Directory → S → Option (Result S)
walk_tree k d s = walk k (directories d) (([], d) ∷ []) s
