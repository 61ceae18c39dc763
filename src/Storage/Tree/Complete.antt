-- ===== src/Storage/Tree/Complete.antt =====
-- The walk with a stack (server/src/handlers/storage.rs) and the recursion over the tree that it stands for.
use nexa_drive.Prelude.{ℕ, zero, suc, ◌+◌, ◌≤◌, ◌≡◌, refl, ap, sym, ◌∙◌, some, [], ◌∷◌, ◌++◌, arith}
use nexa_drive.Text.{Text}
use nexa_drive.Error.{Result, ok, err, io, ◌>>=◌}
use nexa_drive.Paths.{FilePath}
use nexa_drive.Storage.Tree.{
  Directory, Entry, Entries, listing, directory_gone, directory_error, regular, folder, symlink,
  special, entry_gone, entry_error, end, item, listing_error, Walker, Stack, pass_gone, visit_entry,
  push_entry, scan, scan_directory, resume, walk, directories, directories_at, directories_below,
  walk_tree,
}

module _ {S : Type 0} (k : Walker S) where
  unfoldable pub visit_files : FilePath → Entries → S → Result S
  visit_files at end s = ok s
  visit_files at (item name e rest) s = visit_entry k at name e s >>= visit_files at rest
  visit_files at listing_error s = err io

  -- The files of a directory, and then its directories from the last to the first, each with all that is
  -- below it.
  unfoldable mutual
    pub visit_directory : FilePath → Directory → S → Result S
    visit_directory at (listing es) s = visit_files at es s >>= visit_folders at es
    visit_directory at directory_gone s = pass_gone k s
    visit_directory at directory_error s = err io

    pub visit_folders : FilePath → Entries → S → Result S
    visit_folders at end s = ok s
    visit_folders at (item name e rest) s = visit_folders at rest s >>= visit_folder at name e
    visit_folders at listing_error s = ok s

    pub visit_folder : FilePath → Text → Entry → S → Result S
    visit_folder at name (folder d) s = visit_directory (at ++ name ∷ []) d s
    visit_folder at name (regular r) s = ok s
    visit_folder at name symlink s = ok s
    visit_folder at name special s = ok s
    visit_folder at name entry_gone s = ok s
    visit_folder at name entry_error s = ok s

  visit_stack : Stack → S → Result S
  visit_stack [] s = ok s
  visit_stack (p ∷ stack) s = visit_directory p.0 p.1 s >>= visit_stack stack

  push_all : FilePath → Entries → Stack → Stack
  push_all at end stack = stack
  push_all at (item name e rest) stack = push_all at rest (push_entry k at name e stack)
  push_all at listing_error stack = stack

  pending : Stack → ℕ
  pending [] = 0
  pending (p ∷ stack) = directories p.1 + pending stack

bind_assoc :
    {X Y Z : Type 0} (read : Result X) (next : X → Result Y) (last : Y → Result Z)
    → ((read >>= next) >>= last) ≡ (read >>= λ x. next x >>= last)
bind_assoc (err stop) next last = refl
bind_assoc (ok x) next last = refl

bind_ext :
    {A B : Type 0} (r : Result A) (f g : A → Result B)
    → ((a : A) → f a ≡ g a)
    → (r >>= f) ≡ (r >>= g)
bind_ext (ok a) f g h = h a
bind_ext (err e) f g h = refl

bind_ok : {X : Type 0} (read : Result X) → (read >>= λ x. ok x) ≡ read
bind_ok (err stop) = refl
bind_ok (ok x) = refl

module _ {S : Type 0} (k : Walker S) where
  visit_stack-push_entry :
      (at : FilePath) (name : Text) (e : Entry) (stack : Stack) (s : S)
      → visit_stack k (push_entry k at name e stack) s
        ≡ (visit_folder k at name e s >>= visit_stack k stack)
  unfolding visit_stack push_entry visit_directory
  visit_stack-push_entry at name (folder d) stack s = refl
  visit_stack-push_entry at name (regular r) stack s = refl
  visit_stack-push_entry at name symlink stack s = refl
  visit_stack-push_entry at name special stack s = refl
  visit_stack-push_entry at name entry_gone stack s = refl
  visit_stack-push_entry at name entry_error stack s = refl

  visit_stack-push_all :
      (at : FilePath) (es : Entries) (stack : Stack) (s : S)
      → visit_stack k (push_all k at es stack) s ≡ (visit_folders k at es s >>= visit_stack k stack)
  unfolding push_all visit_directory
  visit_stack-push_all at end stack s = refl
  visit_stack-push_all at listing_error stack s = refl
  visit_stack-push_all at (item name e rest) stack s =
      visit_stack-push_all at rest (push_entry k at name e stack) s
      ∙ bind_ext (visit_folders k at rest s) _ _ (visit_stack-push_entry at name e stack)
      ∙ sym
          (bind_assoc (visit_folders k at rest s) (visit_folder k at name e) (visit_stack k stack))

  scan-visit_files :
      (at : FilePath) (es : Entries) (stack : Stack) (s : S)
      → scan k at es stack s ≡ (visit_files k at es s >>= λ t. ok (push_all k at es stack, t))
  unfolding scan visit_files push_all
  scan-visit_files at end stack s = refl
  scan-visit_files at listing_error stack s = refl
  scan-visit_files at (item name e rest) stack s =
      bind_ext (visit_entry k at name e s) _ _
        (scan-visit_files at rest (push_entry k at name e stack))
      ∙ sym (bind_assoc (visit_entry k at name e s) (visit_files k at rest) _)

  pending-push_entry :
      (at : FilePath) (name : Text) (e : Entry) (stack : Stack)
      → pending k (push_entry k at name e stack) ≡ directories_at e + pending k stack
  unfolding pending push_entry directories
  pending-push_entry at name (folder d) stack = refl
  pending-push_entry at name (regular r) stack = omega arith
  pending-push_entry at name symlink stack = omega arith
  pending-push_entry at name special stack = omega arith
  pending-push_entry at name entry_gone stack = omega arith
  pending-push_entry at name entry_error stack = omega arith

  pending-push_all :
      (at : FilePath) (es : Entries) (stack : Stack)
      → pending k (push_all k at es stack) ≡ directories_below es + pending k stack
  unfolding push_all directories
  pending-push_all at end stack = omega arith
  pending-push_all at listing_error stack = omega arith
  pending-push_all at (item name e rest) stack = omega (
    arith,
    pending-push_all at rest (push_entry k at name e stack),
    pending-push_entry at name e stack,
  )

  resumed :
      (n : ℕ) (r : Result S) (stack : Stack) (q : S → Result S)
      → ((t : S) → walk k n stack t ≡ some (q t))
      → resume k (walk k n) (r >>= λ t. ok (stack, t)) ≡ some (r >>= q)
  resumed n (ok t) stack q h = h t
  resumed n (err e) stack q h = refl

  -- One directory popped, where the walk is right for all that is left.
  popped :
      (n : ℕ) (at : FilePath) (d : Directory) (stack : Stack) (s : S)
      → ((rest : Stack) (t : S)
          → pending k rest ≤ n
          → walk k n rest t ≡ some (visit_stack k rest t))
      → directories d + pending k stack ≤ suc n
      → resume k (walk k n) (scan_directory k at d stack s)
        ≡ some (visit_directory k at d s >>= visit_stack k stack)
  unfolding scan_directory visit_directory directories
  popped n at (listing es) stack s go h =
      ap (resume k (walk k n)) (scan-visit_files at es stack s)
      ∙ resumed n (visit_files k at es s) (push_all k at es stack) _
          (λ t. go (push_all k at es stack) t (omega (arith, pending-push_all at es stack)))
      ∙ ap some (
          bind_ext (visit_files k at es s) _ _ (visit_stack-push_all at es stack)
          ∙ sym (bind_assoc (visit_files k at es s) (visit_folders k at es) (visit_stack k stack)))
  popped n at directory_gone stack s go h =
      resumed n (pass_gone k s) stack (visit_stack k stack) (λ t. go stack t (omega arith))
  popped n at directory_error stack s go h = refl

  some_directory : (d : Directory) → 1 ≤ directories d
  unfolding directories
  some_directory (listing es) = omega arith
  some_directory directory_gone = omega arith
  some_directory directory_error = omega arith

  walk_done : (n : ℕ) (s : S) → walk k n [] s ≡ some (ok s)
  unfolding walk
  walk_done zero s = refl
  walk_done (suc n) s = refl

  walk-visit_stack :
      (n : ℕ) (stack : Stack) (s : S)
      → pending k stack ≤ n
      → walk k n stack s ≡ some (visit_stack k stack s)
  unfolding walk visit_stack pending
  walk-visit_stack n [] s h = walk_done n s
  walk-visit_stack zero ((at, d) ∷ stack) s h = absurd (omega (arith, some_directory d))
  walk-visit_stack (suc n) ((at, d) ∷ stack) s h = popped n at d stack s (walk-visit_stack n) h

-- The walk ends: with fuel for each directory of the tree it returns, and what it returns is what the
-- recursion over the tree gives, errors included.
pub walk_tree-visit_directory :
    {S : Type 0} (k : Walker S) (d : Directory) (s : S)
    → walk_tree k d s ≡ some (visit_directory k [] d s)
unfolding walk_tree
walk_tree-visit_directory k d s =
    walk-visit_stack k (directories d) (([], d) ∷ []) s (unfold pending in omega arith)
    ∙ ap some (unfold visit_stack in bind_ok (visit_directory k [] d s))
