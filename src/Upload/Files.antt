-- ===== src/Upload/Files.antt =====
-- The files below the storage root, as the upload handlers use them: `tokio::fs` on whole paths.
use nexa_drive.Prelude.{
  ℕ, ◌+◌, ◌≡◌, ◌≢◌, refl, Bool, true, false, ◌&&◌, ◌||◌, Option, none, some, List, [], ◌∷◌, ◌++◌,
  arith, if◌then◌else◌, length, take, drop, Bool-cases, inl, inr,
}
use nexa_drive.Text.{text_eq}
use nexa_drive.Text.Laws.{text_eq_refl, text_eq→eq}
use nexa_drive.Paths.{FilePath}

pub data Node : Type 0 where
  file : List ℕ → Node
  folder : Node

abbrev pub Files : Type 0
Files = FilePath → Option Node

unfoldable pub path_eq : FilePath → FilePath → Bool
path_eq [] [] = true
path_eq (v ∷ p) (w ∷ q) = text_eq v w && path_eq p q
path_eq _ _ = false

pub path_eq_refl : (p : FilePath) → path_eq p p ≡ true
unfolding path_eq
path_eq_refl [] = refl
path_eq_refl (w ∷ p) = rw (text_eq_refl w) (path_eq_refl p)

pub path_eq→eq : (p q : FilePath) → path_eq p q ≡ true → p ≡ q
unfolding path_eq
path_eq→eq [] [] h = refl
path_eq→eq [] (w ∷ q) h = cc
path_eq→eq (v ∷ p) [] h = cc
path_eq→eq (v ∷ p) (w ∷ q) h = ground (arith, text_eq→eq v w, path_eq→eq p q)

pub path_ne : (p q : FilePath) → p ≢ q → path_eq p q ≡ false
path_ne p q h = elim (Bool-cases (path_eq p q)) [
  | inl e ↦ absurd (h (path_eq→eq p q e))
  | inr e ↦ e
]

-- The entry at one path becomes `n`.
unfoldable pub put : FilePath → Option Node → Files → Files
put p n files q = if path_eq p q then n else files q

pub put_self : (p : FilePath) (n : Option Node) (files : Files) → put p n files p ≡ n
unfolding put
put_self p n files = rw (path_eq_refl p)

pub put_ne : (p q : FilePath) (n : Option Node) (files : Files) → p ≢ q → put p n files q ≡ files q
unfolding put
put_ne p q n files h = rw (path_ne p q h)

-- `file.seek(offset)` and writing `bytes` there, over what the file held.
unfoldable pub write_at : ℕ → List ℕ → List ℕ → List ℕ
write_at offset bytes old = take offset old ++ (bytes ++ drop (offset + length bytes) old)

unfoldable pub parent : FilePath → FilePath
parent [] = []
parent (w ∷ []) = []
parent (w ∷ v ∷ ws) = w ∷ parent (v ∷ ws)

unfoldable pub mkdir_node : Option Node → Option Node
mkdir_node none = some folder
mkdir_node (some n) = some n

-- Whether an entry stops `create_dir_all`: a file stands where a folder is needed.
unfoldable pub is_file : Option Node → Bool
is_file none = false
is_file (some (file b)) = true
is_file (some folder) = false

unfoldable pub exists : Option Node → Bool
exists none = false
exists (some n) = true

-- `create_dir_all`: the folders from the top down, as far as no file stands in the way.
unfoldable pub make_folders : FilePath → FilePath → Files → Files
make_folders done [] files = files
make_folders done (w ∷ ws) files =
    let here = done ++ w ∷ [] in
    let deeper = make_folders here ws (put here (mkdir_node (files here)) files) in
    if is_file (files here) then files else deeper

-- No folder is made over an existing file.
pub make_folders-file :
    (done ws q : FilePath) (files : Files) (b : List ℕ)
    → files q ≡ some (file b)
    → make_folders done ws files q ≡ some (file b)
unfolding make_folders
make_folders-file done [] q files b h = h
make_folders-file done (w ∷ ws) q files b h = elim (Bool-cases (is_file (files (done ++ w ∷ [])))) [
  | inl e ↦ rw e h
  | inr e ↦ rw e (
      make_folders-file (done ++ w ∷ []) ws q
        (put (done ++ w ∷ []) (mkdir_node (files (done ++ w ∷ []))) files) b
        (kept (path_eq (done ++ w ∷ []) q) refl))
]
  where
    kept :
        (t : Bool)
        → path_eq (done ++ w ∷ []) q ≡ t
        → put (done ++ w ∷ []) (mkdir_node (files (done ++ w ∷ []))) files q ≡ some (file b)
    kept true e =
        let same : (done ++ w ∷ []) ≡ q = path_eq→eq _ _ e in
        unfold put mkdir_node in rw (e, same, h) refl
    kept false e = unfold put in rw e h

-- Making folders makes no file.
pub file-make_folders :
    (done ws q : FilePath) (files : Files) (b : List ℕ)
    → make_folders done ws files q ≡ some (file b)
    → files q ≡ some (file b)
unfolding make_folders
file-make_folders done [] q files b h = h
file-make_folders done (w ∷ ws) q files b h = elim (Bool-cases (is_file (files (done ++ w ∷ [])))) [
  | inl e ↦ rw e at h
  | inr e ↦ unmade (path_eq (done ++ w ∷ []) q) refl (
      file-make_folders (done ++ w ∷ []) ws q
        (put (done ++ w ∷ []) (mkdir_node (files (done ++ w ∷ []))) files) b (rw e at h))
]
  where
    was_file : (n : Option Node) → mkdir_node n ≡ some (file b) → n ≡ some (file b)
    was_file none x = unfold mkdir_node in cc
    was_file (some n) x = unfold mkdir_node in x

    unmade :
        (t : Bool)
        → path_eq (done ++ w ∷ []) q ≡ t
        → put (done ++ w ∷ []) (mkdir_node (files (done ++ w ∷ []))) files q ≡ some (file b)
        → files q ≡ some (file b)
    unmade true e x =
        let same : (done ++ w ∷ []) ≡ q = path_eq→eq _ _ e in
        let y : mkdir_node (files (done ++ w ∷ [])) ≡ some (file b) = unfold put in rw e at x in
        rw (← same) (was_file (files (done ++ w ∷ [])) y)
    unmade false e x = unfold put in rw e at x

-- Whether `create_dir_all` fails: a file stands on the way.
unfoldable pub is_blocked : FilePath → FilePath → Files → Bool
is_blocked done [] files = false
is_blocked done (w ∷ ws) files =
    is_file (files (done ++ w ∷ [])) || is_blocked (done ++ w ∷ []) ws files
