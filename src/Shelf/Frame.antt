-- ===== src/Shelf/Frame.antt =====
-- What the calls of the file handlers do to the entries below the storage root (server/src/handlers/files.rs).
use nexa_drive.Prelude.{
  ℕ, ◌≡◌, ◌≢◌, refl, ap, sym, ◌∙◌, Bool, true, false, String, Option, none, some, List, [], ◌∷◌,
  ◌++◌, Bool-cases, inl, inr,
}
use nexa_drive.Text.{Text}
use nexa_drive.Error.{Result, ok, err}
use nexa_drive.Error.Exec.{Exec, gets}
use nexa_drive.Error.Ensures.{
  Ensures, Post, ensures_bind, ensures_check, ensures_check_end, ensures_gets, ensures_modify,
  ensures_modify_end, ensures_lift, ensures_mono, ensures_pure,
}
use nexa_drive.Paths.{FilePath}
use nexa_drive.Upload.Files.{Files, make_folders, mkdir_node, put, put_ne, is_file}
use nexa_drive.Upload.World.{World, Moment, audit, create_dir_all}
use nexa_drive.Shelf.{Special, TrashItem, Vault, Pass, in_world, back_in}
use nexa_drive.Shelf.Subtree.{below, relocate, below-append, append_assoc}
use nexa_drive.Shelf.Entry.{ensure_supported_entry, rename_entry, entry_size, file_len}

-- Making folders touches only the path and what is above it.
pub make_folders_apart :
    (done ws q : FilePath) (files : Files)
    → below q (done ++ ws) ≡ none
    → make_folders done ws files q ≡ files q
unfolding make_folders
make_folders_apart done [] q files h = refl
make_folders_apart done (w ∷ ws) q files h = elim (Bool-cases (is_file (files (done ++ w ∷ [])))) [
  | inl e ↦ rw e refl
  | inr e ↦ rw e (
      make_folders_apart (done ++ w ∷ []) ws q
        (put (done ++ w ∷ []) (mkdir_node (files (done ++ w ∷ []))) files)
        (ap (below q) (append_assoc done (w ∷ []) ws) ∙ h)
      ∙ put_ne (done ++ w ∷ []) q (mkdir_node (files (done ++ w ∷ []))) files (apart w ws h))
]
  where
    apart : (w : Text) (ws : FilePath) → below q (done ++ w ∷ ws) ≡ none → (done ++ w ∷ []) ≢ q
    apart w ws k e =
        let there : below q (q ++ ws) ≡ some ws = below-append q ws in
        let same : (q ++ ws) ≡ (done ++ w ∷ ws) =
          ap (λ p. p ++ ws) (sym e) ∙ append_assoc done (w ∷ []) ws in
        let no : below q (q ++ ws) ≡ none = ap (below q) same ∙ k in cc

abbrev pub Any : Vault → Type 0
Any v = Unit {0}

module _ {A : Type 0} where
  -- A run in the uploads' world, seen from the vault.
  pub in_world-files :
      (m : Exec World A) (v : Vault) (f : Files)
      → Ensures (λ _. Unit {0}) (λ _ w. w.files ≡ f) (m v.world)
      → Ensures Any
          (λ _ u. (u.world.files ≡ f) × (u.specials ≡ v.specials) × (u.trash_items ≡ v.trash_items))
          (in_world m v)
  unfolding in_world
  in_world-files m v f h = record { holds = seen (m v.world) h.holds }
    where
      seen :
          (r : Result A × World)
          → Post (λ _. Unit {0}) (λ _ w. w.files ≡ f) r
          → Post Any
              (λ _ u.
                (u.world.files ≡ f) × (u.specials ≡ v.specials) × (u.trash_items ≡ v.trash_items))
              (back_in v r)
      seen (ok a, w) k = (k, refl, refl)
      seen (err e, w) k = tt

pub create_dir_all-files :
    (m : Moment) (p : FilePath) (w : World)
    → Ensures (λ _. Unit {0}) (λ _ s. s.files ≡ make_folders [] p w.files) (create_dir_all m p w)
unfolding create_dir_all
create_dir_all-files m p w = ensures_check _ _ _ _ _ w tt (λ _.
    ensures_gets _ _ _ _ w (ensures_modify _ _ _ _ w (ensures_check_end _ _ _ _ _ tt (λ _. refl))))

pub audit-files :
    (m : Moment) (user : ℕ) (action : String) (path : Option Text) (w : World)
    → Ensures (λ _. Unit {0}) (λ _ s. s.files ≡ w.files) (audit m user action path w)
unfolding audit
audit-files m user action path w =
    ensures_check _ _ _ _ _ w tt (λ _. ensures_modify_end _ _ _ w refl)

-- The entries and the trash of a vault.
abbrev pub Holds : Files → (FilePath → Option Special) → List TrashItem → Vault → Type 0
Holds f x l v = (v.world.files ≡ f) × (v.specials ≡ x) × (v.trash_items ≡ l)

pub rename_entry-Holds :
    (t : Pass) (src dst : FilePath) (v : Vault) (f : Files) (x : FilePath → Option Special)
    (l : List TrashItem)
    → Holds f x l v
    → Ensures Any
        (λ _. Holds (relocate src dst f) (relocate src dst x) l)
        (rename_entry t src dst v)
unfolding rename_entry
rename_entry-Holds t src dst v f x l h = ensures_gets _ _ _ _ v (
    ensures_check _ _ _ _ _ v tt
      (λ _. ensures_modify_end _ _ _ v (ap (relocate src dst) h.0, ap (relocate src dst) h.1, h.2)))

pub ensure_supported_entry-Holds :
    (t : Pass) (p : FilePath) (v : Vault) (f : Files) (x : FilePath → Option Special)
    (l : List TrashItem)
    → Holds f x l v
    → Ensures Any (λ _. Holds f x l) (ensure_supported_entry t p v)
unfolding ensure_supported_entry
ensure_supported_entry-Holds t p v f x l h = ensures_gets _ _ _ _ v (
    ensures_bind _ (λ _. Holds f x l) _ _ _ v (ensures_lift _ _ _ v tt (λ _ _. h))
      (λ k s g.
        ensures_check _ _ _ _ _ s tt
          (λ _. ensures_check _ _ _ _ _ s tt (λ _. ensures_pure _ _ _ s g))))

pub entry_size-Holds :
    (t : Pass) (b : Bool) (p : FilePath) (v : Vault) (f : Files) (x : FilePath → Option Special)
    (l : List TrashItem)
    → Holds f x l v
    → Ensures Any (λ _. Holds f x l) (entry_size t b p v)
unfolding entry_size
entry_size-Holds t true p v f x l h = ensures_lift _ _ _ v tt (λ _ _. h)
entry_size-Holds t false p v f x l h = ensures_check _ _ _ _ _ v tt (λ _. got)
  where
    got : Ensures Any (λ _. Holds f x l) (gets (λ u. file_len (u.world.files p)) v)
    got = unfold gets in record { holds = h }

-- A run in the world that leaves the files as they are.
pub in_world-Holds :
    {A : Type 0} (m : Exec World A) (v : Vault) (f g : Files) (x : FilePath → Option Special)
    (l : List TrashItem)
    → Holds f x l v
    → Ensures (λ _. Unit {0}) (λ _ w. w.files ≡ g) (m v.world)
    → Ensures Any (λ _. Holds g x l) (in_world m v)
in_world-Holds m v f g x l h k =
    ensures_mono _ _ _ _ (in_world m v) (λ _ a. a) (λ _ _ e. (e.0, e.1 ∙ h.1, e.2 ∙ h.2))
      (in_world-files m v g k)

-- The files that a run leaves, by another name.
pub shifted :
    {A : Type 0} {r : Result A × World} {f g : Files}
    → Ensures (λ _. Unit {0}) (λ _ w. w.files ≡ f) r
    → f ≡ g
    → Ensures (λ _. Unit {0}) (λ _ w. w.files ≡ g) r
shifted {A} {r} a e = ensures_mono _ _ _ _ r (λ _ b. b) (λ _ _ b. b ∙ e) a
