-- ===== src/Shelf/Restored.antt =====
-- An entry that is deleted to the trash and restored from it (server/src/handlers/files.rs and
-- server/src/handlers/storage.rs).
use nexa_drive.Prelude.{
  ℕ, ◌≡◌, refl, ap, sym, subst, ◌∙◌, true, false, Option, none, some, List, [], ◌∷◌, ◌++◌, ◌==◌,
  ==_iff,
}
use nexa_drive.Prelude.Rows.{find_row, delete_rows}
use nexa_drive.Text.{Text, codes, text_eq}
use nexa_drive.Text.Laws.{text_ne, text_eq_refl}
use nexa_drive.Error.{ok, AppError, bad_request, plain, database, or_error}
use nexa_drive.Error.Exec.{Exec, ◌>>◌}
use nexa_drive.Error.Cases.{cases_lift, cases_or_error}
use nexa_drive.Error.Ensures.{
  Ensures, ensures_bind, ensures_check, ensures_gets, ensures_modify, ensures_lift, ensures_mono,
}
use nexa_drive.Paths.{FilePath, safe_relative_path, relative_text, user_root, trash_root}
use nexa_drive.Upload.Files.{Files, make_folders, parent}
use nexa_drive.Upload.World.{Host, audit, create_dir_all}
use nexa_drive.Shelf.{FileType, Special, TrashItem, Vault, Op, Pass, attempt_op, in_world}
use nexa_drive.Shelf.Subtree.{below, relocate, relocate_to, append_assoc, below_fork}
use nexa_drive.Shelf.Entry.{rename_entry}
use nexa_drive.Shelf.Frame.{
  Any, Holds, make_folders_apart, create_dir_all-files, audit-files, rename_entry-Holds,
  ensure_supported_entry-Holds, entry_size-Holds, in_world-Holds, shifted,
}
use nexa_drive.Shelf.Transfer.{path_of, is_root}
use nexa_drive.Shelf.Trash.{
  trash_of, new_trash_item, record_trash, delete_one_to_trash, is_item, find_item, is_tombstone,
  set_tombstones, set_trash, restore_item, restore_trash,
}

pub parent_of_append :
    (a : FilePath) (w : Text) (ws : FilePath) → parent (a ++ w ∷ ws) ≡ a ++ parent (w ∷ ws)
unfolding parent
parent_of_append [] w ws = refl
parent_of_append (v ∷ []) w ws = refl
parent_of_append (v ∷ u ∷ a) w ws = ap (◌∷◌ v) (parent_of_append (u ∷ a) w ws)

module _ (host : Host) (user : ℕ) (relative : FilePath) where
  trashed : Pass → FilePath
  trashed t = trash_of host user ++ host.uuid_text t.new_id ∷ []

  module _ (t : Pass) (f : Files) (x : FilePath → Option Special) (l : List TrashItem) where
    -- After a deletion: the entry is in the trash, with a row that says whence.
    abbrev Deleted : Vault → Type 0
    Deleted u =
        (k : FileType) × (n : ℕ) × Holds
          (relocate (path_of host user relative) (trashed t)
            (make_folders [] (trash_of host user) f))
          (relocate (path_of host user relative) (trashed t) x)
          (new_trash_item user t relative (trashed t) k n ∷ l) u

    record_trash-Deleted :
        (k : FileType) (g : Files) (y : FilePath → Option Special) (v : Vault)
        → Holds g y l v
        → Ensures Any
            (λ _ u. (n : ℕ) × Holds g y (new_trash_item user t relative (trashed t) k n ∷ l) u)
            (record_trash t user relative (trashed t) k v)
    unfolding record_trash
    record_trash-Deleted k g y v h =
        ensures_bind _ (λ _. Holds g y l) _ _ _ v (entry_size-Holds t _ (trashed t) v g y l h)
          (λ n s a. ensures_check _ _ _ _ _ s tt (λ _. ensures_modify _ _ _ _ s (
            ensures_check _ _ _ _ _ _ tt (λ _. ensures_modify _ _ _ _ _ (
              ensures_mono _ _ _ _ _ (λ _ b. b) (λ _ _ b. (n, b))
                (in_world-Holds _ _ g g y _
                  (a.0, a.1, ap (◌∷◌ (new_trash_item user t relative (trashed t) k n)) a.2)
                  (shifted (audit-files t.moment user "trash" _ _) a.0)))))))

    delete-Deleted :
        (v : Vault)
        → Holds f x l v
        → Ensures Any (λ _. Deleted) (delete_one_to_trash host t user relative v)
    unfolding delete_one_to_trash trashed
    delete-Deleted v h =
        ensures_bind _ (λ _. Holds f x l) _ _ _ v (ensure_supported_entry-Holds t _ v f x l h)
          (λ k s a.
            ensures_bind _ (λ _. Holds (make_folders [] (trash_of host user) f) x l) _ _ _ s
              (in_world-Holds _ s f _ x l a (
                shifted (create_dir_all-files t.moment (trash_of host user) s.world)
                  (ap (make_folders [] (trash_of host user)) a.0)))
              (λ _ s' b.
                ensures_bind _ (λ _. Holds _ _ l) _ _ _ s'
                  (rename_entry-Holds t (path_of host user relative) (trashed t) s' _ x l b)
                  (λ _ s'' c.
                    ensures_mono _ _ _ _ _ (λ _ d. d) (λ _ _ d. (k, d.0, d.1))
                      (record_trash-Deleted k _ _ s'' c))))

  -- The row of the deletion is the one that its id finds.
  find-new :
      (t : Pass) (k : FileType) (n : ℕ) (l : List TrashItem)
      → find_row (is_item t.new_id user) (new_trash_item user t relative (trashed t) k n ∷ l)
        ≡ some (new_trash_item user t relative (trashed t) k n)
  unfolding find_row is_item new_trash_item
  find-new t k n l =
      let same_id : (t.new_id == t.new_id) ≡ true = (==_iff t.new_id t.new_id).1 refl in
      let same_user : (user == user) ≡ true = (==_iff user user).1 refl in
      rw (same_id, same_user) refl

  found_row :
      (o : Option TrashItem) (item i : TrashItem) (e : AppError)
      → o ≡ some item
      → or_error o e ≡ ok i
      → i ≡ item
  found_row none item i e h k = cc
  found_row (some a) item i e h k = cc

  find_item-Holds :
      (t : Pass) (id : ℕ) (item : TrashItem) (g : Files) (y : FilePath → Option Special)
      (l : List TrashItem) (v : Vault)
      → Holds g y l v
      → find_row (is_item id user) l ≡ some item
      → Ensures Any (λ i u. (i ≡ item) × Holds g y l u) (find_item t user (some id) v)
  unfolding find_item
  find_item-Holds t id item g y l v h e =
      cases_or_error (λ r. Ensures Any (λ i u. (i ≡ item) × Holds g y l u) r) (some id)
        (bad_request (plain "Trash id is required")) _ v (λ _. record { holds = tt })
        (λ a same. ensures_check _ _ _ _ _ v tt (λ _.
          ensures_gets _ _ _ _ v
            (ensures_lift _ _ _ v tt (λ i k. (found_row _ item i _ (row a same) k, h)))))
    where
      row : (a : ℕ) → some id ≡ some a → find_row (is_item a user) v.trash_items ≡ some item
      row a same =
          let it : id ≡ a = cc in
          ap (λ x. find_row (is_item x user) v.trash_items) (sym it)
          ∙ ap (find_row (is_item id user)) h.2
          ∙ e

  module _ (t : Pass) (item : TrashItem) (g : Files) (y : FilePath → Option Special)
      (l : List TrashItem) where
    abbrev Returned : Vault → Type 0
    Returned u =
        (u.world.files
          ≡ relocate item.trash_path (path_of host user relative)
              (make_folders [] (parent (path_of host user relative)) g))
        × (u.specials ≡ relocate item.trash_path (path_of host user relative) y)

    restore_item-Returned :
        (v : Vault)
        → Holds g y l v
        → safe_relative_path item.original_path ≡ ok relative
        → Ensures Any (λ _. Returned) (restore_item host t user item v)
    unfolding restore_item
    restore_item-Returned v h e =
        cases_lift (λ r. Ensures Any (λ _. Returned) r) (safe_relative_path item.original_path) _ v
          (λ _ _. record { holds = tt })
          (λ a k. ensures_gets _ _ _ _ v (
            ensures_check _ _ _ _ _ v tt (λ _.
              subst (λ p. Ensures Any (λ _. Returned) (put_back p v))
                (let same : relative ≡ a = cc in same) from_start)))
      where
        put_back : FilePath → Exec Vault (Unit {0})
        put_back p = do
          in_world (create_dir_all t.moment (parent (path_of host user p)))
          rename_entry t item.trash_path (path_of host user p)
          attempt_op t Op.delete_tombstone database
          set_tombstones (delete_rows (is_tombstone user item.original_path))
          attempt_op t Op.delete_trash database
          set_trash (delete_rows (is_item item.id user))
          in_world (audit t.moment user "restore" (some item.original_path))

        from_start : Ensures Any (λ _. Returned) (put_back relative v)
        from_start =
            ensures_bind _
              (λ _. Holds (make_folders [] (parent (path_of host user relative)) g) y l) _ _ _ v
              (in_world-Holds _ v g _ y l h (
                shifted
                  (create_dir_all-files t.moment (parent (path_of host user relative)) v.world)
                  (ap (make_folders [] (parent (path_of host user relative))) h.0)))
              (λ _ s a.
                ensures_bind _ (λ _. Holds _ _ l) _ _ _ s
                  (rename_entry-Holds t item.trash_path (path_of host user relative) s _ y l a)
                  (λ _ s' b. ensures_check _ _ _ _ _ s' tt (λ _. ensures_modify _ _ _ _ s' (
                    ensures_check _ _ _ _ _ _ tt (λ _. ensures_modify _ _ _ _ _ (
                      ensures_mono _ _ _ _ _ (λ _ c. c) (λ _ _ c. (c.0, c.1))
                        (in_world-Holds _ _ _ _ _ _ (b.0, b.1, refl)
                          (shifted (audit-files t.moment user "restore" _ _) b.0))))))))

restore_trash-Returned :
    (host : Host) (user : ℕ) (relative : FilePath) (t : Pass) (item : TrashItem) (g : Files)
    (y : FilePath → Option Special) (l : List TrashItem) (id : ℕ) (v : Vault)
    → Holds g y l v
    → find_row (is_item id user) l ≡ some item
    → safe_relative_path item.original_path ≡ ok relative
    → Ensures Any
        (λ _. Returned host user relative t item g y l)
        (restore_trash host t user (some id) v)
unfolding restore_trash
restore_trash-Returned host user relative t item g y l id v h e back =
    ensures_bind _ (λ i u. (i ≡ item) × Holds g y l u) _ _ _ v
      (find_item-Holds host user relative t id item g y l v h e)
      (λ i s a.
        subst
          (λ j.
            Ensures Any (λ _. Returned host user relative t item g y l)
              (restore_item host t user j s))
          (sym a.0) (restore_item-Returned host user relative t item g y l s a.1 back))

parent_path :
    (host : Host) (user : ℕ) (relative : FilePath)
    → is_root relative ≡ false
    → parent (path_of host user relative)
      ≡ host.storage_root ++ host.uuid_text user ∷ parent relative
unfolding path_of user_root
parent_path host user [] h = cc
parent_path host user (w ∷ ws) h =
    parent_of_append (host.storage_root ++ host.uuid_text user ∷ []) w ws
    ∙ append_assoc host.storage_root (host.uuid_text user ∷ []) (parent (w ∷ ws))

text_eq-false_sym : (a b : Text) → text_eq a b ≡ false → text_eq b a ≡ false
text_eq-false_sym a b h = text_ne b a (λ e. self_differs a b (sym e) h)
  where
    self_differs : (a b : Text) → a ≡ b → text_eq a b ≡ false → ⊥
    self_differs a b e k =
        let yes : text_eq a b ≡ true = subst (λ x. text_eq a x ≡ true) e (text_eq_refl a) in cc

module _ (host : Host) (user : ℕ) (relative : FilePath)
    (own : text_eq (host.uuid_text user) (codes ".trash") ≡ false)
    (named : is_root relative ≡ false) where
  entry-apart :
      (rest : FilePath) → below (path_of host user relative ++ rest) (trash_of host user) ≡ none
  unfolding path_of trash_of user_root trash_root
  entry-apart rest =
      ap (λ p. below p (host.storage_root ++ codes ".trash" ∷ host.uuid_text user ∷ []))
        (ap (λ p. p ++ rest) (append_assoc host.storage_root (host.uuid_text user ∷ []) relative)
          ∙ append_assoc host.storage_root (host.uuid_text user ∷ relative) rest)
      ∙ below_fork host.storage_root (relative ++ rest) (host.uuid_text user ∷ []) _ _ own

  trash-apart :
      (t : Pass) (rest : FilePath)
      → below (trashed host user relative t ++ rest) (parent (path_of host user relative)) ≡ none
  unfolding trash_of user_root trash_root trashed
  trash-apart t rest =
      ap (below (trashed host user relative t ++ rest)) (parent_path host user relative named)
      ∙ ap (λ p. below p (host.storage_root ++ host.uuid_text user ∷ parent relative))
          (ap (λ p. p ++ rest)
              (append_assoc host.storage_root (codes ".trash" ∷ host.uuid_text user ∷ [])
                (host.uuid_text t.new_id ∷ []))
            ∙ append_assoc host.storage_root
                (codes ".trash" ∷ host.uuid_text user ∷ host.uuid_text t.new_id ∷ []) rest)
      ∙ below_fork host.storage_root (host.uuid_text user ∷ host.uuid_text t.new_id ∷ rest)
          (parent relative) _ _ (text_eq-false_sym (host.uuid_text user) (codes ".trash") own)

-- The entry as it was, with all that is below it.
abbrev pub IsBack : Host → ℕ → FilePath → Vault → Vault → Type 0
IsBack host user relative before after =
    (rest : FilePath)
    → (after.world.files (path_of host user relative ++ rest)
        ≡ before.world.files (path_of host user relative ++ rest))
      × (after.specials (path_of host user relative ++ rest)
          ≡ before.specials (path_of host user relative ++ rest))

-- A deletion that succeeds and then a restoration that succeeds bring the entry back with all that is below
-- it, file by file; for a path that is read back from the text that the trash keeps of it and is not the root, and
-- an account whose folder is not called ".trash".
pub restore_trash-delete_one_to_trash :
    (host : Host) (deleting restoring : Pass) (user : ℕ) (relative : FilePath) (v : Vault)
    → text_eq (host.uuid_text user) (codes ".trash") ≡ false
    → is_root relative ≡ false
    → safe_relative_path (relative_text relative) ≡ ok relative
    → Ensures
        (λ _. Unit {0})
        (λ _ after. IsBack host user relative v after)
        ((delete_one_to_trash host deleting user relative
            >> restore_trash host restoring user (some deleting.new_id))
          v)
unfolding new_trash_item
restore_trash-delete_one_to_trash host deleting restoring user relative v own named back =
    ensures_bind _ (λ _. Deleted host user relative deleting v.world.files v.specials v.trash_items)
      _ _ _ v
      (delete-Deleted host user relative deleting v.world.files v.specials v.trash_items v
        (refl, refl, refl))
      (λ _ v1 deleted.
        ensures_mono _ _ _ _ _ (λ _ a. a) (λ _ v2 r rest. put_back v2 rest r)
          (restore_trash-Returned host user relative restoring
            (new_trash_item user deleting relative target deleted.0 deleted.1) _ _ _ deleting.new_id
            v1 deleted.2 (find-new host user relative deleting deleted.0 deleted.1 v.trash_items)
            back))
  where
    source : FilePath
    source = path_of host user relative

    target : FilePath
    target = trashed host user relative deleting

    put_back :
        (v2 : Vault) (rest : FilePath)
        → (v2.world.files
            ≡ relocate target source (
                make_folders []
                  (parent source)
                  (relocate source target (make_folders [] (trash_of host user) v.world.files))))
          × (v2.specials ≡ relocate target source (relocate source target v.specials))
        → (v2.world.files (source ++ rest) ≡ v.world.files (source ++ rest))
          × (v2.specials (source ++ rest) ≡ v.specials (source ++ rest))
    put_back v2 rest r = (
      ap (λ g. g (source ++ rest)) r.0
          ∙ relocate_to target source _ rest
          ∙ make_folders_apart [] (parent source) (target ++ rest) _
              (trash-apart host user relative own named deleting rest)
          ∙ relocate_to source target _ rest
          ∙ make_folders_apart [] (trash_of host user) (source ++ rest) v.world.files
              (entry-apart host user relative own named rest),
      ap (λ g. g (source ++ rest)) r.1
          ∙ relocate_to target source _ rest
          ∙ relocate_to source target v.specials rest,
    )
