-- ===== src/Shelf/Confined.antt =====
-- The file handlers stay in the folders of their account (server/src/handlers/files.rs).
use nexa_drive.Prelude.{
  ℕ, refl, Bool, true, false, ◌||◌, Option, none, List, [], ◌∷◌, ◌++◌, if◌then◌else◌, length,
}
use nexa_drive.Text.{Text, codes, text_eq}
use nexa_drive.Error.{bad_request, plain, or_error}
use nexa_drive.Error.Exec.{Exec, pure, raise, lift, ◌>>=◌, ◌>>◌}
use nexa_drive.Error.Ensures.{
  Ensures, ensures_bind, ensures_check, ensures_gets, ensures_if, ensures_lift, ensures_modify,
  ensures_pure, ensures_raise,
}
use nexa_drive.Paths.{FilePath, user_root, relative_text}
use nexa_drive.Upload.Files.{Node}
use nexa_drive.Upload.World.{Host}
use nexa_drive.Shelf.{FileType, Special, Vault, Pass}
use nexa_drive.Shelf.Apart.{
  Apart, Apart-append, Kept, Keeping, audit-Kept, access-Kept, folders-Kept, quota-Kept,
  supported-Kept, rename-Kept, copy-Kept, size-Kept, require_folder-Kept, ensure_not_within-Kept,
}
use nexa_drive.Shelf.Transfer.{path_of, carry_over, transfer_entry}
use nexa_drive.Shelf.Trash.{
  trash_of, record_trash, delete_one_to_trash, batch_item, batch_each, batch_files,
}

-- A path outside of the two folders of an account, and not above them.
pub record Outside (host : Host) (user : ℕ) (p : FilePath) : Type 0 where
  pub from_home : Apart (user_root host.storage_root (host.uuid_text user)) p
  pub from_trash : Apart (trash_of host user) p

module _ (host : Host) (user : ℕ) (p : FilePath) (far : Outside host user p) (n : Option Node)
    (s : Option Special) where
  path-Apart : (q : FilePath) → Apart (path_of host user q) p
  unfolding path_of
  path-Apart q = Apart-append _ p q far.from_home

  carry_over-Kept :
      (t : Pass) (copy : Bool) (src dst : FilePath) (v : Vault)
      → Kept p n s v
      → Keeping p n s (carry_over t user copy (path_of host user src) (path_of host user dst) v)
  unfolding carry_over
  carry_over-Kept t false src dst v h =
      rename-Kept p n s t _ _ v (path-Apart src) (path-Apart dst) h
  carry_over-Kept t true src dst v h = ensures_gets _ _ _ _ v (
      ensures_bind _ (λ _. Kept p n s) _ _ _ v (size-Kept p n s t _ _ v h)
        (λ incoming u k.
          ensures_bind _ (λ _. Kept p n s) _ _ _ u
            (quota-Kept p n s t.moment user incoming none u k)
            (λ _ u' k'. copy-Kept p n s t _ _ u' (path-Apart dst) k')))

  transfer_entry-Kept :
      (t : Pass) (source destination : Text) (copy : Bool) (v : Vault)
      → Kept p n s v
      → Keeping p n s (transfer_entry host t user source destination copy v)
  unfolding transfer_entry
  transfer_entry-Kept t source destination copy v h =
      ensures_bind _ (λ _. Kept p n s) _ _ _ v (ensures_lift _ _ _ v h (λ _ _. h))
        (λ src v1 h1.
          ensures_bind _ (λ _. Kept p n s) _ _ _ v1 (access-Kept p n s t.moment user v1 h1)
            (λ _ v2 h2.
              ensures_bind _ (λ _. Kept p n s) _ _ _ v2 (ensures_lift _ _ _ v2 h2 (λ _ _. h2))
                (λ dst v3 h3. ensures_check _ _ _ _ _ v3 h3 (λ _.
                  ensures_bind _ (λ _. Kept p n s) _ _ _ v3 (supported-Kept p n s t _ v3 h3)
                    (λ _ v4 h4.
                      ensures_bind _ (λ _. Kept p n s) _ _ _ v4
                        (require_folder-Kept p n s t _ v4 h4)
                        (λ _ v5 h5.
                          ensures_bind _ (λ _. Kept p n s) _ _ _ v5
                            (ensures_lift _ _ _ v5 h5 (λ _ _. h5))
                            (λ name v6 h6. ensures_check _ _ _ _ _ v6 h6 (λ _.
                              ensures_bind _ (λ _. Kept p n s) _ _ _ v6
                                (ensure_not_within-Kept p n s t _ _ v6 h6)
                                (λ _ v7 h7. ensures_gets _ _ _ _ v7 (
                                  ensures_check _ _ _ _ _ v7 h7 (λ _.
                                    ensures_bind _ (λ _. Kept p n s) _ _ _ v7
                                      (carry_over-Kept t copy src (dst ++ name ∷ []) v7 h7)
                                      (λ _ v8 h8.
                                        ensures_bind _ (λ _. Kept p n s) _ _ _ v8
                                          (audit-Kept p n s t.moment user _ _ v8 h8)
                                          (λ _ v9 h9. ensures_pure _ _ _ v9 h9)))))))))))))

  record_trash-Kept :
      (t : Pass) (relative trash_path : FilePath) (k : FileType) (v : Vault)
      → Kept p n s v
      → Keeping p n s (record_trash t user relative trash_path k v)
  unfolding record_trash
  record_trash-Kept t relative trash_path k v h =
      ensures_bind _ (λ _. Kept p n s) _ _ _ v (size-Kept p n s t _ _ v h)
        (λ _ u a. ensures_check _ _ _ _ _ u a (λ _. ensures_modify _ _ _ _ u (
          ensures_check _ _ _ _ _ _ a
            (λ _. ensures_modify _ _ _ _ _ (audit-Kept p n s t.moment user "trash" _ _ a)))))

  pub delete_one_to_trash-Kept :
      (t : Pass) (relative : FilePath) (v : Vault)
      → Kept p n s v
      → Keeping p n s (delete_one_to_trash host t user relative v)
  unfolding delete_one_to_trash
  delete_one_to_trash-Kept t relative v h =
      ensures_bind _ (λ _. Kept p n s) _ _ _ v (supported-Kept p n s t _ v h)
        (λ k v1 h1.
          ensures_bind _ (λ _. Kept p n s) _ _ _ v1
            (folders-Kept p n s t.moment _ v1 far.from_trash.not_above h1)
            (λ _ v2 h2.
              ensures_bind _ (λ _. Kept p n s) _ _ _ v2
                (rename-Kept p n s t _ _ v2 (path-Apart relative)
                  (Apart-append _ p _ far.from_trash) h2)
                (λ _ v3 h3. record_trash-Kept t relative _ k v3 h3)))

  batch_item-Kept :
      (t : Pass) (action : Text) (destination : Option Text) (path : Text) (rel : FilePath)
      (v : Vault)
      → Kept p n s v
      → Keeping p n s (batch_item host t user action destination path rel v)
  batch_item-Kept t action destination path rel v h =
      ensures_if _ _ (text_eq action (codes "delete"))
        (delete_one_to_trash host t user rel >> pure (relative_text rel)) other v
        (λ _.
          ensures_bind _ (λ _. Kept p n s) _ _ _ v (delete_one_to_trash-Kept t rel v h)
            (λ _ u k. ensures_pure _ _ _ u k))
        (λ _.
          ensures_if _ _ (text_eq action (codes "move") || text_eq action (codes "copy")) carry
            (raise (bad_request (plain "Unsupported batch action"))) v
            (λ _.
              ensures_bind _ (λ _. Kept p n s) _ _ _ v (ensures_lift _ _ _ v h (λ _ _. h))
                (λ d u k. transfer_entry-Kept t path d _ u k))
            (λ _. ensures_raise _ _ _ v h))
    where
      carry : Exec Vault Text
      carry = lift (or_error destination (bad_request (plain "Destination is required"))) >>= λ d.
          transfer_entry host t user path d (text_eq action (codes "copy"))

      other : Exec Vault Text
      other =
          if text_eq action (codes "move") || text_eq action (codes "copy")
          then carry
          else raise (bad_request (plain "Unsupported batch action"))

  batch_each-Kept :
      (t : ℕ → Pass) (action : Text) (destination : Option Text) (paths : List Text) (v : Vault)
      → Kept p n s v
      → Keeping p n s (batch_each host t user action destination paths v)
  unfolding batch_each
  batch_each-Kept t action destination [] v h = ensures_pure _ _ _ v h
  batch_each-Kept t action destination (path ∷ paths) v h =
      ensures_bind _ (λ _. Kept p n s) _ _ _ v (ensures_lift _ _ _ v h (λ _ _. h))
        (λ rel v1 h1. ensures_check _ _ _ _ _ v1 h1 (λ _.
          ensures_bind _ (λ _. Kept p n s) _ _ _ v1
            (batch_item-Kept (t (length paths)) action destination path rel v1 h1)
            (λ out v2 h2.
              ensures_bind _ (λ _. Kept p n s) _ _ _ v2
                (batch_each-Kept t action destination paths v2 h2)
                (λ rest v3 h3. ensures_pure _ _ _ v3 h3))))

-- A batch of deletions, moves or copies of an account leaves what stands outside of the account's folder and its
-- trash, and not above them, as it is, wherever it stops.
pub batch_files-Outside :
    (host : Host) (t : ℕ → Pass) (user : ℕ) (action : Text) (destination : Option Text)
    (paths : List Text) (p : FilePath) (v : Vault)
    → Outside host user p
    → Ensures
        (Kept p (v.world.files p) (v.specials p))
        (λ _. Kept p (v.world.files p) (v.specials p))
        (batch_files host t user action destination paths v)
unfolding batch_files
batch_files-Outside host t user action destination paths p v far =
    ensures_check _ _ _ _ _ v (refl, refl)
      (λ _.
        ensures_check _ _ _ _ _ v (refl, refl)
          (λ _. batch_each-Kept host user p far _ _ t action destination paths v (refl, refl)))
