-- ===== src/Sharing/Untouched.antt =====
-- An action inside a share (server/src/handlers/sharing.rs) and a path outside of it.
use nexa_drive.Prelude.{
  ℕ, ◌≡◌, ap, sym, subst, ◌∙◌, false, not, Option, [], ◌∷◌, ◌++◌, if◌then◌else◌,
}
use nexa_drive.Text.{Text, codes, text_eq}
use nexa_drive.Error.{bad_request, plain, not_found, or_error}
use nexa_drive.Error.Exec.{Exec, pure, raise, lift, check, ◌>>=◌}
use nexa_drive.Error.Ensures.{
  ensures_bind, ensures_check, ensures_check_end, ensures_gets, ensures_if, ensures_lift,
  ensures_modify, ensures_pure, ensures_raise,
}
use nexa_drive.Paths.{FilePath, user_root}
use nexa_drive.Upload.Files.{Node, parent}
use nexa_drive.Upload.World.{Host}
use nexa_drive.Shelf.{Special, Vault, Pass, leads_to, is_some_dir}
use nexa_drive.Shelf.Subtree.{append_assoc, is_below}
use nexa_drive.Shelf.Restored.{parent_of_append}
use nexa_drive.Shelf.Apart.{
  Apart, Apart-append, Kept, Keeping, audit-Kept, folders-Kept, supported-Kept, rename-Kept,
  size-Kept,
}
use nexa_drive.Shelf.Transfer.{path_of, is_root}
use nexa_drive.Shelf.Trash.{trash_of}
use nexa_drive.Sharing.{Resolved}
use nexa_drive.Sharing.Action.{
  SharedActionRequest, Site, ensure_inside, shared_delete, shared_rename, ensure_not_inside_target,
  shared_move, act, act_inside,
}

path_of-append :
    (host : Host) (user : ℕ) (b r : FilePath)
    → path_of host user (b ++ r) ≡ path_of host user b ++ r
unfolding path_of
path_of-append host user b r =
    sym (append_assoc (user_root host.storage_root (host.uuid_text user)) b r)

parent_below : (a r : FilePath) → is_root r ≡ false → parent (a ++ r) ≡ a ++ parent r
parent_below a [] h = cc
parent_below a (w ∷ ws) h = parent_of_append a w ws

module _ (host : Host) (p : FilePath) (n : Option Node) (s : Option Special) (owner : ℕ)
    (base : FilePath) (far : Apart (path_of host owner base) p)
    (far_trash : Apart (trash_of host owner) p) where
  below-Apart : (r : FilePath) → Apart (path_of host owner (base ++ r)) p
  below-Apart r =
      subst (λ q. Apart q p) (sym (path_of-append host owner base r))
        (Apart-append (path_of host owner base) p r far)

  beside-Apart :
      (r x : FilePath) → is_root r ≡ false → Apart (parent (path_of host owner (base ++ r)) ++ x) p
  beside-Apart r x h =
      subst (λ q. Apart (q ++ x) p)
        (sym (
          ap parent (path_of-append host owner base r)
          ∙ parent_below (path_of host owner base) r h))
        (subst (λ q. Apart q p) (sym (append_assoc (path_of host owner base) (parent r) x))
          (Apart-append (path_of host owner base) p (parent r ++ x) far))

  ensure_inside-Kept :
      (t : Pass) (top q : FilePath) (v : Vault)
      → Kept p n s v
      → Keeping p n s (ensure_inside t top q v)
  unfolding ensure_inside
  ensure_inside-Kept t top q v h =
      ensures_bind _ (λ _. Kept p n s) _ _ _ v (ensures_lift _ _ _ v h (λ _ _. h))
        (λ _ u k. ensures_check _ _ _ _ _ u k (λ _. ensures_pure _ _ _ u k))

  not_inside-Kept :
      (t : Pass) (target dest : FilePath) (v : Vault)
      → Kept p n s v
      → Keeping p n s (ensure_not_inside_target t target dest v)
  unfolding ensure_not_inside_target
  not_inside-Kept t target dest v h = ensures_gets _ _ _ _ v (
      ensures_if _ _ (is_some_dir (leads_to t target v)) apart (pure tt) v
        (λ _.
          ensures_bind _ (λ _. Kept p n s) _ _ _ v (ensures_lift _ _ _ v h (λ _ _. h))
            (λ _ u k. ensures_check_end _ _ _ _ u k (λ _. k)))
        (λ _. ensures_pure _ _ _ v h))
    where
      apart : Exec Vault (Unit {0})
      apart = do
        inner ← lift (or_error (t.canonical target) not_found)
        check (not (is_below inner dest)) (bad_request (plain "Cannot move a folder into itself"))

  module _ (t : Pass) (actor : ℕ) (canonical rel : FilePath) (named : is_root rel ≡ false) where
    site : Site
    site = record {
      actor = actor;
      owner_id = owner;
      base = base;
      base_canonical = canonical;
      rel = rel;
    }

    shared_delete-Kept :
        (path : Text) (v : Vault) → Kept p n s v → Keeping p n s (shared_delete host t site path v)
    unfolding shared_delete site
    shared_delete-Kept path v h =
        ensures_bind _ (λ _. Kept p n s) _ _ _ v (supported-Kept p n s t _ v h)
          (λ _ v1 h1.
            ensures_bind _ (λ _. Kept p n s) _ _ _ v1
              (folders-Kept p n s t.moment _ v1 far_trash.not_above h1)
              (λ _ v2 h2.
                ensures_bind _ (λ _. Kept p n s) _ _ _ v2 (supported-Kept p n s t _ v2 h2)
                  (λ k v3 h3.
                    ensures_bind _ (λ _. Kept p n s) _ _ _ v3
                      (rename-Kept p n s t _ _ v3 (below-Apart rel) (Apart-append _ p _ far_trash)
                        h3)
                      (λ _ v4 h4.
                        ensures_bind _ (λ _. Kept p n s) _ _ _ v4 (size-Kept p n s t _ _ v4 h4)
                          (λ size v5 h5. ensures_check _ _ _ _ _ v5 h5 (λ _.
                            ensures_modify _ _ _ _ v5 (
                              ensures_bind _ (λ _. Kept p n s) _ _ _ _
                                (audit-Kept p n s t.moment actor _ _ _ h5)
                                (λ _ v6 h6. ensures_pure _ _ _ v6 h6))))))))

    shared_rename-Kept :
        (path : Text) (given : Option Text) (v : Vault)
        → Kept p n s v
        → Keeping p n s (shared_rename host t site path given v)
    unfolding shared_rename site
    shared_rename-Kept path given v h =
        ensures_bind _ (λ _. Kept p n s) _ _ _ v (ensures_lift _ _ _ v h (λ _ _. h))
          (λ raw v1 h1.
            ensures_bind _ (λ _. Kept p n s) _ _ _ v1 (ensures_lift _ _ _ v1 h1 (λ _ _. h1))
              (λ name v2 h2.
                ensures_bind _ (λ _. Kept p n s) _ _ _ v2 (supported-Kept p n s t _ v2 h2)
                  (λ _ v3 h3.
                    ensures_bind _ (λ _. Kept p n s) _ _ _ v3
                      (ensure_inside-Kept t canonical _ v3 h3)
                      (λ _ v4 h4. ensures_gets _ _ _ _ v4 (
                        ensures_check _ _ _ _ _ v4 h4 (λ _.
                          ensures_bind _ (λ _. Kept p n s) _ _ _ v4
                            (rename-Kept p n s t _ _ v4 (below-Apart rel)
                              (beside-Apart rel (name ∷ []) named) h4)
                            (λ _ v5 h5.
                              ensures_bind _ (λ _. Kept p n s) _ _ _ v5
                                (audit-Kept p n s t.moment actor _ _ v5 h5)
                                (λ _ v6 h6. ensures_pure _ _ _ v6 h6))))))))

    shared_move-Kept :
        (path : Text) (given : Option Text) (v : Vault)
        → Kept p n s v
        → Keeping p n s (shared_move host t site path given v)
    unfolding shared_move site
    shared_move-Kept path given v h =
        ensures_bind _ (λ _. Kept p n s) _ _ _ v (ensures_lift _ _ _ v h (λ _ _. h))
          (λ raw v1 h1.
            ensures_bind _ (λ _. Kept p n s) _ _ _ v1 (ensures_lift _ _ _ v1 h1 (λ _ _. h1))
              (λ dest v2 h2. ensures_gets _ _ _ _ v2 (
                ensures_bind _ (λ _. Kept p n s) _ _ _ v2 (ensures_lift _ _ _ v2 h2 (λ _ _. h2))
                  (λ _ v3 h3. ensures_check _ _ _ _ _ v3 h3 (λ _.
                    ensures_bind _ (λ _. Kept p n s) _ _ _ v3
                      (ensure_inside-Kept t canonical _ v3 h3)
                      (λ dc v4 h4.
                        ensures_bind _ (λ _. Kept p n s) _ _ _ v4
                          (ensures_lift _ _ _ v4 h4 (λ _ _. h4))
                          (λ name v5 h5. ensures_gets _ _ _ _ v5 (
                            ensures_check _ _ _ _ _ v5 h5 (λ _.
                              ensures_bind _ (λ _. Kept p n s) _ _ _ v5
                                (not_inside-Kept t _ dc v5 h5)
                                (λ _ v6 h6.
                                  ensures_bind _ (λ _. Kept p n s) _ _ _ v6
                                    (rename-Kept p n s t _ _ v6 (below-Apart rel)
                                      (Apart-append _ p (name ∷ []) (below-Apart dest)) h6)
                                    (λ _ v7 h7.
                                      ensures_bind _ (λ _. Kept p n s) _ _ _ v7
                                        (audit-Kept p n s t.moment actor _ _ v7 h7)
                                        (λ _ v8 h8. ensures_pure _ _ _ v8 h8))))))))))))

    act-Kept :
        (r : SharedActionRequest) (v : Vault) → Kept p n s v → Keeping p n s (act host t site r v)
    unfolding act text_eq
    act-Kept r v h =
        ensures_if _ _ (text_eq r.action (codes "delete")) (shared_delete host t site r.path)
          not_delete v (λ _. shared_delete-Kept r.path v h)
          (λ _.
            ensures_if _ _ (text_eq r.action (codes "rename"))
              (shared_rename host t site r.path r.name) not_rename v
              (λ _. shared_rename-Kept r.path r.name v h)
              (λ _.
                ensures_if _ _ (text_eq r.action (codes "move"))
                  (shared_move host t site r.path r.destination)
                  (raise (bad_request (plain "Unsupported shared action"))) v
                  (λ _. shared_move-Kept r.path r.destination v h) (λ _. ensures_raise _ _ _ v h)))
      where
        not_rename : Exec Vault Text
        not_rename =
            if text_eq r.action (codes "move")
            then shared_move host t site r.path r.destination
            else raise (bad_request (plain "Unsupported shared action"))

        not_delete : Exec Vault Text
        not_delete =
            if text_eq r.action (codes "rename")
            then shared_rename host t site r.path r.name
            else not_rename

  pub act_inside-Kept :
      (t : Pass) (user : ℕ) (share : Resolved) (rel : FilePath) (r : SharedActionRequest)
      (v : Vault)
      → share.owner_id ≡ owner
      → share.base ≡ base
      → is_root rel ≡ false
      → Kept p n s v
      → Keeping p n s (act_inside host t user share rel r v)
  unfolding act_inside site
  act_inside-Kept t user share rel r v e f named h =
      ensures_bind _ (λ _. Kept p n s) _ _ _ v (ensures_lift _ _ _ v h (λ _ _. h))
        (λ canonical v1 h1.
          ensures_bind _ (λ _. Kept p n s) _ _ _ v1 (ensure_inside-Kept t canonical _ v1 h1)
            (λ _ v2 h2.
              subst
                (λ o. Keeping p n s (
                  act host t
                    (record {
                      actor = user;
                      owner_id = o;
                      base = share.base;
                      base_canonical = canonical;
                      rel = rel;
                    })
                    r v2))
                (sym e)
                (subst
                  (λ b. Keeping p n s (
                    act host t
                      (record {
                        actor = user;
                        owner_id = owner;
                        base = b;
                        base_canonical = canonical;
                        rel = rel;
                      })
                      r v2))
                  (sym f) (act-Kept t user canonical rel named r v2 h2))))
