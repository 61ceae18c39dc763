-- ===== src/Sharing/Scope.antt =====
-- Whose shares the deletions of server/src/handlers/sharing.rs delete.
use nexa_drive.Prelude.{
  ℕ, ◌≡◌, refl, ◌∙◌, Bool, true, false, Option, none, some, List, arith, ◌==◌, keep,
}
use nexa_drive.Prelude.Rows.{keep-delete_rows}
use nexa_drive.Error.{Result, ok, err}
use nexa_drive.Error.Exec.{Exec}
use nexa_drive.Error.Ensures.{
  Ensures, Post, ensures_bind, ensures_check, ensures_check_end, ensures_gets, ensures_lift,
  ensures_modify,
}
use nexa_drive.Upload.World.{Host}
use nexa_drive.Shelf.{Vault}
use nexa_drive.Sharing.{ShareRow, Exchange, Errand, in_vault, vault_back, is_user}
use nexa_drive.Sharing.Grants.{
  is_owned, is_share_of, is_share_for, delete_selected, delete_share, leave_share,
}

-- A run in the vault, for a condition on the vault.
pub in_vault-Ensures :
    {A : Type 0} (I : Vault → Type 0) (m : Exec Vault A) (x : Exchange)
    → Ensures I (λ _. I) (m x.vault)
    → Ensures (λ y. I y.vault) (λ _ y. I y.vault) (in_vault m x)
unfolding in_vault
in_vault-Ensures {A} I m x h = record { holds = seen (m x.vault) h.holds }
  where
    seen :
        (r : Result A × Vault)
        → Post I (λ _. I) r
        → Post (λ y. I y.vault) (λ _ y. I y.vault) (vault_back x r)
    seen (ok a, v) k = k
    seen (err e, v) k = k

module _ (q : ShareRow → Bool) (rows : List ShareRow) where
  abbrev Keeps : Exchange → Type 0
  Keeps x = keep q x.shares ≡ rows

  in_vault-Keeps :
      {A : Type 0} (m : Exec Vault A) (x : Exchange)
      → Keeps x
      → Ensures Keeps (λ _. Keeps) (in_vault m x)
  unfolding in_vault
  in_vault-Keeps m x h = record { holds = seen (m x.vault) }
    where
      seen : {A : Type 0} (r : Result A × Vault) → Post Keeps (λ _. Keeps) (vault_back x r)
      seen (ok a, v) = h
      seen (err e, v) = h

  delete_selected-Keeps :
      (e : Errand) (selects : ShareRow → Bool) (x : Exchange)
      → ((s : ShareRow) → q s ≡ true → selects s ≡ false)
      → Keeps x
      → Ensures Keeps (λ _. Keeps) (delete_selected e selects x)
  unfolding delete_selected
  delete_selected-Keeps e selects x h k = ensures_check _ _ _ _ _ x k (λ _. ensures_gets _ _ _ _ x (
      ensures_modify _ _ _ _ x (
        ensures_check_end _ _ _ _ _ (keep-delete_rows q selects h x.shares ∙ k)
          (λ _. keep-delete_rows q selects h x.shares ∙ k))))

foreign_owner :
    (id user other : ℕ) (s : ShareRow)
    → (other == user) ≡ false
    → is_owned other s ≡ true
    → is_share_of id user s ≡ false
unfolding is_owned is_share_of
foreign_owner id user other s h e = ground arith

other_user :
    (o : Option ℕ) (user other : ℕ)
    → (other == user) ≡ false
    → is_user o other ≡ true
    → is_user o user ≡ false
other_user none user other h e = refl
other_user (some u) user other h e = ground arith

foreign_recipient :
    (id user other : ℕ) (s : ShareRow)
    → (other == user) ≡ false
    → is_user s.recipient_user_id other ≡ true
    → is_share_for id user s ≡ false
unfolding is_share_for
foreign_recipient id user other s h e =
    let f = other_user s.recipient_user_id user other h e in ground arith

-- Deleting a share, also where it fails, keeps all shares that another account gave.
pub delete_share-is_owned :
    (host : Host) (e : Errand) (user other : ℕ) (id : Option ℕ) (x : Exchange)
    → (other == user) ≡ false
    → Ensures
        (λ y. keep (is_owned other) y.shares ≡ keep (is_owned other) x.shares)
        (λ _ y. keep (is_owned other) y.shares ≡ keep (is_owned other) x.shares)
        (delete_share host e user id x)
unfolding delete_share
delete_share-is_owned host e user other id x h =
    ensures_bind _ (λ _. Keeps (is_owned other) (keep (is_owned other) x.shares)) _ _ _ x
      (ensures_lift _ _ _ x refl (λ _ _. refl))
      (λ i y k.
        ensures_bind _ (λ _. Keeps (is_owned other) (keep (is_owned other) x.shares)) _ _ _ y
          (delete_selected-Keeps _ _ e (is_share_of i user) y (λ s. foreign_owner i user other s h)
            k)
          (λ _ z l. in_vault-Keeps _ _ _ z l))

-- Leaving a share, also where it fails, keeps all shares that another account received.
pub leave_share-is_user :
    (host : Host) (e : Errand) (user other : ℕ) (id : Option ℕ) (x : Exchange)
    → (other == user) ≡ false
    → Ensures
        (λ y.
          keep (λ s. is_user s.recipient_user_id other) y.shares
          ≡ keep (λ s. is_user s.recipient_user_id other) x.shares)
        (λ _ y.
          keep (λ s. is_user s.recipient_user_id other) y.shares
          ≡ keep (λ s. is_user s.recipient_user_id other) x.shares)
        (leave_share host e user id x)
unfolding leave_share
leave_share-is_user host e user other id x h =
    ensures_bind _ (λ _. Keeps (λ s. is_user s.recipient_user_id other) _) _ _ _ x
      (ensures_lift _ _ _ x refl (λ _ _. refl))
      (λ i y k.
        ensures_bind _ (λ _. Keeps (λ s. is_user s.recipient_user_id other) _) _ _ _ y
          (delete_selected-Keeps _ _ e (is_share_for i user) y
            (λ s. foreign_recipient i user other s h) k)
          (λ _ z l. in_vault-Keeps _ _ _ z l))
