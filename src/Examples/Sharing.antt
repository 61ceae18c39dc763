-- ===== src/Examples/Sharing.antt =====
-- A small storage with a share and a link (server/src/handlers/sharing.rs), and the theorems at it.
use nexa_drive.Prelude.{
  ◌≡◌, refl, true, false, none, some, [], ◌∷◌, ◌++◌, if◌then◌else◌, keep, ap, sym, subst, ◌∙◌, inl,
  inr,
}
use nexa_drive.Text.{codes, text_eq}
use nexa_drive.Error.Ensures.{Ensures}
use nexa_drive.Shelf.Apart.{Apart, Kept}
use nexa_drive.Sharing.{ShareRow, Exchange, Errand}
use nexa_drive.Sharing.Grants.{is_owned, delete_share}
use nexa_drive.Sharing.Scope.{delete_share-is_owned}
use nexa_drive.Sharing.Action.{SharedActionRequest, shared_action}
use nexa_drive.Sharing.Within.{OutOfReach, Allowed, shared_action-OutOfReach}
use nexa_drive.Sharing.Link.{public_share_download}
use nexa_drive.Sharing.Reached.{Entitled, public_share_download-Entitled}
use nexa_drive.Prelude.Rows.{Has}
use nexa_drive.Error.{ok}
use nexa_drive.Paths.{FilePath, safe_relative_path, user_root, trash_root}
use nexa_drive.Auth.{Account}
use nexa_drive.Upload.Files.{file, folder, path_eq}
use nexa_drive.Shelf.{Vault}
use nexa_drive.Shelf.Subtree.{below}
use nexa_drive.Shelf.Transfer.{path_of}
use nexa_drive.Shelf.Trash.{trash_of}
use nexa_drive.Examples.Shelf.{
  a_host, a_pass, a_home, a_name, a_name_is_read, another_home, a_vault,
}

abbrev an_errand : Errand
an_errand = record {
  pass = a_pass;
  fails = λ c. false;
  now = 50;
  instant = 50;
  new_id = 9;
  new_token = codes "n";
  read_fails = λ p. false;
  seek_fails = false;
}

-- A share of account 1 with account 2, for reading, and a link.
abbrev a_share : ShareRow
a_share = record {
  id = 3;
  owner_id = 1;
  recipient_user_id = some 2;
  path = codes "a";
  permission = codes "read";
  is_link = false;
  token_hash = none;
  expires_at = none;
  recipient_name = none;
  link_label = none;
}

abbrev a_link : ShareRow
a_link = record {
  id = 4;
  owner_id = 1;
  recipient_user_id = none;
  path = codes "a";
  permission = codes "read";
  is_link = true;
  token_hash = some (codes "t");
  expires_at = none;
  recipient_name = none;
  link_label = none;
}

abbrev an_exchange : Exchange
an_exchange = record {
  vault = a_vault;
  shares = a_share ∷ a_link ∷ [];
  accounts = [];
  share_download_attempts = λ k. none;
}

-- A storage with a file in a folder, which the recipient may write to.
abbrev a_folder : FilePath
a_folder = a_home ++ a_name

abbrev a_full_vault : Vault
a_full_vault = record a_vault {
  world = record a_vault.world {
    files = λ p.
        if path_eq p a_home
        then some folder
        else if path_eq p a_folder
        then some folder
        else if path_eq p (a_folder ++ codes "b" ∷ [])
        then some (file (9 ∷ []))
        else none;
  };
}

abbrev an_owner : Account
an_owner = record {
  id = 1;
  username = codes "ann";
  display_name = codes "Ann";
  role = codes "user";
  disabled = false;
  password_hash = codes "h";
}

abbrev a_writable : ShareRow
a_writable = record a_share { permission = codes "write" }

abbrev a_shared_storage : Exchange
a_shared_storage = record {
  vault = a_full_vault;
  shares = a_writable ∷ a_link ∷ [];
  accounts = an_owner ∷ [];
  share_download_attempts = λ k. none;
}

abbrev a_deletion : SharedActionRequest
a_deletion = record {
  share_id = 3;
  action = codes "delete";
  path = codes "b";
  name = none;
  destination = none;
}

folder_Apart : Apart (path_of a_host 1 a_name) another_home
unfolding path_of below user_root text_eq
folder_Apart = record { not_below = refl; not_above = refl }

trash_Apart : Apart (trash_of a_host 1) another_home
unfolding trash_of trash_root below user_root text_eq
trash_Apart = record { not_below = refl; not_above = refl }

row_at_a :
    (row : ShareRow) → Has row a_shared_storage.shares → (row.owner_id ≡ 1) × (row.path ≡ codes "a")
row_at_a row (inl e) = (ap (λ s. s.owner_id) e, ap (λ s. s.path) e)
row_at_a row (inr (inl e)) = (ap (λ s. s.owner_id) e, ap (λ s. s.path) e)
row_at_a row (inr (inr n)) = absurd n

folder_read : (base : FilePath) → safe_relative_path (codes "a") ≡ ok base → base ≡ a_name
folder_read base e = let read = a_name_is_read in cc

nothing_elsewhere : OutOfReach a_host an_errand 2 3 a_shared_storage another_home
nothing_elsewhere r h w =
    let row = row_at_a h.row h.is_row in
    let base = folder_read r.base (subst (λ t. safe_relative_path t ≡ ok r.base) row.1 h.is_base) in
    let owner : r.owner_id ≡ 1 = h.is_owner ∙ row.0 in
    (
      subst (λ o. Apart (path_of a_host o r.base) another_home) (sym owner)
          (subst (λ b. Apart (path_of a_host 1 b) another_home) (sym base) folder_Apart),
      subst (λ o. Apart (trash_of a_host o) another_home) (sym owner) trash_Apart,
    )

shared_action-OutOfReach_example :
    Ensures
      (λ y.
        Kept another_home
          (a_full_vault.world.files another_home)
          (a_full_vault.specials another_home)
          y.vault)
      (λ _ y.
        Kept another_home
          (a_full_vault.world.files another_home)
          (a_full_vault.specials another_home)
          y.vault
        × Allowed a_host an_errand 2 a_shared_storage a_deletion)
      (shared_action a_host an_errand 2 a_deletion a_shared_storage)
shared_action-OutOfReach_example =
    shared_action-OutOfReach a_host an_errand 2 a_deletion another_home a_shared_storage
      nothing_elsewhere

delete_share-is_owned_example :
    Ensures
      (λ y. keep (is_owned 1) y.shares ≡ keep (is_owned 1) an_exchange.shares)
      (λ _ y. keep (is_owned 1) y.shares ≡ keep (is_owned 1) an_exchange.shares)
      (delete_share a_host an_errand 2 (some 3) an_exchange)
delete_share-is_owned_example = delete_share-is_owned a_host an_errand 2 1 (some 3) an_exchange refl

public_share_download-Entitled_example :
    Ensures
      (λ _. Unit {0})
      (λ r _. Entitled (λ t. t) a_host an_errand (codes "t") none none an_exchange r)
      (public_share_download (λ t. t) a_host an_errand (codes "t") none none an_exchange)
public_share_download-Entitled_example =
    public_share_download-Entitled (λ t. t) a_host an_errand (codes "t") none none an_exchange
      (λ p. refl) refl
