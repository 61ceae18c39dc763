-- ===== src/Sharing/Reached.antt =====
-- What a public link gives away (server/src/handlers/sharing.rs, `public_share_download`).
use nexa_drive.Prelude.{
  ℕ, ◌≡◌, ◌⊎◌, inl, inr, refl, ap, subst, true, false, ◌&&◌, Option, none, some, List, ◌++◌, length,
  both_of_and,
}
use nexa_drive.Prelude.Rows.{Has, find_row, find_row-holds}
use nexa_drive.Text.{Text}
use nexa_drive.Error.{Result, ok, err}
use nexa_drive.Error.Exec.{Exec}
use nexa_drive.Error.Cases.{cases_lift}
use nexa_drive.Error.Ensures.{
  Ensures, ensures_bind, ensures_check, ensures_gets, ensures_lift, ensures_modify, ensures_pure,
  ensures_raise,
}
use nexa_drive.Text.Laws.{text_eq→eq}
use nexa_drive.Paths.{FilePath, safe_relative_path, user_root}
use nexa_drive.Paths.Range.{parse_byte_range}
use nexa_drive.Upload.Files.{Node, file, folder}
use nexa_drive.Download.Slice.{Sends, file_response-Sends}
use nexa_drive.Upload.World.{Host}
use nexa_drive.Download.{Response, file_response}
use nexa_drive.Shelf.{Special, Vault, Pass}
use nexa_drive.Shelf.Transfer.{path_of}
use nexa_drive.Shelf.Trash.{unwrap_path}
use nexa_drive.Sharing.{ShareRow, Exchange, Errand, in_vault, is_unexpired}
use nexa_drive.Sharing.Received.{
  Opened, absent, no_file, content, content_of_opened, opened, open_at, open_shared, download_name,
  file_of,
}
use nexa_drive.Sharing.Scope.{in_vault-Ensures}
use nexa_drive.Sharing.Named.{NotOver, unexpired-NotOver}
use nexa_drive.Sharing.Link.{same_hash, is_link_of, link_name, found_link, public_share_download}

-- A row that is a link with the token's digest, and that is not over.
pub record IsLinkOf (now : ℕ) (hash : Text) (row : ShareRow) : Type 0 where
  pub is_its : row.token_hash ≡ some hash
  pub is_link : row.is_link ≡ true
  pub is_not_over : NotOver now row.expires_at

-- A file of these bytes stands at the path, or behind a link that stands there.
abbrev pub Stands : Pass → FilePath → Vault → List ℕ → Type 0
Stands t p v b =
    ((v.specials p ≡ none) × (v.world.files p ≡ some (file b)))
    ⊎ ((v.specials p ≡ some Special.symlink) × (t.link_leads p ≡ some (file b)))

-- An answer that a token entitles to: it is of a link, and sends the bytes of the file at the link's path, or
-- below it, in the storage of its owner, or the range of them that was asked for.
pub record Entitled (digest : Text → Text) (host : Host) (e : Errand) (token : Text)
    (path range : Option Text) (x : Exchange) (r : Response) : Type 0 where
  pub row : ShareRow
  pub base : FilePath
  pub rel : FilePath
  pub bytes : List ℕ
  pub is_row : Has row x.shares
  pub is_link_of_token : IsLinkOf e.now (digest token) row
  pub is_base : safe_relative_path row.path ≡ ok base
  pub is_rel : safe_relative_path (unwrap_path path) ≡ ok rel
  pub is_file :
      Stands e.pass
        (user_root host.storage_root (host.uuid_text row.owner_id) ++ (base ++ rel))
        x.vault
        bytes
  pub is_sent : Sends bytes (parse_byte_range range (length bytes)) r.body

link_hash : (o : Option Text) (hash : Text) → same_hash o hash ≡ true → o ≡ some hash
link_hash none hash h = cc
link_hash (some t) hash h = ap some (text_eq→eq t hash h)

is_link_of-IsLinkOf :
    (now : ℕ) (hash : Text) (row : ShareRow)
    → is_link_of now hash row ≡ true
    → IsLinkOf now hash row
unfolding is_link_of
is_link_of-IsLinkOf now hash row h =
    let its =
      both_of_and (same_hash row.token_hash hash) (row.is_link && is_unexpired now row.expires_at)
        h in
    let rest = both_of_and row.is_link (is_unexpired now row.expires_at) its.1 in
    record {
      is_its = link_hash row.token_hash hash its.0;
      is_link = rest.0;
      is_not_over = unexpired-NotOver now row.expires_at rest.1;
    }

opened_stands :
    (s : Option Special) (n link : Option Node) (b : List ℕ)
    → opened s n link ≡ content b
    → ((s ≡ none) × (n ≡ some (file b))) ⊎ ((s ≡ some Special.symlink) × (link ≡ some (file b)))
opened_stands none none link b h = cc
opened_stands none (some (file c)) link b h = inl (refl, cc)
opened_stands none (some folder) link b h = cc
opened_stands (some Special.symlink) n none b h = cc
opened_stands (some Special.symlink) n (some (file c)) b h = inr (refl, cc)
opened_stands (some Special.symlink) n (some folder) b h = cc
opened_stands (some Special.other) n link b h = cc

open_at-Stands :
    (t : Pass) (p : FilePath) (v : Vault) (b : List ℕ) → open_at t p v ≡ content b → Stands t p v b
unfolding open_at
open_at-Stands t p v b h = opened_stands (v.specials p) (v.world.files p) (t.link_leads p) b h

opened_content : (o : Opened) (b : List ℕ) → content_of_opened o ≡ ok b → o ≡ content b
opened_content absent b h = cc
opened_content no_file b h = cc
opened_content (content c) b h = let same : c ≡ b = cc in ap content same

abbrev Any : Exchange → Type 0
Any x = Unit {0}

open_shared-content :
    (e : Errand) (p : FilePath) (x : Exchange)
    → Ensures Any (λ b _. open_at e.pass p x.vault ≡ content b) (open_shared e p false x)
unfolding open_shared
open_shared-content e p x = ensures_check _ _ _ _ _ x tt (λ _. ensures_gets _ _ _ _ x (
    ensures_check _ _ _ _ _ x tt
      (λ _. ensures_lift _ _ _ x tt (λ b h. opened_content (open_at e.pass p x.vault) b h))))

found_link-same :
    (e : Errand) (hash : Text) (row : Option ShareRow) (x : Exchange)
    → Ensures Any (λ s y. (row ≡ some s) × (y.vault ≡ x.vault)) (found_link e hash row x)
unfolding found_link
found_link-same e hash none x = ensures_modify _ _ _ _ x (ensures_raise _ _ _ _ tt)
found_link-same e hash (some s) x = ensures_modify _ _ _ _ x (ensures_pure _ _ _ _ (refl, refl))

always : {A : Type 0} (r : Result A × Vault) → Ensures (λ _. Unit {0}) (λ _ _. Unit {0}) r
always (ok a, v) = record { holds = tt }
always (err e, v) = record { holds = tt }

-- Where the opened file can be read, a download by a token succeeds only if a row of the shares is a link with the
-- token's digest that is not over, and it sends the bytes of the file that stands at the row's path, followed
-- by the path that is asked for, in the storage of the row's owner, or the range of them that is asked for.
pub public_share_download-Entitled :
    (digest : Text → Text) (host : Host) (e : Errand) (token : Text) (path range : Option Text)
    (x : Exchange)
    → ((p : ℕ) → e.read_fails p ≡ false)
    → e.seek_fails ≡ false
    → Ensures
        (λ _. Unit {0})
        (λ r _. Entitled digest host e token path range x r)
        (public_share_download digest host e token path range x)
unfolding public_share_download path_of
public_share_download-Entitled digest host e token path range x reads seeks =
    ensures_check _ _ _ _ _ x tt (λ _. ensures_gets _ _ _ _ x (
      ensures_check _ _ _ _ _ x tt (λ _. ensures_check _ _ _ _ _ x tt (λ _. ensures_gets _ _ _ _ x (
        ensures_bind _
          (λ s y.
            (find_row (is_link_of e.now (digest token)) x.shares ≡ some s) × (y.vault ≡ x.vault))
          _ _ _ x (found_link-same e (digest token) _ x)
          (λ s y k.
            cases_lift Q _ _ y (λ _ _. record { holds = tt })
              (λ base b.
                cases_lift Q _ _ y (λ _ _. record { holds = tt })
                  (λ rel l.
                    ensures_bind _
                      (λ c _.
                        open_at e.pass (path_of host s.owner_id (base ++ rel)) y.vault ≡ content c)
                      _ _ _ y (open_shared-content e _ y)
                      (λ c z o.
                        ensures_bind _ (λ _ _. Unit {0}) _ _ _ z (done _ z)
                          (λ _ z' _. ensures_pure _ _ _ z' (
                            entitled s base rel c k.0 b l (
                              subst
                                (λ v.
                                  open_at e.pass (path_of host s.owner_id (base ++ rel)) v
                                  ≡ content c)
                                k.1 o))))))))))))
  where
    Q : Result Response × Exchange → Type 0
    Q r = Ensures (λ _. Unit {0}) (λ r _. Entitled digest host e token path range x r) r

    done :
        (m : Exec Vault (Unit {0})) (z : Exchange)
        → Ensures (λ _. Unit {0}) (λ _ _. Unit {0}) (in_vault m z)
    done m z = in_vault-Ensures _ m z (always (m z.vault))

    entitled :
        (s : ShareRow) (base rel : FilePath) (c : List ℕ)
        → find_row (is_link_of e.now (digest token)) x.shares ≡ some s
        → safe_relative_path s.path ≡ ok base
        → safe_relative_path (unwrap_path path) ≡ ok rel
        → open_at e.pass (path_of host s.owner_id (base ++ rel)) x.vault ≡ content c
        → Entitled digest host e token path range x
            (file_response (file_of e c) (length c) (download_name (link_name rel base)) range)
    entitled s base rel c found b l o =
        let f = find_row-holds (is_link_of e.now (digest token)) x.shares s found in
        record {
          row = s;
          base = base;
          rel = rel;
          bytes = c;
          is_row = f.1;
          is_link_of_token = is_link_of-IsLinkOf e.now (digest token) s f.0;
          is_base = b;
          is_rel = l;
          is_file = open_at-Stands e.pass (path_of host s.owner_id (base ++ rel)) x.vault c o;
          is_sent =
              file_response-Sends (file_of e c) (download_name (link_name rel base)) range reads
                seeks;
        }
