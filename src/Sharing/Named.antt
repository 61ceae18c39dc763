-- ===== src/Sharing/Named.antt =====
-- The share that a recipient's request names (server/src/handlers/sharing.rs, `resolve_share`).
use nexa_drive.Prelude.{
  ℕ, ◌≡◌, ◌<◌, ◌⊎◌, inl, inr, none, ltb→lt, both_of_and, ==_iff, refl, ap, true, false, not, ◌&&◌,
  Option, some, arith, ◌==◌, false_of_negation,
}
use nexa_drive.Prelude.Rows.{Has, find_row, find_row-holds}
use nexa_drive.Text.{Text, codes}
use nexa_drive.Text.Laws.{text_eq→eq}
use nexa_drive.Error.{Result, ok, err, AppError}
use nexa_drive.Error.Cases.{cases_check, cases_gets, cases_lift, cases_or_error}
use nexa_drive.Error.Ensures.{Ensures, ensures_pure}
use nexa_drive.Paths.{FilePath, safe_relative_path}
use nexa_drive.Auth.{Account}
use nexa_drive.Auth.Login.{permission_allows}
use nexa_drive.Sharing.{
  ShareRow, Exchange, Errand, is_user, is_unexpired, is_received, Resolved, resolve_share,
}

-- There is no end, or it is to come.
abbrev pub NotOver : ℕ → Option ℕ → Type 0
NotOver now expires_at = (expires_at ≡ none) ⊎ ((end : ℕ) × (expires_at ≡ some end) × (now < end))

pub unexpired-NotOver : (now : ℕ) (o : Option ℕ) → is_unexpired now o ≡ true → NotOver now o
unexpired-NotOver now none h = inl refl
unexpired-NotOver now (some end) h = inr (end, refl, ltb→lt now end h)

same_user : (o : Option ℕ) (user : ℕ) → is_user o user ≡ true → o ≡ some user
same_user none user h = cc
same_user (some u) user h = ap some ((==_iff u user).0 h)

-- The share that a request names: a row for the account, not over, with its owner and its folder.
pub record Names (e : Errand) (user id : ℕ) (x : Exchange) (r : Resolved) : Type 0 where
  pub row : ShareRow
  pub is_row : Has row x.shares
  pub is_its : row.id ≡ id
  pub is_recipient : row.recipient_user_id ≡ some user
  pub is_no_link : row.is_link ≡ false
  pub is_not_over : NotOver e.now row.expires_at
  pub is_owner : r.owner_id ≡ row.owner_id
  pub is_permission : r.permission ≡ row.permission
  pub is_base : safe_relative_path row.path ≡ ok r.base

pub resolve_share-Names :
    (e : Errand) (user id : ℕ) (x : Exchange)
    → Ensures (λ y. y ≡ x) (λ r y. (y ≡ x) × Names e user id x r) (resolve_share e user id x)
unfolding resolve_share
resolve_share-Names e user id x =
    cases_check Q _ _ _ x (λ _. stop)
      (λ _. cases_gets Q _ _ x (
        cases_or_error Q _ _ _ x (λ _. stop)
          (λ s found. cases_gets Q _ _ x (
            cases_or_error Q _ _ _ x (λ _. stop)
              (λ owner _.
                cases_lift Q _ _ x (λ _ _. stop)
                  (λ base b. ensures_pure _ _ _ x (refl, named s owner base found b)))))))
  where
    Q : Result Resolved × Exchange → Type 0
    Q r = Ensures (λ y. y ≡ x) (λ r y. (y ≡ x) × Names e user id x r) r

    stop : {a : AppError} → Q (err a, x)
    stop = record { holds = refl }

    named :
        (s : ShareRow) (owner : Account) (base : FilePath)
        → find_row (λ s. (s.id == id) && is_received e.now user s) x.shares ≡ some s
        → safe_relative_path s.path ≡ ok base
        → Names e user id x (record {
          owner_id = s.owner_id;
          base = base;
          permission = s.permission;
          owner = owner.username;
        })
    named s owner base found b =
        let f = find_row-holds (λ s. (s.id == id) && is_received e.now user s) x.shares s found in
        let its = both_of_and (s.id == id) (is_received e.now user s) f.0 in
        let received =
          both_of_and (is_user s.recipient_user_id user)
            (not s.is_link && is_unexpired e.now s.expires_at) (unfold is_received in its.1) in
        let rest = both_of_and (not s.is_link) (is_unexpired e.now s.expires_at) received.1 in
        record {
          row = s;
          is_row = f.1;
          is_its = (==_iff s.id id).0 its.0;
          is_recipient = same_user s.recipient_user_id user received.0;
          is_no_link = false_of_negation s.is_link rest.0;
          is_not_over = unexpired-NotOver e.now s.expires_at rest.1;
          is_owner = refl;
          is_permission = refl;
          is_base = b;
        }

pub writes :
    (permission : Text) → permission_allows permission true ≡ true → permission ≡ codes "write"
unfolding permission_allows
writes permission h = text_eq→eq permission (codes "write") (ground arith)
