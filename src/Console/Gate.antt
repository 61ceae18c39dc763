-- ===== src/Console/Gate.antt =====
-- Whom the gate of server/src/console/session.rs lets through.
use nexa_drive.Prelude.{
  ℕ, ◌≡◌, ◌≢◌, refl, ap, sym, subst, ◌∙◌, ◌<◌, ◌⊎◌, inl, inr, Bool, true, false, not, ◌&&◌, Option,
  none, some, List, [], ◌∷◌, ltb, ltb→lt, both_of_and, false_of_negation, ==_iff, ◌==◌,
  if◌then◌else◌,
}
use nexa_drive.Prelude.Rows.{Has, find_row, find_row-holds, update_rows}
use nexa_drive.Text.{Text, codes, text_eq}
use nexa_drive.Text.Laws.{text_eq→eq}
use nexa_drive.Error.{Result, err, AppError}
use nexa_drive.Error.Exec.{Exec}
use nexa_drive.Error.Cases.{cases_check, cases_gets, cases_modify, cases_or_error}
use nexa_drive.Auth.{Account}
use nexa_drive.Console.{ConsoleSession, Console, Visit, Site, Fault}
use nexa_drive.Console.Cookies.{console_cookie, parse_cookie}
use nexa_drive.Console.Refreshed.{Refreshed, Seen, update_rows-Seen}
use nexa_drive.Console.Session.{
  Request, Method, is_enabled_with, has_hash, admitted_row, or_row, joined, is_read_only,
  csrf_matches, require_console_admin, is_unseen, see,
}

-- A method that is not GET, HEAD or OPTIONS needs the token whose digest the session keeps.
abbrev pub Intended : Site → Request → ConsoleSession → Type 0
Intended c r s =
    (r.method ≢ Method.other_method)
    ⊎ ((csrf : Text) × (r.csrf ≡ some csrf) × (c.token_hash csrf ≡ s.csrf_hash))

-- What a request must show to reach a handler: the cookie of a session that is not over, of an enabled
-- administrator, and, unless its method only reads, the session's CSRF token.
pub record Admitted (c : Site) (v : Visit) (r : Request) (w : Console) (user : ℕ) (token : Text)
    : Type 0 where
  pub session : ConsoleSession
  pub account : Account
  pub is_sent : parse_cookie r.cookie console_cookie ≡ some token
  pub is_row : Has session w.sessions
  pub is_its_token : session.token_hash ≡ c.token_hash token
  pub is_not_over : v.now < session.expires_at
  pub is_account : Has account w.accounts
  pub is_owner : account.id ≡ session.user_id
  pub is_enabled : account.disabled ≡ false
  pub is_admin : account.role ≡ codes "admin"
  pub is_intended : Intended c r session
  pub is_user : account.id ≡ user

module _ (accounts : List Account) (now : ℕ) (hash : Text) (s : ConsoleSession) (a : Account) where
  abbrev Row : List ConsoleSession → Type 0
  Row ss =
      Has s ss
      × ((has_hash hash s && ltb now s.expires_at) ≡ true)
      × (find_row (is_enabled_with s.user_id) accounts ≡ some a)

  later : (x : ConsoleSession) (xs : List ConsoleSession) → Row xs → Row (x ∷ xs)
  later x xs r = (inr r.0, r.1, r.2)

  first_or :
      (x : ConsoleSession) (xs : List ConsoleSession) (b : Bool) (o : Option Account)
      → (admitted_row accounts now hash xs ≡ some (s, a) → Row xs)
      → (has_hash hash x && ltb now x.expires_at) ≡ b
      → find_row (is_enabled_with x.user_id) accounts ≡ o
      → (if b
          then or_row (joined x o) (admitted_row accounts now hash xs)
          else admitted_row accounts now hash xs)
        ≡ some (s, a)
      → Row (x ∷ xs)
  unfolding or_row joined
  first_or x xs true none back e f k = later x xs (back k)
  first_or x xs true (some b) back e f k =
      let same : x ≡ s = cc in
      let owner : b ≡ a = cc in
      (
        inl (sym same),
        subst (λ y. (has_hash hash y && ltb now y.expires_at) ≡ true) same e,
        subst (λ y. find_row (is_enabled_with y.user_id) accounts ≡ some a) same
            (f ∙ ap some owner),
      )
  first_or x xs false o back e f k = later x xs (back k)

  admitted_row-Row :
      (ss : List ConsoleSession) → admitted_row accounts now hash ss ≡ some (s, a) → Row ss
  unfolding admitted_row
  admitted_row-Row [] h = cc
  admitted_row-Row (x ∷ xs) h = first_or x xs _ _ (admitted_row-Row xs) refl refl h

read_only : (method : Method) → is_read_only method ≡ true → method ≢ Method.other_method
unfolding is_read_only
read_only method h e =
    let changes : is_read_only Method.other_method ≡ true =
      subst (λ x. is_read_only x ≡ true) e h in
    cc

csrf_sent :
    (c : Site) (stored : Text) (o : Option Text)
    → csrf_matches c stored o ≡ true
    → (csrf : Text) × (o ≡ some csrf) × (c.token_hash csrf ≡ stored)
unfolding csrf_matches
csrf_sent c stored none h = cc
csrf_sent c stored (some csrf) h = (csrf, refl, text_eq→eq (c.token_hash csrf) stored h)

intended :
    (c : Site) (r : Request) (s : ConsoleSession)
    → (if is_read_only r.method then true else csrf_matches c s.csrf_hash r.csrf) ≡ true
    → Intended c r s
intended c r s h = either (is_read_only r.method) refl h
  where
    either :
        (b : Bool)
        → is_read_only r.method ≡ b
        → (if b then true else csrf_matches c s.csrf_hash r.csrf) ≡ true
        → Intended c r s
    either true e k = inl (read_only r.method e)
    either false e k = inr (csrf_sent c s.csrf_hash r.csrf k)

module _ (c : Site) (v : Visit) (r : Request) (w : Console) where
  admitted :
      (token : Text) (s : ConsoleSession) (a : Account)
      → parse_cookie r.cookie console_cookie ≡ some token
      → admitted_row w.accounts v.now (c.token_hash token) w.sessions ≡ some (s, a)
      → text_eq a.role (codes "admin") ≡ true
      → (if is_read_only r.method then true else csrf_matches c s.csrf_hash r.csrf) ≡ true
      → Admitted c v r w a.id token
  unfolding has_hash is_enabled_with
  admitted token s a sent found role csrf =
      let row = admitted_row-Row w.accounts v.now (c.token_hash token) s a w.sessions found in
      let live =
        both_of_and (text_eq s.token_hash (c.token_hash token)) (ltb v.now s.expires_at) row.1 in
      let owner = find_row-holds (is_enabled_with s.user_id) w.accounts a row.2 in
      let enabled = both_of_and (a.id == s.user_id) (not a.disabled) owner.0 in
      record {
        session = s;
        account = a;
        is_sent = sent;
        is_row = row.0;
        is_its_token = text_eq→eq s.token_hash (c.token_hash token) live.0;
        is_not_over = ltb→lt v.now s.expires_at live.1;
        is_account = owner.1;
        is_owner = (==_iff a.id s.user_id).0 enabled.0;
        is_enabled = false_of_negation a.disabled enabled.1;
        is_admin = text_eq→eq a.role (codes "admin") role;
        is_intended = intended c r s csrf;
        is_user = refl;
      }

-- A request is refused, with nothing changed, or it is admitted, and then the handler runs, for the enabled
-- administrator of a session with the token of its cookie that is not over, and, unless the method is GET, HEAD or
-- OPTIONS, with the request's CSRF token. The handler runs where nothing else is changed than that the sessions
-- of that token that were not seen for a minute are seen now, or nothing at all, where this update fails.
pub require_console_admin-Admitted :
    {A : Type 0} (c : Site) (v : Visit) (r : Request) (next : ℕ → Exec Console A) (w : Console)
    → ((e : AppError) × (require_console_admin c v r next w ≡ (err e, w)))
      ⊎ ((user : ℕ) × (token : Text) × (w' : Console) × Admitted c v r w user token
          × Refreshed c v token w w'
          × (require_console_admin c v r next w ≡ next user w'))
unfolding require_console_admin
require_console_admin-Admitted {A} c v r next w =
    cases_or_error Q _ _ _ w (λ _. inl (_, refl))
      (λ token sent.
        cases_check Q _ _ _ w (λ _. inl (_, refl))
          (λ _. cases_gets Q _ _ w (
            cases_or_error Q _ _ _ w (λ _. inl (_, refl))
              (λ row found.
                cases_check Q _ _ _ w (λ _. inl (_, refl))
                  (λ role.
                    cases_check Q _ _ _ w (λ _. inl (_, refl))
                      (λ csrf. cases_modify Q _ _ w (
                        inr (
                          row.1.id,
                          token,
                          record w { sessions = rows_after token },
                          admitted c v r w token row.0 row.1 sent found role csrf,
                          (rows_after token, refl, refreshed token),
                          refl,
                        ))))))))
  where
    Q : Result A × Console → Type 0
    Q x =
        ((e : AppError) × (x ≡ (err e, w)))
        ⊎ ((user : ℕ) × (token : Text) × (w' : Console) × Admitted c v r w user token
            × Refreshed c v token w w'
            × (x ≡ next user w'))

    rows_after : Text → List ConsoleSession
    rows_after token =
        if v.fails Fault.refresh_session
        then w.sessions
        else update_rows (is_unseen (c.token_hash token) v.now) (see v.now) w.sessions

    refreshed :
        (token : Text)
        → ((v.fails Fault.refresh_session ≡ true) × (rows_after token ≡ w.sessions))
          ⊎ ((v.fails Fault.refresh_session ≡ false)
              × Seen (c.token_hash token) v.now w.sessions (rows_after token))
    refreshed token = tried (v.fails Fault.refresh_session) refl
      where
        tried :
            (b : Bool)
            → v.fails Fault.refresh_session ≡ b
            → ((v.fails Fault.refresh_session ≡ true) × (rows_after token ≡ w.sessions))
              ⊎ ((v.fails Fault.refresh_session ≡ false)
                  × Seen (c.token_hash token) v.now w.sessions (rows_after token))
        tried true e = inl (e, rw e refl)
        tried false e = inr (e, rw e (update_rows-Seen (c.token_hash token) v.now w.sessions))
