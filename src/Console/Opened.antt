-- ===== src/Console/Opened.antt =====
-- For whom a sign-in of server/src/console/session.rs opens a session.
use nexa_drive.Prelude.{
  ℕ, ◌≡◌, refl, ap, sym, subst, ◌⊎◌, inl, inr, true, false, not, Option, none, some, List, ◌∷◌,
  if◌then◌else◌, both_of_and, false_of_negation, true_of_negation,
}
use nexa_drive.Prelude.Rows.{Has, find_row, find_row-holds}
use nexa_drive.Text.{Text, codes, text_eq, trim}
use nexa_drive.Text.Laws.{text_eq→eq}
use nexa_drive.Error.{Result, database}
use nexa_drive.Error.Exec.{modify, pure, gets, ◌>>=◌, ◌>>◌}
use nexa_drive.Error.Ensures.{
  Ensures, ensures_bind, ensures_check, ensures_check_end, ensures_gets, ensures_if, ensures_modify,
  ensures_modify_end, ensures_mono, ensures_pure, ensures_raise,
}
use nexa_drive.Auth.{Account}
use nexa_drive.Console.{
  Console, ConsoleSession, Event, Fault, Visit, Site, attempt, audit_event, add_event,
}
use nexa_drive.Console.Session.{
  ConsoleLoginResponse, append_set_cookie, check_attempts, register_attempt, clear_attempts,
  audit_login_failure, login_failure, is_enabled_as, console_user, refuse_login, deny_login,
  new_console_session, send_session, open_console, login_found, login_key_of, console_login,
}

-- An enabled administrator of the name, whose password is the one given.
pub record Entitled (c : Site) (username password : Text) (w : Console) (a : Account) : Type 0 where
  pub is_account : Has a w.accounts
  pub is_named : a.username ≡ trim username
  pub is_enabled : a.disabled ≡ false
  pub is_password : c.verify_password password a.password_hash ≡ true
  pub is_admin : a.role ≡ codes "admin"

-- The sessions are the ones before, or one more, of an account that is entitled to it.
abbrev pub Opened : Site → Visit → Text → Text → Console → Console → Type 0
Opened c v username password w w' =
    (w'.sessions ≡ w.sessions)
    ⊎ ((a : Account) × Entitled c username password w a
        × (w'.sessions ≡ new_console_session c v a.id ∷ w.sessions))

check_attempts_stays :
    (v : Visit) (key : Text) (w : Console)
    → Ensures (λ s. s ≡ w) (λ _ s. s ≡ w) (check_attempts v key w)
unfolding check_attempts
check_attempts_stays v key w =
    ensures_check _ _ _ _ _ w refl
      (λ _. ensures_gets _ _ _ _ w (ensures_check_end _ _ _ _ w refl (λ _. refl)))

module _ (ss : List ConsoleSession) where
  abbrev Same : Console → Type 0
  Same w = w.sessions ≡ ss

  audit_event-Same :
      (v : Visit) (e : Event) (w : Console)
      → Same w
      → Ensures Same (λ _ w'. Same w') (audit_event v e w)
  unfolding audit_event add_event
  audit_event-Same v e w h = ensures_check _ _ _ _ _ w h (λ _. ensures_modify_end _ _ _ w h)

  clear_attempts-Same :
      (v : Visit) (key : Text) (w : Console)
      → Same w
      → Ensures Same (λ _ w'. Same w') (clear_attempts v key w)
  unfolding clear_attempts
  clear_attempts-Same v key w h = ensures_check _ _ _ _ _ w h (λ _. ensures_modify_end _ _ _ w h)

  audit_failure-Same :
      (v : Visit) (user : Option ℕ) (subject : Text) (w : Console)
      → Same w
      → Ensures Same (λ _ w'. Same w') (audit_login_failure v user subject w)
  unfolding audit_login_failure add_event
  audit_failure-Same v user subject w h =
      ensures_if _ _ (v.fails Fault.write_event) (pure tt)
        (modify (λ u. record u { events = login_failure user subject ∷ u.events })) w
        (λ _. ensures_pure _ _ _ w h) (λ _. ensures_modify_end _ _ _ w h)

  module _ (Q : ConsoleLoginResponse → Console → Type 0) where
    refuse_login-Same :
        (v : Visit) (key : Text) (user : Option ℕ) (subject : Text) (w : Console)
        → Same w
        → Ensures Same Q (refuse_login v key user subject w)
    unfolding refuse_login register_attempt
    refuse_login-Same v key user subject w h = ensures_modify _ _ _ _ w (
        ensures_bind _ (λ _ w'. Same w') _ _ _ _ (audit_failure-Same v user subject _ h)
          (λ _ s k. ensures_raise _ _ _ s k))

    deny_login-Same :
        (v : Visit) (user : ℕ) (subject : Text) (w : Console)
        → Same w
        → Ensures Same Q (deny_login v user subject w)
    unfolding deny_login
    deny_login-Same v user subject w h =
        ensures_bind _ (λ _ w'. Same w') _ _ _ w (audit_event-Same v _ w h)
          (λ _ s k. ensures_raise _ _ _ s k)

module _ (c : Site) (v : Visit) (username password : Text) (w0 : Console) where
  abbrev Stands : Console → Type 0
  Stands w = Opened c v username password w0 w

  -- A sign-in that succeeds: its session is new, and the answer is about its account.
  abbrev pub Signed : ConsoleLoginResponse → Console → Type 0
  Signed r w =
      (a : Account) × Entitled c username password w0 a
      × (r.user ≡ console_user a)
      × (w.sessions ≡ new_console_session c v a.id ∷ w0.sessions)

  module _ (a : Account) (h : Entitled c username password w0 a) where
    cookie-Stands :
        (value : Text) (cookies : List Text) (w : Console)
        → w.sessions ≡ new_console_session c v a.id ∷ w0.sessions
        → Ensures Stands
            (λ _ w'. w'.sessions ≡ new_console_session c v a.id ∷ w0.sessions)
            (append_set_cookie c value cookies w)
    unfolding append_set_cookie
    cookie-Stands value cookies w k =
        ensures_check _ _ _ _ _ w (inr (a, h, k)) (λ _. ensures_pure _ _ _ w k)

    send_session-Signed :
        (w : Console)
        → w.sessions ≡ new_console_session c v a.id ∷ w0.sessions
        → Ensures Stands Signed (send_session c v a w)
    unfolding send_session
    send_session-Signed w k = ensures_check _ _ _ _ _ w (inr (a, h, k)) (λ _.
        ensures_bind _ _ _ _ _ w (cookie-Stands _ _ w k) (λ one s l.
          ensures_bind _ _ _ _ _ s (cookie-Stands _ _ s l)
            (λ both s' l'. ensures_pure _ _ _ s' (a, h, refl, l'))))

    open_console-Signed :
        (key subject : Text) (w : Console)
        → w.sessions ≡ w0.sessions
        → Ensures Stands Signed (open_console c v key subject a w)
    unfolding open_console
    open_console-Signed key subject w k =
        ensures_bind _ (λ _ w'. w'.sessions ≡ w0.sessions) _ _ _ w
          (before (clear_attempts-Same w0.sessions v key w k))
          (λ _ s l. ensures_check _ _ _ _ _ s (inl l) (λ _. ensures_modify _ _ _ _ s (
            ensures_bind _ (λ _ w'. w'.sessions ≡ new_console_session c v a.id ∷ w0.sessions) _ _ _
              _
              (after (
                audit_event-Same (new_console_session c v a.id ∷ w0.sessions) v _ _
                  (ap (◌∷◌ (new_console_session c v a.id)) l)))
              (λ _ s' l'. send_session-Signed s' l'))))
      where
        before :
            {r : Result (Unit {0}) × Console}
            → Ensures (Same w0.sessions) (λ _ w'. Same w0.sessions w') r
            → Ensures Stands (λ _ w'. w'.sessions ≡ w0.sessions) r
        before {r} x = ensures_mono _ _ _ _ r (λ _ e. inl e) (λ _ _ e. e) x

        after :
            {r : Result (Unit {0}) × Console}
            → Ensures
                (Same (new_console_session c v a.id ∷ w0.sessions))
                (λ _ w'. Same (new_console_session c v a.id ∷ w0.sessions) w')
                r
            → Ensures Stands (λ _ w'. w'.sessions ≡ new_console_session c v a.id ∷ w0.sessions) r
        after {r} x = ensures_mono _ _ _ _ r (λ _ e. inr (a, h, e)) (λ _ _ e. e) x

  refused :
      {r : Result ConsoleLoginResponse × Console}
      → Ensures (Same w0.sessions) Signed r
      → Ensures Stands Signed r
  refused {r} x = ensures_mono _ _ _ _ r (λ _ e. inl e) (λ _ _ e. e) x

  login_found-Signed :
      (key : Text) (row : Option Account)
      → ((a : Account)
          → row ≡ some a
          → (is_enabled_as (trim username) a ≡ true) × Has a w0.accounts)
      → Ensures Stands Signed (login_found c v key (trim username) password row w0)
  unfolding login_found is_enabled_as
  login_found-Signed key none h =
      refused (refuse_login-Same w0.sessions Signed v key none (trim username) w0 refl)
  login_found-Signed key (some a) h =
      ensures_if _ _ (not (c.verify_password password a.password_hash))
        (refuse_login v key (some a.id) (trim username))
        (if not (text_eq a.role (codes "admin"))
          then deny_login v a.id (trim username)
          else open_console c v key (trim username) a)
        w0
        (λ _.
          refused (refuse_login-Same w0.sessions Signed v key (some a.id) (trim username) w0 refl))
        (λ known.
          ensures_if _ _ (not (text_eq a.role (codes "admin"))) (deny_login v a.id (trim username))
            (open_console c v key (trim username) a) w0
            (λ _. refused (deny_login-Same w0.sessions Signed v a.id (trim username) w0 refl))
            (λ admin. open_console-Signed a (entitled known admin) key (trim username) w0 refl))
    where
      entitled :
          not (c.verify_password password a.password_hash) ≡ false
          → not (text_eq a.role (codes "admin")) ≡ false
          → Entitled c username password w0 a
      entitled known admin =
          let row = h a refl in
          let named = both_of_and (text_eq a.username (trim username)) (not a.disabled) row.0 in
          record {
            is_account = row.1;
            is_named = text_eq→eq a.username (trim username) named.0;
            is_enabled = false_of_negation a.disabled named.1;
            is_password = true_of_negation _ known;
            is_admin = text_eq→eq a.role (codes "admin") (true_of_negation _ admin);
          }

-- A sign-in leaves the sessions as they were, or it adds one, for an enabled administrator of the
-- given name and password; where it succeeds it has added one, and the answer names that account.
pub console_login-Entitled :
    (c : Site) (v : Visit) (username password : Text) (w : Console)
    → Ensures
        (Opened c v username password w)
        (Signed c v username password w)
        (console_login c v username password w)
unfolding console_login
console_login-Entitled c v username password w =
    ensures_bind _ (λ _ s. s ≡ w) _ _ _ w
      (ensures_mono _ _ _ _ _ (λ s e. inl (ap (λ u. u.sessions) e)) (λ _ _ e. e)
        (check_attempts_stays v (login_key_of c (trim username)) w))
      (λ _ s e.
        subst
          (λ u. Ensures (Opened c v username password w) (Signed c v username password w) (rest u))
          (sym e) from_start)
  where
    rest : Console → Result ConsoleLoginResponse × Console
    rest =
        attempt v Fault.select_account database
        >> (gets (λ u. find_row (is_enabled_as (trim username)) u.accounts)
            >>= login_found c v (login_key_of c (trim username)) (trim username) password)

    from_start : Ensures (Opened c v username password w) (Signed c v username password w) (rest w)
    from_start = ensures_check _ _ _ _ _ w (inl refl) (λ _. ensures_gets _ _ _ _ w (
        login_found-Signed c v username password w _ _
          (λ a e. find_row-holds (is_enabled_as (trim username)) w.accounts a e)))
