-- ===== src/Console/SignedOut.antt =====
-- The cookie of a console session after its logout (server/src/console/session.rs).
use nexa_drive.Prelude.{
  ℕ, ◌≡◌, sym, subst, inl, inr, Bool, true, false, Option, some, List, if◌then◌else◌,
}
use nexa_drive.Prelude.Rows.{Has, Has-delete_rows}
use nexa_drive.Text.{Text, text_eq}
use nexa_drive.Text.Laws.{text_eq_refl}
use nexa_drive.Error.{Result, ok, err, AppError}
use nexa_drive.Error.Exec.{Exec, pure}
use nexa_drive.Error.Ensures.{
  Ensures, ensures_bind, ensures_check, ensures_modify_end, ensures_ok, ensures_pure,
}
use nexa_drive.Console.{Console, ConsoleSession, Event, Visit, Site, add_event}
use nexa_drive.Console.Cookies.{console_cookie, parse_cookie}
use nexa_drive.Console.Session.{
  Request, append_set_cookie, console_logout, delete_cookie_session, has_hash,
  require_console_admin,
}
use nexa_drive.Console.Gate.{require_console_admin-Admitted}

module _ (c : Site) (v : Visit) (token : Text) where
  -- No session has the token.
  abbrev Gone : Console → Type 0
  Gone s = (x : ConsoleSession) → Has x s.sessions → has_hash (c.token_hash token) x ≡ false

  abbrev Leaves : {A : Type 0} → Result A × Console → Type 0
  Leaves {A} r = Ensures (λ _. Unit {0}) (λ (_ : A) s. Gone s) r

  delete_cookie_session-Gone : (s : Console) → Leaves (delete_cookie_session c v (some token) s)
  unfolding delete_cookie_session
  delete_cookie_session-Gone s =
      ensures_check _ _ _ _ _ s tt (λ _.
        ensures_modify_end _ _ _ s (Has-delete_rows (has_hash (c.token_hash token)) s.sessions))

  append_set_cookie-Gone :
      (value : Text) (cookies : List Text) (s : Console)
      → Gone s
      → Leaves (append_set_cookie c value cookies s)
  unfolding append_set_cookie
  append_set_cookie-Gone value cookies s h =
      ensures_check _ _ _ _ _ s tt (λ _. ensures_pure _ _ _ s h)

  add_event-Gone :
      (b : Bool) (e : Event) (s : Console)
      → Gone s
      → Leaves ((if b then pure tt else add_event e) s)
  unfolding add_event
  add_event-Gone true e s h = ensures_pure _ _ _ s h
  add_event-Gone false e s h = ensures_modify_end _ _ _ s h

  console_logout-Gone :
      (cookie : Option Text) (user : ℕ) (w : Console)
      → parse_cookie cookie console_cookie ≡ some token
      → Leaves (console_logout c v cookie user w)
  unfolding console_logout
  console_logout-Gone cookie user w sent =
      ensures_bind _ (λ _. Gone) _ _ _ w
        (subst (λ o. Leaves (delete_cookie_session c v o w)) (sym sent)
          (delete_cookie_session-Gone w))
        (λ _ s h.
          ensures_bind _ (λ _. Gone) _ _ _ s (add_event-Gone _ _ s h)
            (λ _ s' k.
              ensures_bind _ (λ _. Gone) _ _ _ s' (append_set_cookie-Gone _ _ s' k)
                (λ _ s'' l. append_set_cookie-Gone _ _ s'' l)))

token_found : (h : Text) (s : ConsoleSession) → s.token_hash ≡ h → has_hash h s ≡ false → ⊥
unfolding has_hash
token_found h s e k =
    let own : text_eq s.token_hash h ≡ true =
      subst (λ x. text_eq s.token_hash x ≡ true) e (text_eq_refl s.token_hash) in
    cc

-- After a logout that succeeds, every request with the same cookies is refused, whatever handler it
-- asks for, and changes nothing.
pub require_console_admin-console_logout :
    {A : Type 0} (c : Site) (v later : Visit) (cookie : Option Text) (token : Text) (user : ℕ)
    (cookies : List Text) (r : Request) (next : ℕ → Exec Console A) (w w' : Console)
    → parse_cookie cookie console_cookie ≡ some token
    → console_logout c v cookie user w ≡ (ok cookies, w')
    → r.cookie ≡ cookie
    → (e : AppError) × (require_console_admin c later r next w' ≡ (err e, w'))
require_console_admin-console_logout c v later cookie token user cookies r next w w' sent done
      same =
    elim (require_console_admin-Admitted c later r next w') [
      | inl e ↦ e
      | inr (u, t, s, a, f, k) ↦ absurd (impossible t a.session a.is_sent a.is_row a.is_its_token)
    ]
  where
    gone : Gone c v token w'
    gone = ensures_ok _ _ _ cookies w' (console_logout-Gone c v token cookie user w sent) done

    impossible :
        (t : Text) (s : ConsoleSession)
        → parse_cookie r.cookie console_cookie ≡ some t
        → Has s w'.sessions
        → s.token_hash ≡ c.token_hash t
        → ⊥
    impossible t s e row hash =
        let again : parse_cookie r.cookie console_cookie ≡ some token =
          subst (λ o. parse_cookie o console_cookie ≡ some token) (sym same) sent in
        let t_is : t ≡ token = cc in
        let missing = gone s row in
        let its : s.token_hash ≡ c.token_hash token =
          subst (λ x. s.token_hash ≡ c.token_hash x) t_is hash in
        token_found (c.token_hash token) s its missing
