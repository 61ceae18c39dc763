-- ===== src/Examples/Console.antt =====
-- Small inputs of the console (server/src/console/session.rs), and the theorems at them.
use nexa_drive.Prelude.{ℕ, ◌≡◌, ◌⊎◌, refl, true, false, none, some, [], ◌∷◌}
use nexa_drive.Text.{
  Text, codes, text_eq, trim, trim_start, trim_cons, trim_end, is_whitespace, contains_char, split,
  split_cons, split_once, split_once_cons,
}
use nexa_drive.Error.{ok, err, AppError}
use nexa_drive.Error.Exec.{Exec, pure, ◌>>=◌}
use nexa_drive.Error.Ensures.{Ensures}
use nexa_drive.Auth.{Account}
use nexa_drive.Console.{Console, Visit, Site, add_event}
use nexa_drive.Console.Cookies.{
  console_cookie, parse_cookie, find_cookie, named_value, clear_cookie_header,
}
use nexa_drive.Console.Cookies.Lookup.{IsCookie, lookup, cookie_text, parse_cookie-cookie_text}
use nexa_drive.Console.Session.{
  Method, Request, require_console_admin, console_login, console_logout, delete_cookie_session,
  append_set_cookie,
}
use nexa_drive.Console.Refreshed.{Refreshed}
use nexa_drive.Console.Gate.{Admitted, require_console_admin-Admitted}
use nexa_drive.Console.Opened.{Opened, Signed, console_login-Entitled}
use nexa_drive.Console.SignedOut.{require_console_admin-console_logout}

abbrev a_site : Site
a_site = record {
  to_lowercase = λ t. t;
  verify_password = text_eq;
  token_hash = λ t. t;
  is_header_value = λ t. true;
  session_ttl_hours = 8;
}

abbrev a_visit : Visit
a_visit = record {
  fails = λ f. false;
  now = 50;
  instant = 50;
  new_token = codes "n";
  new_csrf = codes "c";
}

abbrev an_admin : Account
an_admin = record {
  id = 1;
  username = codes "root";
  display_name = codes "Root";
  password_hash = codes "pw";
  role = codes "admin";
  disabled = false;
}

abbrev a_console : Console
a_console = record {
  accounts = an_admin ∷ [];
  sessions =
      record {
        user_id = 1;
        token_hash = codes "t";
        csrf_hash = codes "x";
        last_seen_at = none;
        expires_at = 100;
      }
      ∷ [];
  attempts = λ k. none;
  events = [];
}

abbrev a_request : Request
a_request = record {
  method = Method.other_method;
  cookie = some (codes "nexa_console=t");
  csrf = some (codes "x");
}

abbrev an_answer : ℕ → Exec Console ℕ
an_answer user w = (ok user, w)

require_console_admin-Admitted_example :
    ((e : AppError) × (require_console_admin a_site a_visit a_request an_answer a_console
        ≡ (err e, a_console)))
    ⊎ ((user : ℕ) × (token : Text) × (after : Console) × Admitted a_site a_visit a_request a_console
          user token
        × Refreshed a_site a_visit token a_console after
        × (require_console_admin a_site a_visit a_request an_answer a_console
            ≡ an_answer user after))
require_console_admin-Admitted_example =
    require_console_admin-Admitted a_site a_visit a_request an_answer a_console

console_login-Entitled_example :
    Ensures
      (Opened a_site a_visit (codes "root") (codes "pw") a_console)
      (Signed a_site a_visit (codes "root") (codes "pw") a_console)
      (console_login a_site a_visit (codes "root") (codes "pw") a_console)
console_login-Entitled_example =
    console_login-Entitled a_site a_visit (codes "root") (codes "pw") a_console

cookie_read : parse_cookie a_request.cookie console_cookie ≡ some (codes "t")
unfolding parse_cookie find_cookie named_value split split_cons split_once split_once_cons trim
    trim_start trim_cons trim_end is_whitespace text_eq
cookie_read = refl

logged_out : console_logout a_site a_visit a_request.cookie 1 a_console ≡ (
  ok (clear_cookie_header console_cookie ∷ clear_cookie_header (codes "nexa_console_csrf") ∷ []),
  (console_logout a_site a_visit a_request.cookie 1 a_console).1,
)
unfolding console_logout delete_cookie_session add_event append_set_cookie pure ◌>>=◌ parse_cookie
    find_cookie named_value split split_cons split_once split_once_cons trim trim_start trim_cons
    trim_end is_whitespace text_eq
logged_out = refl

require_console_admin-console_logout_example :
    (e : AppError) × (require_console_admin a_site a_visit a_request an_answer
        (console_logout a_site a_visit a_request.cookie 1 a_console).1
      ≡ (err e, (console_logout a_site a_visit a_request.cookie 1 a_console).1))
require_console_admin-console_logout_example =
    require_console_admin-console_logout a_site a_visit a_visit a_request.cookie (codes "t") 1
      (clear_cookie_header console_cookie ∷ clear_cookie_header (codes "nexa_console_csrf") ∷ [])
      a_request an_answer a_console (console_logout a_site a_visit a_request.cookie 1 a_console).1
      cookie_read logged_out refl

abbrev a_cookie : Text × Text
a_cookie = (codes "k", codes "v")

a_cookie-IsCookie : IsCookie a_cookie
unfolding contains_char trim trim_start trim_cons trim_end is_whitespace
a_cookie-IsCookie = record {
  is_name = record { no_semicolon = refl; is_trimmed = refl };
  no_equals = refl;
  is_value = record { no_semicolon = refl; is_trimmed = refl };
}

parse_cookie-cookie_text_example :
    parse_cookie (some (cookie_text a_cookie (a_cookie ∷ []))) (codes "k")
    ≡ lookup (codes "k") (a_cookie ∷ a_cookie ∷ [])
parse_cookie-cookie_text_example =
    parse_cookie-cookie_text (codes "k") a_cookie (a_cookie ∷ [])
      (a_cookie-IsCookie, (a_cookie-IsCookie, tt))
