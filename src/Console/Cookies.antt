-- ===== src/Console/Cookies.antt =====
-- The cookies of the console (server/src/console/session.rs).
pub mod Lookup
use nexa_drive.Prelude.{ℕ, Bool, Option, none, some, List, [], ◌∷◌, ◌++◌, if◌then◌else◌}
use nexa_drive.Text.{Text, codes, text_eq, trim, split, split_once}
use nexa_drive.Text.Decimal.{to_decimal}

abbrev pub console_cookie : Text
console_cookie = codes "nexa_console"

abbrev pub csrf_cookie : Text
csrf_cookie = codes "nexa_console_csrf"

unfoldable pub named_value : Text → Option (Text × Text) → Option Text → Option Text
named_value name none rest = rest
named_value name (some (k, v)) rest = if text_eq (trim k) name then some (trim v) else rest

unfoldable pub find_cookie : Text → List Text → Option Text
find_cookie name [] = none
find_cookie name (pair ∷ pairs) = named_value name (split_once 61 pair) (find_cookie name pairs)

-- The first header `Cookie`, if it is a text.
unfoldable pub parse_cookie : Option Text → Text → Option Text
parse_cookie none name = none
parse_cookie (some raw) name = find_cookie name (split 59 raw)

unfoldable pub cookie_header : Text → Text → ℕ → Bool → Text
cookie_header name value ttl_secs http_only =
    let s =
      name ++ 61 ∷ value ++ codes "; Path=/; SameSite=Strict; Max-Age=" ++ to_decimal ttl_secs in
    if http_only then s ++ codes "; HttpOnly" else s

unfoldable pub clear_cookie_header : Text → Text
clear_cookie_header name = name ++ codes "=; Path=/; SameSite=Strict; Max-Age=0; HttpOnly"
