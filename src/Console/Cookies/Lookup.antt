-- ===== src/Console/Cookies/Lookup.antt =====
-- Reading the header `Cookie` of server/src/console/session.rs: the look-up in the cookies that a browser sends.
use nexa_drive.Prelude.{
  ℕ, ◌≡◌, refl, ap, ◌∙◌, false, Option, none, some, List, [], ◌∷◌, ◌++◌, arith, if◌then◌else◌, map,
}
use nexa_drive.Text.{
  Text, text_eq, trim, trim_start, is_whitespace, contains_char, split_once, split_once_cons, join,
}
use nexa_drive.Text.Laws.{Without, split-join}
use nexa_drive.Console.Cookies.{named_value, find_cookie, parse_cookie}

-- A name or value without separators, and without white space at its ends.
pub record IsPlain (s : Text) : Type 0 where
  pub no_semicolon : contains_char 59 s ≡ false
  pub is_trimmed : trim s ≡ s

pub record IsCookie (p : Text × Text) : Type 0 where
  pub is_name : IsPlain p.0
  pub no_equals : contains_char 61 p.0 ≡ false
  pub is_value : IsPlain p.1

abbrev pub AllCookies : List (Text × Text) → Type 0
AllCookies [] = Unit {0}
AllCookies (p ∷ ps) = IsCookie p × AllCookies ps

-- `name=value; name=value; …`, as a browser writes the header.
unfoldable pub pair_text : Text × Text → Text
pair_text p = p.0 ++ 61 ∷ p.1

unfoldable pub cookie_text : Text × Text → List (Text × Text) → Text
cookie_text p ps = join 59 (pair_text p ∷ map (λ q. 32 ∷ pair_text q) ps)

unfoldable pub lookup : Text → List (Text × Text) → Option Text
lookup name [] = none
lookup name ((k, v) ∷ ps) = if text_eq k name then some v else lookup name ps

split_once-append :
    (k v : Text) → contains_char 61 k ≡ false → split_once 61 (k ++ 61 ∷ v) ≡ some (k, v)
unfolding split_once contains_char split_once_cons
split_once-append [] v h = refl
split_once-append (c ∷ k) v h = ground (arith, split_once-append k v)

contains_char-append :
    (c : ℕ) (s t : Text)
    → contains_char c s ≡ false
    → contains_char c t ≡ false
    → contains_char c (s ++ t) ≡ false
unfolding contains_char
contains_char-append c [] t h k = k
contains_char-append c (d ∷ s) t h k = ground (arith, contains_char-append c s t)

trim-space : (s : Text) → trim (32 ∷ s) ≡ trim s
unfolding trim trim_start is_whitespace
trim-space s = refl

pair-plain : (p : Text × Text) → IsCookie p → contains_char 59 (pair_text p) ≡ false
unfolding pair_text contains_char
pair-plain p h =
    contains_char-append 59 p.0 (61 ∷ p.1) h.is_name.no_semicolon h.is_value.no_semicolon

spaced-plain : (p : Text × Text) → IsCookie p → contains_char 59 (32 ∷ pair_text p) ≡ false
unfolding contains_char
spaced-plain p h = pair-plain p h

pairs-Without :
    (ps : List (Text × Text)) → AllCookies ps → Without 59 (map (λ q. 32 ∷ pair_text q) ps)
pairs-Without [] h = tt
pairs-Without (p ∷ ps) h = (spaced-plain p h.0, pairs-Without ps h.1)

named-pair :
    (name k k' v : Text) (o rest : Option Text)
    → trim k ≡ k'
    → trim v ≡ v
    → rest ≡ o
    → named_value name (some (k, v)) rest ≡ (if text_eq k' name then some v else o)
unfolding named_value
named-pair name k k' v o rest e f g =
    ap (λ x. if text_eq x name then some (trim v) else rest) e
    ∙ ap (λ x. if text_eq k' name then some x else rest) f
    ∙ ap (λ x. if text_eq k' name then some v else x) g

spaced-once :
    (p : Text × Text) → IsCookie p → split_once 61 (32 ∷ pair_text p) ≡ some (32 ∷ p.0, p.1)
unfolding split_once split_once_cons pair_text
spaced-once p h = ap (split_once_cons 32) (split_once-append p.0 p.1 h.no_equals)

first-once : (p : Text × Text) → IsCookie p → split_once 61 (pair_text p) ≡ some (p.0, p.1)
unfolding pair_text
first-once p h = split_once-append p.0 p.1 h.no_equals

find-lookup :
    (name : Text) (ps : List (Text × Text))
    → AllCookies ps
    → find_cookie name (map (λ q. 32 ∷ pair_text q) ps) ≡ lookup name ps
unfolding find_cookie lookup
find-lookup name [] h = refl
find-lookup name (p ∷ ps) h =
    ap (λ o. named_value name o (find_cookie name (map (λ q. 32 ∷ pair_text q) ps)))
      (spaced-once p h.0)
    ∙ named-pair name (32 ∷ p.0) p.0 p.1 _ _ (trim-space p.0 ∙ h.0.is_name.is_trimmed)
        h.0.is_value.is_trimmed (find-lookup name ps h.1)

-- Of the cookies that a browser sends, names and values without semicolons or outer white space and
-- names without equals signs, the first one of a name is read, with its value, and nothing where no cookie
-- has the name.
pub parse_cookie-cookie_text :
    (name : Text) (p : Text × Text) (ps : List (Text × Text))
    → AllCookies (p ∷ ps)
    → parse_cookie (some (cookie_text p ps)) name ≡ lookup name (p ∷ ps)
unfolding parse_cookie cookie_text find_cookie lookup
parse_cookie-cookie_text name p ps h =
    ap (find_cookie name) (
      split-join 59 (pair_text p) (map (λ q. 32 ∷ pair_text q) ps)
        (pair-plain p h.0, pairs-Without ps h.1))
    ∙ ap (λ o. named_value name o (find_cookie name (map (λ q. 32 ∷ pair_text q) ps)))
        (first-once p h.0)
    ∙ named-pair name p.0 p.0 p.1 _ _ h.0.is_name.is_trimmed h.0.is_value.is_trimmed
        (find-lookup name ps h.1)
