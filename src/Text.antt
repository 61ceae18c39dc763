-- ===== src/Text.antt =====
-- The operations of Rust's `str` that the server uses, on a text as the list of its code points
-- (for the ASCII texts that the server itself writes, also the list of its bytes).
pub mod Decimal
pub mod Laws
use Prim.Native.Char.{code}
use nexa_drive.Prelude.{
  ℕ, ◌+◌, ◌≡◌, ◌↔◌, Bool, true, false, ◌&&◌, ◌||◌, Option, none, some, List, [], ◌∷◌, ◌++◌, map,
  String, arith, leb, ◌==◌, if◌then◌else◌, refl, any,
}

abbrev pub Text : Type 0
Text = List ℕ

-- A literal of the source.
abbrev pub codes : String → Text
codes String.[] = []
codes (String.◌∷◌ c s) = code c ∷ codes s

unfoldable pub text_eq : Text → Text → Bool
text_eq [] [] = true
text_eq (a ∷ s) (b ∷ t) = a == b && text_eq s t
text_eq _ _ = false

unfoldable pub is_empty : Text → Bool
is_empty [] = true
is_empty (c ∷ s) = false

-- char::is_whitespace: the Unicode property White_Space.
unfoldable pub is_whitespace : ℕ → Bool
is_whitespace c =
    leb 9 c && leb c 13
    || (c == 32
        || (c == 0x85
            || (c == 0xA0
                || (c == 0x1680
                    || (leb 0x2000 c && leb c 0x200A
                        || (c == 0x2028
                            || (c == 0x2029 || (c == 0x202F || (c == 0x205F || c == 0x3000)))))))))

unfoldable pub trim_start : Text → Text
trim_start [] = []
trim_start (c ∷ s) = if is_whitespace c then trim_start s else c ∷ s

-- One more character in front of a text that is trimmed at its end.
unfoldable pub trim_cons : ℕ → Text → Text
trim_cons c [] = if is_whitespace c then [] else c ∷ []
trim_cons c (d ∷ s) = c ∷ d ∷ s

unfoldable pub trim_end : Text → Text
unfolding trim_cons
trim_end [] = []
trim_end (c ∷ s) = trim_cons c (trim_end s)

unfoldable pub trim : Text → Text
unfolding trim_start trim_end
trim s = trim_end (trim_start s)

unfoldable pub contains_char : ℕ → Text → Bool
contains_char c [] = false
contains_char c (d ∷ s) = d == c || contains_char c s

-- `strip_prefix` with a text as the pattern.
unfoldable pub strip_prefix : Text → Text → Option Text
strip_prefix [] s = some s
strip_prefix (p ∷ ps) [] = none
strip_prefix (p ∷ ps) (c ∷ s) = if c == p then strip_prefix ps s else none

unfoldable pub starts_with : Text → Text → Bool
unfolding strip_prefix
starts_with p s = elim (strip_prefix p s) [ none ↦ false | some _ ↦ true ]

-- `s.contains(p)` with a text as the pattern.
unfoldable pub contains : Text → Text → Bool
unfolding starts_with
contains p [] = starts_with p []
contains p (c ∷ s) = starts_with p (c ∷ s) || contains p s

unfoldable pub split_cons : ℕ → ℕ → List Text → List Text
split_cons sep c [] = if c == sep then [] ∷ [] else (c ∷ []) ∷ []
split_cons sep c (w ∷ ws) = if c == sep then [] ∷ w ∷ ws else (c ∷ w) ∷ ws

-- `s.split(sep)`: one piece more than there are separators.
unfoldable pub split : ℕ → Text → List Text
unfolding split_cons
split sep [] = [] ∷ []
split sep (c ∷ s) = split_cons sep c (split sep s)

unfoldable pub split_once_cons : ℕ → Option (Text × Text) → Option (Text × Text)
split_once_cons c none = none
split_once_cons c (some (a, b)) = some (c ∷ a, b)

-- `s.split_once(sep)`: at the first separator.
unfoldable pub split_once : ℕ → Text → Option (Text × Text)
unfolding split_once_cons
split_once sep [] = none
split_once sep (c ∷ s) = if c == sep then some ([], s) else split_once_cons c (split_once sep s)

-- The pieces with one separator between each two of them (a `PathBuf` as text, for `/`).
unfoldable pub join : ℕ → List Text → Text
join sep [] = []
join sep (w ∷ []) = w
join sep (w ∷ v ∷ ws) = w ++ (sep ∷ join sep (v ∷ ws))

-- `s.replace(a, b)` for single characters.
unfoldable pub replace : ℕ → ℕ → Text → Text
replace a b = map (λ c. if c == a then b else c)

unfoldable pub ascii_lower : ℕ → ℕ
ascii_lower c = if leb 65 c && leb c 90 then c + 32 else c

unfoldable pub to_ascii_lowercase : Text → Text
unfolding ascii_lower
to_ascii_lowercase = map ascii_lower

-- Whether a text is one of the literals of a `match` arm.
unfoldable pub one_of : List Text → Text → Bool
unfolding text_eq
one_of ls s = any (text_eq s) ls
