-- ===== src/Paths/Mime/Disposition.antt =====
-- The characters of a `Content-Disposition` header (server/src/paths.rs).
use nexa_drive.Prelude.{
  ℕ, ◌/◌, ◌%◌, ◌<◌, ◌≡◌, refl, Bool, true, ◌&&◌, ◌||◌, not, List, [], ◌∷◌, ◌++◌, arith, all, leb,
  ltb, ◌==◌, if◌then◌else◌, Bool-cases, inl, inr,
}
use nexa_drive.Text.{Text, codes, is_empty}
use nexa_drive.Paths.Mime.{
  is_ascii_graphic, sanitized_char, is_ascii_alphanumeric, hex_digit, percent_encoded, utf8,
  encoded_bytes, encoded, quoted_name, disposition_kind, encoded_name, content_disposition,
}

-- Printable ASCII without the double quote.
pub is_unquoted : ℕ → Bool
is_unquoted c = leb 32 c && leb c 126 && not (c == 34)

abbrev pub Unquoted : Text → Type 0
Unquoted s = all is_unquoted s ≡ true

Unquoted-append : (s t : Text) → Unquoted s → Unquoted t → Unquoted (s ++ t)
Unquoted-append [] t h k = k
Unquoted-append (c ∷ s) t h k = ground (arith, Unquoted-append s t)

quoted_name-Unquoted : (name : Text) → Unquoted (quoted_name name)
unfolding quoted_name sanitized_char is_ascii_graphic is_unquoted
quoted_name-Unquoted [] = refl
quoted_name-Unquoted (c ∷ s) = ground (arith, quoted_name-Unquoted s)

hex-unquoted : (n : ℕ) → n < 16 → is_unquoted (hex_digit n) ≡ true
unfolding hex_digit is_unquoted
hex-unquoted n h = ground arith

plain-unquoted :
    (b : ℕ)
    → (is_ascii_alphanumeric b || (b == b'-' || (b == b'.' || (b == b'_' || b == b'~')))) ≡ true
    → is_unquoted b ≡ true
unfolding is_ascii_alphanumeric is_unquoted
plain-unquoted b h = ground arith

both : (a b : Bool) → a ≡ true → b ≡ true → (a && (b && true)) ≡ true
both a b h k = ground arith

percent-Unquoted : (b : ℕ) → b < 256 → Unquoted (percent_encoded b)
unfolding percent_encoded
percent-Unquoted b h =
    elim (Bool-cases
      (is_ascii_alphanumeric b || (b == b'-' || (b == b'.' || (b == b'_' || b == b'~'))))) [
        | inl e ↦ rw e (rw (plain-unquoted b e) refl)
        | inr e ↦ rw e (
            unfold is_unquoted in
            both (is_unquoted (hex_digit (b / 16))) (is_unquoted (hex_digit (b % 16)))
              (hex-unquoted (b / 16) (omega arith)) (hex-unquoted (b % 16) (omega arith)))
      ]

bytes-Unquoted : (bs : List ℕ) → all (λ b. ltb b 256) bs ≡ true → Unquoted (encoded_bytes bs)
unfolding encoded_bytes
bytes-Unquoted [] h = refl
bytes-Unquoted (b ∷ bs) h =
    Unquoted-append (percent_encoded b) (encoded_bytes bs) (percent-Unquoted b (ground arith))
      (bytes-Unquoted bs (ground arith))

utf8_bytes : (c : ℕ) → c < 0x110000 → all (λ b. ltb b 256) (utf8 c) ≡ true
unfolding utf8
utf8_bytes c h = ground arith

-- The characters of a text are code points.
abbrev pub CodePoints : Text → Type 0
CodePoints s = all (λ c. ltb c 0x110000) s ≡ true

encoded-Unquoted : (s : Text) → CodePoints s → Unquoted (encoded s)
unfolding encoded
encoded-Unquoted [] h = refl
encoded-Unquoted (c ∷ s) h =
    Unquoted-append (encoded_bytes (utf8 c)) (encoded s)
      (bytes-Unquoted (utf8 c) (utf8_bytes c (ground arith))) (encoded-Unquoted s (ground arith))

encoded_name-Unquoted : (name : Text) → CodePoints name → Unquoted (encoded_name name)
unfolding encoded_name is_unquoted
encoded_name-Unquoted name h =
    elim (Bool-cases (all (λ c. is_ascii_graphic c || c == 32) name && not (is_empty name))) [
      | inl e ↦ rw e refl
      | inr e ↦ rw e (encoded-Unquoted name h)
    ]

-- The header is the kind, the quoted name and a rest. For a name made of code points, the quoted
-- name and the rest are printable ASCII without the double quote, so the quotes around the name
-- are the only ones and no line break can enter the header; the kind is `inline` or `attachment`.
pub content_disposition-Unquoted :
    (name : Text) (inline : Bool)
    → CodePoints name
    → (quoted rest : Text) × (content_disposition name inline
        ≡ (if inline then codes "inline" else codes "attachment")
          ++ (codes "; filename=\"" ++ (quoted ++ (codes "\"" ++ rest))))
      × Unquoted quoted
      × Unquoted rest
unfolding content_disposition disposition_kind
content_disposition-Unquoted name inline h = (
  quoted_name name,
  encoded_name name,
  refl,
  quoted_name-Unquoted name,
  encoded_name-Unquoted name h,
)
