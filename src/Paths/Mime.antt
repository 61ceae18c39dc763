-- ===== src/Paths/Mime.antt =====
-- Content types by extension, and the `Content-Disposition` header (server/src/paths.rs).
pub mod Inline
pub mod Disposition
use nexa_drive.Prelude.{
  ℕ, zero, suc, ◌+◌, ◌-◌, ◌*◌, ◌/◌, ◌%◌, Bool, true, false, ◌&&◌, ◌||◌, not, Option, none, some,
  List, [], ◌∷◌, ◌++◌, map, String, leb, ltb, ◌==◌, if◌then◌else◌, all,
}
use nexa_drive.Text.{Text, codes, one_of, is_empty, to_ascii_lowercase, text_eq, starts_with}
use nexa_drive.Paths.{FilePath}

-- Path::file_name
unfoldable pub file_name : FilePath → Option Text
file_name [] = none
file_name (w ∷ []) = some w
file_name (w ∷ v ∷ ws) = file_name (v ∷ ws)

unfoldable pub rsplit_dot_cons : ℕ → Option (Text × Text) → Option (Text × Text)
rsplit_dot_cons c (some (stem, extension)) = some (c ∷ stem, extension)
rsplit_dot_cons c none = none

-- A name at its last dot.
unfoldable pub rsplit_dot : Text → Option (Text × Text)
rsplit_dot [] = none
rsplit_dot (c ∷ s) = elim (rsplit_dot s) [
  | some p ↦ rsplit_dot_cons c (some p)
  | none ↦ if c == b'.' then some ([], s) else none
]

unfoldable pub stem_extension : Option (Text × Text) → Option Text
stem_extension none = none
stem_extension (some (stem, extension)) = if is_empty stem then none else some extension

-- Path::extension: a name that only begins with a dot has none.
unfoldable pub extension : FilePath → Option Text
extension p = elim (file_name p) [ none ↦ none | some name ↦ stem_extension (rsplit_dot name) ]

-- `.map(to_ascii_lowercase).unwrap_or_default()`
unfoldable pub lower_extension : FilePath → Text
lower_extension p = elim (extension p) [ none ↦ [] | some e ↦ to_ascii_lowercase e ]

abbrev photo_extensions : List Text
photo_extensions =
    codes "jpg"
    ∷ codes "jpeg"
    ∷ codes "png"
    ∷ codes "gif"
    ∷ codes "webp"
    ∷ codes "bmp"
    ∷ codes "heic"
    ∷ codes "heif"
    ∷ codes "avif"
    ∷ codes "tif"
    ∷ codes "tiff"
    ∷ []

unfoldable pub is_photo : FilePath → Bool
is_photo p = elim (extension p) [
  | none ↦ false
  | some e ↦ one_of photo_extensions (to_ascii_lowercase e)
]

-- The arms of the `match` on the extension, in order, without the last.
abbrev pub mime_arms : List (List Text × Text)
mime_arms =
    (codes "jpg" ∷ codes "jpeg" ∷ [], codes "image/jpeg")
    ∷ (codes "png" ∷ [], codes "image/png")
    ∷ (codes "gif" ∷ [], codes "image/gif")
    ∷ (codes "webp" ∷ [], codes "image/webp")
    ∷ (codes "bmp" ∷ [], codes "image/bmp")
    ∷ (codes "heic" ∷ codes "heif" ∷ [], codes "image/heic")
    ∷ (codes "avif" ∷ [], codes "image/avif")
    ∷ (codes "tif" ∷ codes "tiff" ∷ [], codes "image/tiff")
    ∷ (codes "mp4" ∷ codes "m4v" ∷ [], codes "video/mp4")
    ∷ (codes "webm" ∷ [], codes "video/webm")
    ∷ (codes "mkv" ∷ [], codes "video/x-matroska")
    ∷ (codes "mov" ∷ [], codes "video/quicktime")
    ∷ (codes "mp3" ∷ [], codes "audio/mpeg")
    ∷ (codes "m4a" ∷ [], codes "audio/mp4")
    ∷ (codes "aac" ∷ [], codes "audio/aac")
    ∷ (codes "wav" ∷ [], codes "audio/wav")
    ∷ (codes "flac" ∷ [], codes "audio/flac")
    ∷ (codes "ogg" ∷ codes "opus" ∷ [], codes "audio/ogg")
    ∷ (codes "pdf" ∷ [], codes "application/pdf")
    ∷ (
      codes "txt"
          ∷ codes "md"
          ∷ codes "log"
          ∷ codes "csv"
          ∷ codes "json"
          ∷ codes "xml"
          ∷ codes "yaml"
          ∷ codes "yml"
          ∷ codes "toml"
          ∷ codes "conf"
          ∷ codes "ini"
          ∷ codes "cfg"
          ∷ [],
      codes "text/plain; charset=utf-8",
    )
    ∷ (codes "html" ∷ codes "htm" ∷ [], codes "text/html; charset=utf-8")
    ∷ (codes "css" ∷ [], codes "text/css; charset=utf-8")
    ∷ (codes "js" ∷ [], codes "text/javascript; charset=utf-8")
    ∷ (codes "zip" ∷ [], codes "application/zip")
    ∷ (codes "7z" ∷ [], codes "application/x-7z-compressed")
    ∷ (codes "tar" ∷ [], codes "application/x-tar")
    ∷ (codes "gz" ∷ [], codes "application/gzip")
    ∷ (codes "rar" ∷ [], codes "application/vnd.rar")
    ∷ []

-- The first arm that has the extension.
unfoldable pub match_arm : List (List Text × Text) → Text → Text
match_arm [] ext = codes "application/octet-stream"
match_arm ((patterns, mime) ∷ arms) ext = if one_of patterns ext then mime else match_arm arms ext

unfoldable pub mime_for_file : FilePath → Text
mime_for_file p = match_arm mime_arms (lower_extension p)

unfoldable pub mime_is_safe_inline : Text → Bool
mime_is_safe_inline mime = not (
    starts_with (codes "text/html") mime
    || (text_eq mime (codes "image/svg+xml") || starts_with (codes "text/javascript") mime))

unfoldable pub is_ascii_graphic : ℕ → Bool
is_ascii_graphic c = leb 33 c && leb c 126

unfoldable pub sanitized_char : ℕ → ℕ
sanitized_char c = if is_ascii_graphic c && (not (c == 34) && not (c == 92)) then c else b'_'

unfoldable pub is_ascii_alphanumeric : ℕ → Bool
is_ascii_alphanumeric c = leb 48 c && leb c 57 || (leb 65 c && leb c 90 || leb 97 c && leb c 122)

-- `{:X}` of a number below 16.
unfoldable pub hex_digit : ℕ → ℕ
hex_digit n = if ltb n 10 then 48 + n else 55 + n

unfoldable pub percent_encoded : ℕ → Text
percent_encoded b =
    if is_ascii_alphanumeric b || (b == b'-' || (b == b'.' || (b == b'_' || b == b'~')))
    then b ∷ []
    else b'%' ∷ hex_digit (b / 16) ∷ hex_digit (b % 16) ∷ []

-- The bytes of a character in UTF-8 (`str::bytes`).
unfoldable pub utf8 : ℕ → List ℕ
utf8 c =
    if ltb c 0x80
    then c ∷ []
    else if ltb c 0x800
    then (0xC0 + c / 64) ∷ (0x80 + c % 64) ∷ []
    else if ltb c 0x10000
    then (0xE0 + c / 4096) ∷ (0x80 + c / 64 % 64) ∷ (0x80 + c % 64) ∷ []
    else (0xF0 + c / 262144) ∷ (0x80 + c / 4096 % 64) ∷ (0x80 + c / 64 % 64) ∷ (0x80 + c % 64) ∷ []

unfoldable pub encoded_bytes : List ℕ → Text
encoded_bytes [] = []
encoded_bytes (b ∷ bs) = percent_encoded b ++ encoded_bytes bs

unfoldable pub encoded : Text → Text
encoded [] = []
encoded (c ∷ s) = encoded_bytes (utf8 c) ++ encoded s

unfoldable pub quoted_name : Text → Text
quoted_name = map sanitized_char

unfoldable pub disposition_kind : Bool → Text
disposition_kind inline = if inline then codes "inline" else codes "attachment"

-- What stands behind the quoted name.
unfoldable pub encoded_name : Text → Text
encoded_name name =
    if all (λ c. is_ascii_graphic c || c == 32) name && not (is_empty name)
    then []
    else codes "; filename*=UTF-8''" ++ encoded name

unfoldable pub content_disposition : Text → Bool → Text
content_disposition name inline =
    disposition_kind inline
    ++ (codes "; filename=\"" ++ (quoted_name name ++ (codes "\"" ++ encoded_name name)))
