-- ===== src/Download.antt =====
-- The response for a stored file (server/src/handlers/download.rs): its headers, and the body, whole or
-- of a range. A header value that is made here is visible ASCII, so `HeaderValue::from_str` accepts it.
pub mod Slice
use nexa_drive.Prelude.{
  ℕ, zero, suc, ◌+◌, ◌-◌, Bool, true, false, ◌||◌, Option, none, some, List, [], ◌∷◌, ◌++◌, ltb,
  if◌then◌else◌, min, take, drop, length,
}
use nexa_drive.Text.{Text, codes}
use nexa_drive.Text.Decimal.{to_decimal}
use nexa_drive.Paths.Mime.{mime_for_file, mime_is_safe_inline, content_disposition}
use nexa_drive.Paths.Range.{ByteRange, RangeAnswer, whole, part, refused, parse_byte_range}

-- What a stream yields: bytes, or the error of a read.
pub data Piece : Type 0 where
  piece : List ℕ → Piece
  read_error : Piece

pub record Response : Type 0 where
  pub status : ℕ
  pub content_type : Text
  pub disposition : Option Text
  pub content_range : Option Text
  pub content_length : Option Text
  pub body : List Piece

-- An open file: its bytes, the reads that fail (by position), and whether `seek` does.
pub record OpenFile : Type 0 where
  pub content : List ℕ
  pub read_fails : ℕ → Bool
  pub seek_fails : Bool

-- `CHUNK`: 256 KiB
abbrev pub chunk : ℕ
chunk = 262144

-- `async_stream_range`: each step takes at least one byte, so as many steps as bytes are enough.
unfoldable pub stream_range : OpenFile → ℕ → ℕ → ℕ → List Piece
stream_range f zero pos remaining = []
stream_range f (suc k) pos zero = []
stream_range f (suc k) pos (suc r) =
    let want = min (suc r) chunk in
    let rest = stream_range f k (pos + want) (suc r - want) in
    if f.read_fails pos || ltb (length f.content) (pos + want)
    then read_error ∷ []
    else piece (take want (drop pos f.content)) ∷ rest

unfoldable pub async_stream_range : OpenFile → ℕ → ℕ → List Piece
async_stream_range f start length = stream_range f length start length

unfoldable pub range_text : ByteRange → ℕ → Text
range_text r size =
    codes "bytes "
    ++ (to_decimal r.start ++ (codes "-" ++ (to_decimal r.end ++ (codes "/" ++ to_decimal size))))

unfoldable pub server_error : Response
server_error = record {
  status = 500;
  content_type = codes "application/json";
  disposition = none;
  content_range = none;
  content_length = none;
  body = [];
}

unfoldable pub part_response : OpenFile → ℕ → Text → Text → ByteRange → Response
part_response f size mime disposition r = if f.seek_fails then server_error else record {
  status = 206;
  content_type = mime;
  disposition = some disposition;
  content_range = some (range_text r size);
  content_length = some (to_decimal (r.end - r.start + 1));
  body = async_stream_range f r.start (r.end - r.start + 1);
}

unfoldable pub answer_range : OpenFile → ℕ → Text → Text → RangeAnswer → Response
answer_range f size mime disposition (part r) = part_response f size mime disposition r
answer_range f size mime disposition refused = record {
  status = 416;
  content_type = mime;
  disposition = none;
  content_range = some (codes "bytes */" ++ to_decimal size);
  content_length = none;
  body = [];
}
answer_range f size mime disposition whole = record {
  status = 200;
  content_type = mime;
  disposition = some disposition;
  content_range = none;
  content_length = some (to_decimal size);
  body = piece f.content ∷ [];
}

unfoldable pub file_response : OpenFile → ℕ → Text → Option Text → Response
file_response f size name range_header =
    let mime = mime_for_file (name ∷ []) in
    answer_range f size mime (content_disposition name (mime_is_safe_inline mime))
      (parse_byte_range range_header size)
