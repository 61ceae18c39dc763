-- ===== src/Download/Slice.antt =====
-- The bytes of a response's body (server/src/handlers/download.rs).
use nexa_drive.Prelude.{
  ℕ, zero, suc, ◌+◌, ◌-◌, ◌≤◌, ◌≡◌, refl, sym, ap, ◌∙◌, Bool, true, false, Option, List, [], ◌∷◌,
  ◌++◌, arith, min, ltb, take, drop, length, if◌then◌else◌, take-append-take-drop,
}
use mathlib.Core.List.{append-nil}
use nexa_drive.Text.{Text}
use nexa_drive.Paths.Range.{RangeAnswer, whole, part, refused, parse_byte_range}
use nexa_drive.Paths.Range.Bounds.{Inside, parse_byte_range-Inside}
use nexa_drive.Download.{
  Response, Piece, piece, read_error, OpenFile, chunk, stream_range, async_stream_range,
  part_response, answer_range, file_response,
}

-- The bytes of a stream.
unfoldable pub body_bytes : List Piece → List ℕ
body_bytes [] = []
body_bytes (piece b ∷ ps) = b ++ body_bytes ps
body_bytes (read_error ∷ ps) = body_bytes ps

drop_nil : (k : ℕ) → drop {A = ℕ} k [] ≡ []
drop_nil zero = refl
drop_nil (suc k) = refl

drop-drop : (m n : ℕ) (xs : List ℕ) → drop n (drop m xs) ≡ drop (m + n) xs
drop-drop zero n xs = ap (λ k. drop k xs) (omega arith)
drop-drop (suc m) n [] = drop_nil n ∙ sym (drop_nil (suc m + n))
drop-drop (suc m) n (x ∷ xs) =
    drop-drop m n xs
    ∙ ap (λ k. drop k (x ∷ xs)) (let e : suc (m + n) ≡ suc m + n = omega arith in e)

stream_range-slice :
    (f : OpenFile) (k pos remaining : ℕ)
    → ((p : ℕ) → f.read_fails p ≡ false)
    → remaining ≤ k
    → pos + remaining ≤ length f.content
    → body_bytes (stream_range f k pos remaining) ≡ take remaining (drop pos f.content)
unfolding stream_range body_bytes
stream_range-slice f zero pos zero h le inside = refl
stream_range-slice f zero pos (suc r) h le inside = absurd (omega arith)
stream_range-slice f (suc k) pos zero h le inside = refl
stream_range-slice f (suc k) pos (suc r) h le inside =
    let want = min (suc r) chunk in
    let within : ltb (length f.content) (pos + want) ≡ false = ground arith in
    rw (h pos, within)
      (ap (λ b. take want (drop pos f.content) ++ b)
          (stream_range-slice f k (pos + want) (suc r - want) h (omega arith) (omega arith)
            ∙ ap (take (suc r - want)) (sym (drop-drop pos want f.content)))
        ∙ take-append-take-drop want (suc r - want) (drop pos f.content)
        ∙ ap (λ n. take n (drop pos f.content))
            (let e : want + (suc r - want) ≡ suc r = omega arith in e))

-- What the response promises of the body.
abbrev pub Sends : List ℕ → RangeAnswer → List Piece → Type 0
Sends content whole body = body_bytes body ≡ content
Sends content refused body = body ≡ []
Sends content (part r) body = body_bytes body ≡ take (r.end - r.start + 1) (drop r.start content)

answered : (b : Bool) (x y : Response) → b ≡ false → (if b then x else y).body ≡ y.body
answered true x y k = cc
answered false x y k = refl

answer_range-Sends :
    (f : OpenFile) (mime disposition : Text) (a : RangeAnswer)
    → ((p : ℕ) → f.read_fails p ≡ false)
    → f.seek_fails ≡ false
    → Inside (length f.content) a
    → Sends f.content a (answer_range f (length f.content) mime disposition a).body
unfolding answer_range part_response async_stream_range body_bytes
answer_range-Sends f mime disposition whole h k i = append-nil f.content
answer_range-Sends f mime disposition refused h k i = refl
answer_range-Sends f mime disposition (part r) h k i =
    ap body_bytes (answered f.seek_fails _ _ k)
    ∙ (stream_range-slice f (r.end - r.start + 1) r.start (r.end - r.start + 1) h (omega arith)
        (omega arith))

-- Where the file can be read, a download sends the whole file, or, for a range that it serves, exactly
-- the bytes of that range, in pieces; a range that is refused has no body.
pub file_response-Sends :
    (f : OpenFile) (name : Text) (range_header : Option Text)
    → ((p : ℕ) → f.read_fails p ≡ false)
    → f.seek_fails ≡ false
    → Sends f.content
        (parse_byte_range range_header (length f.content))
        (file_response f (length f.content) name range_header).body
unfolding file_response
file_response-Sends f name range_header h k =
    answer_range-Sends f _ _ (parse_byte_range range_header (length f.content)) h k
      (parse_byte_range-Inside range_header (length f.content))
