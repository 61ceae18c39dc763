-- ===== src/Paths/Range/Bounds.antt =====
-- Ranges against the size of the file (server/src/paths.rs).
use nexa_drive.Prelude.{ℕ, ◌-◌, ◌≤◌, ◌<◌, Option, none, some, List, [], ◌∷◌, arith, if◌then◌else◌}
use nexa_drive.Text.{Text, codes, is_empty, trim, strip_prefix, split, split_once}
use nexa_drive.Text.Decimal.{parse_u64}
use nexa_drive.Paths.Range.{
  RangeAnswer, whole, part, refused, suffix_range, bounded_range, start_end_range, range_form,
  single_range, range_set, unit_range, parse_byte_range,
}

abbrev pub Inside : ℕ → RangeAnswer → Type 0
Inside size whole = Unit {0}
Inside size refused = Unit {0}
Inside size (part r) = (r.start ≤ r.end) × (r.end < size)

suffix-Inside : (size : ℕ) (n : Option ℕ) → Inside size (suffix_range size n)
unfolding suffix_range
suffix-Inside size none = tt
suffix-Inside size (some n) = ground arith

bounded-Inside : (size : ℕ) (a b : Option ℕ) → Inside size (bounded_range size a b)
unfolding bounded_range
bounded-Inside size none b = tt
bounded-Inside size (some a) none = tt
bounded-Inside size (some a) (some b) = ground arith

start_end-Inside : (size : ℕ) (o : Option (Text × Text)) → Inside size (start_end_range size o)
unfolding start_end_range
start_end-Inside size none = tt
start_end-Inside size (some (a, b)) =
    bounded-Inside size (parse_u64 (trim a))
      (if is_empty (trim b) then some (size - 1) else parse_u64 (trim b))

form-Inside : (size : ℕ) (first : Text) (o : Option Text) → Inside size (range_form size first o)
unfolding range_form
form-Inside size first none = start_end-Inside size (split_once b'-' first)
form-Inside size first (some s) = suffix-Inside size (parse_u64 s)

set-Inside : (size : ℕ) (ws : List Text) → Inside size (range_set size ws)
unfolding range_set single_range
set-Inside size [] = form-Inside size (trim []) (strip_prefix (codes "-") (trim []))
set-Inside size (a ∷ []) = form-Inside size (trim a) (strip_prefix (codes "-") (trim a))
set-Inside size (a ∷ b ∷ ws) = tt

unit-Inside : (size : ℕ) (o : Option Text) → Inside size (unit_range size o)
unfolding unit_range
unit-Inside size none = tt
unit-Inside size (some set) = set-Inside size (split b',' set)

-- Whatever the header says, a range that is served starts at or before its end and ends before the
-- end of the file.
pub parse_byte_range-Inside :
    (header : Option Text) (size : ℕ) → Inside size (parse_byte_range header size)
unfolding parse_byte_range
parse_byte_range-Inside none size = tt
parse_byte_range-Inside (some value) size =
    unit-Inside size (strip_prefix (codes "bytes=") (trim value))
