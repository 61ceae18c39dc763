-- ===== src/Paths/Range.antt =====
-- The `Range` header of a download (server/src/paths.rs, `parse_byte_range`).
pub mod Bounds
pub mod Forms
use nexa_drive.Prelude.{
  ℕ, ◌-◌, Bool, ◌||◌, Option, none, some, List, [], ◌∷◌, ltb, leb, ◌==◌, if◌then◌else◌, min,
}
use nexa_drive.Text.{Text, codes, is_empty, trim, strip_prefix, split, split_once}
use nexa_drive.Text.Decimal.{parse_u64}

pub record ByteRange : Type 0 where
  pub start : ℕ
  pub end : ℕ

-- `Ok(None)`, `Ok(Some(range))` and `Err(())`.
pub data RangeAnswer : Type 0 where
  whole : RangeAnswer
  part : ByteRange → RangeAnswer
  refused : RangeAnswer

-- The last `n` bytes.
unfoldable pub suffix_range : ℕ → Option ℕ → RangeAnswer
suffix_range size none = refused
suffix_range size (some n) =
    if n == 0 || size == 0
    then refused
    else part (record { start = size - min n size; end = size - 1 })

unfoldable pub bounded_range : ℕ → Option ℕ → Option ℕ → RangeAnswer
bounded_range size none end = refused
bounded_range size (some start) none = refused
bounded_range size (some start) (some end) =
    if ltb end start || leb size start
    then refused
    else part (record { start = start; end = min end (size - 1) })

unfoldable pub start_end_range : ℕ → Option (Text × Text) → RangeAnswer
start_end_range size none = refused
start_end_range size (some (start_raw, end_raw)) =
    bounded_range size (parse_u64 (trim start_raw))
      (if is_empty (trim end_raw) then some (size - 1) else parse_u64 (trim end_raw))

-- On the rest behind a leading `-`, if there is one.
unfoldable pub range_form : ℕ → Text → Option Text → RangeAnswer
range_form size first (some suffix) = suffix_range size (parse_u64 suffix)
range_form size first none = start_end_range size (split_once b'-' first)

unfoldable pub single_range : ℕ → Text → RangeAnswer
single_range size first = range_form size first (strip_prefix (codes "-") first)

-- One range only: several are refused.
unfoldable pub range_set : ℕ → List Text → RangeAnswer
range_set size [] = single_range size (trim [])
range_set size (first ∷ []) = single_range size (trim first)
range_set size (first ∷ second ∷ rest) = refused

-- On the rest behind the unit, if it is `bytes=`.
unfoldable pub unit_range : ℕ → Option Text → RangeAnswer
unit_range size none = refused
unit_range size (some set) = range_set size (split b',' set)

unfoldable pub parse_byte_range : Option Text → ℕ → RangeAnswer
parse_byte_range none size = whole
parse_byte_range (some value) size = unit_range size (strip_prefix (codes "bytes=") (trim value))
