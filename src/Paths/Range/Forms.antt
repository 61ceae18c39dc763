-- ===== src/Paths/Range/Forms.antt =====
-- The forms of a `Range` header that clients write (server/src/paths.rs).
use nexa_drive.Prelude.{
  ℕ, ◌-◌, ◌≤◌, ◌<◌, ◌≡◌, ◌≢◌, refl, ◌∙◌, Bool, true, false, not, Option, none, some, [], ◌∷◌, ◌++◌,
  arith, all, ◌==◌, if◌then◌else◌, min,
}
use nexa_drive.Text.{
  Text, codes, is_whitespace, is_empty, trim, trim_start, trim_end, trim_cons, contains_char,
  strip_prefix, split_once, split_once_cons,
}
use nexa_drive.Text.Laws.{split-piece}
use nexa_drive.Text.Decimal.{
  to_decimal, u64_max, is_digit, AllDigits, to_decimal-AllDigits, to_decimal-ne-nil,
  parse-to_decimal,
}
use nexa_drive.Paths.Range.{
  part, suffix_range, bounded_range, start_end_range, range_form, single_range, range_set,
  unit_range, parse_byte_range,
}

-- No white space and no comma: what the header's characters are.
is_plain : ℕ → Bool
is_plain c = if is_whitespace c then false else not (c == b',')

trim_end-plain : (s : Text) → all is_plain s ≡ true → trim_end s ≡ s
unfolding trim_end is_plain
trim_end-plain [] h = refl
trim_end-plain (c ∷ s) h = rw (trim_end-plain s (ground arith)) (cons-plain c s (ground arith))
  where
    cons-plain : (c : ℕ) (s : Text) → is_whitespace c ≡ false → trim_cons c s ≡ c ∷ s
    cons-plain c [] e = ground arith
    cons-plain c (d ∷ s) e = refl

trim_start-plain : (s : Text) → all is_plain s ≡ true → trim_start s ≡ s
unfolding trim_start is_plain
trim_start-plain [] h = refl
trim_start-plain (c ∷ s) h = ground arith

trim-plain : (s : Text) → all is_plain s ≡ true → trim s ≡ s
unfolding trim
trim-plain s h = rw (trim_start-plain s h) (trim_end-plain s h)

no_comma : (s : Text) → all is_plain s ≡ true → contains_char b',' s ≡ false
unfolding contains_char is_plain
no_comma [] h = refl
no_comma (c ∷ s) h = ground (arith, no_comma s)

plain_of_digits : (s : Text) → AllDigits s → all is_plain s ≡ true
unfolding is_digit is_plain is_whitespace
plain_of_digits [] h = refl
plain_of_digits (c ∷ s) h = ground (arith, plain_of_digits s)

plain-append :
    (s t : Text) → all is_plain s ≡ true → all is_plain t ≡ true → all is_plain (s ++ t) ≡ true
plain-append [] t h k = k
plain-append (c ∷ s) t h k = ground (arith, plain-append s t)

-- The first dash stands behind the digits.
split_once-digits : (s t : Text) → AllDigits s → split_once b'-' (s ++ (b'-' ∷ t)) ≡ some (s, t)
unfolding split_once is_digit
split_once-digits [] t h = refl
split_once-digits (c ∷ s) t h =
    rw (split_once-digits s t (ground arith)) (unfold split_once_cons in ground arith)

no_dash : (s t : Text) → s ≢ [] → AllDigits s → strip_prefix (codes "-") (s ++ t) ≡ none
unfolding strip_prefix is_digit
no_dash [] t n h = absurd (n refl)
no_dash (c ∷ s) t n h = ground arith

abbrev pub header : Text → Option Text
header set = some (codes "bytes=" ++ set)

prefix_plain : (s : Text) → all is_plain s ≡ true → all is_plain (codes "bytes=" ++ s) ≡ true
unfolding is_plain is_whitespace
prefix_plain s h = plain-append (codes "bytes=") s refl h

-- A header without white space and commas is one range.
parse-plain :
    (set : Text) (size : ℕ)
    → all is_plain set ≡ true
    → parse_byte_range (header set) size ≡ single_range size set
unfolding parse_byte_range
parse-plain set size h = rw (trim-plain (codes "bytes=" ++ set) (prefix_plain set h)) (
    unfold strip_prefix unit_range in
    rw (split-piece b',' set (no_comma set h)) (unfold range_set in rw (trim-plain set h) refl))

dash_plain : (s : Text) → all is_plain s ≡ true → all is_plain (b'-' ∷ s) ≡ true
unfolding is_plain is_whitespace
dash_plain s h = h

-- `start-end` as a list of characters, with the digits of its bounds.
closed_range :
    (size a : ℕ) (t : Text)
    → all is_plain t ≡ true
    → a ≤ u64_max
    → parse_byte_range (header (to_decimal a ++ (b'-' ∷ t))) size
      ≡ start_end_range size (some (to_decimal a, t))
closed_range size a t h k =
    parse-plain (to_decimal a ++ (b'-' ∷ t)) size (
      plain-append (to_decimal a) (b'-' ∷ t)
        (plain_of_digits (to_decimal a) (to_decimal-AllDigits a)) (dash_plain t h))
    ∙ unfold single_range in
      rw (no_dash (to_decimal a) (b'-' ∷ t) (to_decimal-ne-nil a) (to_decimal-AllDigits a))
        (unfold range_form in rw (split_once-digits (to_decimal a) t (to_decimal-AllDigits a)) refl)

trim-to_decimal : (a : ℕ) → trim (to_decimal a) ≡ to_decimal a
trim-to_decimal a =
    trim-plain (to_decimal a) (plain_of_digits (to_decimal a) (to_decimal-AllDigits a))

is_empty-to_decimal : (s : Text) → s ≢ [] → is_empty s ≡ false
unfolding is_empty
is_empty-to_decimal [] h = absurd (h refl)
is_empty-to_decimal (c ∷ s) h = refl

-- `bytes=a-b` and `bytes=a-` are served from `a`, up to `b` or the end of the file, whichever comes
-- first, if `a` lies in the file and not behind `b`; `bytes=-n` is served as the last `n` bytes, or
-- all of them, if `n` is positive and the file is not empty. The numbers have 64 bits.
pub parse_byte_range-forms :
    (size a b n : ℕ)
    → a ≤ b
    → a < size
    → b ≤ u64_max
    → 0 < n
    → n ≤ u64_max
    → (parse_byte_range (header (to_decimal a ++ (b'-' ∷ to_decimal b))) size
        ≡ part (record { start = a; end = min b (size - 1) }))
      × (parse_byte_range (header (to_decimal a ++ (b'-' ∷ []))) size
          ≡ part (record { start = a; end = size - 1 }))
      × (parse_byte_range (header (b'-' ∷ to_decimal n)) size
          ≡ part (record { start = size - min n size; end = size - 1 }))
parse_byte_range-forms size a b n h k l m o = (
  closed_range size a (to_decimal b) (plain_of_digits (to_decimal b) (to_decimal-AllDigits b))
        (omega arith)
      ∙ unfold start_end_range in
        rw
          (
            trim-to_decimal a,
            trim-to_decimal b,
            is_empty-to_decimal (to_decimal b) (to_decimal-ne-nil b),
            parse-to_decimal a (omega arith),
            parse-to_decimal b l,
          )
          (unfold bounded_range in ground arith),
  closed_range size a [] refl (omega arith)
      ∙ unfold start_end_range in
        rw (trim-to_decimal a, parse-to_decimal a (omega arith))
          (unfold trim trim_start trim_end is_empty bounded_range in ground arith),
  parse-plain (b'-' ∷ to_decimal n) size
        (dash_plain (to_decimal n) (plain_of_digits (to_decimal n) (to_decimal-AllDigits n)))
      ∙ unfold single_range strip_prefix range_form in
        rw (parse-to_decimal n o) (unfold suffix_range in ground arith),
)
