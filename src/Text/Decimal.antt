-- ===== src/Text/Decimal.antt =====
-- Decimal numbers: `str::parse::<u64>` and `u64::to_string`.
use nexa_drive.Prelude.{
  ℕ, zero, suc, ◌+◌, ◌-◌, ◌*◌, ◌/◌, ◌%◌, ◌≤◌, ◌<◌, ◌≡◌, refl, sym, ◌∙◌, ap, Bool, true, ◌&&◌,
  Option, none, some, [], ◌∷◌, ◌++◌, arith, leb, ltb, ◌==◌, if◌then◌else◌, Bool-cases, inl, inr,
  all, ltb→lt, ◌≢◌,
}
use nexa_drive.Text.{Text}

abbrev pub u64_max : ℕ
u64_max = 18446744073709551615

-- `u64::saturating_add`
unfoldable pub saturating_add : ℕ → ℕ → ℕ
saturating_add a b = if leb (a + b) u64_max then a + b else u64_max

unfoldable pub is_digit : ℕ → Bool
is_digit c = leb 48 c && leb c 57

-- One more digit: `none` on another character, and when the number leaves 64 bits.
unfoldable pub push_digit : ℕ → ℕ → Option ℕ
unfolding is_digit
push_digit acc c =
    if is_digit c && leb (acc * 10 + (c - 48)) u64_max then some (acc * 10 + (c - 48)) else none

unfoldable pub parse_digits : Option ℕ → Text → Option ℕ
parse_digits acc [] = acc
parse_digits none (c ∷ s) = none
parse_digits (some acc) (c ∷ s) = parse_digits (push_digit acc c) s

-- A sign `+` may stand in front; the empty text and a sign alone are errors.
unfoldable pub parse_u64 : Text → Option ℕ
unfolding parse_digits push_digit
parse_u64 [] = none
parse_u64 (c ∷ []) = parse_digits (some 0) (c ∷ [])
parse_u64 (c ∷ d ∷ s) =
    if c == b'+' then parse_digits (some 0) (d ∷ s) else parse_digits (some 0) (c ∷ d ∷ s)

unfoldable pub decimal_digits : ℕ → ℕ → Text
decimal_digits zero n = []
decimal_digits (suc f) n =
    let front = decimal_digits f (n / 10) in
    if ltb n 10 then (48 + n) ∷ [] else front ++ ((48 + n % 10) ∷ [])

-- A number has at most as many digits as its value, and one.
unfoldable pub to_decimal : ℕ → Text
unfolding decimal_digits
to_decimal n = decimal_digits (suc n) n

parse_digits-none : (s : Text) → parse_digits none s ≡ none
unfolding parse_digits
parse_digits-none [] = refl
parse_digits-none (c ∷ s) = refl

pub parse_digits-append :
    (acc : Option ℕ) (s t : Text) → parse_digits acc (s ++ t) ≡ parse_digits (parse_digits acc s) t
unfolding parse_digits
parse_digits-append acc [] t = refl
parse_digits-append none (c ∷ s) t = sym (parse_digits-none t)
parse_digits-append (some acc) (c ∷ s) t = parse_digits-append (push_digit acc c) s t

push_last : (q n : ℕ) → q ≡ n / 10 → n ≤ u64_max → push_digit q (48 + n % 10) ≡ some n
unfolding push_digit is_digit
push_last q n h k = ground arith

parse-one : (n : ℕ) → n < 10 → n ≤ u64_max → parse_digits (some 0) ((48 + n) ∷ []) ≡ some n
unfolding parse_digits push_digit is_digit
parse-one n h k = ground arith

snoc-AllDigits :
    (d : ℕ) (s : Text) → all is_digit s ≡ true → all is_digit (s ++ (48 + d % 10) ∷ []) ≡ true
unfolding is_digit
snoc-AllDigits d [] h = ground arith
snoc-AllDigits d (c ∷ s) h = ground (arith, snoc-AllDigits d s)

append-ne-nil : (s : Text) (c : ℕ) → s ++ c ∷ [] ≢ []
append-ne-nil [] c e = cc
append-ne-nil (d ∷ s) c e = cc

parse-decimal_digits :
    (f n : ℕ) → n < f → n ≤ u64_max → parse_digits (some 0) (decimal_digits f n) ≡ some n
unfolding decimal_digits
parse-decimal_digits zero n h k = absurd (omega arith)
parse-decimal_digits (suc f) n h k = elim (Bool-cases (ltb n 10)) [
  | inl small ↦ rw small (parse-one n (omega (arith, ltb→lt n 10 small)) k)
  | inr big ↦ rw big (
      parse_digits-append (some 0) (decimal_digits f (n / 10)) _
      ∙ ap (λ a. parse_digits a ((48 + n % 10) ∷ []))
          (parse-decimal_digits f (n / 10) (ground arith) (omega arith))
      ∙ unfold parse_digits in push_last (n / 10) n refl k)
]

abbrev pub AllDigits : Text → Type 0
AllDigits s = all is_digit s ≡ true

decimal_digits-AllDigits : (f n : ℕ) → AllDigits (decimal_digits f n)
unfolding decimal_digits is_digit
decimal_digits-AllDigits zero n = refl
decimal_digits-AllDigits (suc f) n =
    ground
      (arith, snoc-AllDigits n (decimal_digits f (n / 10)), decimal_digits-AllDigits f (n / 10))

pub to_decimal-AllDigits : (n : ℕ) → AllDigits (to_decimal n)
unfolding to_decimal
to_decimal-AllDigits n = decimal_digits-AllDigits (suc n) n

decimal_digits-ne-nil : (f n : ℕ) → decimal_digits (suc f) n ≢ []
unfolding decimal_digits
decimal_digits-ne-nil f n = elim (Bool-cases (ltb n 10)) [
  | inl small ↦ rw small (λ e. cc)
  | inr big ↦ rw big (append-ne-nil (decimal_digits f (n / 10)) _)
]

pub to_decimal-ne-nil : (n : ℕ) → to_decimal n ≢ []
unfolding to_decimal
to_decimal-ne-nil n = decimal_digits-ne-nil n n

pub parse_u64-AllDigits : (s : Text) → s ≢ [] → AllDigits s → parse_u64 s ≡ parse_digits (some 0) s
unfolding parse_u64
parse_u64-AllDigits [] h a = absurd (h refl)
parse_u64-AllDigits (c ∷ []) h a = refl
parse_u64-AllDigits (c ∷ d ∷ s) h a = unfold is_digit in ground arith

-- A 64-bit number is read back from its decimal text.
pub parse-to_decimal : (n : ℕ) → n ≤ u64_max → parse_u64 (to_decimal n) ≡ some n
parse-to_decimal n k =
    parse_u64-AllDigits (to_decimal n) (to_decimal-ne-nil n) (to_decimal-AllDigits n)
    ∙ unfold to_decimal in parse-decimal_digits (suc n) n (omega arith) k
