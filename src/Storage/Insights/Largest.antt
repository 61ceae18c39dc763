-- ===== src/Storage/Insights/Largest.antt =====
-- The five largest files of server/src/handlers/storage.rs.
use nexa_drive.Prelude.{
  ℕ, suc, ◌+◌, ◌≤◌, ◌<◌, ◌≡◌, refl, ap, subst, ◌⊎◌, inl, inr, Bool, true, false, List, [], ◌∷◌,
  ◌++◌, arith, if◌then◌else◌, length, length-append, min, ltb, leb, leb→le, ltb→lt, Bool-cases,
}
use nexa_drive.Storage.Insights.{
  LargestFile, smallest, replace_first, replace_smallest, keep_largest,
}

unfoldable pub tick : ℕ → ℕ → ℕ
tick t n = if ltb t n then 1 else 0

-- How many files of a list are longer than `t`.
unfoldable pub above : ℕ → List LargestFile → ℕ
above t [] = 0
above t (f ∷ fs) = tick t f.size_bytes + above t fs

abbrev AtLeast : ℕ → List LargestFile → Type 0
AtLeast m [] = Unit {0}
AtLeast m (f ∷ fs) = (m ≤ f.size_bytes) × AtLeast m fs

abbrev Reaches : ℕ → List LargestFile → Type 0
Reaches m [] = ⊥
Reaches m (f ∷ fs) = (f.size_bytes ≤ m) ⊎ Reaches m fs

tick_lt : (t n : ℕ) → t < n → tick t n ≡ 1
unfolding tick
tick_lt t n h = ground arith

pub tick_ge : (t n : ℕ) → n ≤ t → tick t n ≡ 0
unfolding tick
tick_ge t n h = ground arith

pub tick_le : (t n : ℕ) → tick t n ≤ 1
unfolding tick
tick_le t n = ground arith

pub ltb-false : (a b : ℕ) → ltb a b ≡ false → b ≤ a
ltb-false a b h = ground arith

leb-false : (a b : ℕ) → leb a b ≡ false → b < a
leb-false a b h = ground arith

AtLeast-le : (m n : ℕ) (fs : List LargestFile) → n ≤ m → AtLeast m fs → AtLeast n fs
AtLeast-le m n [] h a = tt
AtLeast-le m n (f ∷ fs) h a = (omega (arith, a.0), AtLeast-le m n fs h a.1)

smallest-le : (fs : List LargestFile) (m : ℕ) → smallest fs m ≤ m
unfolding smallest
smallest-le [] m = omega arith
smallest-le (f ∷ fs) m = ground (arith, smallest-le fs m, smallest-le fs f.size_bytes)

smallest-AtLeast : (fs : List LargestFile) (m : ℕ) → AtLeast (smallest fs m) fs
unfolding smallest
smallest-AtLeast [] m = tt
smallest-AtLeast (f ∷ fs) m = chosen (smallest-AtLeast fs) (ltb f.size_bytes m) refl
  where
    chosen :
        ((n : ℕ) → AtLeast (smallest fs n) fs)
        → (b : Bool) → ltb f.size_bytes m ≡ b
        → AtLeast (if b then smallest fs f.size_bytes else smallest fs m) (f ∷ fs)
    chosen back true e = (smallest-le fs f.size_bytes, back f.size_bytes)
    chosen back false e = (omega (arith, smallest-le fs m, ltb-false f.size_bytes m e), back m)

smallest-Reaches :
    (fs : List LargestFile) (m : ℕ) → (smallest fs m ≡ m) ⊎ Reaches (smallest fs m) fs
unfolding smallest
smallest-Reaches [] m = inl refl
smallest-Reaches (f ∷ fs) m = reached (smallest-Reaches fs) (ltb f.size_bytes m)
  where
    reached :
        ((n : ℕ) → (smallest fs n ≡ n) ⊎ Reaches (smallest fs n) fs)
        → (b : Bool)
        → ((if b then smallest fs f.size_bytes else smallest fs m) ≡ m)
          ⊎ Reaches (if b then smallest fs f.size_bytes else smallest fs m) (f ∷ fs)
    reached back true = elim (back f.size_bytes) [
      | inl e ↦ inr (inl (omega (arith, e)))
      | inr r ↦ inr (inr r)
    ]
    reached back false = elim (back m) [ inl e ↦ inl e | inr r ↦ inr (inr r) ]

above-AtLeast : (t m : ℕ) (fs : List LargestFile) → AtLeast m fs → t < m → above t fs ≡ length fs
unfolding above
above-AtLeast t m [] a h = refl
above-AtLeast t m (f ∷ fs) a h =
    omega (arith, tick_lt t f.size_bytes (omega (arith, a.0)), above-AtLeast t m fs a.1 h)

above-le : (t : ℕ) (fs : List LargestFile) → above t fs ≤ length fs
unfolding above
above-le t [] = omega arith
above-le t (f ∷ fs) = omega (arith, tick_le t f.size_bytes, above-le t fs)

above-Reaches :
    (t m : ℕ) (fs : List LargestFile) → Reaches m fs → m ≤ t → above t fs + 1 ≤ length fs
unfolding above
above-Reaches t m [] r h = absurd r
above-Reaches t m (f ∷ fs) (inl r) h =
    omega (arith, tick_ge t f.size_bytes (omega arith), above-le t fs)
above-Reaches t m (f ∷ fs) (inr r) h =
    omega (arith, tick_le t f.size_bytes, above-Reaches t m fs r h)

above-append : (t : ℕ) (fs gs : List LargestFile) → above t (fs ++ gs) ≡ above t fs + above t gs
unfolding above
above-append t [] gs = omega arith
above-append t (f ∷ fs) gs = omega (arith, above-append t fs gs)

above-replace_first :
    (t m : ℕ) (new : LargestFile) (fs : List LargestFile)
    → AtLeast m fs
    → Reaches m fs
    → above t (replace_first m new fs) + tick t m ≡ above t fs + tick t new.size_bytes
unfolding above replace_first
above-replace_first t m new [] a r = absurd r
above-replace_first t m new (f ∷ fs) a r =
    replaced (above-replace_first t m new fs a.1) (leb f.size_bytes m) refl r
  where
    replaced :
        (Reaches m fs
          → above t (replace_first m new fs) + tick t m ≡ above t fs + tick t new.size_bytes)
        → (b : Bool) → leb f.size_bytes m ≡ b
        → Reaches m (f ∷ fs)
        → above t (if b then new ∷ fs else f ∷ replace_first m new fs) + tick t m
          ≡ above t (f ∷ fs) + tick t new.size_bytes
    replaced back true e q =
        let same : f.size_bytes ≡ m = omega (arith, a.0, leb→le f.size_bytes m e) in
        omega (arith, ap (tick t) same)
    replaced back false e (inl q) = absurd (omega (arith, leb-false f.size_bytes m e))
    replaced back false e (inr q) = omega (arith, back q)

length-replace_first :
    (m : ℕ) (new : LargestFile) (fs : List LargestFile)
    → length (replace_first m new fs) ≡ length fs
unfolding replace_first
length-replace_first m new [] = refl
length-replace_first m new (f ∷ fs) = either (leb f.size_bytes m) (length-replace_first m new fs)
  where
    either :
        (b : Bool)
        → length (replace_first m new fs) ≡ length fs
        → length (if b then new ∷ fs else f ∷ replace_first m new fs) ≡ suc (length fs)
    either true e = refl
    either false e = ap suc e

-- A list of the largest of `n` files, of which `a` are longer than `t`.
pub record Holds (t a n : ℕ) (fs : List LargestFile) : Type 0 where
  pub longest : above t fs ≡ min 5 a
  pub rows : length fs ≡ min 5 n
  pub bound : a ≤ n

replace_smallest-Holds :
    (t a n : ℕ) (new : LargestFile) (fs : List LargestFile)
    → Holds t a n fs
    → 5 ≤ length fs
    → Holds t (a + tick t new.size_bytes) (n + 1) (replace_smallest new fs)
unfolding replace_smallest
replace_smallest-Holds t a n new [] h k = absurd (omega arith)
replace_smallest-Holds t a n new (f ∷ fs) h k =
    either (ltb (smallest fs f.size_bytes) new.size_bytes) refl
  where
    m : ℕ
    m = smallest fs f.size_bytes

    least : AtLeast m (f ∷ fs)
    least = (smallest-le fs f.size_bytes, smallest-AtLeast fs f.size_bytes)

    reached : Reaches m (f ∷ fs)
    reached = elim (smallest-Reaches fs f.size_bytes) [
      | inl e ↦ inl (omega (arith, e))
      | inr r ↦ inr r
    ]

    -- Where the smallest is longer than `t`, all five are; where it is not, at most four.
    five : t < m → 5 ≤ a
    five l = omega (arith, above-AtLeast t m (f ∷ fs) least l, h.longest)

    four : m ≤ t → a ≤ 4
    four l = omega (arith, above-Reaches t m (f ∷ fs) reached l, h.longest, h.rows, h.bound)

    either :
        (b : Bool)
        → ltb m new.size_bytes ≡ b
        → Holds t
            (a + tick t new.size_bytes)
            (n + 1)
            (if b then replace_first m new (f ∷ fs) else f ∷ fs)
    either true e = record {
      longest = elim (Bool-cases (ltb t m)) [
        | inl l ↦ omega (
          arith,
          exchange,
          tick_lt t m (ltb→lt t m l),
          five (ltb→lt t m l),
          h.longest,
          tick_lt t new.size_bytes (omega (arith, ltb→lt t m l, ltb→lt m new.size_bytes e)),
        )
        | inr l ↦ omega (
          arith,
          exchange,
          tick_ge t m (ltb-false t m l),
          four (ltb-false t m l),
          h.longest,
          tick_le t new.size_bytes,
        )
      ];
      rows = omega (arith, length-replace_first m new (f ∷ fs), h.rows);
      bound = omega (arith, h.bound, tick_le t new.size_bytes);
    }
      where
        exchange :
            above t (replace_first m new (f ∷ fs)) + tick t m
            ≡ above t (f ∷ fs) + tick t new.size_bytes
        exchange = above-replace_first t m new (f ∷ fs) least reached
    either false e = record {
      longest = elim (Bool-cases (ltb t m)) [
        | inl l ↦ omega (arith, five (ltb→lt t m l), h.longest)
        | inr l ↦ omega (
          arith,
          h.longest,
          tick_ge t new.size_bytes (omega (arith, ltb-false t m l, ltb-false m new.size_bytes e)),
        )
      ];
      rows = omega (arith, h.rows);
      bound = omega (arith, h.bound, tick_le t new.size_bytes);
    }

pub keep_largest-Holds :
    (t a n : ℕ) (new : LargestFile) (fs : List LargestFile)
    → Holds t a n fs
    → Holds t (a + tick t new.size_bytes) (n + 1) (keep_largest new fs)
unfolding keep_largest
keep_largest-Holds t a n new fs h = either (ltb (length fs) 5) refl
  where
    either :
        (b : Bool)
        → ltb (length fs) 5 ≡ b
        → Holds t
            (a + tick t new.size_bytes)
            (n + 1)
            (if b then fs ++ new ∷ [] else replace_smallest new fs)
    either true e = record {
      longest = omega (
        arith,
        h.longest,
        h.bound,
        h.rows,
        above-append t fs (new ∷ []),
        single,
        ltb→lt (length fs) 5 e,
        tick_le t new.size_bytes,
      );
      rows = omega (arith, h.rows, length-append fs (new ∷ []), ltb→lt (length fs) 5 e);
      bound = omega (arith, h.bound, tick_le t new.size_bytes);
    }
      where
        single : above t (new ∷ []) ≡ tick t new.size_bytes + 0
        single = unfold above in refl
    either false e = replace_smallest-Holds t a n new fs h (ltb-false (length fs) 5 e)

pub Holds-eq :
    (t a b n m : ℕ) (fs : List LargestFile) → a ≡ b → n ≡ m → Holds t a n fs → Holds t b m fs
Holds-eq t a b n m fs e f h = subst (λ k. Holds t b k fs) f (subst (λ k. Holds t k n fs) e h)
