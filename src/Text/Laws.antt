-- ===== src/Text/Laws.antt =====
-- Laws of the text operations: equality, trimming, splitting and joining.
use nexa_drive.Prelude.{
  ℕ, ◌≡◌, refl, ap, ◌∙◌, ◌↔◌, ◌≢◌, true, false, List, [], ◌∷◌, ◌++◌, arith, ◌==◌, Bool-cases, inl,
  inr,
}
use nexa_drive.Text.{
  Text, text_eq, is_whitespace, trim_start, trim_cons, trim_end, trim, contains_char, split,
  split_cons, join,
}

pub text_eq_refl : (s : Text) → text_eq s s ≡ true
unfolding text_eq
text_eq_refl [] = refl
text_eq_refl (c ∷ s) = ground (arith, text_eq_refl s)

pub text_eq→eq : (s t : Text) → text_eq s t ≡ true → s ≡ t
unfolding text_eq
text_eq→eq [] [] h = refl
text_eq→eq [] (c ∷ t) h = cc
text_eq→eq (c ∷ s) [] h = cc
text_eq→eq (c ∷ s) (d ∷ t) h = ground (arith, text_eq→eq s t)

pub text_eq_iff : (s t : Text) → (text_eq s t ≡ true) ↔ (s ≡ t)
text_eq_iff s t = (text_eq→eq s t, λ e. rw e (text_eq_refl t))

pub text_ne : (s t : Text) → s ≢ t → text_eq s t ≡ false
text_ne s t h = elim (Bool-cases (text_eq s t)) [
  | inl e ↦ absurd (h (text_eq→eq s t e))
  | inr e ↦ e
]

trim_end-cons : (c : ℕ) (r : Text) → trim_end r ≡ r → trim_end (trim_cons c r) ≡ trim_cons c r
unfolding trim_end trim_cons
trim_end-cons c [] h = ground arith
trim_end-cons c (d ∷ r) h = rw h

trim_end_idem : (s : Text) → trim_end (trim_end s) ≡ trim_end s
unfolding trim_end
trim_end_idem [] = refl
trim_end_idem (c ∷ s) = trim_end-cons c (trim_end s) (trim_end_idem s)

-- A text that does not begin with white space still does not after its end is trimmed.
trim_start-trim_cons :
    (c : ℕ) (r : Text) → is_whitespace c ≡ false → trim_start (trim_cons c r) ≡ trim_cons c r
unfolding trim_start trim_cons
trim_start-trim_cons c [] h = ground arith
trim_start-trim_cons c (d ∷ r) h = ground arith

trim_start-trim_end-trim_start :
    (s : Text) → trim_start (trim_end (trim_start s)) ≡ trim_end (trim_start s)
unfolding trim_start trim_end
trim_start-trim_end-trim_start [] = refl
trim_start-trim_end-trim_start (c ∷ s) = elim (Bool-cases (is_whitespace c)) [
  | inl e ↦ rw e (trim_start-trim_end-trim_start s)
  | inr e ↦ rw e (trim_start-trim_cons c (trim_end s) e)
]

pub trim_idem : (s : Text) → trim (trim s) ≡ trim s
unfolding trim
trim_idem s = rw (trim_start-trim_end-trim_start s) (trim_end_idem (trim_start s))

-- No character of a list of texts is `c`.
abbrev pub Without : ℕ → List Text → Type 0
Without c [] = Unit {0}
Without c (w ∷ ws) = (contains_char c w ≡ false) × Without c ws

split_cons-Without :
    (sep c : ℕ) (ws : List Text) → Without sep ws → Without sep (split_cons sep c ws)
unfolding split_cons contains_char
split_cons-Without sep c [] h = ground arith
split_cons-Without sep c (w ∷ ws) h = ground arith

-- No piece of a split holds the separator.
pub split-Without : (sep : ℕ) (s : Text) → Without sep (split sep s)
unfolding split contains_char
split-Without sep [] = (refl, tt)
split-Without sep (c ∷ s) = split_cons-Without sep c (split sep s) (split-Without sep s)

split_cons-Without_other :
    (sep c d : ℕ) (ws : List Text)
    → (c == d) ≡ false
    → Without d ws
    → Without d (split_cons sep c ws)
unfolding split_cons contains_char
split_cons-Without_other sep c d [] e h = ground arith
split_cons-Without_other sep c d (w ∷ ws) e h = ground arith

-- A character that a text does not hold is in none of its pieces.
pub split-Without_other :
    (sep d : ℕ) (s : Text) → contains_char d s ≡ false → Without d (split sep s)
unfolding split contains_char
split-Without_other sep d [] h = (refl, tt)
split-Without_other sep d (c ∷ s) h =
    split_cons-Without_other sep c d (split sep s) (ground arith)
      (split-Without_other sep d s (ground arith))

pub split-piece : (sep : ℕ) (w : Text) → contains_char sep w ≡ false → split sep w ≡ w ∷ []
unfolding split contains_char split_cons
split-piece sep [] h = refl
split-piece sep (c ∷ w) h = ground (arith, split-piece sep w)

split_cons_self : (sep : ℕ) (ws : List Text) → split_cons sep sep ws ≡ [] ∷ ws
unfolding split_cons
split_cons_self sep [] = ground arith
split_cons_self sep (w ∷ ws) = ground arith

split-append :
    (sep : ℕ) (w rest : Text)
    → contains_char sep w ≡ false
    → split sep (w ++ (sep ∷ rest)) ≡ w ∷ split sep rest
unfolding split contains_char
split-append sep [] rest h = split_cons_self sep (split sep rest)
split-append sep (c ∷ w) rest h =
    rw (split-append sep w rest (unfold contains_char in ground arith))
      (unfold split_cons in ground arith)

-- Splitting takes the pieces apart that joining put together.
pub split-join :
    (sep : ℕ) (w : Text) (ws : List Text)
    → Without sep (w ∷ ws)
    → split sep (join sep (w ∷ ws)) ≡ w ∷ ws
unfolding join
split-join sep w [] h = split-piece sep w h.0
split-join sep w (v ∷ ws) h = split-append sep w _ h.0 ∙ ap (◌∷◌ w) (split-join sep v ws h.1)
