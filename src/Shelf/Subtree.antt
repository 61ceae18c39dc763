-- ===== src/Shelf/Subtree.antt =====
-- Entries below a path: renaming and copying them (server/src/handlers/files.rs).
use nexa_drive.Prelude.{
  ◌≡◌, refl, ap, ◌∙◌, Bool, true, false, Option, none, some, [], ◌∷◌, ◌++◌, arith, if◌then◌else◌,
}
use nexa_drive.Text.{Text, text_eq}
use nexa_drive.Text.Laws.{text_eq_refl, text_eq→eq}
use nexa_drive.Paths.{FilePath}

-- `p.strip_prefix(top)`, by components.
unfoldable pub below : FilePath → FilePath → Option FilePath
below [] p = some p
below (w ∷ ws) [] = none
below (w ∷ ws) (v ∷ vs) = if text_eq w v then below ws vs else none

unfoldable pub is_below : FilePath → FilePath → Bool
is_below top p = elim (below top p) [ none ↦ false | some rest ↦ true ]

module _ {A : Type 0} where
  -- All that is below `src` is below `dst` afterwards, in place of what was there.
  abbrev pub moved :
      (FilePath → Option A) → FilePath → FilePath → Option FilePath → Option FilePath → Option A
  moved f src p (some rest) from = f (src ++ rest)
  moved f src p none (some rest) = none
  moved f src p none none = f p

  unfoldable pub relocate : FilePath → FilePath → (FilePath → Option A) → FilePath → Option A
  relocate src dst f p = moved f src p (below dst p) (below src p)

pub below-append : (top rest : FilePath) → below top (top ++ rest) ≡ some rest
unfolding below
below-append [] rest = refl
below-append (w ∷ ws) rest = rw (text_eq_refl w) (below-append ws rest)

pub append-below : (top p rest : FilePath) → below top p ≡ some rest → top ++ rest ≡ p
unfolding below
append-below [] p rest h = cc
append-below (w ∷ ws) [] rest h = cc
append-below (w ∷ ws) (v ∷ vs) rest h = ground (arith, text_eq→eq w v, append-below ws vs rest)

module _ {A : Type 0} (src dst : FilePath) (f : FilePath → Option A) where
  -- What was below the source stands below the destination.
  pub relocate_to : (rest : FilePath) → relocate src dst f (dst ++ rest) ≡ f (src ++ rest)
  unfolding relocate
  relocate_to rest =
      ap (λ o. moved f src (dst ++ rest) o (below src (dst ++ rest))) (below-append dst rest)

  -- What is below neither stays.
  pub relocate_past :
      (p : FilePath) → below dst p ≡ none → below src p ≡ none → relocate src dst f p ≡ f p
  unfolding relocate
  relocate_past p h k = ap (λ o. moved f src p o (below src p)) h ∙ ap (moved f src p none) k

  -- Nothing is left below the source, where it is not below the destination.
  pub relocate_from :
      (p rest : FilePath)
      → below dst p ≡ none
      → below src p ≡ some rest
      → relocate src dst f p ≡ none
  unfolding relocate
  relocate_from p rest h k = ap (λ o. moved f src p o (below src p)) h ∙ ap (moved f src p none) k

pub append_assoc : (a b c : FilePath) → (a ++ b) ++ c ≡ a ++ (b ++ c)
append_assoc [] b c = refl
append_assoc (w ∷ a) b c = ap (◌∷◌ w) (append_assoc a b c)

-- Two paths that part ways.
pub below_fork :
    (top x y : FilePath) (a b : Text)
    → text_eq a b ≡ false
    → below (top ++ a ∷ x) (top ++ b ∷ y) ≡ none
unfolding below
below_fork [] x y a b h = rw h refl
below_fork (w ∷ top) x y a b h = rw (text_eq_refl w) (below_fork top x y a b h)
