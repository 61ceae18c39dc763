-- ===== src/Paths/RoundTrip.antt =====
-- The text of an accepted path, which the handlers store and read back (server/src/paths.rs).
use nexa_drive.Prelude.{ℕ, ◌≡◌, refl, sym, ◌≢◌, false, ◌||◌, [], ◌∷◌, ◌++◌, arith, any}
use nexa_drive.Text.{Text, codes, is_empty, trim, contains_char, starts_with, join}
use mathlib.Core.List.{append-nil}
use nexa_drive.Text.Laws.{text_ne, Without, split-join}
use nexa_drive.Error.{ok}
use nexa_drive.Paths.{
  FilePath, normal, piece_components, pieces_components, leading_components, components,
  clean_components, is_trash_name, safe_relative_path,
}
use nexa_drive.Paths.Safety.{IsComponent, IsSafePath}

is_empty_ne : (w : Text) → w ≢ [] → is_empty w ≡ false
unfolding is_empty
is_empty_ne [] h = absurd (h refl)
is_empty_ne (c ∷ w) h = refl

normal-piece : (w : Text) → IsComponent w → piece_components w ≡ normal w ∷ []
unfolding piece_components
normal-piece w c =
    rw (is_empty_ne w c.not_empty, text_ne w _ c.not_dot, text_ne w _ c.not_dot_dot) refl

pieces-clean : (p : FilePath) → IsSafePath p → clean_components (pieces_components p) ≡ ok p
unfolding pieces_components clean_components
pieces-clean [] h = refl
pieces-clean (w ∷ ws) h = rw (normal-piece w h.0) (rw (pieces-clean ws h.1) refl)

leading-nil : (p : FilePath) → IsSafePath p → leading_components p ≡ []
unfolding leading_components
leading-nil [] h = refl
leading-nil (w ∷ []) h = rw (text_ne w _ (h.0).not_dot)
leading-nil ([] ∷ v ∷ ws) h = absurd ((h.0).not_empty refl)
leading-nil ((c ∷ w) ∷ v ∷ ws) h = rw (text_ne (c ∷ w) _ (h.0).not_dot)

no_trash-any : (p : FilePath) → IsSafePath p → any is_trash_name p ≡ false
unfolding is_trash_name
no_trash-any [] h = refl
no_trash-any (w ∷ ws) h = rw (text_ne w _ (h.0).not_trash) (no_trash-any ws h.1)

Without-slash : (p : FilePath) → IsSafePath p → Without 47 p
Without-slash [] h = tt
Without-slash (w ∷ ws) h = ((h.0).no_slash, Without-slash ws h.1)

contains_char-append :
    (c : ℕ) (s t : Text) → contains_char c (s ++ t) ≡ (contains_char c s || contains_char c t)
unfolding contains_char
contains_char-append c [] t = refl
contains_char-append c (d ∷ s) t = ground (arith, contains_char-append c s t)

join-no_null : (p : FilePath) → IsSafePath p → contains_char 0 (join 47 p) ≡ false
unfolding join contains_char
join-no_null [] h = refl
join-no_null (w ∷ []) h = (h.0).no_null
join-no_null (w ∷ v ∷ ws) h =
    rw (contains_char-append 0 w (47 ∷ join 47 (v ∷ ws)), (h.0).no_null)
      (unfold contains_char in join-no_null (v ∷ ws) h.1)

starts_with-append :
    (w s : Text) → w ≢ [] → contains_char 47 w ≡ false → starts_with (codes "/") (w ++ s) ≡ false
unfolding contains_char starts_with
starts_with-append [] s h c = absurd (h refl)
starts_with-append (d ∷ w) s h c = ground arith

join-relative :
    (w : Text) (ws : FilePath) → IsComponent w → starts_with (codes "/") (join 47 (w ∷ ws)) ≡ false
unfolding join
join-relative w [] h = rw (sym (append-nil w)) (starts_with-append w [] h.not_empty h.no_slash)
join-relative w (v ∷ ws) h = starts_with-append w _ h.not_empty h.no_slash

join-not_empty : (w : Text) (ws : FilePath) → w ≢ [] → is_empty (join 47 (w ∷ ws)) ≡ false
unfolding join is_empty
join-not_empty [] ws h = absurd (h refl)
join-not_empty (c ∷ w) [] h = refl
join-not_empty (c ∷ w) (v ∷ ws) h = refl

components-join :
    (w : Text) (ws : FilePath)
    → IsSafePath (w ∷ ws)
    → clean_components (components (join 47 (w ∷ ws))) ≡ ok (w ∷ ws)
unfolding components
components-join w ws h =
    rw (split-join 47 w ws (Without-slash (w ∷ ws) h))
      (rw (leading-nil (w ∷ ws) h) (pieces-clean (w ∷ ws) h))

-- A safe path is read back from its text, if the text has no white space at its ends.
pub safe_relative_path-join :
    (p : FilePath)
    → IsSafePath p
    → trim (join 47 p) ≡ join 47 p
    → safe_relative_path (join 47 p) ≡ ok p
unfolding safe_relative_path
safe_relative_path-join [] h t = rw t (unfold join is_empty in refl)
safe_relative_path-join (w ∷ ws) h t =
    rw
      (
        t,
        join-not_empty w ws ((h.0).not_empty),
        join-relative w ws h.0,
        join-no_null (w ∷ ws) h,
        components-join w ws h,
      )
      (rw (no_trash-any (w ∷ ws) h) refl)
