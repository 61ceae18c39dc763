-- ===== src/Paths/Walk.antt =====
-- Accepted paths as an operating system resolves them (server/src/paths.rs).
use nexa_drive.Prelude.{
  ◌≡◌, refl, sym, ◌∙◌, inl, inr, List, [], ◌∷◌, ◌++◌, if◌then◌else◌, true, false, arith, ◌||◌,
}
use mathlib.Core.List.{append-nil, append_assoc}
use nexa_drive.Text.{Text, codes, text_eq, is_empty, trim, split, starts_with}
use nexa_drive.Error.{ok}
use nexa_drive.Paths.{
  FilePath, safe_relative_path, clean_components, pieces_components, piece_components,
}
use nexa_drive.Paths.Safety.{clean-cases, safe_relative_path-Accepted}

parent : FilePath → FilePath
parent [] = []
parent (w ∷ []) = []
parent (w ∷ v ∷ ws) = w ∷ parent (v ∷ ws)

-- Path resolution below a directory: an empty piece and `.` stay, `..` goes up, any other piece
-- goes down.
pub walk : FilePath → List Text → FilePath
walk dir [] = dir
walk dir (w ∷ ws) =
    walk
      (if is_empty w || text_eq w (codes ".")
        then dir
        else if text_eq w (codes "..")
        then parent dir
        else dir ++ w ∷ [])
      ws

-- A piece without components is empty or `.`.
skipped : (w : Text) → piece_components w ≡ [] → (is_empty w || text_eq w (codes ".")) ≡ true
unfolding piece_components
skipped w h = ground arith

walk-clean :
    (dir : FilePath) (ws : List Text) (p : FilePath)
    → clean_components (pieces_components ws) ≡ ok p
    → walk dir ws ≡ dir ++ p
unfolding walk
walk-clean dir [] p h =
    let e : [] ≡ p = unfold pieces_components clean_components in ground (arith, h) in
    rw (← e) (sym (append-nil dir))
walk-clean dir (w ∷ ws) p h = elim (clean-cases w ws p h) [
  | inl (e, r) ↦ rw (skipped w e) (walk-clean dir ws p r)
  | inr (a, b, c, (q, r, e)) ↦
      rw (a, b, c, e) (walk-clean (dir ++ w ∷ []) ws q r ∙ append_assoc dir (w ∷ []) q)
]

-- An accepted text is no absolute path, and from any directory, resolving its pieces as text ends
-- at that directory followed by the path that was returned: it never leaves the directory.
pub walk-safe_relative_path :
    (dir : FilePath) (raw : Text) (p : FilePath)
    → safe_relative_path raw ≡ ok p
    → (starts_with (codes "/") (trim raw) ≡ false) × (walk dir (split 47 (trim raw)) ≡ dir ++ p)
walk-safe_relative_path dir raw p h = elim (safe_relative_path-Accepted raw p h) [
  | inl (e, n) ↦ (
    rw e (unfold starts_with in refl),
    rw (e, n) (unfold split walk is_empty in sym (append-nil dir)),
  )
  | inr a ↦ (a.relative, walk-clean dir (split 47 (trim raw)) p (a.cleaned))
]
