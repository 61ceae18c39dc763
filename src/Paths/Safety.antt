-- ===== src/Paths/Safety.antt =====
-- The components of accepted paths (server/src/paths.rs).
use nexa_drive.Prelude.{
  ◌≡◌, refl, sym, ap, subst, not, ◌≢◌, ◌⊎◌, inl, inr, Bool, true, false, ◌||◌, List, [], ◌∷◌, ◌++◌,
  arith, any, Bool-cases,
}
use nexa_drive.Text.{Text, codes, text_eq, is_empty, trim, contains_char, starts_with, split}
use nexa_drive.Text.Laws.{text_eq_refl, Without, split-Without, split-Without_other}
use nexa_drive.Error.{Result, ok, err, guard, ◌>>=◌, ◌>>◌, bad_request, forbidden, plain}
use nexa_drive.Paths.{
  FilePath, Component, normal, parent_dir, piece_components, pieces_components, leading_components,
  components, clean_components, is_trash_name, safe_relative_path,
}

-- A component names one entry of a directory: it is not empty, none of the two special entries,
-- not the trash folder, and holds neither a separator nor the null byte.
pub record IsComponent (w : Text) : Type 0 where
  pub not_empty : w ≢ []
  pub not_dot : w ≢ codes "."
  pub not_dot_dot : w ≢ codes ".."
  pub not_trash : w ≢ codes ".trash"
  pub no_slash : contains_char 47 w ≡ false
  pub no_null : contains_char 0 w ≡ false

abbrev pub IsSafePath : FilePath → Type 0
IsSafePath [] = Unit {0}
IsSafePath (w ∷ ws) = IsComponent w × IsSafePath ws

-- What the test of one piece finds out.
abbrev PieceCase : Text → Type 0
PieceCase w =
    (piece_components w ≡ [])
    ⊎ ((piece_components w ≡ parent_dir ∷ [])
        ⊎ ((piece_components w ≡ normal w ∷ [])
            × (is_empty w ≡ false)
            × (text_eq w (codes ".") ≡ false)
            × (text_eq w (codes "..") ≡ false)))

pub piece-cases : (w : Text) → PieceCase w
unfolding piece_components
piece-cases w = elim (Bool-cases (is_empty w)) [
  | inl a ↦ inl (rw a)
  | inr a ↦ elim (Bool-cases (text_eq w (codes "."))) [
    | inl b ↦ inl (rw (a, b))
    | inr b ↦ elim (Bool-cases (text_eq w (codes ".."))) [
      | inl c ↦ inr (inl (rw (a, b, c)))
      | inr c ↦ inr (inr (rw (a, b, c), a, b, c))
    ]
  ]
]

pub ne_of_text_ne : (w v : Text) → text_eq w v ≡ false → w ≢ v
ne_of_text_ne w v h e = let r : text_eq w v ≡ true = rw e (text_eq_refl v) in cc

pub ne_nil_of_is_empty : (w : Text) → is_empty w ≡ false → w ≢ []
unfolding is_empty
ne_nil_of_is_empty [] h e = cc
ne_nil_of_is_empty (c ∷ w) h e = cc

-- Either the loop skips the first piece, or it is the first component of the result.
abbrev CleanCase : Text → List Text → FilePath → Type 0
CleanCase w ws p =
    ((piece_components w ≡ []) × (clean_components (pieces_components ws) ≡ ok p))
    ⊎ ((is_empty w ≡ false)
        × (text_eq w (codes ".") ≡ false)
        × (text_eq w (codes "..") ≡ false)
        × ((q : FilePath) × (clean_components (pieces_components ws) ≡ ok q) × (p ≡ w ∷ q)))

clean-normal :
    (w : Text) (r : Result FilePath) (p : FilePath)
    → (do rest ← r; ok (w ∷ rest)) ≡ ok p
    → (q : FilePath) × (r ≡ ok q) × (p ≡ w ∷ q)
clean-normal w (ok q) p h = (q, refl, ground arith)
clean-normal w (err e) p h = cc

pub clean-cases :
    (w : Text) (ws : List Text) (p : FilePath)
    → clean_components (pieces_components (w ∷ ws)) ≡ ok p
    → CleanCase w ws p
unfolding pieces_components clean_components
clean-cases w ws p h = elim (piece-cases w) [
  | inl e ↦ inl (e, rw e at h)
  | inr (inl e) ↦
      let bad : ◌≡◌ {A = Result FilePath} (err (bad_request (plain "Invalid path"))) (ok p) =
        rw e at h in
      cc
  | inr (inr e) ↦
      inr
        (e.1, e.2, e.3, clean-normal w (clean_components (pieces_components ws)) p (rw (e.0) at h))
]

or_false_left : (a b : Bool) → (a || b) ≡ false → a ≡ false
or_false_left a b h = ground arith

or_false_right : (a b : Bool) → (a || b) ≡ false → b ≡ false
or_false_right a b h = ground arith

pieces-IsSafePath :
    (ws : List Text) (p : FilePath)
    → Without 47 ws
    → Without 0 ws
    → clean_components (pieces_components ws) ≡ ok p
    → any is_trash_name p ≡ false
    → IsSafePath p
pieces-IsSafePath [] p s n h t =
    let e : [] ≡ p = unfold pieces_components clean_components in ground (arith, h) in
    subst IsSafePath e tt
pieces-IsSafePath (w ∷ ws) p s n h t = elim (clean-cases w ws p h) [
  | inl (e, r) ↦ pieces-IsSafePath ws p s.1 n.1 r t
  | inr (a, b, c, (q, r, e)) ↦ subst IsSafePath (sym e) (
      let t' : any is_trash_name (w ∷ q) ≡ false = rw e at t in
      (
        record {
          not_empty = ne_nil_of_is_empty w a;
          not_dot = ne_of_text_ne w _ b;
          not_dot_dot = ne_of_text_ne w _ c;
          not_trash = ne_of_text_ne w _ (unfold is_trash_name in or_false_left _ _ t');
          no_slash = s.0;
          no_null = n.0;
        },
        pieces-IsSafePath ws q s.1 n.1 r (or_false_right _ _ t'),
      ))
]

clean-leading :
    (ws : List Text) (cs : List Component) (p : FilePath)
    → clean_components (leading_components ws ++ cs) ≡ ok p
    → clean_components cs ≡ ok p
unfolding leading_components clean_components
clean-leading [] cs p h = h
clean-leading (w ∷ []) cs p h = elim (Bool-cases (text_eq w (codes "."))) [
  | inl e ↦ rw e at h
  | inr e ↦ rw e at h
]
clean-leading ([] ∷ v ∷ ws) cs p h = cc
clean-leading ((c ∷ w) ∷ v ∷ ws) cs p h = elim (Bool-cases (text_eq (c ∷ w) (codes "."))) [
  | inl e ↦ rw e at h
  | inr e ↦ rw e at h
]

-- What a path that was accepted has passed.
pub record Accepted (trimmed : Text) (p : FilePath) : Type 0 where
  pub relative : starts_with (codes "/") trimmed ≡ false
  pub no_null : contains_char 0 trimmed ≡ false
  pub no_trash : any is_trash_name p ≡ false
  pub cleaned : clean_components (pieces_components (split 47 trimmed)) ≡ ok p

checks-Accepted :
    (slash null : Bool) (r : Result FilePath) (p : FilePath)
    → (do
      guard (not slash) (bad_request (plain "Absolute paths are not allowed"))
      guard (not null) (bad_request (plain "Null bytes are not allowed in paths"))
      guard (not slash) (bad_request (plain "Absolute paths are not allowed"))
      clean ← r
      guard (not (any is_trash_name clean)) forbidden
      ok clean)
      ≡ ok p
    → (slash ≡ false) × (null ≡ false) × (any is_trash_name p ≡ false) × (r ≡ ok p)
checks-Accepted true null r p h = cc
checks-Accepted false true r p h = cc
checks-Accepted false false (err e) p h = cc
checks-Accepted false false (ok q) p h = elim (Bool-cases (any is_trash_name q)) [
  | inl e ↦ let bad : ◌≡◌ {A = Result FilePath} (err forbidden) (ok p) = rw e at h in cc
  | inr e ↦
      let same : ok q ≡ ok p = rw e at h in
      let eq : q ≡ p = cc in (refl, refl, rw (← eq) e, ap ok eq)
]

eq_nil_of_is_empty : (w : Text) → is_empty w ≡ true → w ≡ []
unfolding is_empty
eq_nil_of_is_empty [] h = refl
eq_nil_of_is_empty (c ∷ w) h = cc

pub safe_relative_path-Accepted :
    (raw : Text) (p : FilePath)
    → safe_relative_path raw ≡ ok p
    → ((trim raw ≡ []) × (p ≡ [])) ⊎ Accepted (trim raw) p
unfolding safe_relative_path components
safe_relative_path-Accepted raw p h = elim (Bool-cases (is_empty (trim raw))) [
  | inl e ↦ let same : ok [] ≡ ok p = rw e at h in inl (eq_nil_of_is_empty (trim raw) e, cc)
  | inr e ↦
      let checks = checks-Accepted _ _ _ p (rw e at h) in
      inr (record {
        relative = checks.0;
        no_null = checks.1;
        no_trash = checks.2;
        cleaned = clean-leading (split 47 (trim raw)) _ p (checks.3);
      })
]

-- Every component of an accepted path is the name of one entry: none is empty, `.`, `..` or
-- `.trash`, and none holds a `/` or a null byte.
pub safe_relative_path-IsSafePath :
    (raw : Text) (p : FilePath) → safe_relative_path raw ≡ ok p → IsSafePath p
safe_relative_path-IsSafePath raw p h = elim (safe_relative_path-Accepted raw p h) [
  | inl (_, e) ↦ subst IsSafePath (sym e) tt
  | inr a ↦
      pieces-IsSafePath (split 47 (trim raw)) p (split-Without 47 (trim raw))
        (split-Without_other 47 0 (trim raw) (a.no_null)) (a.cleaned) (a.no_trash)
]
