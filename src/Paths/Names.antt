-- ===== src/Paths/Names.antt =====
-- Names for one entry of a folder (`sanitize_name`), against the rules for whole paths.
use nexa_drive.Prelude.{◌≡◌, refl, Bool, false, ◌||◌, not, [], ◌∷◌, arith}
use nexa_drive.Text.{Text, codes, text_eq, is_empty, trim, contains_char, join}
use nexa_drive.Text.Laws.{trim_idem}
use nexa_drive.Error.{ok, guard, ◌>>◌, AppError}
use nexa_drive.Paths.{safe_relative_path, sanitize_name}
use nexa_drive.Paths.Safety.{IsComponent, ne_of_text_ne, ne_nil_of_is_empty}
use nexa_drive.Paths.RoundTrip.{safe_relative_path-join}

three_guards :
    (a b c d e f : Bool) (x y z : AppError) (n m : Text)
    → (do guard (not (a || (b || c))) x; guard (not (d || e)) y; guard (not f) z; ok n) ≡ ok m
    → (a ≡ false) × (b ≡ false) × (c ≡ false) × (d ≡ false) × (e ≡ false) × (f ≡ false) × (n ≡ m)
three_guards a b c d e f x y z n m h = ground arith

sanitize_name-cases :
    (raw n : Text)
    → sanitize_name raw ≡ ok n
    → (is_empty n ≡ false)
      × (text_eq n (codes ".") ≡ false)
      × (text_eq n (codes "..") ≡ false)
      × (contains_char 47 n ≡ false)
      × (contains_char 92 n ≡ false)
      × (text_eq n (codes ".trash") ≡ false)
      × (trim raw ≡ n)
unfolding sanitize_name
sanitize_name-cases raw n h =
    let t = three_guards _ _ _ _ _ _ _ _ _ (trim raw) n h in
    rw (← t.6) (t.0, t.1, t.2, t.3, t.4, t.5, refl)

-- An accepted name that holds no null byte is accepted as a path of one component, itself. So
-- joining it to a folder names an entry of that folder.
pub safe_relative_path-sanitize_name :
    (raw n : Text)
    → sanitize_name raw ≡ ok n
    → contains_char 0 n ≡ false
    → safe_relative_path n ≡ ok (n ∷ [])
safe_relative_path-sanitize_name raw n h z =
    let t = sanitize_name-cases raw n h in
    let comp : IsComponent n = record {
      not_empty = ne_nil_of_is_empty n t.0;
      not_dot = ne_of_text_ne n _ t.1;
      not_dot_dot = ne_of_text_ne n _ t.2;
      not_trash = ne_of_text_ne n _ t.5;
      no_slash = t.3;
      no_null = z;
    } in
    unfold join in
    safe_relative_path-join (n ∷ []) (comp, tt) (unfold join in rw (← t.6) (trim_idem raw))
