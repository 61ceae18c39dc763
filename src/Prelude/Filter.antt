-- ===== src/Prelude/Filter.antt =====
-- Lists filtered twice.
use nexa_drive.Prelude.Tests.{Bool-cases}
use nexa_drive.Prelude.Lists.{keep}
use mathlib.Core.Path.{◌≡◌, refl, ap, ◌∙◌, sym}
use mathlib.Core.Logic.{inl, inr}
use mathlib.Core.Bool.{Bool, true, false}
use mathlib.Core.List.{List, [], ◌∷◌}

module _ {ℓ} {A : Type ℓ} where
  pub keep_here :
      (p : A → Bool) (x : A) (xs : List A) → p x ≡ true → keep p (x ∷ xs) ≡ x ∷ keep p xs
  keep_here p x xs e = rw (e, keep) refl

  pub keep_past : (p : A → Bool) (x : A) (xs : List A) → p x ≡ false → keep p (x ∷ xs) ≡ keep p xs
  keep_past p x xs e = rw (e, keep) refl

  -- A filter that lets through all that the next one looks for.
  pub keep-keep :
      (p q : A → Bool)
      → ((x : A) → p x ≡ true → q x ≡ true)
      → (xs : List A) → keep p (keep q xs) ≡ keep p xs
  keep-keep p q h [] = refl
  keep-keep p q h (x ∷ xs) = elim (Bool-cases (p x)) [
    | inl e ↦
        ap (keep p) (keep_here q x xs (h x e))
        ∙ keep_here p x (keep q xs) e
        ∙ ap (◌∷◌ x) (keep-keep p q h xs)
        ∙ sym (keep_here p x xs e)
    | inr e ↦ elim (Bool-cases (q x)) [
      | inl k ↦
          ap (keep p) (keep_here q x xs k)
          ∙ keep_past p x (keep q xs) e
          ∙ keep-keep p q h xs
          ∙ sym (keep_past p x xs e)
      | inr k ↦ ap (keep p) (keep_past q x xs k) ∙ keep-keep p q h xs ∙ sym (keep_past p x xs e)
    ]
  ]

  -- A filter that lets through none of what the next one looks for.
  pub keep-keep_none :
      (p q : A → Bool)
      → ((x : A) → p x ≡ true → q x ≡ false)
      → (xs : List A) → keep p (keep q xs) ≡ []
  keep-keep_none p q h [] = refl
  keep-keep_none p q h (x ∷ xs) = elim (Bool-cases (q x)) [
    | inr k ↦ ap (keep p) (keep_past q x xs k) ∙ keep-keep_none p q h xs
    | inl k ↦ elim (Bool-cases (p x)) [
      | inl e ↦ (let no = h x e in cc)
      | inr e ↦
          ap (keep p) (keep_here q x xs k) ∙ keep_past p x (keep q xs) e ∙ keep-keep_none p q h xs
    ]
  ]
