-- ===== src/Prelude/Rows.antt =====
-- Tables as lists of rows: SELECT … LIMIT 1, UPDATE and DELETE by a Boolean test.
use nexa_drive.Prelude.Tests.{if◌then◌else◌}
use nexa_drive.Prelude.Lists.{keep}
use nexa_drive.Prelude.Filter.{keep_here, keep_past, keep-keep}
use mathlib.Core.Path.{◌≡◌, refl, ap, ◌∙◌, sym}
use mathlib.Core.Logic.{◌⊎◌, inl, inr}
use mathlib.Core.Bool.{Bool, true, false, not}
use mathlib.Core.Option.{Option, none, some}
use mathlib.Core.List.{List, [], ◌∷◌}

module _ {A : Type 0} where
  unfoldable pub find_row : (A → Bool) → List A → Option A
  find_row p [] = none
  find_row p (x ∷ xs) = if p x then some x else find_row p xs

  unfoldable pub update_rows : (A → Bool) → (A → A) → List A → List A
  update_rows p f [] = []
  update_rows p f (x ∷ xs) = (if p x then f x else x) ∷ update_rows p f xs

  unfoldable pub delete_rows : (A → Bool) → List A → List A
  delete_rows p xs = keep (λ x. not (p x)) xs

  -- A row that a list has.
  abbrev pub Has : A → List A → Type 0
  Has x [] = ⊥
  Has x (y ∷ ys) = (x ≡ y) ⊎ Has x ys

  pub find_row-holds :
      (p : A → Bool) (xs : List A) (x : A) → find_row p xs ≡ some x → (p x ≡ true) × Has x xs
  unfolding find_row
  find_row-holds p [] x h = cc
  find_row-holds p (y ∷ ys) x h = found (find_row-holds p ys x) (p y) refl h
    where
      found :
          (find_row p ys ≡ some x → (p x ≡ true) × Has x ys)
          → (b : Bool) → p y ≡ b
          → (if b then some y else find_row p ys) ≡ some x
          → (p x ≡ true) × ((x ≡ y) ⊎ Has x ys)
      found back true e k = let s : x ≡ y = cc in (ap p s ∙ e, inl s)
      found back false e k = let r = back k in (r.0, inr r.1)

  -- What an update or a deletion leaves of the rows that another test selects.
  pub keep-delete_rows :
      (q p : A → Bool)
      → ((x : A) → q x ≡ true → p x ≡ false)
      → (xs : List A) → keep q (delete_rows p xs) ≡ keep q xs
  unfolding delete_rows
  keep-delete_rows q p h = keep-keep q (λ x. not (p x)) (λ x e. ap not (h x e))

  pub keep-update_rows :
      (q p : A → Bool) (f : A → A)
      → ((x : A) → q x ≡ true → p x ≡ false)
      → ((x : A) → q x ≡ false → p x ≡ true → q (f x) ≡ false)
      → (xs : List A) → keep q (update_rows p f xs) ≡ keep q xs
  unfolding update_rows
  keep-update_rows q p f h k [] = refl
  keep-update_rows q p f h k (x ∷ xs) = step (keep-update_rows q p f h k xs) (q x) refl (p x) refl
    where
      step :
          keep q (update_rows p f xs) ≡ keep q xs
          → (b : Bool) → q x ≡ b
          → (c : Bool) → p x ≡ c
          → keep q ((if c then f x else x) ∷ update_rows p f xs) ≡ keep q (x ∷ xs)
      step rest true e true d = let no = h x e in cc
      step rest true e false d =
          keep_here q x (update_rows p f xs) e ∙ ap (◌∷◌ x) rest ∙ sym (keep_here q x xs e)
      step rest false e true d =
          keep_past q (f x) (update_rows p f xs) (k x e d) ∙ rest ∙ sym (keep_past q x xs e)
      step rest false e false d =
          keep_past q x (update_rows p f xs) e ∙ rest ∙ sym (keep_past q x xs e)

  pub Has-delete_rows :
      (p : A → Bool) (xs : List A) (x : A) → Has x (delete_rows p xs) → p x ≡ false
  unfolding delete_rows
  Has-delete_rows p [] x h = absurd h
  Has-delete_rows p (y ∷ ys) x h = left_over (p y) refl (Has-delete_rows p ys x) h
    where
      left_over :
          (b : Bool)
          → p y ≡ b
          → (Has x (keep (λ z. not (p z)) ys) → p x ≡ false)
          → Has x (elim (not b) [
            | true ↦ y ∷ keep (λ z. not (p z)) ys
            | false ↦ keep (λ z. not (p z)) ys
          ])
          → p x ≡ false
      left_over true e back k = back k
      left_over false e back (inl s) = ap p s ∙ e
      left_over false e back (inr k) = back k
