-- ===== src/Error/Cases.antt =====
-- A handler's run, split at its tests: any statement about its result and state, error or not.
use nexa_drive.Prelude.{◌≡◌, refl, Bool, true, false, Option, none, some, if◌then◌else◌}
use nexa_drive.Error.{Result, ok, err, AppError, or_error}
use nexa_drive.Error.Exec.{Exec, lift, gets, modify, check, ◌>>=◌}

module _ {S B : Type 0} (Q : Result B × S → Type 0) where
  pub cases_check :
      (b : Bool) (e : AppError) (k : Unit {0} → Exec S B) (w : S)
      → (b ≡ false → Q (err e, w))
      → (b ≡ true → Q (k tt w))
      → Q ((check b e >>= k) w)
  unfolding ◌>>=◌
  cases_check true e k w h g = g refl
  cases_check false e k w h g = h refl

  pub cases_modify :
      (f : S → S) (k : Unit {0} → Exec S B) (w : S) → Q (k tt (f w)) → Q ((modify f >>= k) w)
  unfolding ◌>>=◌
  cases_modify f k w h = h

  pub cases_gets :
      {A : Type 0} (f : S → A) (k : A → Exec S B) (w : S) → Q (k (f w) w) → Q ((gets f >>= k) w)
  unfolding ◌>>=◌
  cases_gets f k w h = h

  pub cases_lift :
      {A : Type 0} (r : Result A) (k : A → Exec S B) (w : S)
      → ((e : AppError) → r ≡ err e → Q (err e, w))
      → ((a : A) → r ≡ ok a → Q (k a w))
      → Q ((lift r >>= k) w)
  unfolding ◌>>=◌
  cases_lift (ok a) k w h g = g a refl
  cases_lift (err e) k w h g = h e refl

  pub cases_or_error :
      {A : Type 0} (o : Option A) (e : AppError) (k : A → Exec S B) (w : S)
      → (o ≡ none → Q (err e, w))
      → ((a : A) → o ≡ some a → Q (k a w))
      → Q ((lift (or_error o e) >>= k) w)
  unfolding ◌>>=◌
  cases_or_error none e k w h g = h refl
  cases_or_error (some a) e k w h g = g a refl

  pub cases_if :
      (b : Bool) (m n : Exec S B) (w : S)
      → (b ≡ true → Q (m w))
      → (b ≡ false → Q (n w))
      → Q ((if b then m else n) w)
  cases_if true m n w h k = h refl
  cases_if false m n w h k = k refl
