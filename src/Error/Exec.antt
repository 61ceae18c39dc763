-- ===== src/Error/Exec.antt =====
-- Handlers: functions of a state that return a result and the state, also beside an error.
use nexa_drive.Prelude.{Bool, true, false}
use nexa_drive.Error.{Result, ok, err, AppError}

abbrev pub Exec : Type 0 → Type 0 → Type 0
Exec S A = S → Result A × S

module _ {S A : Type 0} where
  unfoldable pub pure : A → Exec S A
  pure a s = (ok a, s)

  unfoldable pub raise : AppError → Exec S A
  raise e s = (err e, s)

  unfoldable pub lift : Result A → Exec S A
  lift r s = (r, s)

  unfoldable pub gets : (S → A) → Exec S A
  gets f s = (ok (f s), s)

unfoldable pub modify : {S : Type 0} → (S → S) → Exec S (Unit {0})
modify f s = (ok tt, f s)

abbrev pub checked : {S : Type 0} → Bool → AppError → S → Result (Unit {0}) × S
checked true e s = (ok tt, s)
checked false e s = (err e, s)

-- `if !test { return Err(e) }`
unfoldable pub check : {S : Type 0} → Bool → AppError → Exec S (Unit {0})
check b e s = checked b e s

module _ {S A B : Type 0} where
  infixl 10 ◌>>=◌ ◌>>◌
  abbrev pub next : Result A × S → (A → Exec S B) → Result B × S
  next (ok a, s) f = f a s
  next (err e, s) f = (err e, s)

  -- Opening this opens the actions above too.
  unfoldable pub ◌>>=◌ : Exec S A → (A → Exec S B) → Exec S B
  unfolding pure raise lift gets modify check
  ◌>>=◌ m f s = next (m s) f

  abbrev pub ◌>>◌ : Exec S A → Exec S B → Exec S B
  m >> n = m >>= λ _. n

module _ {S A : Type 0} where
  abbrev pub handle_error : (AppError → Exec S A) → Result A × S → Result A × S
  handle_error h (ok a, s) = (ok a, s)
  handle_error h (err e, s) = h e s

  -- `if let Err(e) = m { … }`
  unfoldable pub on_error : Exec S A → (AppError → Exec S A) → Exec S A
  on_error m h s = handle_error h (m s)
