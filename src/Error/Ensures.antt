-- ===== src/Error/Ensures.antt =====
-- Total correctness of a handler's run: a condition on the state beside every error, and one on the
-- result and the state beside every success; with a rule for each way to build a handler.
use nexa_drive.Prelude.{◌≡◌, refl, subst, Bool, true, false, if◌then◌else◌}
use nexa_drive.Error.{Result, ok, err, AppError}
use nexa_drive.Error.Exec.{
  Exec, pure, raise, lift, gets, modify, check, next, handle_error, on_error, ◌>>=◌,
}

abbrev pub Post : {S A : Type 0} → (S → Type 0) → (A → S → Type 0) → Result A × S → Type 0
Post I Q (ok a, s) = Q a s
Post I Q (err e, s) = I s

pub record Ensures {S A : Type 0} (I : S → Type 0) (Q : A → S → Type 0) (r : Result A × S)
    : Type 0 where
  pub holds : Post I Q r

module _ {S A : Type 0} (I : S → Type 0) (Q : A → S → Type 0) where
  pub ensures_pure : (a : A) (s : S) → Q a s → Ensures I Q (pure a s)
  unfolding pure
  ensures_pure a s h = record { holds = h }

  pub ensures_raise : (e : AppError) (s : S) → I s → Ensures I Q (raise e s)
  unfolding raise
  ensures_raise e s h = record { holds = h }

  pub ensures_lift :
      (r : Result A) (s : S) → I s → ((a : A) → r ≡ ok a → Q a s) → Ensures I Q (lift r s)
  unfolding lift
  ensures_lift (ok a) s h k = record { holds = k a refl }
  ensures_lift (err e) s h k = record { holds = h }

  pub ensures_if :
      (b : Bool) (m n : Exec S A) (s : S)
      → (b ≡ true → Ensures I Q (m s))
      → (b ≡ false → Ensures I Q (n s))
      → Ensures I Q ((if b then m else n) s)
  ensures_if true m n s h k = h refl
  ensures_if false m n s h k = k refl

  mono_case :
      (J : S → Type 0) (R : A → S → Type 0) (r : Result A × S)
      → ((s : S) → J s → I s)
      → ((a : A) (s : S) → R a s → Q a s)
      → Post J R r
      → Post I Q r
  mono_case J R (ok a, s) h k x = k a s x
  mono_case J R (err e, s) h k x = h s x

  -- Conditions that follow.
  pub ensures_mono :
      (J : S → Type 0) (R : A → S → Type 0) (r : Result A × S)
      → ((s : S) → J s → I s)
      → ((a : A) (s : S) → R a s → Q a s)
      → Ensures J R r
      → Ensures I Q r
  ensures_mono J R r h k x = record { holds = mono_case J R r h k x.holds }

  -- What holds of a result that is known.
  pub ensures_ok : (r : Result A × S) (a : A) (s : S) → Ensures I Q r → r ≡ (ok a, s) → Q a s
  ensures_ok r a s h e = subst (λ x. Post I Q x) e h.holds

  handle_case :
      (J : S → Type 0) (g : AppError → Exec S A) (r : Result A × S)
      → Post J Q r
      → ((e : AppError) (s : S) → J s → Ensures I Q (g e s))
      → Post I Q (handle_error g r)
  handle_case J g (ok a, s) x k = x
  handle_case J g (err e, s) x k = (k e s x).holds

  pub ensures_on_error :
      (J : S → Type 0) (m : Exec S A) (g : AppError → Exec S A) (s : S)
      → Ensures J Q (m s)
      → ((e : AppError) (s : S) → J s → Ensures I Q (g e s))
      → Ensures I Q (on_error m g s)
  unfolding on_error
  ensures_on_error J m g s h k = record { holds = handle_case J g (m s) h.holds k }

module _ {S A B : Type 0} (I : S → Type 0) (Q : A → S → Type 0) (R : B → S → Type 0) where
  next_case :
      (r : Result A × S) (f : A → Exec S B)
      → Post I Q r
      → ((a : A) (s : S) → Q a s → Ensures I R (f a s))
      → Post I R (next r f)
  next_case (ok a, s) f h k = (k a s h).holds
  next_case (err e, s) f h k = h

  pub ensures_bind :
      (m : Exec S A) (f : A → Exec S B) (s : S)
      → Ensures I Q (m s)
      → ((a : A) (s : S) → Q a s → Ensures I R (f a s))
      → Ensures I R ((m >>= f) s)
  unfolding ◌>>=◌
  ensures_bind m f s h k = record { holds = next_case (m s) f h.holds k }

-- Two statements about one run.
module _ {S A : Type 0} (I : S → Type 0) (J : S → Type 0) (Q R : A → S → Type 0) where
  both_case : (r : Result A × S) → Post I Q r → Post J R r → Post I (λ a s. Q a s × R a s) r
  both_case (ok a, s) h k = (h, k)
  both_case (err e, s) h k = h

  pub ensures_both :
      (r : Result A × S) → Ensures I Q r → Ensures J R r → Ensures I (λ a s. Q a s × R a s) r
  ensures_both r h k = record { holds = both_case r h.holds k.holds }

module _ {S B : Type 0} (I : S → Type 0) (R : B → S → Type 0) where
  -- A test, and what follows where it passes.
  pub ensures_check :
      (b : Bool) (e : AppError) (m : Unit {0} → Exec S B) (s : S)
      → I s
      → (b ≡ true → Ensures I R (m tt s))
      → Ensures I R ((check b e >>= m) s)
  unfolding ◌>>=◌
  ensures_check true e m s h k = record { holds = (k refl).holds }
  ensures_check false e m s h k = record { holds = h }

  pub ensures_modify :
      (f : S → S) (m : Unit {0} → Exec S B) (s : S)
      → Ensures I R (m tt (f s))
      → Ensures I R ((modify f >>= m) s)
  unfolding ◌>>=◌
  ensures_modify f m s h = record { holds = h.holds }

module _ {S A B : Type 0} (I : S → Type 0) (R : B → S → Type 0) where
  pub ensures_gets :
      (g : S → A) (m : A → Exec S B) (s : S)
      → Ensures I R (m (g s) s)
      → Ensures I R ((gets g >>= m) s)
  unfolding ◌>>=◌
  ensures_gets g m s h = record { holds = h.holds }

module _ {S : Type 0} (I : S → Type 0) (Q : Unit {0} → S → Type 0) where
  pub ensures_check_end :
      (b : Bool) (e : AppError) (s : S) → I s → (b ≡ true → Q tt s) → Ensures I Q (check b e s)
  unfolding check
  ensures_check_end true e s h k = record { holds = k refl }
  ensures_check_end false e s h k = record { holds = h }

  pub ensures_modify_end : (f : S → S) (s : S) → Q tt (f s) → Ensures I Q (modify f s)
  unfolding modify
  ensures_modify_end f s h = record { holds = h }
