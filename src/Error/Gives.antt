-- ===== src/Error/Gives.antt =====
-- Handlers that succeed: the result and the state that a run ends with, with a rule for each way to
-- build a handler.
use nexa_drive.Prelude.{◌≡◌, refl, sym, subst, Bool, true, false, if◌then◌else◌}
use nexa_drive.Error.{Result, ok, err, AppError}
use nexa_drive.Error.Exec.{Exec, next, pure, lift, gets, modify, check, ◌>>=◌}

-- Runs that succeed.
pub record Gives {S A : Type 0} (Q : A → S → Type 0) (r : Result A × S) : Type 0 where
  pub answer : A
  pub world : S
  pub is_result : r ≡ (ok answer, world)
  pub holds : Q answer world

module _ {S A : Type 0} (Q : A → S → Type 0) where
  pub Gives-pure : (a : A) (w : S) → Q a w → Gives Q (pure a w)
  unfolding pure
  Gives-pure a w h = record { answer = a; world = w; is_result = refl; holds = h }

  pub Gives-check :
      (b : Bool) (e : AppError) (k : Unit {0} → Exec S A) (w : S)
      → b ≡ true
      → Gives Q (k tt w)
      → Gives Q ((check b e >>= k) w)
  unfolding ◌>>=◌
  Gives-check true e k w h g = record {
    answer = g.answer;
    world = g.world;
    is_result = g.is_result;
    holds = g.holds;
  }
  Gives-check false e k w h g = absurd (let no : false ≡ true = h in cc)

  pub Gives-gets :
      {B : Type 0} (f : S → B) (k : B → Exec S A) (w : S)
      → Gives Q (k (f w) w)
      → Gives Q ((gets f >>= k) w)
  unfolding ◌>>=◌
  Gives-gets f k w g = record {
    answer = g.answer;
    world = g.world;
    is_result = g.is_result;
    holds = g.holds;
  }

  pub Gives-modify :
      (f : S → S) (k : Unit {0} → Exec S A) (w : S)
      → Gives Q (k tt (f w))
      → Gives Q ((modify f >>= k) w)
  unfolding ◌>>=◌
  Gives-modify f k w g = record {
    answer = g.answer;
    world = g.world;
    is_result = g.is_result;
    holds = g.holds;
  }

  pub Gives-lift :
      {B : Type 0} (r : Result B) (b : B) (k : B → Exec S A) (w : S)
      → r ≡ ok b
      → Gives Q (k b w)
      → Gives Q ((lift r >>= k) w)
  unfolding ◌>>=◌
  Gives-lift (ok c) b k w e g = let same : b ≡ c = cc in subst (λ x. Gives Q (k x w)) same g
  Gives-lift (err c) b k w e g = cc

  pub Gives-if_true :
      (c : Bool) (x y : Exec S A) (w : S)
      → c ≡ true
      → Gives Q (x w)
      → Gives Q ((if c then x else y) w)
  Gives-if_true true x y w h g = g
  Gives-if_true false x y w h g = cc

  pub Gives-if_false :
      (c : Bool) (x y : Exec S A) (w : S)
      → c ≡ false
      → Gives Q (y w)
      → Gives Q ((if c then x else y) w)
  Gives-if_false true x y w h g = cc
  Gives-if_false false x y w h g = g

pub Gives-check_end :
    {S : Type 0} (Q : Unit {0} → S → Type 0) (b : Bool) (e : AppError) (w : S)
    → b ≡ true
    → Q tt w
    → Gives Q (check b e w)
unfolding check
Gives-check_end Q true e w h g = record { answer = tt; world = w; is_result = refl; holds = g }
Gives-check_end Q false e w h g = absurd (let no : false ≡ true = h in cc)

module _ {S A B : Type 0} (Q : A → S → Type 0) (R : B → S → Type 0) where
  bound :
      (r : Result A × S) (a : A) (s : S) (f : A → Exec S B)
      → r ≡ (ok a, s)
      → Gives R (f a s)
      → Gives R (next r f)
  bound r a s f e g = subst (λ x. Gives R (next x f)) (sym e) g

  pub Gives-bind :
      (m : Exec S A) (f : A → Exec S B) (w : S)
      → Gives Q (m w)
      → ((a : A) (s : S) → Q a s → Gives R (f a s))
      → Gives R ((m >>= f) w)
  unfolding ◌>>=◌
  Gives-bind m f w g k = bound (m w) g.answer g.world f g.is_result (k g.answer g.world g.holds)
