-- ===== src/Auth/Login/Access.antt =====
-- Runs of `auth_middleware` (server/src/auth.rs) beside those of the session handlers.
use nexa_drive.Prelude.{
  ℕ, ◌≡◌, refl, sym, subst, ◌∙◌, Bool, true, false, Option, none, some, List, [], ◌∷◌, ◌==◌, keep,
  Bool-cases, inl, inr,
}
use nexa_drive.Prelude.Filter.{keep_here, keep_past}
use nexa_drive.Text.{Text}
use nexa_drive.Error.{ok}
use nexa_drive.Error.Ensures.{
  Ensures, ensures_bind, ensures_check, ensures_gets, ensures_modify, ensures_modify_end,
  ensures_ok, ensures_pure, ensures_lift, ensures_raise,
}
use nexa_drive.Auth.{Session, Store, Crypto, Tick}
use nexa_drive.Auth.Sessions.{is_of, first, sign_out_everywhere}
use nexa_drive.Auth.Sessions.Scope.{sign_out_everywhere-none}
use nexa_drive.Auth.Login.{is_admitted, admit, auth_middleware, drop_stale}

abbrev Anything : Store → Type 0
Anything w = Unit {0}

first_here :
    (p : Session → Bool) (r : Session) (rs : List Session) → p r ≡ true → first p (r ∷ rs) ≡ some r
unfolding first
first_here p r rs k = rw k refl

first_past :
    (p : Session → Bool) (r : Session) (rs : List Session)
    → p r ≡ false
    → first p (r ∷ rs) ≡ first p rs
unfolding first
first_past p r rs k = rw k refl

first-holds :
    (p : Session → Bool) (ss : List Session) (s : Session) → first p ss ≡ some s → p s ≡ true
unfolding first
first-holds p [] s e = cc
first-holds p (r ∷ rs) s e = elim (Bool-cases (p r)) [
  | inl k ↦
      (let same : some r ≡ some s = sym (first_here p r rs k) ∙ e in
        let eq : r ≡ s = cc in subst (λ x. p x ≡ true) eq k)
  | inr k ↦ first-holds p rs s (sym (first_past p r rs k) ∙ e)
]

first-absent :
    (user : ℕ) (p : Session → Bool) (ss : List Session) (s : Session)
    → keep (is_of user) ss ≡ []
    → first p ss ≡ some s
    → is_of user s ≡ false
unfolding first
first-absent user p [] s n e = cc
first-absent user p (r ∷ rs) s n e = elim (Bool-cases (is_of user r)) [
  | inl o ↦ (let some_left = sym (keep_here (is_of user) r rs o) ∙ n in cc)
  | inr o ↦ elim (Bool-cases (p r)) [
    | inl k ↦
        (let same : some r ≡ some s = sym (first_here p r rs k) ∙ e in
          let eq : r ≡ s = cc in subst (λ x. is_of user x ≡ false) eq o)
    | inr k ↦
        first-absent user p rs s (sym (keep_past (is_of user) r rs o) ∙ n)
          (sym (first_past p r rs k) ∙ e)
  ]
]

dropped :
    (t : Tick) (row : Option Session) (s : Store)
    → Ensures Anything (λ _ _. Unit {0}) (drop_stale t row s)
unfolding drop_stale
dropped t none s = ensures_pure _ _ _ s tt
dropped t (some r) s = ensures_modify_end _ _ _ s tt

absent :
    (c : Crypto) (t : Tick) (authorization : Option Text) (user : ℕ) (w : Store)
    → keep (is_of user) w.sessions ≡ []
    → Ensures Anything (λ r _. (r.0 == user) ≡ false) (auth_middleware c t authorization w)
unfolding auth_middleware admit is_of
absent c t authorization user w n =
    ensures_bind _ (λ _ s. keep (is_of user) s.sessions ≡ []) _ _ _ w
      (ensures_lift _ _ _ w tt (λ _ _. n))
      (λ token s k. ensures_check _ _ _ _ _ s tt (λ _. ensures_gets _ _ _ _ s (
        admit-absent (c.token_hash token)
          (first (is_admitted s.accounts t.now (c.token_hash token)) s.sessions) s
          (λ r e.
            first-absent user (is_admitted s.accounts t.now (c.token_hash token)) s.sessions r k
              e))))
  where
    admit-absent :
        (hash : Text) (row : Option Session) (s : Store)
        → ((r : Session) → row ≡ some r → is_of user r ≡ false)
        → Ensures Anything (λ r _. (r.0 == user) ≡ false) (admit t hash row s)
    admit-absent hash none s h = ensures_check _ _ _ _ _ s tt (λ _. ensures_gets _ _ _ _ s (
        ensures_bind Anything (λ _ _. Unit {0}) _ (drop_stale t _) _ s (dropped t _ s)
          (λ _ s' _. ensures_raise _ _ _ s' tt)))
    admit-absent hash (some r) s h = ensures_modify _ _ _ _ s (ensures_pure _ _ _ _ (h r refl))

-- In the state that a successful sign-out everywhere leaves, no request is admitted for the account,
-- whatever token it brings.
pub auth_middleware-sign_out_everywhere :
    (c : Crypto) (t later : Tick) (authorization : Option Text) (user n : ℕ) (w w' : Store)
    → sign_out_everywhere t user w ≡ (ok n, w')
    → Ensures
        (λ _. Unit {0})
        (λ r _. (r.0 == user) ≡ false)
        (auth_middleware c later authorization w')
auth_middleware-sign_out_everywhere c t later authorization user n w w' e =
    absent c later authorization user w' (
      ensures_ok (λ _. Unit {0}) (λ _ s. keep (is_of user) s.sessions ≡ []) _ n w'
        (sign_out_everywhere-none t user w) e)
