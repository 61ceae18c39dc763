-- ===== src/Auth/Sessions/Scope.antt =====
-- The rows that the revocations of server/src/handlers/sessions.rs select, as filters of the table.
use nexa_drive.Prelude.{
  ℕ, ◌≡◌, ◌≢◌, refl, ap, sym, subst, ◌∙◌, Bool, true, false, not, ◌||◌, Bool-cases, inl, inr,
  both_of_and, false_of_negation, Option, none, some, List, [], ◌∷◌, arith, ◌==◌, keep, map, String,
}
use nexa_drive.Prelude.Filter.{keep_here, keep_past, keep-keep, keep-keep_none}
use nexa_drive.Error.Ensures.{
  Ensures, ensures_bind, ensures_check, ensures_gets, ensures_modify, ensures_modify_end,
  ensures_pure, ensures_lift,
}
use nexa_drive.Auth.{Session, Subject, Store, Tick, log_action}
use nexa_drive.Auth.Sessions.{
  is_of, is_named, is_live, is_other, is_revoked, unwrap_or, delete_where, delete_each,
  revoke_listed, revoke_session, revoke_other_sessions, revoke_user, sign_out_everywhere,
}

-- Sessions that a request does not touch.
abbrev pub Keeps : (Session → Bool) → List Session → Store → Type 0
Keeps p before w = keep p w.sessions ≡ before

-- No id of the list, deleted for the account, is one of a session that the test selects.
abbrev pub Misses : (Session → Bool) → ℕ → List ℕ → Type 0
Misses p user [] = Unit {0}
Misses p user (id ∷ ids) =
    ((s : Session) → p s ≡ true → not (is_named id user s) ≡ true) × Misses p user ids

named_of :
    (id user : ℕ) (p : Session → Bool)
    → ((s : Session) → p s ≡ true → is_of user s ≡ false)
    → (s : Session) → p s ≡ true
    → not (is_named id user s) ≡ true
unfolding is_named
named_of id user p h s e = let f = h s e in ground arith

module _ (p : Session → Bool) (before : List Session) (t : Tick) where
  log-Keeps :
      (user : ℕ) (action : String) (subject : Subject) (w : Store)
      → Keeps p before w
      → Ensures (Keeps p before) (λ _ w'. Keeps p before w') (log_action t user action subject w)
  unfolding log_action
  log-Keeps user action subject w h =
      ensures_check _ _ _ _ _ w h (λ _. ensures_modify_end _ _ _ w h)

  delete-Keeps :
      (q : Session → Bool) (w : Store)
      → ((s : Session) → p s ≡ true → not (q s) ≡ true)
      → Keeps p before w
      → Keeps p before (record w { sessions = delete_where q w.sessions })
  unfolding delete_where
  delete-Keeps q w h k = keep-keep p (λ s. not (q s)) h w.sessions ∙ k

  delete_each-Keeps :
      (user : ℕ) (ids : List ℕ) (w : Store)
      → Misses p user ids
      → Keeps p before w
      → Ensures (Keeps p before) (λ _ w'. Keeps p before w') (delete_each t user ids w)
  unfolding delete_each
  delete_each-Keeps user [] w h k = ensures_pure _ _ _ w k
  delete_each-Keeps user (id ∷ ids) w h k = ensures_check _ _ _ _ _ w k (λ _.
      ensures_modify _ _ _ _ w
        (delete_each-Keeps user ids _ h.1 (delete-Keeps (is_named id user) w h.0 k)))

  revoke_listed-Keeps :
      (user : ℕ) (ids : List ℕ) (w : Store)
      → Misses p user ids
      → Keeps p before w
      → Ensures (Keeps p before) (λ _ w'. Keeps p before w') (revoke_listed t user ids w)
  unfolding revoke_listed
  revoke_listed-Keeps user [] w h k = ensures_pure _ _ _ w k
  revoke_listed-Keeps user (id ∷ ids) w h k =
      ensures_bind _ (λ _ w'. Keeps p before w') _ _ _ w (delete_each-Keeps user (id ∷ ids) w h k)
        (λ _ s l.
          ensures_bind _ (λ _ w'. Keeps p before w') _ _ _ s (log-Keeps user _ _ s l)
            (λ _ s' l'. ensures_pure _ _ _ s' l'))

foreign :
    (user other : ℕ)
    → (other == user) ≡ false
    → (s : Session) → is_of other s ≡ true
    → is_of user s ≡ false
unfolding is_of
foreign user other h s e = ground arith

-- Sessions of another account, and the one that makes the request.
unfoldable pub is_safe : ℕ → ℕ → Session → Bool
is_safe other current s = is_of other s || (s.id == current)

safe_named :
    (user other current id : ℕ) (s : Session)
    → (other == user) ≡ false
    → (id == current) ≡ false
    → is_safe other current s ≡ true
    → not (is_named id user s) ≡ true
unfolding is_safe is_named is_of
safe_named user other current id s h k e = ground arith

other_id :
    (user now current : ℕ) (s : Session)
    → is_revoked user now current true s ≡ true
    → (s.id == current) ≡ false
unfolding is_revoked is_other
other_id user now current s e =
    let x = both_of_and (is_live user now s) (not (s.id == current)) e in
    false_of_negation (s.id == current) x.1

safe-Misses :
    (user other current now : ℕ) (ss : List Session)
    → (other == user) ≡ false
    → Misses
        (is_safe other current)
        user
        (map (λ s. s.id) (keep (is_revoked user now current true) ss))
safe-Misses user other current now [] h = tt
safe-Misses user other current now (s ∷ ss) h =
    elim (Bool-cases (is_revoked user now current true s)) [
      | inl e ↦
          subst (λ xs. Misses (is_safe other current) user (map (λ s. s.id) xs))
            (sym (keep_here (is_revoked user now current true) s ss e))
            (
              (λ r k. safe_named user other current s.id r h (other_id user now current s e) k),
              safe-Misses user other current now ss h,
            )
      | inr e ↦
          subst (λ xs. Misses (is_safe other current) user (map (λ s. s.id) xs))
            (sym (keep_past (is_revoked user now current true) s ss e))
            (safe-Misses user other current now ss h)
    ]

-- Revoking the other sessions, unless it is asked to take the current one along, and also where a
-- deletion fails half-way, leaves the session that makes the request and all sessions of any other
-- account as they are.
pub revoke_other_sessions-is_safe :
    (t : Tick) (user other current : ℕ) (exclude_current : Option Bool) (w : Store)
    → (other == user) ≡ false
    → exclude_current ≢ some false
    → Ensures
        (Keeps (is_safe other current) (keep (is_safe other current) w.sessions))
        (λ _ w'. Keeps (is_safe other current) (keep (is_safe other current) w.sessions) w')
        (revoke_other_sessions t user current exclude_current w)
unfolding revoke_other_sessions unwrap_or
revoke_other_sessions-is_safe t user other current (some false) w h k = absurd (k refl)
revoke_other_sessions-is_safe t user other current (some true) w h k =
    ensures_check _ _ _ _ _ w refl (λ _. ensures_gets _ _ _ _ w (
      revoke_listed-Keeps (is_safe other current) _ t user _ w
        (safe-Misses user other current t.now w.sessions h) refl))
revoke_other_sessions-is_safe t user other current none w h k = ensures_check _ _ _ _ _ w refl (λ _.
    ensures_gets _ _ _ _ w (
      revoke_listed-Keeps (is_safe other current) _ t user _ w
        (safe-Misses user other current t.now w.sessions h) refl))

-- Revoking a session by its id removes no session of another account, whosever the id is.
pub revoke_session-is_of :
    (t : Tick) (user other : ℕ) (session_id : Option ℕ) (w : Store)
    → (other == user) ≡ false
    → Ensures
        (Keeps (is_of other) (keep (is_of other) w.sessions))
        (λ _ w'. Keeps (is_of other) (keep (is_of other) w.sessions) w')
        (revoke_session t user session_id w)
unfolding revoke_session
revoke_session-is_of t user other session_id w h =
    ensures_bind _ (λ _ w'. Keeps (is_of other) (keep (is_of other) w.sessions) w') _ _ _ w
      (ensures_lift _ _ _ w refl (λ _ _. refl))
      (λ id s k. ensures_check _ _ _ _ _ s k (λ _. ensures_gets _ _ _ _ s (
        ensures_modify _ _ _ _ s (
          let kept =
            delete-Keeps (is_of other) _ t (is_named id user) s
              (named_of id user (is_of other) (foreign user other h)) k in
          ensures_check _ _ _ _ _ _ kept (λ _.
            ensures_bind _ (λ _ w'. Keeps (is_of other) (keep (is_of other) w.sessions) w') _ _ _ _
              (log-Keeps (is_of other) _ t user _ _ _ kept) (λ _ s' l. ensures_pure _ _ _ s' l))))))

-- Signing out everywhere: no session of the account is left.
pub sign_out_everywhere-none :
    (t : Tick) (user : ℕ) (w : Store)
    → Ensures
        (λ _. Unit {0})
        (λ _ w'. keep (is_of user) w'.sessions ≡ [])
        (sign_out_everywhere t user w)
unfolding sign_out_everywhere revoke_user delete_where log_action
sign_out_everywhere-none t user w = ensures_check _ _ _ _ _ w tt (λ _. ensures_gets _ _ _ _ w (
    ensures_modify _ _ _ _ w (
      ensures_bind _ (λ _ w'. keep (is_of user) w'.sessions ≡ []) _ _ _ _
        (ensures_check _ _ _ _ _ _ tt (λ _.
          ensures_modify_end _ _ _ _
            (keep-keep_none (is_of user) (λ s. not (is_of user s)) (λ s e. ap not e) w.sessions)))
        (λ _ s' l. ensures_pure _ _ _ s' l))))
