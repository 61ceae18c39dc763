-- ===== src/Console/Refreshed.antt =====
-- The time at which a console session was last seen (server/src/console/session.rs, `require_console_admin`).
use nexa_drive.Prelude.{
  ℕ, ◌≡◌, ◌+◌, ◌<◌, ◌⊎◌, inl, inr, refl, ap, Bool, true, false, Option, none, some, List, [], ◌∷◌,
  ltb, ltb→lt, lt→ltb, both_of_and, if◌then◌else◌,
}
use nexa_drive.Prelude.Rows.{update_rows}
use nexa_drive.Text.{Text, text_eq}
use nexa_drive.Text.Laws.{text_eq→eq, text_eq_iff}
use nexa_drive.Console.{ConsoleSession, Console, Visit, Site, Fault}
use nexa_drive.Console.Session.{has_hash, is_unseen, see}

-- A session of the token that was not seen yet, or more than a minute ago.
pub record Due (hash : Text) (now : ℕ) (s : ConsoleSession) : Type 0 where
  pub is_its : s.token_hash ≡ hash
  pub is_old : (s.last_seen_at ≡ none) ⊎ ((at : ℕ) × (s.last_seen_at ≡ some at) × (at + 60 < now))

-- The sessions that are due are seen now, and the others are as they were.
pub data Seen (hash : Text) (now : ℕ) : List ConsoleSession → List ConsoleSession → Type 0 where
  nobody : Seen hash now [] []
  seen :
      (s : ConsoleSession) (ss ts : List ConsoleSession)
      → Due hash now s
      → Seen hash now ss ts
      → Seen hash now (s ∷ ss) ((record s { last_seen_at = some now }) ∷ ts)
  as_it_was :
      (s : ConsoleSession) (ss ts : List ConsoleSession)
      → ¬ Due hash now s
      → Seen hash now ss ts
      → Seen hash now (s ∷ ss) (s ∷ ts)

-- Nothing else has changed; and where the update fails, nothing has.
abbrev pub Refreshed : Site → Visit → Text → Console → Console → Type 0
Refreshed c v token before after =
    (ss : List ConsoleSession) × (after ≡ record before { sessions = ss })
    × (((v.fails Fault.refresh_session ≡ true) × (ss ≡ before.sessions))
        ⊎ ((v.fails Fault.refresh_session ≡ false)
            × Seen (c.token_hash token) v.now before.sessions ss))

abbrev is_old : ℕ → Option ℕ → Bool
is_old now o = elim o [ none ↦ true | some a ↦ ltb (a + 60) now ]

old_time :
    (now : ℕ) (o : Option ℕ)
    → is_old now o ≡ true
    → (o ≡ none) ⊎ ((at : ℕ) × (o ≡ some at) × (at + 60 < now))
old_time now none h = inl refl
old_time now (some a) h = inr (a, refl, ltb→lt (a + 60) now h)

time_old :
    (now : ℕ) (o : Option ℕ)
    → (o ≡ none) ⊎ ((at : ℕ) × (o ≡ some at) × (at + 60 < now))
    → is_old now o ≡ true
time_old now o (inl e) = ap (is_old now) e
time_old now o (inr (at, e, h)) = rw e (lt→ltb (at + 60) now h)

module _ (hash : Text) (now : ℕ) where
  is_unseen-Due : (s : ConsoleSession) → is_unseen hash now s ≡ true → Due hash now s
  unfolding is_unseen has_hash
  is_unseen-Due s h =
      let k = both_of_and (text_eq s.token_hash hash) (is_old now s.last_seen_at) h in
      record { is_its = text_eq→eq s.token_hash hash k.0; is_old = old_time now s.last_seen_at k.1 }

  Due-is_unseen : (s : ConsoleSession) → Due hash now s → is_unseen hash now s ≡ true
  unfolding is_unseen has_hash
  Due-is_unseen s d =
      rw ((text_eq_iff s.token_hash hash).1 d.is_its, time_old now s.last_seen_at d.is_old) refl

  pub update_rows-Seen :
      (ss : List ConsoleSession) → Seen hash now ss (update_rows (is_unseen hash now) (see now) ss)
  unfolding update_rows see
  update_rows-Seen [] = nobody
  update_rows-Seen (s ∷ ss) = row (update_rows-Seen ss) (is_unseen hash now s) refl
    where
      row :
          Seen hash now ss (update_rows (is_unseen hash now) (see now) ss)
          → (b : Bool) → is_unseen hash now s ≡ b
          → Seen hash now
              (s ∷ ss)
              ((if b then see now s else s) ∷ update_rows (is_unseen hash now) (see now) ss)
      row rest true e = seen s ss _ (is_unseen-Due s e) rest
      row rest false e = as_it_was s ss _ (λ d. let yes = Due-is_unseen s d in cc) rest
