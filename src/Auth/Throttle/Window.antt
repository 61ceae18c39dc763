-- ===== src/Auth/Throttle/Window.antt =====
-- Runs of failures of the login throttle (server/src/auth.rs).
use nexa_drive.Prelude.{
  ℕ, ◌+◌, ◌-◌, ◌≤◌, ◌<◌, ◌≡◌, refl, ap, ◌∙◌, true, false, Option, none, some, List, [], ◌∷◌, arith,
  length, ltb, leb, ◌&&◌,
}
use nexa_drive.Text.{Text}
use nexa_drive.Text.Laws.{text_eq_refl}
use nexa_drive.Auth.{LoginAttempt}
use nexa_drive.Auth.Throttle.{
  window, max_failures, u32_max, Attempts, set_attempt, next_failure, register_failure, is_blocked,
}

-- The failures of a key, at the times of the list, one after the other.
unfoldable pub fail_at : Text → List ℕ → Attempts → Attempts
fail_at key [] attempts = attempts
fail_at key (t ∷ ts) attempts = fail_at key ts (register_failure t key attempts)

-- Times of the window that starts at the first.
abbrev pub Within : ℕ → List ℕ → Type 0
Within start [] = Unit {0}
Within start (t ∷ ts) = (start ≤ t) × (t ≤ start + window) × Within start ts

set_attempt_self :
    (key : Text) (a : Option LoginAttempt) (attempts : Attempts)
    → set_attempt key a attempts key ≡ a
unfolding set_attempt
set_attempt_self key a attempts = rw (text_eq_refl key) refl

one_more :
    (start n t : ℕ)
    → start ≤ t
    → t ≤ start + window
    → n < u32_max
    → next_failure t (some (record { window_started = start; failures = n }))
      ≡ record { window_started = start; failures = n + 1 }
unfolding next_failure
one_more start n t h k l =
    let in_window : ltb window (t - start) ≡ false = ground arith in
    let below : ltb n u32_max ≡ true = ground arith in rw (in_window, below) refl

failures_add :
    (key : Text) (start n : ℕ) (ts : List ℕ) (attempts : Attempts)
    → Within start ts
    → n + length ts ≤ u32_max
    → attempts key ≡ some (record { window_started = start; failures = n })
    → fail_at key ts attempts key
      ≡ some (record { window_started = start; failures = n + length ts })
unfolding fail_at register_failure
failures_add key start n [] attempts h k e =
    e ∙ ap (λ x. some (record { window_started = start; failures = x })) (omega arith)
failures_add key start n (t ∷ ts) attempts h k e =
    failures_add key start (n + 1) ts (register_failure t key attempts) h.2 (omega arith) (
      set_attempt_self key _ attempts
      ∙ ap some (ap (next_failure t) e ∙ one_more start n t h.0 h.1 (omega arith)))
    ∙ ap (λ x. some (record { window_started = start; failures = x })) (omega arith)

-- After failures of a key that had none, at times of the 15 minutes that begin with the first, the
-- key is blocked at a later time exactly if that time is in these 15 minutes too and the failures
-- are ten or more (their number fits the counter).
pub is_blocked-fail_at :
    (key : Text) (start now : ℕ) (ts : List ℕ) (attempts : Attempts)
    → attempts key ≡ none
    → Within start ts
    → length (start ∷ ts) ≤ u32_max
    → is_blocked now (fail_at key (start ∷ ts) attempts key)
      ≡ (leb (now - start) window && leb max_failures (length (start ∷ ts)))
unfolding is_blocked fail_at register_failure next_failure
is_blocked-fail_at key start now ts attempts e h k =
    ap (is_blocked now) (
      failures_add key start 1 ts (register_failure start key attempts) h (omega arith)
        (set_attempt_self key _ attempts ∙ ap (λ a. some (next_failure start a)) e))
    ∙ ap (λ n. leb (now - start) window && leb max_failures n) (omega arith)
