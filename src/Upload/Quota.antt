-- ===== src/Upload/Quota.antt =====
-- The storage quota of an account (server/src/handlers/upload.rs).
pub mod Frame
pub mod Admission
use nexa_drive.Prelude.{
  ℕ, ◌+◌, ◌-◌, ◌≤◌, ◌<◌, ◌≡◌, Bool, true, false, not, Option, none, some, List, [], ◌∷◌, ltb, leb,
  ◌==◌, if◌then◌else◌, arith,
}
use nexa_drive.Text.Decimal.{saturating_add}
use nexa_drive.Error.{Result, ok, err, AppError, database, io, conflict, numbered}
use nexa_drive.Error.Exec.{Exec, pure, lift, check, modify, gets, ◌>>=◌, ◌>>◌}
use nexa_drive.Upload.Jobs.{Job, reserved_upload_bytes, bytes_completed_since}
use nexa_drive.Upload.World.{
  World, User, I64, nonneg, negative, QuotaCacheEntry, Moment, Call, attempt,
}

-- QUOTA_CACHE_TTL, in milliseconds
abbrev pub quota_cache_ttl : ℕ
quota_cache_ttl = 5000

-- A missing row is an error of `fetch_one`; no quota, or a negative one, is no limit.
unfoldable pub limit_of : Option User → Result (Option ℕ)
limit_of none = err database
limit_of (some u) = elim u.quota_bytes [
  | none ↦ ok none
  | some v ↦ elim v [ nonneg n ↦ ok (some n) | negative n ↦ ok none ]
]

unfoldable pub quota_limit : Moment → ℕ → Exec World (Option ℕ)
quota_limit m user = do
  attempt m Call.quota_query database
  row ← gets (λ w. w.users user)
  lift (limit_of row)

unfoldable pub cache_set :
    ℕ → QuotaCacheEntry → (ℕ → Option QuotaCacheEntry) → ℕ → Option QuotaCacheEntry
cache_set user e cache u = if u == user then some e else cache u

-- The walk, whose result is kept with the time at which it began.
unfoldable pub uncached_used_bytes : Moment → ℕ → Exec World ℕ
uncached_used_bytes m user = do
  attempt m Call.walk_files io
  modify (λ w. record w {
    quota_cache =
        cache_set user (record { at = m.instant; cutoff = m.clock; bytes = m.tree_used })
          w.quota_cache;
  })
  pure m.tree_used

-- A reading, and the uploads that have landed since.
unfoldable pub kept_used_bytes : Moment → ℕ → QuotaCacheEntry → Exec World ℕ
kept_used_bytes m user e = do
  attempt m Call.completed_query database
  extra ← gets (λ w. bytes_completed_since user e.cutoff w.jobs)
  pure (saturating_add e.bytes extra)

unfoldable pub cached_used_bytes : Moment → ℕ → Option QuotaCacheEntry → Exec World ℕ
cached_used_bytes m user none = uncached_used_bytes m user
cached_used_bytes m user (some e) =
    if ltb (m.instant - e.at) quota_cache_ttl
    then kept_used_bytes m user e
    else uncached_used_bytes m user

unfoldable pub used_bytes : Moment → ℕ → Exec World ℕ
used_bytes m user = do entry ← gets (λ w. w.quota_cache user); cached_used_bytes m user entry

unfoldable pub within_quota : ℕ → ℕ → ℕ → ℕ → Bool
within_quota limit used reserved incoming =
    leb (saturating_add (saturating_add used reserved) incoming) limit

unfoldable pub ensure_limit : Moment → ℕ → ℕ → Option ℕ → Option ℕ → Exec World (Unit {0})
ensure_limit m user incoming exclude none = pure tt
ensure_limit m user incoming exclude (some limit) = do
  used ← used_bytes m user
  attempt m Call.reserved_query database
  reserved ← gets (λ w. reserved_upload_bytes user exclude w.jobs)
  check (within_quota limit used reserved incoming)
      (conflict (numbered "Storage quota exceeded. Limit is " limit " bytes."))

unfoldable pub ensure_quota : Moment → ℕ → ℕ → Option ℕ → Exec World (Unit {0})
ensure_quota m user incoming exclude = do
  limit ← quota_limit m user
  ensure_limit m user incoming exclude limit
