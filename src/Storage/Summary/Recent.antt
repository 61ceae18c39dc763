-- ===== src/Storage/Summary/Recent.antt =====
-- How old the summary is that the cache of server/src/storage_stats.rs answers with.
use nexa_drive.Prelude.{
  ℕ, ◌-◌, ◌/◌, ◌<◌, ◌≤◌, ◌≡◌, refl, ap, subst, Bool, true, false, Option, none, some, arith, ltb,
  ◌⊎◌, inl, inr, if◌then◌else◌,
}
use nexa_drive.Error.{ok}
use nexa_drive.Error.Ensures.{
  Ensures, ensures_bind, ensures_check, ensures_gets, ensures_lift, ensures_modify, ensures_pure,
}
use nexa_drive.Storage.Summary.{
  StorageSummary, Disk, Cache, Turn, is_fresh, fresh, or_scan, cached, scan,
}

-- An answer from the cache, if it is young enough, or of a scan, if it is not, which is kept unless the
-- lock fails.
abbrev pub Answered : Turn → Disk → ℕ → Cache → StorageSummary → Cache → Type 0
Answered t d ttl_secs before s after =
    ((at : ℕ) × (before ≡ some (at, s))
      × ((t.read_at - at) / 1000000000 < ttl_secs)
      × (after ≡ before))
    ⊎ (((at : ℕ) (k : StorageSummary)
          → before ≡ some (at, k)
          → ttl_secs ≤ (t.read_at - at) / 1000000000)
        × (scan d ≡ ok s)
        × (after ≡ (if t.relock_fails then before else some (t.kept_at, s))))

abbrev entry : ℕ → StorageSummary → Cache
entry at s = some (at, s)

fresh-kept :
    (now ttl_secs : ℕ) (c : Cache) (s : StorageSummary)
    → fresh now ttl_secs c ≡ some s
    → (at : ℕ) × (c ≡ some (at, s)) × ((now - at) / 1000000000 < ttl_secs)
unfolding fresh is_fresh
fresh-kept now ttl_secs none s h = cc
fresh-kept now ttl_secs (some (at, k)) s h = kept (ltb ((now - at) / 1000000000) ttl_secs) refl h
  where
    kept :
        (b : Bool)
        → ltb ((now - at) / 1000000000) ttl_secs ≡ b
        → (if b then some k else none) ≡ some s
        → (u : ℕ) × (entry at k ≡ entry u s) × ((now - u) / 1000000000 < ttl_secs)
    kept true e q = (at, cc, ground arith)
    kept false e q = cc

fresh-stale :
    (now ttl_secs : ℕ) (c : Cache)
    → fresh now ttl_secs c ≡ none
    → (at : ℕ) (k : StorageSummary) → c ≡ some (at, k)
    → ttl_secs ≤ (now - at) / 1000000000
unfolding fresh is_fresh
fresh-stale now ttl_secs none h at k e = cc
fresh-stale now ttl_secs (some (u, s)) h at k e =
    let same : u ≡ at = cc in
    subst (λ x. ttl_secs ≤ (now - x) / 1000000000) same
      (stale (ltb ((now - u) / 1000000000) ttl_secs) refl h)
  where
    stale :
        (b : Bool)
        → ltb ((now - u) / 1000000000) ttl_secs ≡ b
        → (if b then some s else none) ≡ none
        → ttl_secs ≤ (now - u) / 1000000000
    stale true q r = cc
    stale false q r = ground arith

-- The answer is the summary in the cache, if that is younger than the given seconds, or else that of a scan now,
-- which is then kept, unless the second lock fails; the cache is used whenever it is young enough; an error
-- leaves the cache as it was.
pub cached-Answered :
    (t : Turn) (d : Disk) (ttl_secs : ℕ) (c : Cache)
    → Ensures (λ after. after ≡ c) (Answered t d ttl_secs c) (cached t d ttl_secs c)
unfolding cached or_scan
cached-Answered t d ttl_secs c =
    ensures_check _ _ _ _ _ c refl
      (λ _. ensures_gets _ _ _ _ c (answer (fresh t.read_at ttl_secs c) refl))
  where
    answer :
        (o : Option StorageSummary)
        → fresh t.read_at ttl_secs c ≡ o
        → Ensures (λ after. after ≡ c) (Answered t d ttl_secs c) (or_scan t d o c)
    answer (some s) e =
        let k = fresh-kept t.read_at ttl_secs c s e in
        ensures_pure _ _ _ c (inl (k.0, k.1, k.2, refl))
    answer none e =
        ensures_bind _ (λ s u. (scan d ≡ ok s) × (u ≡ c)) _ _ _ c
          (ensures_lift _ _ _ c refl (λ s q. (q, refl)))
          (λ s u q. ensures_modify _ _ _ _ u (
            ensures_pure _ _ _ _ (
              inr (
                fresh-stale t.read_at ttl_secs c e,
                q.0,
                ap (λ x. if t.relock_fails then x else some (t.kept_at, s)) q.1,
              ))))
