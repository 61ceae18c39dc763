-- ===== src/Upload/Quota/Frame.antt =====
-- What the quota check (server/src/handlers/upload.rs) reads and writes.
use nexa_drive.Prelude.{ltb, ◌-◌, ℕ, Option, none, some, List}
use nexa_drive.Error.Ensures.{
  Ensures, ensures_bind, ensures_check, ensures_check_end, ensures_gets, ensures_modify,
  ensures_pure, ensures_lift, ensures_if,
}
use nexa_drive.Upload.Files.{Files}
use nexa_drive.Upload.Jobs.{Job}
use nexa_drive.Upload.World.{World, Moment, QuotaCacheEntry}
use nexa_drive.Upload.Quota.{
  quota_limit, quota_cache_ttl, kept_used_bytes, uncached_used_bytes, cached_used_bytes, used_bytes,
  ensure_limit, ensure_quota,
}

-- A condition on the journal and the files alone.
module _ (P : List Job → Files → Type 0) where
  abbrev Here : World → Type 0
  Here w = P w.jobs w.files

  abbrev Kept : {A : Type 0} → A → World → Type 0
  Kept a w = P w.jobs w.files

  uncached-Kept :
      (m : Moment) (user : ℕ) (w : World)
      → Here w
      → Ensures Here Kept (uncached_used_bytes m user w)
  unfolding uncached_used_bytes
  uncached-Kept m user w h =
      ensures_check _ _ _ _ _ w h (λ _. ensures_modify _ _ _ _ w (ensures_pure _ _ _ _ h))

  reading-Kept :
      (m : Moment) (user : ℕ) (e : QuotaCacheEntry) (w : World)
      → Here w
      → Ensures Here Kept (kept_used_bytes m user e w)
  unfolding kept_used_bytes
  reading-Kept m user e w h =
      ensures_check _ _ _ _ _ w h (λ _. ensures_gets _ _ _ _ w (ensures_pure _ _ _ w h))

  cached-Kept :
      (m : Moment) (user : ℕ) (e : Option QuotaCacheEntry) (w : World)
      → Here w
      → Ensures Here Kept (cached_used_bytes m user e w)
  unfolding cached_used_bytes
  cached-Kept m user none w h = uncached-Kept m user w h
  cached-Kept m user (some e) w h =
      ensures_if Here Kept (ltb (m.instant - e.at) quota_cache_ttl) (kept_used_bytes m user e)
        (uncached_used_bytes m user) w (λ _. reading-Kept m user e w h)
        (λ _. uncached-Kept m user w h)

  limit-Kept :
      (m : Moment) (user incoming : ℕ) (exclude limit : Option ℕ) (w : World)
      → Here w
      → Ensures Here Kept (ensure_limit m user incoming exclude limit w)
  unfolding ensure_limit used_bytes
  limit-Kept m user incoming exclude none w h = ensures_pure _ _ _ w h
  limit-Kept m user incoming exclude (some limit) w h =
      ensures_bind _ Kept _ _ _ w (ensures_gets _ _ _ _ w (cached-Kept m user _ w h)) λ used s k.
        ensures_check _ _ _ _ _ s k
          λ _. ensures_gets _ _ _ _ s (ensures_check_end _ _ _ _ s k (λ _. k))

  pub ensure_quota-kept :
      (m : Moment) (user incoming : ℕ) (exclude : Option ℕ) (w : World)
      → P w.jobs w.files
      → Ensures
          (λ w. P w.jobs w.files)
          (λ _ w. P w.jobs w.files)
          (ensure_quota m user incoming exclude w)
  unfolding ensure_quota quota_limit
  ensure_quota-kept m user incoming exclude w h =
      ensures_bind _ Kept _ _ _ w
        (ensures_check _ _ _ _ _ w h
          (λ _. ensures_gets _ _ _ _ w (ensures_lift _ _ _ w h (λ _ _. h))))
        λ limit s k. limit-Kept m user incoming exclude limit s k
