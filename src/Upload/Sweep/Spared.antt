-- ===== src/Upload/Sweep/Spared.antt =====
-- What the sweep of expired uploads (server/src/handlers/upload.rs) leaves alone.
use nexa_drive.Prelude.{ℕ, ◌≡◌, ◌≢◌, refl, ◌∙◌, Option, List, [], ◌∷◌, arith, keep, length}
use nexa_drive.Error.{Result, ok, err}
use nexa_drive.Error.Ensures.{
  Ensures, ensures_bind, ensures_check, ensures_gets, ensures_modify, ensures_modify_end,
  ensures_pure,
}
use nexa_drive.Paths.{FilePath, safe_relative_path}
use nexa_drive.Upload.Files.{Node, put_ne}
use nexa_drive.Upload.Jobs.{Job}
use nexa_drive.Upload.World.{World, Host, Moment}
use nexa_drive.Upload.Staging.{staging_path}
use nexa_drive.Upload.Cancel.{absolute_of, try_remove, set_row}
use nexa_drive.Upload.Sweep.{is_expired, remove_staging_of, expire_each, sweep_expired_uploads}

-- The path is not that of the staging file of a row.
abbrev pub IsOther : Host → FilePath → Job → Type 0
IsOther host p row =
    (relative : FilePath)
    → safe_relative_path row.path ≡ ok relative
    → staging_path host (absolute_of host row.user_id relative) row.id ≢ p

abbrev pub AllOther : Host → FilePath → List Job → Type 0
AllOther host p [] = Unit
AllOther host p (row ∷ rows) = IsOther host p row × AllOther host p rows

module _ (host : Host) (m : Moment) (p : FilePath) (n : Option Node) where
  abbrev Stays : World → Type 0
  Stays w = w.files p ≡ n

  remove_staging_of-Stays :
      (row : Job) (w : World) (r : Result FilePath)
      → safe_relative_path row.path ≡ r
      → IsOther host p row
      → Stays w
      → Ensures Stays (λ _. Stays) (remove_staging_of host m row r w)
  unfolding remove_staging_of try_remove
  remove_staging_of-Stays row w (err e) q far h = ensures_pure _ _ _ w h
  remove_staging_of-Stays row w (ok relative) q far h =
      ensures_modify_end _ _ _ w (put_ne _ p _ w.files (far relative q) ∙ h)

  expire_each-Stays :
      (rows : List Job) (w : World)
      → AllOther host p rows
      → Stays w
      → Ensures Stays (λ count s. Stays s × (count ≡ length rows)) (expire_each host m rows w)
  unfolding expire_each set_row
  expire_each-Stays [] w far h = ensures_pure _ _ _ w (h, refl)
  expire_each-Stays (row ∷ rows) w far h =
      ensures_bind _ (λ _. Stays) _ _ _ w (remove_staging_of-Stays row w _ refl far.0 h)
        (λ _ w1 h1.
          ensures_bind _ (λ _. Stays) _ _ _ w1
            (ensures_check _ _ _ _ _ w1 h1 (λ _. ensures_modify_end _ _ _ w1 h1))
            (λ _ w2 h2.
              ensures_bind _ (λ count s. Stays s × (count ≡ length rows)) _ _ _ w2
                (expire_each-Stays rows w2 far.1 h2)
                (λ more w3 h3. ensures_pure _ _ _ w3 (h3.0, let same = h3.1 in omega arith))))

-- A sweep, also where it fails, leaves every path as it is but the staging files of uploads that were
-- expired; where it succeeds, it answers with their number.
pub sweep_expired_uploads-AllOther :
    (host : Host) (m : Moment) (ttl_hours : ℕ) (p : FilePath) (w : World)
    → AllOther host p (keep (is_expired m.clock ttl_hours) w.jobs)
    → Ensures
        (λ s. s.files p ≡ w.files p)
        (λ count s.
          (s.files p ≡ w.files p) × (count ≡ length (keep (is_expired m.clock ttl_hours) w.jobs)))
        (sweep_expired_uploads host m ttl_hours w)
unfolding sweep_expired_uploads
sweep_expired_uploads-AllOther host m ttl_hours p w far = ensures_check _ _ _ _ _ w refl (λ _.
    ensures_gets _ _ _ _ w (
      ensures_bind _ (λ count s. Stays host m p (w.files p) s × (count ≡ length rows)) _ _ _ w
        (expire_each-Stays host m p (w.files p) rows w far refl)
        (λ count s h.
          ensures_check _ _ _ _ _ s h.0 (λ _. ensures_modify _ _ _ _ s (ensures_pure _ _ _ _ h)))))
  where
    rows : List Job
    rows = keep (is_expired m.clock ttl_hours) w.jobs
