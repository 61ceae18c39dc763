-- ===== src/Upload/Chunk/Claim.antt =====
-- `upload_chunk`: the journal's row for an upload, found or made.
use nexa_drive.Prelude.{
  ◌≡◌, refl, sym, subst, ap, ◌∙◌, Bool, true, false, Option, none, some, List, ◌∷◌, arith, length,
}
use nexa_drive.Error.Ensures.{
  Ensures, ensures_bind, ensures_check, ensures_gets, ensures_modify_end, ensures_pure,
}
use nexa_drive.Upload.Jobs.{Job, find, is_row, is_completed}
use nexa_drive.Upload.World.{World, Moment}
use nexa_drive.Upload.Quota.Frame.{ensure_quota-kept}
use nexa_drive.Upload.Chunk.{JobView, view_of, new_job, insert_job, found_or_new, claim_job}
use nexa_drive.Upload.Chunk.Intact.{Upload, Confirmed, IntactRow, OpenRow, Open, Intact, Progress}

-- The view is that of the row.
pub record Claimed (u : Upload) (v : JobView) (w : World) : Type 0 where
  pub intact : Intact u w
  pub row : Job
  pub is_found : find u.id u.user w.jobs ≡ some row
  pub is_view : v ≡ view_of row

-- The row of an upload that is not completed is open at its offset.
pub Claimed-Open :
    (u : Upload) (v : JobView) (w : World)
    → Claimed u v w
    → is_completed v.status ≡ false
    → Open u v.received w
unfolding Intact view_of
Claimed-Open u v w c e =
    let same : v ≡ view_of c.row = c.is_view in
    let i : IntactRow u (some c.row) w.files =
      subst (λ (x : Option Job). IntactRow u x w.files) c.is_found c.intact in
    let status : is_completed (c.row).status ≡ false = completed_of same ∙ e in
    let offset : v.received ≡ (c.row).bytes_received = offset_of same in
    record {
      journal = subst (OpenRow u v.received) (sym c.is_found) (i.0, i.1, status, sym offset);
      confirmed =
          subst (λ r. Confirmed u r w.files) (sym offset)
            (confirmed_of (is_completed (c.row).status) status i.2);
    }
  where
    offset_of : v ≡ view_of c.row → v.received ≡ (c.row).bytes_received
    offset_of same = ap (λ (x : JobView). x.received) same

    completed_of : v ≡ view_of c.row → is_completed (c.row).status ≡ is_completed v.status
    completed_of same = sym (ap (λ (x : JobView). is_completed x.status) same)

    confirmed_of :
        (b : Bool)
        → b ≡ false
        → Progress u b (c.row).bytes_received w.files
        → Confirmed u (c.row).bytes_received w.files
    confirmed_of true e p = cc
    confirmed_of false e p = p

module _ (u : Upload) (m : Moment) where
  abbrev fresh : Job
  fresh = new_job m u.id u.user u.target.text (length u.content)

  fresh-found : (js : List Job) → find u.id u.user (fresh ∷ js) ≡ some fresh
  unfolding find is_row new_job
  fresh-found js = ground arith

  fresh-Claimed : (w : World) → Claimed u (view_of fresh) (record w { jobs = fresh ∷ w.jobs })
  unfolding Intact
  fresh-Claimed w = record {
    intact =
        subst (λ row. IntactRow u row w.files) (sym (fresh-found w.jobs))
          (unfold new_job is_completed in
            (refl, refl, record { stored = λ b e. tt; within = omega arith }));
    row = fresh;
    is_found = fresh-found w.jobs;
    is_view = refl;
  }

  found-Claimed :
      (row : Option Job) (w : World)
      → find u.id u.user w.jobs ≡ row
      → Intact u w
      → Ensures
          (Intact u)
          (λ v w'. Claimed u v w')
          (found_or_new m u.id u.user u.target.text (length u.content) row w)
  unfolding found_or_new insert_job
  found-Claimed (some j) w e h =
      ensures_pure _ _ _ w (record { intact = h; row = j; is_found = e; is_view = refl })
  found-Claimed none w e h =
      ensures_bind _ (λ _ w'. Intact u w') _ _ _ w
        (unfold Intact in
          ensure_quota-kept (λ js files. IntactRow u (find u.id u.user js) files) m u.user
            (length u.content) (some u.id) w h)
        λ _ s k. ensures_check _ _ _ _ _ s k λ _.
          ensures_bind _ (λ _ w'. Claimed u (view_of fresh) w') _ _ _ s
            (ensures_gets _ _ _ _ s
              (ensures_check _ _ _ _ _ s k (λ _. ensures_modify_end _ _ _ s (fresh-Claimed s))))
            λ _ s' c. ensures_pure _ _ _ s' c

  pub claim_job-Claimed :
      (w : World)
      → Intact u w
      → Ensures
          (Intact u)
          (λ v w'. Claimed u v w')
          (claim_job m u.user u.id u.target.text (length u.content) w)
  unfolding claim_job
  claim_job-Claimed w h =
      ensures_check _ _ _ _ _ w h
        (λ _. ensures_gets _ _ _ _ w (found-Claimed (find u.id u.user w.jobs) w refl h))
