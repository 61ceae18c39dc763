-- ===== src/Upload/Chunk/Integrity.antt =====
-- A whole request of `upload_chunk` (server/src/handlers/upload.rs).
use nexa_drive.Prelude.{
  ℕ, ◌+◌, ◌≤◌, ◌≡◌, sym, subst, ap, ◌∙◌, true, false, Option, some, List, arith, length, drop, ltb,
  leb, ◌==◌, length-drop,
}
use nexa_drive.Text.{Text}
use nexa_drive.Text.Decimal.{saturating_add, u64_max}
use nexa_drive.Error.{ok, bad_request, numbered}
use nexa_drive.Error.Exec.{check, ◌>>=◌, ◌>>◌}
use nexa_drive.Error.Ensures.{
  Ensures, ensures_bind, ensures_check, ensures_gets, ensures_pure, ensures_lift, ensures_if,
}
use nexa_drive.Paths.{FilePath, safe_relative_path}
use nexa_drive.Upload.Files.{parent}
use nexa_drive.Upload.Jobs.{Job, is_completed}
use nexa_drive.Upload.World.{
  World, Host, Moment, create_dir_all, require_write_access, current_role,
}
use nexa_drive.Upload.Chunk.{
  ChunkQuery, JobView, view_of, checked_name, target_of, chunk_target, after_body, resume_upload,
  claim_job, continue_job, upload_chunk, already_completed,
}
use nexa_drive.Upload.Staging.{Frame, arrived, staging_path, write_body}
use nexa_drive.Upload.Chunk.Prefix.{IsPrefix, length-IsPrefix}
use nexa_drive.Upload.Chunk.Intact.{
  Upload, Intact, IntactRow, Open, Open-Intact, Progress, Intact-create_dir_all,
}
use nexa_drive.Upload.Chunk.Align.{Aligned, reconcile-Aligned, create_missing-Aligned}
use nexa_drive.Upload.Chunk.Write.{Written, write_body-Written, saturating_add_exact}
use nexa_drive.Upload.Chunk.Claim.{Claimed, Claimed-Open, claim_job-Claimed}
use nexa_drive.Upload.Chunk.Finish.{Answered, Outcome, record_progress-Outcome, finish-Outcome}

-- The request is one for the upload, and its body is the client's, from the offset on.
pub record Asks (host : Host) (u : Upload) (q : ChunkQuery) (frames : List Frame) : Type 0 where
  pub id : q.upload_id ≡ u.id
  pub total : q.total ≡ length u.content
  pub staging : staging_path host (u.target).absolute u.id ≡ u.staging
  pub target :
      (dir : FilePath) (filename : Text)
      → safe_relative_path q.path ≡ ok dir
      → checked_name q.name ≡ ok filename
      → target_of host u.user dir filename ≡ u.target
  pub body : IsPrefix (arrived frames) (drop q.offset u.content)
  pub bound : length u.content ≤ u64_max

eq_of_tests : (a b : ℕ) → leb a b ≡ true → ltb a b ≡ false → a ≡ b
eq_of_tests a b h k = ground arith

fit : (o : ℕ) (z c : List ℕ) → o ≤ length c → IsPrefix z (drop o c) → o + length z ≤ length c
fit o z c h p = omega (arith, length-IsPrefix z (drop o c) p, length-drop o c)

eq_of_test : (a b : ℕ) → (a == b) ≡ true → a ≡ b
eq_of_test a b h = ground arith

module _ (host : Host) (m : Moment) (u : Upload) where
  after_body-Outcome :
      (r n : ℕ) (w : World)
      → Written u r n w
      → Ensures
          (Intact u)
          (Outcome host u)
          (after_body host m u.user u.id u.target u.staging (length u.content) n w)
  unfolding after_body
  after_body-Outcome r n w h =
      let i = Open-Intact u r w h.is_open in
      ensures_check _ _ _ _ _ w i (λ _. ensures_check _ _ _ _ _ w i (λ le.
        ensures_if _ _ _ _ _ w (λ lt. record_progress-Outcome u m host r n w h)
          (λ ge.
            finish-Outcome u m r host w
              (subst (λ k. Written u r k w) (eq_of_tests n (length u.content) le ge) h))))

  body-Outcome :
      (expected : Option ℕ) (frames : List Frame) (r : ℕ) (w : World)
      → IsPrefix (arrived frames) (drop r u.content)
      → length u.content ≤ u64_max
      → Aligned u r w
      → Ensures (Intact u) (Outcome host u) (
          (write_body m u.staging r expected frames >>= λ written.
          after_body host m u.user u.id u.target u.staging
            (length u.content)
            (saturating_add r written))
            w)
  body-Outcome expected frames r w body bound a =
      let room = fit r (arrived frames) u.content ((a.is_open).confirmed).within body in
      let exact = saturating_add_exact r (length (arrived frames)) (omega arith) in
      ensures_bind (Intact u) _ (Outcome host u) _ _ w
        (write_body-Written u m r expected frames w a body (omega arith))
        (λ n s k.
          after_body-Outcome r (saturating_add r n) s
            (subst (λ x. Written u r x s) (sym (ap (saturating_add r) k.0 ∙ exact)) k.1))

  resume_upload-Outcome :
      (q : ChunkQuery) (expected : Option ℕ) (frames : List Frame) (recorded : ℕ) (w : World)
      → q.upload_id ≡ u.id
      → q.total ≡ length u.content
      → staging_path host u.target.absolute q.upload_id ≡ u.staging
      → IsPrefix (arrived frames) (drop q.offset u.content)
      → length u.content ≤ u64_max
      → Open u recorded w
      → Ensures
          (Intact u)
          (Outcome host u)
          (resume_upload host m u.user q expected frames u.target recorded w)
  unfolding resume_upload
  resume_upload-Outcome q expected frames recorded w i t p body bound o =
      rw (p, i, t)
        (ensures_bind _ (λ r s. Aligned u r s) _ _ _ w (reconcile-Aligned u m recorded w o)
          (λ r s a.
            ensures_bind _ (λ _ s'. Aligned u r s') _ _ _ s (create_missing-Aligned u m r s a)
              (λ _ s' a'. ensures_check _ _ _ _ _ s' (Open-Intact u r s' a'.is_open) (λ e.
                let same = eq_of_test q.offset r e in
                rw same (
                  body-Outcome expected frames r s'
                    (subst (λ x. IsPrefix (arrived frames) (drop x u.content)) same body) bound
                    a')))))

  done-Answered :
      (row : Job) (v : JobView) (w : World)
      → v ≡ view_of row
      → IntactRow u (some row) w.files
      → is_completed v.status ≡ true
      → Answered host u (already_completed v.received v.db_path) w
  unfolding view_of
  done-Answered row v w e i c =
      let status : is_completed row.status ≡ true =
        sym (ap (λ (x : JobView). is_completed x.status) e) ∙ c in
      (
        subst (λ b. Progress u b row.bytes_received w.files) status i.2,
        ap (λ (x : JobView). x.db_path) e ∙ i.0,
      )

  continue_job-Outcome :
      (q : ChunkQuery) (expected : Option ℕ) (frames : List Frame) (v : JobView) (w : World)
      → Asks host u q frames
      → Claimed u v w
      → Ensures
          (Intact u)
          (Outcome host u)
          (continue_job host m u.user q expected frames u.target v w)
  unfolding continue_job Intact
  continue_job-Outcome q expected frames v w a c =
      ensures_if _ _ _ _ _ w
        (λ e. ensures_pure _ _ _ w (
          c.intact,
          done-Answered c.row v w c.is_view
              (subst (λ (x : Option Job). IntactRow u x w.files) c.is_found c.intact) e,
        ))
        (λ e. ensures_check _ _ _ _ _ w c.intact (λ _. ensures_check _ _ _ _ _ w c.intact (λ _.
          resume_upload-Outcome q expected frames v.received w a.id a.total
            (subst (λ i. staging_path host u.target.absolute i ≡ u.staging) (sym a.id) a.staging)
            a.body a.bound (Claimed-Open u v w c e))))

  require_write_access-kept :
      (w : World)
      → Intact u w
      → Ensures (Intact u) (λ _ w'. Intact u w') (require_write_access m u.user w)
  unfolding require_write_access current_role
  require_write_access-kept w h =
      ensures_bind _ (λ _ w'. Intact u w') _ _ _ w
        (ensures_check _ _ _ _ _ w h (λ _. ensures_gets _ _ _ _ w (
          ensures_bind _ (λ _ w'. Intact u w') _ _ _ w (ensures_lift _ _ _ w h (λ _ _. h))
            (λ _ s k. ensures_pure _ _ _ s k))))
        (λ _ s k. ensures_pure _ _ _ s k)

  chunk_target-kept :
      (q : ChunkQuery) (frames : List Frame) (w : World)
      → Asks host u q frames
      → Intact u w
      → Ensures (Intact u) (λ t w'. (t ≡ u.target) × Intact u w') (chunk_target host m u.user q w)
  unfolding chunk_target
  chunk_target-kept q frames w a h =
      ensures_bind _ (λ d s. (safe_relative_path q.path ≡ ok d) × Intact u s) _ _ _ w
        (ensures_lift _ _ _ w h (λ d e. (e, h)))
        (λ d s k.
          ensures_bind _ (λ _ s'. Intact u s') _ _ _ s (require_write_access-kept s k.1)
            (λ _ s' k'.
              ensures_bind _ (λ n s''. (checked_name q.name ≡ ok n) × Intact u s'') _ _ _ s'
                (ensures_lift _ _ _ s' k' (λ n e. (e, k')))
                (λ n s'' l.
                  ensures_check _ _ _ _ _ s'' l.1
                    (λ _. ensures_pure _ _ _ s'' (a.target d n k.0 l.0, l.1)))))

  claimed :
      (q : ChunkQuery) (w : World)
      → q.upload_id ≡ u.id
      → q.total ≡ length u.content
      → Intact u w
      → Ensures
          (Intact u)
          (λ v w'. Claimed u v w')
          (claim_job m u.user q.upload_id u.target.text q.total w)
  claimed q w i t h = rw (i, t) (claim_job-Claimed u m w h)

  aimed-Outcome :
      (q : ChunkQuery) (expected : Option ℕ) (frames : List Frame) (w : World)
      → Asks host u q frames
      → Intact u w
      → Ensures (Intact u) (Outcome host u) (
          (create_dir_all m (parent u.target.absolute)
              >> (check (leb q.total host.max_upload_bytes) (
                    bad_request (
                      numbered "Upload exceeds the configured maximum of " host.max_upload_bytes
                        " bytes"))
                  >> (claim_job m u.user q.upload_id u.target.text q.total >>= λ job.
                      continue_job host m u.user q expected frames u.target job)))
            w)
  aimed-Outcome q expected frames w a h =
      ensures_bind _ (λ _ s. Intact u s) _ _ _ w (Intact-create_dir_all u m _ w h)
        (λ _ s k. ensures_check _ _ _ _ _ s k (λ _.
          ensures_bind _ (λ v s'. Claimed u v s') _ _ _ s (claimed q s a.id a.total k)
            (λ v s' c. continue_job-Outcome q expected frames v s' a c)))

  -- Whatever a chunk request meets (calls that fail, a body that breaks off, any state of the other
  -- rows and files), and whether it answers or reports an error: if no byte of the staging file below
  -- the recorded offset is other than the client's, and a completed file is exactly the client's bytes,
  -- before the request, then so after it. (The staging file may be missing or shorter than the offset;
  -- then the next request lowers the offset.) An answer is true: "receiving" names the recorded
  -- offset, and the staging file then holds exactly the client's bytes up to there; "completed" means that the
  -- file holds exactly the client's bytes, and that a digest, where it gives one, is of these. Of the
  -- request it is asked that it is for this upload, and that its body continues the client's bytes at
  -- the offset it names. It is one step: no cancellation of the upload runs in the middle of it.
  pub upload_chunk-Outcome :
      (q : ChunkQuery) (expected : Option ℕ) (frames : List Frame) (w : World)
      → Asks host u q frames
      → Intact u w
      → Ensures (Intact u) (Outcome host u) (upload_chunk host m u.user q expected frames w)
  unfolding upload_chunk
  upload_chunk-Outcome q expected frames w a h = ensures_check _ _ _ _ _ w h (λ _.
      ensures_check _ _ _ _ _ w h (λ _.
        ensures_bind _ (λ t s. (t ≡ u.target) × Intact u s) _ _ _ w
          (chunk_target-kept q frames w a h)
          (λ t s k.
            subst
              (λ x. Ensures (Intact u) (Outcome host u) (
                (create_dir_all m (parent x.absolute)
                    >> (check (leb q.total host.max_upload_bytes) (
                          bad_request (
                            numbered "Upload exceeds the configured maximum of "
                              host.max_upload_bytes " bytes"))
                        >> (claim_job m u.user q.upload_id x.text q.total >>= λ job.
                            continue_job host m u.user q expected frames x job)))
                  s))
              (sym k.0) (aimed-Outcome q expected frames s a k.1))))
