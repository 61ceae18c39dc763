-- ===== src/Upload/Chunk/Finish.antt =====
-- `upload_chunk` after the body: the journal and the move into place.
use nexa_drive.Prelude.{
  ℕ, ◌≤◌, ◌≡◌, refl, sym, subst, ap, ◌∙◌, Option, none, some, List, arith, length, take, take_all,
}
use nexa_drive.Text.{Text}
use nexa_drive.Error.{ok, AppError, database}
use nexa_drive.Error.Exec.{on_error, raise, ◌>>◌}
use nexa_drive.Error.Ensures.{
  Ensures, ensures_bind, ensures_check, ensures_gets, ensures_modify, ensures_modify_end,
  ensures_pure, ensures_lift, ensures_raise, ensures_on_error,
}
use nexa_drive.Upload.Files.{Node, file, folder, Files, put, put_self, put_ne}
use nexa_drive.Upload.Jobs.{Job, find, update, find-update, is_completed, map_option, JobError}
use nexa_drive.Upload.World.{World, AuditRow, Host, Moment, Call, audit, attempt, set_jobs}
use nexa_drive.Upload.Chunk.{
  ChunkReply, already_completed, still_receiving, now_completed, set_progress, set_failed,
  set_completed, remove_tombstone, finish, record_progress, io_text,
}
use nexa_drive.Upload.Staging.{content_of, rename, remove_file, rename_over, replace_file}
use nexa_drive.Upload.Chunk.Prefix.{IsPrefix, length-IsPrefix, eq_of_IsPrefix, IsPrefix-eq}
use nexa_drive.Upload.Chunk.Intact.{
  Upload, Delivered, OpenRow, Open, Open-Intact, Intact, IntactRow,
}
use nexa_drive.Upload.Chunk.Write.{Written, Holds}

-- What an answer tells the client holds.
abbrev pub Answered : Host → Upload → ChunkReply → World → Type 0
Answered host u (already_completed received path) w = Delivered u w.files × (path ≡ u.target.text)
Answered host u (still_receiving received total) w =
    OpenRow u received (find u.id u.user w.jobs)
    × (total ≡ length u.content)
    × (received ≤ length u.content)
    × (w.files u.staging ≡ some (file (take received u.content)))
Answered host u (now_completed total checksum path) w =
    Delivered u w.files
    × (total ≡ length u.content)
    × (checksum ≡ host.sha256 u.content)
    × (path ≡ u.target.text)

abbrev pub Outcome : Host → Upload → ChunkReply → World → Type 0
Outcome host u reply w = Intact u w × Answered host u reply w

-- The file is in place, and the journal does not know yet.
record Landed (u : Upload) (r : ℕ) (w : World) : Type 0 where
  is_open : Open u r w
  delivered : Delivered u w.files

module _ (u : Upload) (m : Moment) where
  progress-OpenRow :
      (r n : ℕ) (row : Option Job)
      → OpenRow u r row
      → OpenRow u n (map_option (set_progress m n) row)
  unfolding set_progress is_completed
  progress-OpenRow r n none h = h
  progress-OpenRow r n (some j) h = (h.0, h.1, refl, refl)

  failed-OpenRow :
      (r : ℕ) (e : JobError) (row : Option Job)
      → OpenRow u r row
      → OpenRow u r (map_option (set_failed m e) row)
  unfolding set_failed is_completed
  failed-OpenRow r e none h = h
  failed-OpenRow r e (some j) h = (h.0, h.1, refl, h.3)

  completed-IntactRow :
      (r n : ℕ) (c : Text) (row : Option Job) (files : Files)
      → OpenRow u r row
      → Delivered u files
      → IntactRow u (map_option (set_completed m n c) row) files
  unfolding set_completed is_completed
  completed-IntactRow r n c none files h d = absurd h
  completed-IntactRow r n c (some j) files h d = (h.0, h.1, d)

  held :
      (n : ℕ) (node : Option Node)
      → Holds u n node
      → (b : List ℕ) → node ≡ some (file b)
      → IsPrefix (take n b) u.content
  held n none h b e = absurd h
  held n (some folder) h b e = absurd h
  held n (some (file c)) h b e =
      let same : c ≡ b = cc in
      subst (λ x. IsPrefix (take n x) u.content) same
        (subst (λ x. IsPrefix x u.content) (sym (take_all n c (omega arith))) h.0)

  held_within : (n : ℕ) (node : Option Node) → Holds u n node → n ≤ length u.content
  held_within n none h = absurd h
  held_within n (some folder) h = absurd h
  held_within n (some (file c)) h = omega (arith, length-IsPrefix c u.content h.0)

  held_bytes : (n : ℕ) (node : Option Node) → Holds u n node → node ≡ some (file (take n u.content))
  held_bytes n none h = absurd h
  held_bytes n (some folder) h = absurd h
  held_bytes n (some (file c)) h =
      ap (λ x. some (file x)) (IsPrefix-eq c u.content h.0 ∙ ap (λ k. take k u.content) h.1)

  held_all : (node : Option Node) → Holds u (length u.content) node → node ≡ some (file u.content)
  held_all none h = absurd h
  held_all (some folder) h = absurd h
  held_all (some (file c)) h =
      ap (λ x. some (file x)) (eq_of_IsPrefix c u.content h.0 (omega arith))

  pub record_progress-Outcome :
      (host : Host) (r n : ℕ) (w : World)
      → Written u r n w
      → Ensures (Intact u) (Outcome host u) (record_progress m u.user u.id n (length u.content) w)
  unfolding record_progress
  record_progress-Outcome host r n w h =
      ensures_check _ _ _ _ _ w (Open-Intact u r w h.is_open) λ _. ensures_modify _ _ _ _ w (
        let row : OpenRow u n (find u.id u.user (update u.id u.user (set_progress m n) w.jobs)) =
          subst (OpenRow u n)
            (sym (
              find-update u.id u.user (set_progress m n) w.jobs
                (λ j. unfold set_progress in (refl, refl))))
            (progress-OpenRow r n (find u.id u.user w.jobs) (h.is_open).journal) in
        ensures_pure _ _ _ _ (
          Open-Intact u n _ (record {
            journal = row;
            confirmed = record {
              stored = held n (w.files u.staging) h.holds;
              within = held_within n (w.files u.staging) h.holds;
            };
          }),
          (
            row,
            refl,
            held_within n (w.files u.staging) h.holds,
            held_bytes n (w.files u.staging) h.holds,
          ),
        ))

  module _ (r : ℕ) where
    renamed-Landed :
        (w : World)
        → Written u r (length u.content) w
        → Landed u r (record w {
          files = put u.staging none (put u.target.absolute (w.files u.staging) w.files);
        })
    renamed-Landed w h = record {
      is_open = record {
        journal = (h.is_open).journal;
        confirmed = record {
          stored = λ b e. (let none_left = sym (put_self u.staging none _) ∙ e in cc);
          within = ((h.is_open).confirmed).within;
        };
      };
      delivered =
          put_ne u.staging u.target.absolute none _ u.apart
          ∙ put_self u.target.absolute _ w.files
          ∙ held_all (w.files u.staging) h.holds;
    }

    -- A rename that fails changes nothing.
    rename-Landed :
        (call : Call) (w : World)
        → Written u r (length u.content) w
        → Ensures
            (Written u r (length u.content))
            (λ _ w'. Landed u r w')
            (rename m call u.staging u.target.absolute w)
    unfolding rename
    rename-Landed call w h = ensures_gets _ _ _ _ w (
        ensures_gets _ _ _ _ w
          (ensures_check _ _ _ _ _ w h (λ _. ensures_modify_end _ _ _ w (renamed-Landed w h))))

    removed-Written :
        (w : World)
        → Written u r (length u.content) w
        → Written u r (length u.content) (record w { files = put u.target.absolute none w.files })
    removed-Written w h =
        let same : put u.target.absolute none w.files u.staging ≡ w.files u.staging =
          put_ne u.target.absolute u.staging none w.files (λ e. u.apart (sym e)) in
        record {
          is_open = record {
            journal = (h.is_open).journal;
            confirmed = record {
              stored = λ b e. ((h.is_open).confirmed).stored b (sym same ∙ e);
              within = ((h.is_open).confirmed).within;
            };
          };
          holds = subst (Holds u (length u.content)) (sym same) h.holds;
        }

    remove_file-Written :
        (call : Call) (w : World)
        → Written u r (length u.content) w
        → Ensures
            (Written u r (length u.content))
            (λ _ w'. Written u r (length u.content) w')
            (remove_file m call u.target.absolute w)
    unfolding remove_file
    remove_file-Written call w h =
        ensures_gets _ _ _ _ w
          (ensures_check _ _ _ _ _ w h (λ _. ensures_modify_end _ _ _ w (removed-Written w h)))

    rename_over-Landed :
        (e : AppError) (w : World)
        → Written u r (length u.content) w
        → Ensures
            (Written u r (length u.content))
            (λ _ w'. Landed u r w')
            (rename_over m u.staging u.target.absolute e w)
    unfolding rename_over
    rename_over-Landed e w h = ensures_gets _ _ _ _ w (
        ensures_check _ _ _ _ _ w h (λ _.
          ensures_bind _ (λ _ w'. Written u r (length u.content) w') _ _ _ w
            (remove_file-Written Call.remove_target w h)
            (λ _ s k. rename-Landed Call.rename_again s k)))

    replace_file-Landed :
        (w : World)
        → Written u r (length u.content) w
        → Ensures
            (Written u r (length u.content))
            (λ _ w'. Landed u r w')
            (replace_file m u.staging u.target.absolute w)
    unfolding replace_file
    replace_file-Landed w h =
        ensures_on_error _ _ (Written u r (length u.content)) _ _ w
          (rename-Landed Call.rename_staging w h) (λ e s k. rename_over-Landed e s k)

    pub failed-Intact :
        (e : JobError) (w : World)
        → Open u r w
        → Intact u (record w { jobs = update u.id u.user (set_failed m e) w.jobs })
    failed-Intact e w o = Open-Intact u r _ (record {
      journal =
          subst (OpenRow u r)
            (sym (
              find-update u.id u.user (set_failed m e) w.jobs
                (λ j. unfold set_failed in (refl, refl))))
            (failed-OpenRow r e (find u.id u.user w.jobs) o.journal);
      confirmed = o.confirmed;
    })

    placed :
        (w : World)
        → Written u r (length u.content) w
        → Ensures
            (Intact u)
            (λ _ w'. Landed u r w')
            (on_error
              (replace_file m u.staging u.target.absolute)
              (λ e. do
                attempt m Call.update_failed database
                set_jobs (update u.id u.user (set_failed m io_text))
                raise e)
              w)
    placed w h =
        ensures_on_error _ _ (Written u r (length u.content)) _ _ w (replace_file-Landed w h)
          (λ e s k. ensures_check _ _ _ _ _ s (Open-Intact u r s k.is_open) (λ _.
            ensures_modify _ _ _ _ s (ensures_raise _ _ e _ (failed-Intact io_text s k.is_open))))

    settled-Intact :
        (c : Text) (w : World)
        → Landed u r w
        → Intact u
            (record w { jobs = update u.id u.user (set_completed m (length u.content) c) w.jobs })
    unfolding Intact
    settled-Intact c w l =
        subst (λ row. IntactRow u row w.files)
          (sym (
            find-update u.id u.user (set_completed m (length u.content) c) w.jobs
              (λ j. unfold set_completed in (refl, refl))))
          (completed-IntactRow r (length u.content) c (find u.id u.user w.jobs) w.files
            (l.is_open).journal l.delivered)

    tail-Intact :
        (ts : List (ℕ × Text)) (w : World) → Intact u w → Intact u (record w { tombstones = ts })
    unfolding Intact
    tail-Intact ts w h = h

    read_content :
        (node : Option Node) (b : List ℕ)
        → Holds u (length u.content) node
        → content_of node ≡ ok b
        → b ≡ u.content
    unfolding content_of
    read_content none b h e = absurd h
    read_content (some folder) b h e = absurd h
    read_content (some (file c)) b h e = let whole = held_all (some (file c)) h in cc

    completed-Outcome :
        (host : Host) (b : List ℕ) (ts : List (ℕ × Text)) (rows : List AuditRow) (w : World)
        → Landed u r w
        → b ≡ u.content
        → Outcome host u
            (now_completed (length u.content) (host.sha256 b) u.target.text)
            (record w {
              jobs = update u.id u.user (set_completed m (length u.content) (host.sha256 b)) w.jobs;
              tombstones = ts;
              audit_logs = rows;
            })
    unfolding Intact
    completed-Outcome host b ts rows w l e =
        (settled-Intact (host.sha256 b) w l, (l.delivered, refl, ap host.sha256 e, refl))

    recorded :
        (host : Host) (b : List ℕ) (ts : List (ℕ × Text)) (w : World)
        → Landed u r w
        → b ≡ u.content
        → Ensures
            (Intact u)
            (λ _ w'.
              Outcome host u (now_completed (length u.content) (host.sha256 b) u.target.text) w')
            (audit m u.user "upload" (some u.target.text) (record w {
              jobs = update u.id u.user (set_completed m (length u.content) (host.sha256 b)) w.jobs;
              tombstones = ts;
            }))
    unfolding audit
    recorded host b ts w l e =
        ensures_check _ _ _ _ _ _ (completed-Outcome host b ts w.audit_logs w l e).0
          (λ _. ensures_modify_end _ _ _ _ (completed-Outcome host b ts _ w l e))

    pub finish-Outcome :
        (host : Host) (w : World)
        → Written u r (length u.content) w
        → Ensures
            (Intact u)
            (Outcome host u)
            (finish host m u.user u.id u.target u.staging (length u.content) w)
    unfolding finish
    finish-Outcome host w h = ensures_check _ _ _ _ _ w (Open-Intact u r w h.is_open) (λ _.
        ensures_gets _ _ _ _ w (
          ensures_bind _ (λ b w'. (b ≡ u.content) × Written u r (length u.content) w') _ _ _ w
            (ensures_lift _ _ _ w (Open-Intact u r w h.is_open)
              (λ b e. (read_content (w.files u.staging) b h.holds e, h)))
            (λ b s k.
              ensures_bind _ (λ _ w'. Landed u r w') _ _ _ s (placed s k.1)
                (λ _ s' l. ensures_check _ _ _ _ _ s' (Open-Intact u r s' l.is_open) (λ _.
                  ensures_modify _ _ _ _ s' (
                    ensures_modify _ _ _ _ _ (
                      ensures_bind _ _ _ _ _ _
                        (recorded host b (remove_tombstone u.user u.target.text s'.tombstones) s' l
                          k.0)
                        (λ _ s'' done. ensures_pure (Intact u) (Outcome host u) _ s'' done))))))))
