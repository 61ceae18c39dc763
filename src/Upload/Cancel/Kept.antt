-- ===== src/Upload/Cancel/Kept.antt =====
-- `cancel_upload` (server/src/handlers/upload.rs) and the invariant of an upload.
use nexa_drive.Prelude.{
  ℕ, ◌≡◌, refl, sym, subst, ◌∙◌, Bool, true, false, Option, none, some, List, if◌then◌else◌,
  Bool-cases, inl, inr,
}
use nexa_drive.Error.Exec.{pure}
use nexa_drive.Error.Ensures.{
  Ensures, ensures_bind, ensures_check, ensures_gets, ensures_modify, ensures_modify_end,
  ensures_pure, ensures_lift, ensures_if,
}
use nexa_drive.Paths.{FilePath}
use nexa_drive.Upload.Files.{Node, file, folder, Files, put, path_eq, path_eq→eq}
use nexa_drive.Upload.Jobs.{
  Job, failed, cancelled, find, update, find-update, map_option, is_completed,
}
use nexa_drive.Upload.World.{World, Host, Moment}
use nexa_drive.Upload.Staging.{is_folder}
use nexa_drive.Upload.Chunk.Intact.{
  Upload, OpenRow, Open, Open-Intact, Intact, IntactRow, Delivered, Progress,
}
use nexa_drive.Upload.Chunk.{set_failed}
use nexa_drive.Upload.Chunk.Finish.{failed-Intact}
use nexa_drive.Upload.Cancel.{
  CancelReply, unknown, already_done, now_cancelled, removed, try_remove, cancel_row, cancel_found,
  cancel_upload,
}

removed_file :
    (fails : Bool) (node : Option Node) (b : List ℕ)
    → removed fails node ≡ some (file b)
    → node ≡ some (file b)
unfolding removed is_folder
removed_file true entry b e = e
removed_file false none b e = e
removed_file false (some folder) b e = e
removed_file false (some (file c)) b e = cc

if_true : (c : Bool) (x y : Option Node) → c ≡ true → (if c then x else y) ≡ x
if_true true x y k = refl
if_true false x y k = cc

if_false : (c : Bool) (x y : Option Node) → c ≡ false → (if c then x else y) ≡ y
if_false true x y k = cc
if_false false x y k = refl

removed_kept :
    (p q : FilePath) (fails : Bool) (files : Files) (b : List ℕ)
    → put p (removed fails (files p)) files q ≡ some (file b)
    → files q ≡ some (file b)
unfolding put
removed_kept p q fails files b e = elim (Bool-cases (path_eq p q)) [
  | inl k ↦
      (let same : p ≡ q = path_eq→eq p q k in
        subst (λ x. files x ≡ some (file b)) same
          (removed_file fails (files p) b (sym (if_true (path_eq p q) _ _ k) ∙ e)))
  | inr k ↦ sym (if_false (path_eq p q) _ _ k) ∙ e
]

find-Open :
    (u : Upload) (row : Job) (w : World)
    → find u.id u.user w.jobs ≡ some row
    → is_completed row.status ≡ false
    → Intact u w
    → Open u row.bytes_received w
unfolding Intact
find-Open u row w e c h =
    let i : IntactRow u (some row) w.files =
      subst (λ (x : Option Job). IntactRow u x w.files) e h in
    record {
      journal = subst (OpenRow u row.bytes_received) (sym e) (i.0, i.1, c, refl);
      confirmed = subst (λ b. Progress u b row.bytes_received w.files) c i.2;
    }

-- The row of an upload that is cancelled.
abbrev pub Cancelled : Option Job → Type 0
Cancelled none = ⊥
Cancelled (some j) = (j.status ≡ failed) × (j.last_error ≡ some cancelled)

-- What an answer tells.
abbrev pub Ended : Upload → World → CancelReply → World → Type 0
Ended u before unknown after = (find u.id u.user before.jobs ≡ none) × (after ≡ before)
Ended u before already_done after = Delivered u after.files × (after ≡ before)
Ended u before now_cancelled after = Cancelled (find u.id u.user after.jobs)

open_cancelled :
    (u : Upload) (m : Moment) (r : ℕ) (row : Option Job)
    → OpenRow u r row
    → Cancelled (map_option (set_failed m cancelled) row)
unfolding set_failed
open_cancelled u m r none h = h
open_cancelled u m r (some j) h = (refl, refl)

module _ (host : Host) (m : Moment) (u : Upload) where
  removed-Open :
      (p : FilePath) (r : ℕ) (w : World)
      → Open u r w
      → Ensures (Intact u) (λ _ w'. Open u r w') (try_remove m p w)
  unfolding try_remove
  removed-Open p r w o = ensures_modify_end _ _ _ w (record {
    journal = o.journal;
    confirmed = record {
      stored = λ b e. (o.confirmed).stored b (removed_kept p u.staging _ w.files b e);
      within = (o.confirmed).within;
    };
  })

  marked :
      (r : ℕ) (w : World)
      → Open u r w
      → Cancelled (find u.id u.user (update u.id u.user (set_failed m cancelled) w.jobs))
  marked r w o =
      subst Cancelled
        (sym (
          find-update u.id u.user (set_failed m cancelled) w.jobs
            (λ j. unfold set_failed in (refl, refl))))
        (open_cancelled u m r (find u.id u.user w.jobs) o.journal)

  cancel_row-Intact :
      (row : Job) (r : ℕ) (w : World)
      → Open u r w
      → Ensures
          (Intact u)
          (λ reply w'. Intact u w' × Ended u w reply w')
          (cancel_row host m u.user u.id row w)
  unfolding cancel_row
  cancel_row-Intact row r w o =
      ensures_bind _ (λ _ s. Open u r s) _ _ _ w
        (ensures_lift _ _ _ w (Open-Intact u r w o) (λ _ _. o))
        (λ relative s k.
          ensures_bind _ (λ _ s'. Open u r s') _ _ _ s (removed-Open _ r s k)
            (λ _ s' k'. ensures_check _ _ _ _ _ s' (Open-Intact u r s' k') (λ _.
              ensures_modify _ _ _ _ s'
                (ensures_pure _ _ _ _ (failed-Intact u m r cancelled s' k', marked r s' k')))))

  delivered :
      (row : Job) (w : World)
      → find u.id u.user w.jobs ≡ some row
      → Intact u w
      → is_completed row.status ≡ true
      → Delivered u w.files
  unfolding Intact
  delivered row w e h c =
      let i : IntactRow u (some row) w.files =
        subst (λ (x : Option Job). IntactRow u x w.files) e h in
      subst (λ b. Progress u b row.bytes_received w.files) c i.2

  cancel_found-Intact :
      (row : Option Job) (w : World)
      → find u.id u.user w.jobs ≡ row
      → Intact u w
      → Ensures
          (Intact u)
          (λ reply w'. Intact u w' × Ended u w reply w')
          (cancel_found host m u.user u.id row w)
  unfolding cancel_found
  cancel_found-Intact none w e h = ensures_pure _ _ _ w (h, (e, refl))
  cancel_found-Intact (some row) w e h =
      ensures_if _ _ (is_completed row.status) (pure already_done)
        (cancel_row host m u.user u.id row) w
        (λ c. ensures_pure _ _ _ w (h, (delivered row w e h c, refl)))
        (λ c. cancel_row-Intact row row.bytes_received w (find-Open u row w e c h))

  -- Cancelling an upload, as one step between those of other requests (the code takes no lock of the upload
  -- for it), at whatever point it fails, leaves the upload intact: a completed one is
  -- delivered still, and of another one no stored byte below the recorded offset is other than the client's.
  -- An answer is true: "not found" is given where there is no such row, "completed" where the file is
  -- delivered, each with nothing changed, and else the row has failed as cancelled.
  pub cancel_upload-Intact :
      (w : World)
      → Intact u w
      → Ensures
          (Intact u)
          (λ reply w'. Intact u w' × Ended u w reply w')
          (cancel_upload host m u.user u.id w)
  unfolding cancel_upload
  cancel_upload-Intact w h =
      ensures_check _ _ _ _ _ w h
        (λ _. ensures_gets _ _ _ _ w (cancel_found-Intact (find u.id u.user w.jobs) w refl h))
