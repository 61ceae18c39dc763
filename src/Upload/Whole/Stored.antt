-- ===== src/Upload/Whole/Stored.antt =====
-- The run of `upload_file` (server/src/handlers/upload.rs) that stores one file.
use nexa_drive.Prelude.{
  ℕ, ◌≡◌, ◌≢◌, refl, sym, ◌∙◌, Bool, true, false, Option, none, some, List, String,
}
use nexa_drive.Text.{Text}
use nexa_drive.Error.{AppError, io}
use nexa_drive.Error.Exec.{Exec, raise, ◌>>=◌, ◌>>◌}
use nexa_drive.Error.Ensures.{
  Ensures, ensures_bind, ensures_check, ensures_gets, ensures_modify, ensures_modify_end,
  ensures_pure, ensures_raise, ensures_on_error,
}
use nexa_drive.Paths.{FilePath}
use nexa_drive.Upload.Files.{file, put_self, put_ne}
use nexa_drive.Upload.World.{World, Host, Moment, Call, audit}
use nexa_drive.Upload.Quota.Frame.{ensure_quota-kept}
use nexa_drive.Upload.Chunk.{Target}
use nexa_drive.Upload.Staging.{
  Frame, arrived, written_from, stop_if, staging_path, rename, remove_file, rename_over,
  replace_file,
}
use nexa_drive.Upload.Cancel.{try_remove}
use nexa_drive.Upload.Whole.{create_file, leave_part, receive_body, give_up, store_file}

abbrev Anything : World → Type 0
Anything w = Unit {0}

-- A file with these bytes at a path.
abbrev pub Stands : FilePath → List ℕ → World → Type 0
Stands p b w = w.files p ≡ some (file b)

ensures_stopped :
    {B : Type 0} (Q : B → World → Type 0) (b : Bool) (stop : Exec World (Unit {0}))
    (f : Unit {0} → Exec World B) (w : World)
    → Ensures Anything (λ _ _. ⊥) (stop w)
    → Ensures Anything Q (f tt w)
    → Ensures Anything Q ((stop_if b stop >>= f) w)
unfolding stop_if
ensures_stopped Q true stop f w h k =
    ensures_bind Anything (λ _ _. ⊥) Q stop f w h (λ a s x. absurd x)
ensures_stopped Q false stop f w h k = unfold ◌>>=◌ in record { holds = k.holds }

module _ (m : Moment) (p : FilePath) where
  removed-raises :
      (e : AppError) (w : World)
      → Ensures {A = Unit {0}} Anything (λ _ _. ⊥) ((try_remove m p >> raise e) w)
  unfolding try_remove
  removed-raises e w = ensures_modify _ _ _ _ w (ensures_raise _ _ e _ tt)

  part-raises :
      (frames : List Frame) (e : AppError) (w : World)
      → Ensures Anything (λ _ _. ⊥) (leave_part m p frames e w)
  unfolding leave_part
  part-raises frames e w = ensures_modify _ _ _ _ w (ensures_raise _ _ e _ tt)

  give_up-raises :
      (user id : ℕ) (e : AppError) (w : World) (Q : Unit {0} → World → Type 0)
      → Ensures Anything Q (give_up m user id p e w)
  unfolding give_up try_remove
  give_up-raises user id e w Q =
      ensures_modify _ _ _ _ w
        (ensures_check _ _ _ _ _ _ tt (λ _. ensures_modify _ _ _ _ _ (ensures_raise _ _ e _ tt)))

  receive_body-Stands :
      (frames : List Frame) (w : World)
      → Ensures Anything
          (λ n w'. (n ≡ written_from 0 frames) × Stands p (arrived frames) w')
          (receive_body m p frames w)
  unfolding receive_body create_file
  receive_body-Stands frames w =
      ensures_bind _ (λ _ _. Unit {0}) _ _ _ w
        (ensures_gets _ _ _ _ w (ensures_check _ _ _ _ _ w tt (λ _. ensures_modify_end _ _ _ w tt)))
        (λ _ s _. ensures_stopped _ _ _ _ s (removed-raises io s) (
          ensures_stopped _ _ _ _ s (part-raises frames _ s) (
            ensures_stopped _ _ _ _ s (part-raises frames io s) (
              ensures_modify _ _ _ _ s (
                ensures_check _ _ _ _ _ _ tt
                  (λ _. ensures_pure _ _ _ _ (refl, put_self p _ s.files)))))))

  module _ (target : FilePath) (apart : p ≢ target) (b : List ℕ) where
    rename-Stands :
        (call : Call) (w : World)
        → Stands p b w
        → Ensures (Stands p b) (λ _ w'. Stands target b w') (rename m call p target w)
    unfolding rename
    rename-Stands call w h = ensures_gets _ _ _ _ w (
        ensures_gets _ _ _ _ w (
          ensures_check _ _ _ _ _ w h (λ _.
            ensures_modify_end _ _ _ w
              (put_ne p target none _ apart ∙ put_self target _ w.files ∙ h))))

    rename_over-Stands :
        (e : AppError) (w : World)
        → Stands p b w
        → Ensures (Stands p b) (λ _ w'. Stands target b w') (rename_over m p target e w)
    unfolding rename_over remove_file
    rename_over-Stands e w h = ensures_gets _ _ _ _ w (
        ensures_check _ _ _ _ _ w h (λ _.
          ensures_bind _ (λ _ w'. Stands p b w') _ _ _ w
            (ensures_gets _ _ _ _ w (
              ensures_check _ _ _ _ _ w h (λ _.
                ensures_modify_end _ _ _ w
                  (put_ne target p none w.files (λ e. apart (sym e)) ∙ h))))
            (λ _ s k. rename-Stands Call.rename_again s k)))

    replace_file-Stands :
        (w : World)
        → Stands p b w
        → Ensures (Stands p b) (λ _ w'. Stands target b w') (replace_file m p target w)
    unfolding replace_file
    replace_file-Stands w h =
        ensures_on_error _ _ (Stands p b) _ _ w (rename-Stands Call.rename_staging w h)
          (λ e s k. rename_over-Stands e s k)

tidied :
    (m : Moment) (user : ℕ) (target : Target) (b : List ℕ) (action : String) (path : Option Text)
    (w : World)
    → Stands target.absolute b w
    → Ensures Anything (λ _ w'. Stands target.absolute b w') (audit m user action path w)
unfolding audit
tidied m user target b action path w h =
    ensures_check _ _ _ _ _ w tt (λ _. ensures_modify_end _ _ _ w h)

-- When `upload_file` has stored a file, whatever failed on the way, its place holds exactly the bytes
-- that arrived, and the size it answers is that of these bytes, counted with saturation; the staging
-- path is asked to differ from that place.
pub store_file-Stands :
    (host : Host) (m : Moment) (user id : ℕ) (target : Target) (frames : List Frame) (w : World)
    → staging_path host target.absolute id ≢ target.absolute
    → Ensures
        (λ _. Unit {0})
        (λ n w'.
          (n ≡ written_from 0 frames) × (w'.files target.absolute ≡ some (file (arrived frames))))
        (store_file host m user id target frames w)
unfolding store_file
store_file-Stands host m user id target frames w apart =
    let p = staging_path host target.absolute id in
    let b = arrived frames in
    ensures_bind _ (λ n s. (n ≡ written_from 0 frames) × Stands p b s) _ _ _ w
      (receive_body-Stands m p frames w)
      (λ n s k. ensures_check _ _ _ _ _ s tt (λ _. ensures_modify _ _ _ _ s (
        ensures_bind _ (λ _ s'. Stands p b s') _ _ _ _
          (ensures_on_error _ _ (λ s'. Stands p b s') _ _ _
            (ensure_quota-kept (λ _ files. files p ≡ some (file b)) m user n (some id) _ k.1)
            (λ e s' _. give_up-raises m p user id e s' _))
          (λ _ s' k'.
            ensures_bind _ (λ _ s''. Stands target.absolute b s'') _ _ _ s'
              (ensures_on_error _ _ (Stands p b) _ _ s'
                (replace_file-Stands m p target.absolute apart b s' k')
                (λ e s'' _. give_up-raises m p user id e s'' _))
              (λ _ s'' l. ensures_check _ _ _ _ _ s'' tt (λ _. ensures_modify _ _ _ _ s'' (
                ensures_check _ _ _ _ _ _ tt (λ _. ensures_modify _ _ _ _ _ (
                  ensures_bind _ (λ _ z. Stands target.absolute b z) _ _ _ _
                    (tidied m user target b _ _ _ l)
                    (λ _ z l'. ensures_pure _ _ _ z (k.0, l')))))))))))
