-- ===== src/Examples/Sweep.antt =====
-- A journal with an expired upload (server/src/handlers/upload.rs), and the sweep of it.
use nexa_drive.Prelude.{
  ◌≡◌, refl, sym, ap, ◌∙◌, true, false, none, some, [], ◌∷◌, ◌++◌, keep, length,
}
use nexa_drive.Text.{
  codes, text_eq, trim, trim_start, trim_cons, trim_end, is_empty, is_whitespace, starts_with,
  strip_prefix, contains_char, split, split_cons, join,
}
use nexa_drive.Error.{ok}
use nexa_drive.Error.Ensures.{Ensures}
use nexa_drive.Paths.{
  FilePath, safe_relative_path, components, pieces_components, piece_components, leading_components,
  clean_components, is_trash_name, user_root,
}
use nexa_drive.Upload.Files.{path_eq}
use nexa_drive.Upload.Jobs.{Job, Status, is_live}
use nexa_drive.Upload.World.{World}
use nexa_drive.Upload.Staging.{staging_path}
use nexa_drive.Upload.Cancel.{absolute_of}
use nexa_drive.Upload.Sweep.{is_expired, is_older, sweep_expired_uploads}
use nexa_drive.Upload.Sweep.Spared.{IsOther, AllOther, sweep_expired_uploads-AllOther}
use nexa_drive.Examples.Shelf.{a_host, a_moment, a_home, a_name, a_world}

abbrev an_abandoned : Job
an_abandoned = record {
  id = 7;
  user_id = 1;
  path = codes "b";
  size_bytes = 0;
  status = Status.receiving;
  updated_at = 2;
  bytes_received = 0;
  total_bytes = some 4;
  checksum_sha256 = none;
  last_error = none;
}

abbrev a_journal : World
a_journal = record a_world { jobs = an_abandoned ∷ [] }

b_read : safe_relative_path (codes "b") ≡ ok (codes "b" ∷ [])
unfolding safe_relative_path trim trim_start trim_cons trim_end is_empty is_whitespace starts_with
    strip_prefix contains_char split split_cons components pieces_components piece_components
    leading_components clean_components is_trash_name text_eq join
b_read = refl

b_elsewhere :
    path_eq (staging_path a_host (absolute_of a_host 1 (codes "b" ∷ [])) 7) (a_home ++ a_name)
    ≡ false
unfolding path_eq staging_path absolute_of user_root text_eq
b_elsewhere = refl

same_path : (p q : FilePath) → p ≡ q → path_eq q q ≡ true → path_eq p q ≡ true
same_path p q e h = ap (λ x. path_eq x q) e ∙ h

a_file_itself : path_eq (a_home ++ a_name) (a_home ++ a_name) ≡ true
unfolding path_eq text_eq
a_file_itself = refl

b_IsOther : IsOther a_host (a_home ++ a_name) an_abandoned
b_IsOther relative e q =
    let read : relative ≡ codes "b" ∷ [] = (let r = b_read in cc) in
    let no : path_eq (staging_path a_host (absolute_of a_host 1 (codes "b" ∷ [])) 7)
          (a_home ++ a_name)
        ≡ true =
      same_path _ _ (ap (λ x. staging_path a_host (absolute_of a_host 1 x) 7) (sym read) ∙ q)
        a_file_itself in
    let other = b_elsewhere in cc

journal-AllOther :
    AllOther a_host (a_home ++ a_name) (keep (is_expired a_moment.clock 0) a_journal.jobs)
unfolding is_expired is_older is_live
journal-AllOther = (b_IsOther, tt)

sweep_expired_uploads-AllOther_example :
    Ensures
      (λ s. s.files (a_home ++ a_name) ≡ a_journal.files (a_home ++ a_name))
      (λ count s.
        (s.files (a_home ++ a_name) ≡ a_journal.files (a_home ++ a_name))
        × (count ≡ length (keep (is_expired a_moment.clock 0) a_journal.jobs)))
      (sweep_expired_uploads a_host a_moment 0 a_journal)
sweep_expired_uploads-AllOther_example =
    sweep_expired_uploads-AllOther a_host a_moment 0 (a_home ++ a_name) a_journal journal-AllOther
