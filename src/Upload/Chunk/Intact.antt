-- ===== src/Upload/Chunk/Intact.antt =====
-- The invariant of one upload (server/src/handlers/upload.rs): the journal against the stored bytes.
use nexa_drive.Prelude.{
  ℕ, ◌≤◌, ◌≡◌, ◌≢◌, Bool, true, false, Option, none, some, List, [], length, take,
}
use nexa_drive.Error.Ensures.{
  Ensures, ensures_check, ensures_gets, ensures_modify, ensures_check_end,
}
use nexa_drive.Paths.{FilePath}
use nexa_drive.Upload.Files.{file, Files, make_folders, make_folders-file, file-make_folders}
use nexa_drive.Upload.Jobs.{Job, find, is_completed}
use nexa_drive.Upload.World.{World, Moment, create_dir_all}
use nexa_drive.Upload.Chunk.{Target}
use nexa_drive.Upload.Chunk.Prefix.{IsPrefix}

-- One upload: whose it is, its id, where it goes, its staging file, and the bytes that the client
-- has for it.
pub record Upload : Type 0 where
  pub user : ℕ
  pub id : ℕ
  pub target : Target
  pub staging : FilePath
  pub content : List ℕ
  pub apart : staging ≢ target.absolute

-- No stored byte below the recorded offset is other than the client's. (The staging file may be missing, or
-- shorter, after a cancellation or a restart.)
pub record Confirmed (u : Upload) (received : ℕ) (files : Files) : Type 0 where
  pub stored : (b : List ℕ) → files u.staging ≡ some (file b) → IsPrefix (take received b) u.content
  pub within : received ≤ length u.content

abbrev pub Delivered : Upload → Files → Type 0
Delivered u files = files u.target.absolute ≡ some (file u.content)

abbrev pub Progress : Upload → Bool → ℕ → Files → Type 0
Progress u true received files = Delivered u files
Progress u false received files = Confirmed u received files

-- The row of the upload, if there is one.
abbrev pub IntactRow : Upload → Option Job → Files → Type 0
IntactRow u none files = Unit {0}
IntactRow u (some j) files =
    (j.path ≡ u.target.text)
    × (j.total_bytes ≡ some (length u.content))
    × Progress u (is_completed j.status) j.bytes_received files

unfoldable pub Intact : Upload → World → Type 0
Intact u w = IntactRow u (find u.id u.user w.jobs) w.files

-- The row of an upload that is under way, with its offset.
abbrev pub OpenRow : Upload → ℕ → Option Job → Type 0
OpenRow u r none = ⊥
OpenRow u r (some j) =
    (j.path ≡ u.target.text)
    × (j.total_bytes ≡ some (length u.content))
    × (is_completed j.status ≡ false)
    × (j.bytes_received ≡ r)

pub record Open (u : Upload) (r : ℕ) (w : World) : Type 0 where
  pub journal : OpenRow u r (find u.id u.user w.jobs)
  pub confirmed : Confirmed u r w.files

Open-row :
    (u : Upload) (r : ℕ) (row : Option Job) (files : Files)
    → OpenRow u r row
    → Confirmed u r files
    → IntactRow u row files
Open-row u r none files h c = absurd h
Open-row u r (some j) files h c = (h.0, h.1, rw (h.2, h.3) c)

pub Open-Intact : (u : Upload) (r : ℕ) (w : World) → Open u r w → Intact u w
unfolding Intact
Open-Intact u r w o = Open-row u r (find u.id u.user w.jobs) w.files o.journal o.confirmed

-- Files that hold no more at the staging path, and as much at the target.
pub record Keeps (u : Upload) (old new : Files) : Type 0 where
  pub staged : (b : List ℕ) → new u.staging ≡ some (file b) → old u.staging ≡ some (file b)
  pub target : Delivered u old → Delivered u new

Progress-Keeps :
    (u : Upload) (c : Bool) (r : ℕ) (old new : Files)
    → Keeps u old new
    → Progress u c r old
    → Progress u c r new
Progress-Keeps u true r old new k p = k.target p
Progress-Keeps u false r old new k p = record {
  stored = λ b e. p.stored b (k.staged b e);
  within = p.within;
}

pub IntactRow-Keeps :
    (u : Upload) (row : Option Job) (old new : Files)
    → Keeps u old new
    → IntactRow u row old
    → IntactRow u row new
IntactRow-Keeps u none old new k h = tt
IntactRow-Keeps u (some j) old new k h =
    (h.0, h.1, Progress-Keeps u (is_completed j.status) j.bytes_received old new k h.2)

pub Intact-create_dir_all :
    (u : Upload) (m : Moment) (p : FilePath) (w : World)
    → Intact u w
    → Ensures (Intact u) (λ _ w'. Intact u w') (create_dir_all m p w)
unfolding create_dir_all Intact
Intact-create_dir_all u m p w h = ensures_check _ _ _ _ _ w h (λ _. ensures_gets _ _ _ _ w (
    ensures_modify _ _ _ _ w (
      let kept =
        IntactRow-Keeps u (find u.id u.user w.jobs) w.files (make_folders [] p w.files)
          (record {
            staged = λ b e. file-make_folders [] p u.staging w.files b e;
            target = λ e. make_folders-file [] p u.target.absolute w.files u.content e;
          })
          h in
      ensures_check_end _ _ _ _ _ kept (λ _. kept))))
