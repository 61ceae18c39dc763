-- ===== src/Upload/Chunk/Progress.antt =====
-- `upload_chunk` where nothing fails (server/src/handlers/upload.rs).
use nexa_drive.Prelude.{
  ℕ, ◌+◌, ◌≤◌, ◌<◌, ◌≡◌, refl, sym, ap, subst, ◌∙◌, Bool, true, false, not, ◌&&◌, Option, none,
  some, List, [], arith, length, ltb, leb, ◌==◌, lt→ltb, ◌||◌, lt→ltb,
}
use nexa_drive.Text.{Text, text_eq}
use nexa_drive.Text.Laws.{text_eq_refl}
use nexa_drive.Text.Decimal.{saturating_add, u64_max}
use nexa_drive.Error.{ok, Message, bad_request, numbered}
use nexa_drive.Error.Exec.{Exec, check, ◌>>=◌, ◌>>◌}
use nexa_drive.Error.Gives.{
  Gives, Gives-pure, Gives-check, Gives-check_end, Gives-gets, Gives-modify, Gives-lift,
  Gives-if_true, Gives-if_false, Gives-bind,
}
use nexa_drive.Paths.{FilePath, safe_relative_path}
use nexa_drive.Upload.Files.{
  Node, file, is_file, exists, parent, is_blocked, make_folders, make_folders-file,
}
use nexa_drive.Upload.Jobs.{Job, find, is_completed}
use nexa_drive.Upload.World.{
  World, User, Host, Moment, Call, require_write_access, current_role, enabled_user, create_dir_all,
}
use nexa_drive.Upload.Chunk.{
  ChunkQuery, ChunkReply, still_receiving, Target, view_of, checked_name, not_special, target_of,
  chunk_target, found_or_new, claim_job, too_long, same_total, reconcile, record_progress,
  after_body, resume_upload, continue_job, upload_chunk,
}
use nexa_drive.Upload.Staging.{
  Frame, arrived, break_of, written_from, staging_path, staging_len, create_missing, is_broken,
  wrong_length, stop_if, store_bytes, write_body,
}
use nexa_drive.Upload.Chunk.Write.{written-arrived, saturating_add_exact}

Gives-stop :
    {B : Type 0} (Q : B → World → Type 0) (b : Bool) (stop : Exec World (Unit {0}))
    (k : Unit {0} → Exec World B) (w : World)
    → b ≡ false
    → Gives Q (k tt w)
    → Gives Q ((stop_if b stop >>= k) w)
unfolding stop_if ◌>>=◌
Gives-stop Q true stop k w h g = cc
Gives-stop Q false stop k w h g = record {
  answer = g.answer;
  world = g.world;
  is_result = g.is_result;
  holds = g.holds;
}

negation_of_false : (b : Bool) → b ≡ false → not b ≡ true
negation_of_false b h = ground arith

file_of : (node : Option Node) (b : List ℕ) → node ≡ some (file b) → is_file node ≡ true
unfolding is_file
file_of entry b e = rw e refl

both : (a b : Bool) → a ≡ true → b ≡ true → (a && b) ≡ true
both a b h k = ground arith

broken_none : (o : Option Message) → o ≡ none → is_broken o ≡ false
unfolding is_broken
broken_none o e = rw e refl

eq_true : (a b : ℕ) → a ≡ b → (a == b) ≡ true
eq_true a b e = ground arith

enabled_of :
    (row : Option User) (u : User) → row ≡ some u → u.disabled ≡ false → enabled_user row ≡ ok u
unfolding enabled_user
enabled_of row u e d = rw (e, d) refl

same_total_of : (t : Option ℕ) (total : ℕ) → t ≡ some total → same_total t total ≡ true
unfolding same_total
same_total_of t total e = rw e (eq_true total total refl)

text_eq_of : (s t : Text) → s ≡ t → text_eq s t ≡ true
text_eq_of s t e = rw e (text_eq_refl t)

len_of :
    (m : Moment) (node : Option Node) (b : List ℕ)
    → node ≡ some (file b)
    → staging_len m node ≡ length b
unfolding staging_len
len_of m entry b e = rw e refl

exists_of : (node : Option Node) (b : List ℕ) → node ≡ some (file b) → exists node ≡ true
unfolding exists
exists_of entry b e = rw e refl

module _ (m : Moment) (quiet : (c : Call) → m.fails c ≡ false) where
  passes : (c : Call) → not (m.fails c) ≡ true
  passes c = negation_of_false (m.fails c) (quiet c)

  write_body-Gives :
      (staging : FilePath) (offset : ℕ) (expected : Option ℕ) (frames : List Frame) (b : List ℕ)
      (w : World)
      → w.files staging ≡ some (file b)
      → break_of frames ≡ none
      → wrong_length expected (written_from 0 frames) ≡ false
      → Gives (λ n _. n ≡ written_from 0 frames) (write_body m staging offset expected frames w)
  unfolding write_body store_bytes
  write_body-Gives staging offset expected frames b w e k l = Gives-gets _ _ _ w (
      Gives-check _ _ _ _ w (both _ _ (file_of _ b e) (passes Call.open_staging)) (
        Gives-stop _ _ _ _ w (quiet Call.write_body) (
          Gives-stop _ _ _ _ w (broken_none (break_of frames) k) (
            Gives-stop _ _ _ _ w l (
              Gives-stop _ _ _ _ w (quiet Call.flush_body)
                (Gives-modify _ _ _ w (Gives-pure _ _ _ refl)))))))

  after_body-Gives :
      (host : Host) (user id : ℕ) (target : Target) (staging : FilePath) (total received : ℕ)
      (w : World)
      → received < total
      → Gives
          (λ reply _. reply ≡ still_receiving received total)
          (after_body host m user id target staging total received w)
  unfolding after_body record_progress
  after_body-Gives host user id target staging total received w h =
      Gives-check _ _ _ _ w (below_or (ltb received total) _ (lt→ltb received total h)) (
        Gives-check _ _ _ _ w (lt→leb received total h) (
          Gives-if_true _ _ _ _ w (lt→ltb received total h) (
            Gives-check _ _ _ _ w (passes Call.update_progress)
              (Gives-modify _ _ _ w (Gives-pure _ _ _ refl)))))
    where
      below_or : (a b : Bool) → a ≡ true → (a || b) ≡ true
      below_or a b k = ground arith

      lt→leb : (a b : ℕ) → a < b → leb a b ≡ true
      lt→leb a b k = ground arith

  resume_upload-Gives :
      (host : Host) (user : ℕ) (q : ChunkQuery) (expected : Option ℕ) (frames : List Frame)
      (target : Target) (b : List ℕ) (w : World)
      → w.files (staging_path host target.absolute q.upload_id) ≡ some (file b)
      → q.offset ≡ length b
      → break_of frames ≡ none
      → wrong_length expected (written_from 0 frames) ≡ false
      → q.offset + length (arrived frames) < q.total
      → q.total ≤ u64_max
      → Gives
          (λ reply _. reply ≡ still_receiving (q.offset + length (arrived frames)) q.total)
          (resume_upload host m user q expected frames target (length b) w)
  unfolding resume_upload reconcile create_missing
  resume_upload-Gives host user q expected frames target b w e o k l h t =
      let p = staging_path host target.absolute q.upload_id in
      Gives-bind (λ r s. (r ≡ length b) × (s.files p ≡ some (file b))) _ _ _ w
        (Gives-gets _ _ _ w (
          Gives-if_true _ _ _ _ w (eq_true _ _ (len_of m (w.files p) b e))
            (Gives-pure _ _ w (refl, e))))
        (λ r s x.
          Gives-bind (λ _ s'. s'.files p ≡ some (file b)) _ _ _ s
            (Gives-gets _ _ _ s
              (Gives-if_true _ _ _ _ s (exists_of (s.files p) b x.1) (Gives-pure _ _ s x.1)))
            (λ _ s' y. Gives-check _ _ _ _ s' (eq_true q.offset r (o ∙ sym x.0)) (
              Gives-bind (λ n _. n ≡ written_from 0 frames) _ _ _ s'
                (write_body-Gives p q.offset expected frames b s' y k l)
                (λ n s'' z.
                  let sent : n ≡ length (arrived frames) =
                    z
                    ∙ written-arrived 0 frames (omega arith)
                    ∙ (let e0 : 0 + length (arrived frames) ≡ length (arrived frames) =
                          omega arith in
                        e0) in
                  let sum : saturating_add r n ≡ q.offset + length (arrived frames) =
                    ap (λ y. saturating_add y n) (x.0 ∙ sym o)
                    ∙ ap (saturating_add q.offset) sent
                    ∙ saturating_add_exact q.offset (length (arrived frames)) (omega arith) in
                  subst
                    (λ y.
                      Gives
                        (λ reply _.
                          reply ≡ still_receiving (q.offset + length (arrived frames)) q.total)
                        (after_body host m user q.upload_id target p q.total y s''))
                    (sym sum)
                    (after_body-Gives host user q.upload_id target p q.total
                      (q.offset + length (arrived frames)) s'' h)))))

  write_access-Gives :
      (user : ℕ) (u : User) (w : World)
      → w.users user ≡ some u
      → u.disabled ≡ false
      → Gives (λ _ w'. w' ≡ w) (require_write_access m user w)
  unfolding require_write_access current_role
  write_access-Gives user u w e d =
      Gives-bind (λ _ w'. w' ≡ w) _ _ _ w
        (Gives-check _ _ _ _ w (passes Call.role_query) (
          Gives-gets _ _ _ w
            (Gives-lift _ _ u _ w (enabled_of (w.users user) u e d) (Gives-pure _ _ w refl))))
        (λ _ s k. Gives-pure _ _ s k)

  chunk_target-Gives :
      (host : Host) (user : ℕ) (u : User) (q : ChunkQuery) (dir : FilePath) (filename : Text)
      (w : World)
      → w.users user ≡ some u
      → u.disabled ≡ false
      → safe_relative_path q.path ≡ ok dir
      → checked_name q.name ≡ ok filename
      → not_special filename ≡ true
      → Gives
          (λ t w'. (t ≡ target_of host user dir filename) × (w' ≡ w))
          (chunk_target host m user q w)
  unfolding chunk_target
  chunk_target-Gives host user u q dir filename w e d k l n = Gives-lift _ _ dir _ w k (
      Gives-bind (λ _ w'. w' ≡ w) _ _ _ w (write_access-Gives user u w e d)
        (λ _ s x.
          Gives-lift _ _ filename _ s l (Gives-check _ _ _ _ s n (Gives-pure _ _ s (refl, x)))))

  found-Gives :
      (user : ℕ) (q : ChunkQuery) (text : Text) (j : Job) (w : World) (row : Option Job)
      → row ≡ some j
      → Gives
          (λ v w'. (v ≡ view_of j) × (w' ≡ w))
          (found_or_new m q.upload_id user text q.total row w)
  unfolding found_or_new
  found-Gives user q text j w none k = cc
  found-Gives user q text j w (some i) k =
      let same : i ≡ j = cc in Gives-pure _ _ w (ap view_of same, refl)

  claim_job-Gives :
      (user : ℕ) (q : ChunkQuery) (text : Text) (j : Job) (w : World)
      → find q.upload_id user w.jobs ≡ some j
      → Gives (λ v w'. (v ≡ view_of j) × (w' ≡ w)) (claim_job m user q.upload_id text q.total w)
  unfolding claim_job
  claim_job-Gives user q text j w e =
      Gives-check _ _ _ _ w (passes Call.select_job)
        (Gives-gets _ _ _ w (found-Gives user q text j w (find q.upload_id user w.jobs) e))

  continue_job-Gives :
      (host : Host) (user : ℕ) (q : ChunkQuery) (expected : Option ℕ) (frames : List Frame)
      (target : Target) (j : Job) (b : List ℕ) (w : World)
      → is_completed j.status ≡ false
      → j.path ≡ target.text
      → j.total_bytes ≡ some q.total
      → w.files (staging_path host target.absolute q.upload_id) ≡ some (file b)
      → j.bytes_received ≡ length b
      → q.offset ≡ length b
      → too_long expected q.offset q.total ≡ false
      → break_of frames ≡ none
      → wrong_length expected (written_from 0 frames) ≡ false
      → q.offset + length (arrived frames) < q.total
      → q.total ≤ u64_max
      → Gives
          (λ reply _. reply ≡ still_receiving (q.offset + length (arrived frames)) q.total)
          (continue_job host m user q expected frames target (view_of j) w)
  unfolding continue_job view_of
  continue_job-Gives host user q expected frames target j b w c p t e r o f k l h n =
      Gives-if_false _ _ _ _ w c (
        Gives-check _ _ _ _ w (both _ _ (text_eq_of _ _ p) (same_total_of _ _ t)) (
          Gives-check _ _ _ _ w (negation_of_false _ f) (
            subst
              (λ x.
                Gives
                  (λ reply _. reply ≡ still_receiving (q.offset + length (arrived frames)) q.total)
                  (resume_upload host m user q expected frames target x w))
              (sym r) (resume_upload-Gives host user q expected frames target b w e o k l h n))))

-- What follows the choice of the target.
abbrev rest_of :
    Host → Moment → ℕ → ChunkQuery → Option ℕ → List Frame → Target → Exec World ChunkReply
rest_of host m user q expected frames target = do
  create_dir_all m (parent target.absolute)
  check (leb q.total host.max_upload_bytes) (
      bad_request
        (numbered "Upload exceeds the configured maximum of " host.max_upload_bytes " bytes"))
  job ← claim_job m user q.upload_id target.text q.total
  continue_job host m user q expected frames target job

moved :
    (Q : ChunkReply → World → Type 0) (f : Target → Exec World ChunkReply) (s t : Target)
    (v w : World)
    → s ≡ t
    → v ≡ w
    → Gives Q (f t w)
    → Gives Q (f s v)
moved Q f s t v w e k g =
    subst (λ x. Gives Q (f x v)) (sym e) (subst (λ x. Gives Q (f t x)) (sym k) g)

-- Where no call fails, a chunk makes progress: for an enabled account, an accepted path and name, an
-- open row of the journal with the path and total of the request, a staging file as long as the
-- recorded offset, which is the offset of the request, folders that can be made, and a body that
-- arrives whole, has the declared length and does not reach the total, the answer is the offset
-- behind the body.
pub upload_chunk-still_receiving :
    (host : Host) (m : Moment) (user : ℕ) (u : User) (q : ChunkQuery) (expected : Option ℕ)
    (frames : List Frame) (dir : FilePath) (filename : Text) (j : Job) (b : List ℕ) (w : World)
    → ((c : Call) → m.fails c ≡ false)
    → w.users user ≡ some u
    → u.disabled ≡ false
    → safe_relative_path q.path ≡ ok dir
    → checked_name q.name ≡ ok filename
    → not_special filename ≡ true
    → is_blocked [] (parent (target_of host user dir filename).absolute) w.files ≡ false
    → leb q.total host.max_upload_bytes ≡ true
    → find q.upload_id user w.jobs ≡ some j
    → is_completed j.status ≡ false
    → j.path ≡ (target_of host user dir filename).text
    → j.total_bytes ≡ some q.total
    → w.files (staging_path host (target_of host user dir filename).absolute q.upload_id)
      ≡ some (file b)
    → j.bytes_received ≡ length b
    → q.offset ≡ length b
    → too_long expected q.offset q.total ≡ false
    → break_of frames ≡ none
    → wrong_length expected (written_from 0 frames) ≡ false
    → q.offset + length (arrived frames) < q.total
    → q.total ≤ u64_max
    → Gives
        (λ reply _. reply ≡ still_receiving (q.offset + length (arrived frames)) q.total)
        (upload_chunk host m user q expected frames w)
unfolding upload_chunk create_dir_all
upload_chunk-still_receiving host m user u q expected frames dir filename j b w quiet e d s n p k z
      r c x t f g o v y l h bound =
    let passed = passes m quiet in
    let place = target_of host user dir filename in
    Gives-check _ _ _ _ w (passed Call.lock_map) (
      Gives-check _ _ _ _ w (passed Call.upload_slot) (
        Gives-bind _ _ _ _ w (chunk_target-Gives m quiet host user u q dir filename w e d s n p)
          (λ t' w' same.
            moved _ (rest_of host m user q expected frames) t' place w' w same.0 same.1 (
              Gives-bind
                (λ _ w1. w1 ≡ record w { files = make_folders [] (parent place.absolute) w.files })
                _ _ _ w
                (Gives-check _ _ _ _ w (passed Call.create_dirs) (
                  Gives-gets _ _ _ w
                    (Gives-modify _ _ _ w (Gives-check_end _ _ _ _ (negation_of_false _ k) refl))))
                (λ _ w1 e1. Gives-check _ _ _ _ w1 z (
                  Gives-bind _ _ _ _ w1
                    (claim_job-Gives m quiet user q place.text j w1
                      (ap (λ x. find q.upload_id user x.jobs) e1 ∙ r))
                    (λ v' w2 x2.
                      subst
                        (λ x'.
                          Gives
                            (λ reply _.
                              reply ≡ still_receiving (q.offset + length (arrived frames)) q.total)
                            (continue_job host m user q expected frames place x' w2))
                        (sym x2.0)
                        (continue_job-Gives m quiet host user q expected frames place j b w2 c x t
                          (ap (λ x'. x'.files (staging_path host place.absolute q.upload_id))
                              (x2.1 ∙ e1)
                            ∙ make_folders-file [] (parent place.absolute)
                                (staging_path host place.absolute q.upload_id) w.files b f)
                          g o v y l h bound))))))))
