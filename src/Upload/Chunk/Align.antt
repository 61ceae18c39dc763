-- ===== src/Upload/Chunk/Align.antt =====
-- `upload_chunk` before the body: the staging file and the confirmed offset.
use nexa_drive.Prelude.{
  ℕ, ◌≤◌, ◌<◌, ◌≡◌, refl, sym, subst, ◌∙◌, true, false, Option, none, some, List, [], arith, length,
  take, ◌==◌, ltb, ltb→lt, length-take, take-take,
}
use nexa_drive.Error.Ensures.{
  Ensures, ensures_check, ensures_gets, ensures_modify, ensures_modify_end, ensures_pure,
  ensures_if,
}
use nexa_drive.Upload.Files.{Node, file, folder, Files, put, put_self, is_file, exists}
use nexa_drive.Upload.Jobs.{Job, find, find-update, map_option}
use nexa_drive.Upload.World.{World, Moment}
use nexa_drive.Upload.Chunk.{set_offset, lower_offset, reconcile}
use nexa_drive.Upload.Staging.{staging_len, cut, cut_staging, create_missing}
use nexa_drive.Upload.Chunk.Prefix.{IsPrefix, take-IsPrefix}
use nexa_drive.Upload.Chunk.Intact.{Upload, Confirmed, OpenRow, Open, Open-Intact, Intact}

-- The staging file is as long as the offset, where there is one.
abbrev pub Fits : ℕ → Option Node → Type 0
Fits r none = r ≡ 0
Fits r (some (file b)) = length b ≡ r
Fits r (some folder) = Unit {0}

pub record Aligned (u : Upload) (r : ℕ) (w : World) : Type 0 where
  pub is_open : Open u r w
  pub fits : Fits r (w.files u.staging)

eq_of_test : (a b : ℕ) → (a == b) ≡ true → a ≡ b
eq_of_test a b h = ground arith

lt_of_tests : (a b : ℕ) → (a == b) ≡ false → ltb b a ≡ false → a < b
lt_of_tests a b h k = ground arith

none-Fits : (r : ℕ) (node : Option Node) → exists node ≡ false → Fits r node → r ≡ 0
unfolding exists
none-Fits r none h k = k
none-Fits r (some n) h k = cc

-- The stored bytes after the staging file is replaced.
pub Confirmed-put :
    (u : Upload) (r : ℕ) (n : Option Node) (files : Files)
    → ((b : List ℕ) → n ≡ some (file b) → IsPrefix (take r b) u.content)
    → r ≤ length u.content
    → Confirmed u r (put u.staging n files)
Confirmed-put u r n files h k = record {
  stored = λ b e. h b (sym (put_self u.staging n files) ∙ e);
  within = k;
}

module _ (u : Upload) (m : Moment) where
  cut_prefix :
      (r : ℕ) (node : Option Node)
      → ((b : List ℕ) → node ≡ some (file b) → IsPrefix (take r b) u.content)
      → (b : List ℕ) → cut r node ≡ some (file b)
      → IsPrefix (take r b) u.content
  unfolding cut
  cut_prefix r none h b e = cc
  cut_prefix r (some folder) h b e = cc
  cut_prefix r (some (file c)) h b e =
      let same : take r c ≡ b = cc in
      subst (λ x. IsPrefix (take r x) u.content) same
        (take-IsPrefix r (take r c) u.content (h c refl))

  cut-Fits :
      (r : ℕ) (node : Option Node)
      → is_file node ≡ true
      → r < staging_len m node
      → Fits r (cut r node)
  unfolding cut is_file staging_len
  cut-Fits r none h k = cc
  cut-Fits r (some folder) h k = cc
  cut-Fits r (some (file c)) h k = omega (arith, length-take r c)

  cut_staging-Aligned :
      (r : ℕ) (w : World)
      → Open u r w
      → r < staging_len m (w.files u.staging)
      → Ensures (Intact u) (λ r' w'. Aligned u r' w') (cut_staging m u.staging r w)
  unfolding cut_staging
  cut_staging-Aligned r w o k = ensures_gets _ _ _ _ w (
      ensures_check _ _ _ _ _ w (Open-Intact u r w o) λ t. ensures_modify _ _ _ _ w (
        let o' : Open u r (record w { files = put u.staging (cut r (w.files u.staging)) w.files }) =
          record {
            journal = o.journal;
            confirmed =
                Confirmed-put u r _ w.files (cut_prefix r (w.files u.staging) (o.confirmed).stored)
                  (o.confirmed).within;
          } in
        ensures_check _ _ _ _ _ _ (Open-Intact u r _ o') λ _. ensures_pure _ _ _ _ (record {
          is_open = o';
          fits =
              subst (Fits r) (sym (put_self u.staging (cut r (w.files u.staging)) w.files))
                (cut-Fits r (w.files u.staging) (ground arith) k);
        })))

  set_offset-key :
      (r : ℕ) (j : Job) → ((set_offset m r j).id ≡ j.id) × ((set_offset m r j).user_id ≡ j.user_id)
  unfolding set_offset
  set_offset-key r j = (refl, refl)

  set_offset-OpenRow :
      (r r' : ℕ) (row : Option Job)
      → OpenRow u r row
      → OpenRow u r' (map_option (set_offset m r') row)
  unfolding set_offset
  set_offset-OpenRow r r' none h = h
  set_offset-OpenRow r r' (some j) h = (h.0, h.1, h.2, refl)

  shorter :
      (r : ℕ) (node : Option Node)
      → ((b : List ℕ) → node ≡ some (file b) → IsPrefix (take r b) u.content)
      → staging_len m node < r
      → (b : List ℕ) → node ≡ some (file b)
      → IsPrefix (take (staging_len m node) b) u.content
  shorter r node h k b e =
      subst (λ x. IsPrefix x u.content) (take-take (staging_len m node) r b (omega arith))
        (take-IsPrefix (staging_len m node) (take r b) u.content (h b e))

  self-Fits : (node : Option Node) → Fits (staging_len m node) node
  unfolding staging_len
  self-Fits none = refl
  self-Fits (some folder) = tt
  self-Fits (some (file b)) = refl

  lower_offset-Aligned :
      (r : ℕ) (w : World)
      → Open u r w
      → staging_len m (w.files u.staging) < r
      → Ensures
          (Intact u)
          (λ r' w'. Aligned u r' w')
          (lower_offset m u.user u.id (staging_len m (w.files u.staging)) w)
  unfolding lower_offset
  lower_offset-Aligned r w o k =
      let n = staging_len m (w.files u.staging) in
      ensures_check _ _ _ _ _ w (Open-Intact u r w o) λ _. ensures_modify _ _ _ _ w (
        ensures_pure _ _ _ _ (record {
          is_open = record {
            journal =
                subst (OpenRow u n)
                  (sym (find-update u.id u.user (set_offset m n) w.jobs (set_offset-key n)))
                  (set_offset-OpenRow r n (find u.id u.user w.jobs) o.journal);
            confirmed = record {
              stored = shorter r (w.files u.staging) (o.confirmed).stored k;
              within = (let x = (o.confirmed).within in omega arith);
            };
          };
          fits = self-Fits (w.files u.staging);
        }))

  pub reconcile-Aligned :
      (r : ℕ) (w : World)
      → Open u r w
      → Ensures (Intact u) (λ r' w'. Aligned u r' w') (reconcile m u.user u.id u.staging r w)
  unfolding reconcile
  reconcile-Aligned r w o = ensures_gets _ _ _ _ w (
      ensures_if _ _ _ _ _ w
        (λ e. ensures_pure _ _ _ w (record {
          is_open = o;
          fits =
              subst (λ n. Fits n (w.files u.staging))
                (eq_of_test (staging_len m (w.files u.staging)) r e)
                (self-Fits (w.files u.staging));
        }))
        (λ ne.
          ensures_if _ _ _ _ _ w
            (λ e. cut_staging-Aligned r w o (ltb→lt r (staging_len m (w.files u.staging)) e))
            (λ ge.
              lower_offset-Aligned r w o
                (lt_of_tests (staging_len m (w.files u.staging)) r ne ge))))

  -- The staging file is there, or a folder is in its place.
  pub create_missing-Aligned :
      (r : ℕ) (w : World)
      → Aligned u r w
      → Ensures (Intact u) (λ _ w'. Aligned u r w') (create_missing m u.staging w)
  unfolding create_missing
  create_missing-Aligned r w a = ensures_gets _ _ _ _ w (
      ensures_if _ _ _ _ _ w (λ e. ensures_pure _ _ _ w a)
        (λ e. ensures_check _ _ _ _ _ w (Open-Intact u r w a.is_open) λ _.
          ensures_modify_end _ _ _ w (record {
            is_open = record {
              journal = (a.is_open).journal;
              confirmed =
                  Confirmed-put u r _ w.files
                    (λ b x.
                      subst (λ n. IsPrefix (take n b) u.content)
                        (sym (none-Fits r (w.files u.staging) e a.fits)) tt)
                    ((a.is_open).confirmed).within;
            };
            fits =
                subst (Fits r) (sym (put_self u.staging (some (file [])) w.files))
                  (sym (none-Fits r (w.files u.staging) e a.fits));
          })))
