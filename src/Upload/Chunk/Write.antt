-- ===== src/Upload/Chunk/Write.antt =====
-- `upload_chunk`: writing the body (server/src/handlers/upload.rs).
use nexa_drive.Prelude.{
  ℕ, ◌+◌, ◌≤◌, ◌≡◌, refl, sym, subst, ap, ◌∙◌, Bool, true, false, ◌&&◌, Option, none, some, List,
  [], ◌∷◌, ◌++◌, arith, length, take, drop, length-append, take_all,
}
use mathlib.Core.List.{append-nil}
use nexa_drive.Text.Decimal.{saturating_add, u64_max}
use nexa_drive.Error.{AppError}
use nexa_drive.Error.Exec.{Exec, ◌>>=◌}
use nexa_drive.Error.Ensures.{
  Ensures, ensures_check, ensures_gets, ensures_modify, ensures_pure, ensures_raise, ensures_bind,
}
use nexa_drive.Upload.Files.{Node, file, folder, put, put_self, is_file, write_at}
use nexa_drive.Upload.World.{World, Moment}
use nexa_drive.Upload.Staging.{
  Frame, bytes, broken, arrived, written_from, overwrite, store_bytes, abandon, stop_if, write_body,
}
use nexa_drive.Upload.Chunk.Prefix.{IsPrefix, append-IsPrefix, take-append, drop_all}
use nexa_drive.Upload.Chunk.Intact.{Upload, Open, Open-Intact, Intact}
use nexa_drive.Upload.Chunk.Align.{Aligned, Fits, Confirmed-put}

-- The staging file holds the first `n` bytes of the client's.
abbrev pub Holds : Upload → ℕ → Option Node → Type 0
Holds u n none = ⊥
Holds u n (some folder) = ⊥
Holds u n (some (file b)) = IsPrefix b u.content × (length b ≡ n)

pub record Written (u : Upload) (r n : ℕ) (w : World) : Type 0 where
  pub is_open : Open u r w
  pub holds : Holds u n (w.files u.staging)

write_at_end : (r : ℕ) (z b : List ℕ) → length b ≡ r → write_at r z b ≡ b ++ z
unfolding write_at
write_at_end r z b h =
    rw (take_all r b (omega arith), drop_all (r + length z) b (omega arith), append-nil z)

pub saturating_add_exact : (a b : ℕ) → a + b ≤ u64_max → saturating_add a b ≡ a + b
unfolding saturating_add
saturating_add_exact a b h = ground arith

pub written-arrived :
    (a : ℕ) (frames : List Frame)
    → a + length (arrived frames) ≤ u64_max
    → written_from a frames ≡ a + length (arrived frames)
unfolding written_from arrived
written-arrived a [] h = omega arith
written-arrived a (broken e ∷ fs) h = omega arith
written-arrived a (bytes b ∷ fs) h =
    let l = length-append b (arrived fs) in
    rw (saturating_add_exact a (length b) (omega (arith, l)))
      (written-arrived (a + length b) fs (omega (arith, l)) ∙ omega (arith, l))

module _ (I : World → Type 0) where
  ensures_stop :
      {B : Type 0} (Q : B → World → Type 0) (b : Bool) (stop : Exec World (Unit {0}))
      (f : Unit {0} → Exec World B) (w : World)
      → Ensures I (λ _ _. ⊥) (stop w)
      → Ensures I Q (f tt w)
      → Ensures I Q ((stop_if b stop >>= f) w)
  unfolding stop_if
  ensures_stop Q true stop f w h k = ensures_bind I (λ _ _. ⊥) Q stop f w h (λ a s x. absurd x)
  ensures_stop Q false stop f w h k = unfold ◌>>=◌ in record { holds = k.holds }

and_left : (a b : Bool) → (a && b) ≡ true → a ≡ true
and_left a b h = ground arith

module _ (u : Upload) (m : Moment) (r : ℕ) where
  overwritten_prefix :
      (z : List ℕ) (node : Option Node)
      → Fits r node
      → ((b : List ℕ) → node ≡ some (file b) → IsPrefix (take r b) u.content)
      → (b : List ℕ) → overwrite r z node ≡ some (file b)
      → IsPrefix (take r b) u.content
  unfolding overwrite
  overwritten_prefix z none f h b e = cc
  overwritten_prefix z (some folder) f h b e = cc
  overwritten_prefix z (some (file c)) f h b e =
      let same : write_at r z c ≡ b = cc in
      subst (λ x. IsPrefix (take r x) u.content) (sym (write_at_end r z c f) ∙ same)
        (subst (λ x. IsPrefix x u.content) (sym (take-append r c z (omega arith))) (h c refl))

  stored-Open :
      (z : List ℕ) (w : World)
      → Aligned u r w
      → Open u r (record w { files = put u.staging (overwrite r z (w.files u.staging)) w.files })
  stored-Open z w a = record {
    journal = (a.is_open).journal;
    confirmed =
        Confirmed-put u r (overwrite r z (w.files u.staging)) w.files
          (overwritten_prefix z (w.files u.staging) a.fits ((a.is_open).confirmed).stored)
          ((a.is_open).confirmed).within;
  }

  abandon-Intact :
      (frames : List Frame) (e : AppError) (w : World)
      → Aligned u r w
      → Ensures (Intact u) (λ _ _. ⊥) (abandon m u.staging r frames e w)
  unfolding abandon store_bytes
  abandon-Intact frames e w a = ensures_modify _ _ _ _ w (
      ensures_raise _ _ e _ (Open-Intact u r _ (stored-Open (take m.reached (arrived frames)) w a)))

  overwritten-Holds :
      (z : List ℕ) (node : Option Node)
      → is_file node ≡ true
      → Fits r node
      → ((b : List ℕ) → node ≡ some (file b) → IsPrefix (take r b) u.content)
      → IsPrefix z (drop r u.content)
      → Holds u (r + length z) (overwrite r z node)
  unfolding overwrite is_file
  overwritten-Holds z none i f h p = cc
  overwritten-Holds z (some folder) i f h p = cc
  overwritten-Holds z (some (file b)) i f h p =
      let e = write_at_end r z b f in
      let whole : IsPrefix b u.content =
        subst (λ x. IsPrefix x u.content) (take_all r b (omega arith)) (h b refl) in
      (
        subst (λ x. IsPrefix x u.content) (sym e)
            (append-IsPrefix b z u.content whole
              (subst (λ n. IsPrefix z (drop n u.content)) (sym f) p)),
        omega (arith, ap length e, length-append b z),
      )

  pub write_body-Written :
      (expected : Option ℕ) (frames : List Frame) (w : World)
      → Aligned u r w
      → IsPrefix (arrived frames) (drop r u.content)
      → r + length (arrived frames) ≤ u64_max
      → Ensures
          (Intact u)
          (λ n w'. (n ≡ length (arrived frames)) × Written u r (r + length (arrived frames)) w')
          (write_body m u.staging r expected frames w)
  unfolding write_body store_bytes
  write_body-Written expected frames w a p k =
      let stop = λ (e : AppError). abandon-Intact frames e w a in
      ensures_gets _ _ _ _ w (
        ensures_check _ _ _ _ _ w (Open-Intact u r w a.is_open) λ t.
          ensures_stop _ _ _ _ _ w (stop _) (
            ensures_stop _ _ _ _ _ w (stop _) (
              ensures_stop _ _ _ _ _ w (stop _) (
                ensures_stop _ _ _ _ _ w (stop _) (
                  ensures_modify _ _ _ _ w (
                    ensures_pure _ _ _ _ (
                      written-arrived 0 frames (omega arith) ∙ omega arith,
                      record {
                        is_open = stored-Open (arrived frames) w a;
                        holds =
                            subst (Holds u (r + length (arrived frames)))
                              (sym (
                                put_self u.staging
                                  (overwrite r (arrived frames) (w.files u.staging)) w.files))
                              (overwritten-Holds (arrived frames) (w.files u.staging)
                                (and_left _ _ t) a.fits ((a.is_open).confirmed).stored p);
                      },
                    )))))))
