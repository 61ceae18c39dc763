-- ===== src/Shelf/Apart.antt =====
-- What stands at a path that the calls of the file handlers (server/src/handlers/files.rs) do not reach.
use nexa_drive.Prelude.{
  ℕ, ◌≡◌, refl, ap, ◌∙◌, Bool, true, false, not, ◌||◌, String, Option, none, [], ◌∷◌, ◌++◌, arith,
  subst, Bool-cases, inl, inr,
}
use nexa_drive.Text.{Text, text_eq}
use nexa_drive.Text.Laws.{text_eq_refl, text_eq→eq}
use nexa_drive.Error.{Result, ok, err}
use nexa_drive.Error.Exec.{Exec, gets}
use nexa_drive.Error.Ensures.{
  Ensures, Post, ensures_bind, ensures_check, ensures_check_end, ensures_gets, ensures_lift,
  ensures_modify, ensures_modify_end, ensures_pure,
}
use nexa_drive.Paths.{FilePath}
use nexa_drive.Upload.Files.{Node, make_folders}
use nexa_drive.Upload.World.{
  World, Moment, audit, create_dir_all, current_role, require_write_access,
}
use nexa_drive.Upload.Quota.{ensure_quota}
use nexa_drive.Upload.Quota.Frame.{ensure_quota-kept}
use nexa_drive.Shelf.{Special, Vault, Op, Pass, in_world, back_in}
use nexa_drive.Shelf.Subtree.{below, relocate_past}
use nexa_drive.Shelf.Entry.{
  ensure_supported_entry, rename_entry, copy_below, copy_entry, copied_at, entry_size, file_len,
}
use nexa_drive.Shelf.Frame.{make_folders_apart}
use nexa_drive.Shelf.Transfer.{require_folder, ensure_not_within}

-- Neither of two paths is below the other.
pub record Apart (a p : FilePath) : Type 0 where
  pub not_below : below a p ≡ none
  pub not_above : below p a ≡ none

text_eq_sym : (v w : Text) → text_eq v w ≡ true → text_eq w v ≡ true
text_eq_sym v w e = subst (λ x. text_eq x v ≡ true) (text_eq→eq v w e) (text_eq_refl v)

below_longer : (a p x : FilePath) → below a p ≡ none → below (a ++ x) p ≡ none
unfolding below
below_longer [] p x h = cc
below_longer (w ∷ a) [] x h = refl
below_longer (w ∷ a) (v ∷ p) x h = ground (arith, below_longer a p x)

below_forked : (a p x : FilePath) → below a p ≡ none → below p a ≡ none → below p (a ++ x) ≡ none
unfolding below
below_forked [] p x h k = cc
below_forked (w ∷ a) [] x h k = cc
below_forked (w ∷ a) (v ∷ p) x h k = elim (Bool-cases (text_eq v w)) [
  | inr e ↦ rw e refl
  | inl e ↦
      let back : text_eq w v ≡ true = text_eq_sym v w e in
      rw e (below_forked a p x (rw back at h) (rw e at k))
]

pub Apart-append : (a p x : FilePath) → Apart a p → Apart (a ++ x) p
Apart-append a p x h = record {
  not_below = below_longer a p x h.not_below;
  not_above = below_forked a p x h.not_below h.not_above;
}

module _ (p : FilePath) (n : Option Node) (s : Option Special) where
  -- What stands at the path.
  abbrev pub Kept : Vault → Type 0
  Kept v = (v.world.files p ≡ n) × (v.specials p ≡ s)

  abbrev pub Keeping : {A : Type 0} → Result A × Vault → Type 0
  Keeping {A} r = Ensures Kept (λ (_ : A). Kept) r

  in_world-Kept :
      {A : Type 0} (m : Exec World A) (v : Vault)
      → Kept v
      → Ensures (λ w. w.files p ≡ n) (λ _ w. w.files p ≡ n) (m v.world)
      → Keeping (in_world m v)
  unfolding in_world
  in_world-Kept m v h k = record { holds = seen (m v.world) k.holds }
    where
      seen :
          {A : Type 0} (r : Result A × World)
          → Post (λ w. w.files p ≡ n) (λ _ w. w.files p ≡ n) r
          → Post Kept (λ _. Kept) (back_in v r)
      seen (ok a, w) e = (e, h.1)
      seen (err a, w) e = (e, h.1)

  pub audit-Kept :
      (m : Moment) (user : ℕ) (action : String) (path : Option Text) (v : Vault)
      → Kept v
      → Keeping (in_world (audit m user action path) v)
  audit-Kept m user action path v h = in_world-Kept _ v h (
      unfold audit in
      ensures_check _ _ _ _ _ v.world h.0 (λ _. ensures_modify_end _ _ _ v.world h.0))

  pub access-Kept :
      (m : Moment) (user : ℕ) (v : Vault)
      → Kept v
      → Keeping (in_world (require_write_access m user) v)
  access-Kept m user v h = in_world-Kept _ v h (
      unfold require_write_access current_role in
      ensures_bind _ (λ _ w. w.files p ≡ n) _ _ _ v.world
        (ensures_check _ _ _ _ _ v.world h.0 (λ _. ensures_gets _ _ _ _ v.world (
          ensures_bind _ (λ _ w. w.files p ≡ n) _ _ _ v.world
            (ensures_lift _ _ _ v.world h.0 (λ _ _. h.0)) (λ _ w e. ensures_pure _ _ _ w e))))
        (λ _ w e. ensures_pure _ _ _ w e))

  pub folders-Kept :
      (m : Moment) (q : FilePath) (v : Vault)
      → below p q ≡ none
      → Kept v
      → Keeping (in_world (create_dir_all m q) v)
  folders-Kept m q v a h = in_world-Kept _ v h (
      unfold create_dir_all in
      ensures_check _ _ _ _ _ v.world h.0 (λ _.
        ensures_gets _ _ _ _ v.world
          (ensures_modify _ _ _ _ v.world (ensures_check_end _ _ _ _ _ made (λ _. made)))))
    where
      made : make_folders [] q v.world.files p ≡ n
      made = make_folders_apart [] q p v.world.files a ∙ h.0

  pub quota-Kept :
      (m : Moment) (user incoming : ℕ) (exclude : Option ℕ) (v : Vault)
      → Kept v
      → Keeping (in_world (ensure_quota m user incoming exclude) v)
  quota-Kept m user incoming exclude v h =
      in_world-Kept _ v h
        (ensure_quota-kept (λ _ files. files p ≡ n) m user incoming exclude v.world h.0)

  pub supported-Kept :
      (t : Pass) (q : FilePath) (v : Vault) → Kept v → Keeping (ensure_supported_entry t q v)
  unfolding ensure_supported_entry
  supported-Kept t q v h = ensures_gets _ _ _ _ v (
      ensures_bind _ (λ _. Kept) _ _ _ v (ensures_lift _ _ _ v h (λ _ _. h))
        (λ _ u k.
          ensures_check _ _ _ _ _ u k
            (λ _. ensures_check _ _ _ _ _ u k (λ _. ensures_pure _ _ _ u k))))

  pub rename-Kept :
      (t : Pass) (src dst : FilePath) (v : Vault)
      → Apart src p
      → Apart dst p
      → Kept v
      → Keeping (rename_entry t src dst v)
  unfolding rename_entry
  rename-Kept t src dst v a b h = ensures_gets _ _ _ _ v (
      ensures_check _ _ _ _ _ v h (λ _. ensures_modify_end _ _ _ v (
        relocate_past src dst v.world.files p b.not_below a.not_below ∙ h.0,
        relocate_past src dst v.specials p b.not_below a.not_below ∙ h.1,
      )))

  pub copy-Kept :
      (t : Pass) (src dst : FilePath) (v : Vault)
      → Apart dst p
      → Kept v
      → Keeping (copy_entry t src dst v)
  unfolding copy_entry copy_below
  copy-Kept t src dst v b h = ensures_gets _ _ _ _ v (
      ensures_bind _ (λ _. Kept) _ _ _ v (ensures_lift _ _ _ v h (λ _ _. h))
        (λ _ u k. ensures_check _ _ _ _ _ u k (λ _.
          ensures_modify _ _ _ _ u (ensures_check_end _ _ _ _ _ (copied u k) (λ _. copied u k)))))
    where
      copied :
          (u : Vault)
          → Kept u
          → (copied_at
                (λ rest. not (t.fails Op.copy_entries) || t.reached rest)
                u.specials
                u.world.files
                src
                (below dst p)
                (u.world.files p)
              ≡ n)
            × (u.specials p ≡ s)
      copied u k = (
        ap
              (λ o.
                copied_at (λ rest. not (t.fails Op.copy_entries) || t.reached rest) u.specials
                  u.world.files src o (u.world.files p))
              b.not_below
            ∙ k.0,
        k.1,
      )

  pub size-Kept :
      (t : Pass) (b : Bool) (q : FilePath) (v : Vault) → Kept v → Keeping (entry_size t b q v)
  unfolding entry_size
  size-Kept t true q v h = ensures_lift _ _ _ v h (λ _ _. h)
  size-Kept t false q v h = ensures_check _ _ _ _ _ v h (λ _. got)
    where
      got : Keeping (gets (λ u. file_len (u.world.files q)) v)
      got = unfold gets in record { holds = h }

  pub require_folder-Kept :
      (t : Pass) (q : FilePath) (v : Vault) → Kept v → Keeping (require_folder t q v)
  unfolding require_folder
  require_folder-Kept t q v h = ensures_gets _ _ _ _ v (
      ensures_bind _ (λ _. Kept) _ _ _ v (ensures_lift _ _ _ v h (λ _ _. h))
        (λ _ u k. ensures_check_end _ _ _ _ u k (λ _. k)))

  pub ensure_not_within-Kept :
      (t : Pass) (src dir : FilePath) (v : Vault) → Kept v → Keeping (ensure_not_within t src dir v)
  unfolding ensure_not_within
  ensure_not_within-Kept t src dir v h =
      ensures_bind _ (λ _. Kept) _ _ _ v (ensures_lift _ _ _ v h (λ _ _. h))
        (λ _ u k.
          ensures_bind _ (λ _. Kept) _ _ _ u (ensures_lift _ _ _ u k (λ _ _. k))
            (λ _ u' k'. ensures_gets _ _ _ _ u' (ensures_check_end _ _ _ _ u' k' (λ _. k'))))
