-- ===== src/Shelf/Refused.antt =====
-- A rename or a move that is refused changes nothing (server/src/handlers/files.rs).
use nexa_drive.Prelude.{ℕ, ◌≡◌, refl, sym, ap, ◌∙◌, true, false, not, String, Option}
use nexa_drive.Text.{Text}
use nexa_drive.Error.{Result, ok, err}
use nexa_drive.Error.Cases.{cases_check}
use nexa_drive.Error.Ensures.{
  Ensures, Post, ensures_bind, ensures_check, ensures_gets, ensures_lift, ensures_modify_end,
  ensures_pure,
}
use nexa_drive.Paths.{FilePath}
use nexa_drive.Upload.Files.{Node}
use nexa_drive.Upload.World.{World, Host, Moment, Call, audit}
use nexa_drive.Shelf.{Special, Vault, Pass, in_world, back_in}
use nexa_drive.Shelf.Apart.{
  Kept, access-Kept, supported-Kept, require_folder-Kept, ensure_not_within-Kept,
}
use nexa_drive.Shelf.Entry.{rename_entry}
use nexa_drive.Shelf.Transfer.{carry_over, rename_file, transfer_entry, move_file}

module _ (p : FilePath) (n : Option Node) (s : Option Special) where
  abbrev Done : {A : Type 0} → A → Vault → Type 0
  Done a v = Unit {0}

  logged_case :
      (m : Moment) (user : ℕ) (action : String) (path : Option Text) (w : World)
      → m.fails Call.audit_insert ≡ false
      → Ensures (λ _. ⊥) (λ _ _. Unit {0}) (audit m user action path w)
  unfolding audit
  logged_case m user action path w h =
      cases_check (λ r. Ensures (λ _. ⊥) (λ _ _. Unit {0}) r) _ _ _ w
        (λ e. let no : false ≡ true = sym e ∙ ap not h in cc) (λ _. ensures_modify_end _ _ _ w tt)

  audit-Done :
      (m : Moment) (user : ℕ) (action : String) (path : Option Text) (v : Vault)
      → m.fails Call.audit_insert ≡ false
      → Ensures (Kept p n s) Done (in_world (audit m user action path) v)
  unfolding in_world
  audit-Done m user action path v h = record {
    holds =
        seen (audit m user action path v.world) (logged_case m user action path v.world h).holds;
  }
    where
      seen :
          (r : Result (Unit {0}) × World)
          → Post (λ _. ⊥) (λ _ _. Unit {0}) r
          → Post (Kept p n s) Done (back_in v r)
      seen (ok a, w) e = tt
      seen (err a, w) e = absurd e

  rename-Done :
      (t : Pass) (src dst : FilePath) (v : Vault)
      → Kept p n s v
      → Ensures (Kept p n s) Done (rename_entry t src dst v)
  unfolding rename_entry
  rename-Done t src dst v h =
      ensures_gets _ _ _ _ v (ensures_check _ _ _ _ _ v h (λ _. ensures_modify_end _ _ _ v tt))

-- Where the log can be written, a move that ends in an error has left every path as it was.
pub move_file-Kept :
    (host : Host) (t : Pass) (user : ℕ) (source destination : Text) (p : FilePath) (v : Vault)
    → t.moment.fails Call.audit_insert ≡ false
    → Ensures
        (Kept p (v.world.files p) (v.specials p))
        (λ _ _. Unit {0})
        (move_file host t user source destination v)
unfolding move_file transfer_entry carry_over
move_file-Kept host t user source destination p v logged =
    ensures_bind _ (λ _. K) _ _ _ v (ensures_lift _ _ _ v (refl, refl) (λ _ _. (refl, refl)))
      (λ src v1 h1.
        ensures_bind _ (λ _. K) _ _ _ v1 (access-Kept p n s t.moment user v1 h1)
          (λ _ v2 h2.
            ensures_bind _ (λ _. K) _ _ _ v2 (ensures_lift _ _ _ v2 h2 (λ _ _. h2))
              (λ dst v3 h3. ensures_check _ _ _ _ _ v3 h3 (λ _.
                ensures_bind _ (λ _. K) _ _ _ v3 (supported-Kept p n s t _ v3 h3)
                  (λ _ v4 h4.
                    ensures_bind _ (λ _. K) _ _ _ v4 (require_folder-Kept p n s t _ v4 h4)
                      (λ _ v5 h5.
                        ensures_bind _ (λ _. K) _ _ _ v5 (ensures_lift _ _ _ v5 h5 (λ _ _. h5))
                          (λ name v6 h6. ensures_check _ _ _ _ _ v6 h6 (λ _.
                            ensures_bind _ (λ _. K) _ _ _ v6
                              (ensure_not_within-Kept p n s t _ _ v6 h6)
                              (λ _ v7 h7. ensures_gets _ _ _ _ v7 (
                                ensures_check _ _ _ _ _ v7 h7 (λ _.
                                  ensures_bind _ (λ _ _. Unit {0}) _ _ _ v7
                                    (rename-Done p n s t _ _ v7 h7)
                                    (λ _ v8 _.
                                      ensures_bind _ (λ _ _. Unit {0}) _ _ _ v8
                                        (audit-Done p n s t.moment user _ _ v8 logged)
                                        (λ _ v9 _. ensures_pure _ _ _ v9 tt)))))))))))))
  where
    n : Option Node
    n = v.world.files p

    s : Option Special
    s = v.specials p

    K : Vault → Type 0
    K = Kept p n s

-- Where the log can be written, a rename that ends in an error has left every path as it was.
pub rename_file-Kept :
    (host : Host) (t : Pass) (user : ℕ) (source name : Text) (p : FilePath) (v : Vault)
    → t.moment.fails Call.audit_insert ≡ false
    → Ensures
        (Kept p (v.world.files p) (v.specials p))
        (λ _ _. Unit {0})
        (rename_file host t user source name v)
unfolding rename_file
rename_file-Kept host t user source name p v logged =
    ensures_bind _ (λ _. K) _ _ _ v (ensures_lift _ _ _ v (refl, refl) (λ _ _. (refl, refl)))
      (λ src v1 h1.
        ensures_bind _ (λ _. K) _ _ _ v1 (access-Kept p n s t.moment user v1 h1)
          (λ _ v2 h2. ensures_check _ _ _ _ _ v2 h2 (λ _.
            ensures_bind _ (λ _. K) _ _ _ v2 (ensures_lift _ _ _ v2 h2 (λ _ _. h2))
              (λ clean v3 h3.
                ensures_bind _ (λ _. K) _ _ _ v3 (supported-Kept p n s t _ v3 h3)
                  (λ _ v4 h4. ensures_gets _ _ _ _ v4 (
                    ensures_check _ _ _ _ _ v4 h4 (λ _.
                      ensures_bind _ (λ _ _. Unit {0}) _ _ _ v4 (rename-Done p n s t _ _ v4 h4)
                        (λ _ v5 _.
                          ensures_bind _ (λ _ _. Unit {0}) _ _ _ v5
                            (audit-Done p n s t.moment user _ _ v5 logged)
                            (λ _ v6 _. ensures_pure _ _ _ v6 tt)))))))))
  where
    n : Option Node
    n = v.world.files p

    s : Option Special
    s = v.specials p

    K : Vault → Type 0
    K = Kept p n s
