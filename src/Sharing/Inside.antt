-- ===== src/Sharing/Inside.antt =====
-- Where a recipient's action happens, through the links on the way (server/src/handlers/sharing.rs,
-- `shared_action`).
use nexa_drive.Prelude.{
  ℕ, ◌≡◌, ◌≢◌, ◌⊎◌, inl, inr, none, refl, ap, sym, subst, ◌∙◌, true, false, Option, some, ◌++◌,
  if◌then◌else◌,
}
use nexa_drive.Text.{Text, codes, text_eq}
use nexa_drive.Error.{Result, ok, err, AppError, bad_request, plain, not_found, or_error}
use nexa_drive.Error.Exec.{Exec, raise}
use nexa_drive.Error.Ensures.{
  Ensures, ensures_bind, ensures_check, ensures_gets, ensures_if, ensures_lift, ensures_mono,
  ensures_pure, ensures_raise,
}
use nexa_drive.Paths.{FilePath, safe_relative_path}
use nexa_drive.Upload.Files.{parent}
use nexa_drive.Upload.World.{Host}
use nexa_drive.Shelf.{Vault, Pass}
use nexa_drive.Shelf.Subtree.{is_below}
use nexa_drive.Shelf.Transfer.{path_of}
use nexa_drive.Sharing.{Resolved}
use nexa_drive.Sharing.Action.{
  SharedActionRequest, Site, ensure_inside, shared_delete, shared_rename, shared_move, act,
  act_inside,
}
use nexa_drive.Shelf.Subtree.{below, append-below}

-- The real place is the top's, or below it.
pub record Under (t : Pass) (top p : FilePath) : Type 0 where
  pub rest : FilePath
  pub is_there : t.canonical p ≡ some (top ++ rest)

-- The text names a folder that is really in the share.
abbrev pub Destination : Host → Pass → Resolved → FilePath → Option Text → Type 0
Destination host t share top given =
    (raw : Text) × (dest : FilePath) × (given ≡ some raw)
    × (safe_relative_path raw ≡ ok dest)
    × Under t top (path_of host share.owner_id (share.base ++ dest))

-- An action that is a move has such a destination.
abbrev pub Lands : Host → Pass → Resolved → FilePath → SharedActionRequest → Type 0
Lands host t share top r = (r.action ≢ codes "move") ⊎ Destination host t share top r.destination

-- The folder of the entry is really in the share, and so is that to which it moves.
pub record Inside (host : Host) (t : Pass) (share : Resolved) (r : SharedActionRequest)
    : Type 0 where
  pub rel : FilePath
  pub top : FilePath
  pub is_rel : safe_relative_path r.path ≡ ok rel
  pub is_top : t.canonical (path_of host share.owner_id share.base) ≡ some top
  pub is_in : Under t top (parent (path_of host share.owner_id (share.base ++ rel)))
  pub lands : Lands host t share top r

abbrev Any : Vault → Type 0
Any v = Unit {0}

found_place : (o : Option FilePath) (q : FilePath) → or_error o not_found ≡ ok q → o ≡ some q
found_place none q h = cc
found_place (some a) q h = let same : a ≡ q = cc in ap some same

-- What is known before a run is known after it.
known : {P : Type 0} {A : Type 0} (r : Result A × Vault) → P → Ensures Any (λ _ _. P) r
known (ok a, v) h = record { holds = h }
known (err e, v) h = record { holds = tt }

module _ (t : Pass) (top p : FilePath) where
  under : (q : FilePath) → t.canonical p ≡ some q → is_below top q ≡ true → Under t top p
  unfolding is_below
  under q e h = reached (below top q) refl h
    where
      reached :
          (o : Option FilePath)
          → below top q ≡ o
          → (elim o [ none ↦ false | some rest ↦ true ]) ≡ true
          → Under t top p
      reached none b k = cc
      reached (some rest) b k = record {
        rest = rest;
        is_there = e ∙ ap some (sym (append-below top q rest b));
      }

  ensure_inside-Under : (v : Vault) → Ensures Any (λ _ _. Under t top p) (ensure_inside t top p v)
  unfolding ensure_inside
  ensure_inside-Under v =
      ensures_bind _ (λ q _. t.canonical p ≡ some q) _ _ _ v
        (ensures_lift _ _ _ v tt (λ q e. found_place (t.canonical p) q e))
        (λ q u e. ensures_check _ _ _ _ _ u tt (λ b. ensures_pure _ _ _ u (under q e b)))

module _ (host : Host) (t : Pass) (share : Resolved) (actor : ℕ) (top rel : FilePath) where
  abbrev place : Site
  place = record {
    actor = actor;
    owner_id = share.owner_id;
    base = share.base;
    base_canonical = top;
    rel = rel;
  }

  given_text : (o : Option Text) (e : AppError) (raw : Text) → or_error o e ≡ ok raw → o ≡ some raw
  given_text none e raw h = cc
  given_text (some a) e raw h = let same : a ≡ raw = cc in ap some same

  shared_move-Destination :
      (path : Text) (given : Option Text) (v : Vault)
      → Ensures Any
          (λ _ _. Destination host t share top given)
          (shared_move host t place path given v)
  unfolding shared_move
  shared_move-Destination path given v =
      ensures_bind _ (λ raw _. given ≡ some raw) _ _ _ v
        (ensures_lift _ _ _ v tt (λ raw e. given_text given _ raw e))
        (λ raw v1 g.
          ensures_bind _ (λ dest _. safe_relative_path raw ≡ ok dest) _ _ _ v1
            (ensures_lift _ _ _ v1 tt (λ dest e. e))
            (λ dest v2 d. ensures_gets _ _ _ _ v2 (
              ensures_bind _ (λ _ _. Unit {0}) _ _ _ v2 (ensures_lift _ _ _ v2 tt (λ _ _. tt))
                (λ kind v3 _. ensures_check _ _ _ _ _ v3 tt (λ _.
                  ensures_bind _
                    (λ _ _. Under t top (path_of host share.owner_id (share.base ++ dest))) _ _ _ v3
                    (ensure_inside-Under t top _ v3) (λ q v4 u. known _ (raw, dest, g, d, u)))))))

  no_move :
      (action other : Text)
      → text_eq (codes "move") other ≡ false
      → text_eq action other ≡ true
      → action ≢ codes "move"
  no_move action other differs h e =
      let same : text_eq (codes "move") other ≡ true = subst (λ x. text_eq x other ≡ true) e h in cc

  act-Lands :
      (r : SharedActionRequest) (v : Vault)
      → Ensures Any (λ _ _. Lands host t share top r) (act host t place r v)
  unfolding act
  act-Lands r v =
      ensures_if _ _ (text_eq r.action (codes "delete")) (shared_delete host t place r.path)
        not_delete v
        (λ e. known _ (inl (no_move r.action (codes "delete") (unfold text_eq in refl) e)))
        (λ _.
          ensures_if _ _ (text_eq r.action (codes "rename"))
            (shared_rename host t place r.path r.name) not_rename v
            (λ e. known _ (inl (no_move r.action (codes "rename") (unfold text_eq in refl) e)))
            (λ _.
              ensures_if _ _ (text_eq r.action (codes "move"))
                (shared_move host t place r.path r.destination)
                (raise (bad_request (plain "Unsupported shared action"))) v
                (λ _.
                  ensures_mono _ _ _ _ _ (λ _ h. h) (λ _ _ d. inr d)
                    (shared_move-Destination r.path r.destination v))
                (λ _. ensures_raise _ _ _ v tt)))
    where
      not_rename : Exec Vault Text
      not_rename =
          if text_eq r.action (codes "move")
          then shared_move host t place r.path r.destination
          else raise (bad_request (plain "Unsupported shared action"))

      not_delete : Exec Vault Text
      not_delete =
          if text_eq r.action (codes "rename")
          then shared_rename host t place r.path r.name
          else not_rename

-- An action that succeeds has happened inside of the share.
pub act_inside-Inside :
    (host : Host) (t : Pass) (user : ℕ) (share : Resolved) (rel : FilePath)
    (r : SharedActionRequest) (v : Vault)
    → safe_relative_path r.path ≡ ok rel
    → Ensures Any (λ _ _. Inside host t share r) (act_inside host t user share rel r v)
unfolding act_inside
act_inside-Inside host t user share rel r v is_rel =
    ensures_bind _ (λ top _. t.canonical (path_of host share.owner_id share.base) ≡ some top) _ _ _
      v (ensures_lift _ _ _ v tt (λ top e. found_place _ top e))
      (λ top v1 e.
        ensures_bind _
          (λ _ _. Under t top (parent (path_of host share.owner_id (share.base ++ rel)))) _ _ _ v1
          (ensure_inside-Under t top _ v1)
          (λ _ v2 u.
            ensures_mono _ _ _ _ _ (λ _ h. h)
              (λ _ _ l. record {
                rel = rel;
                top = top;
                is_rel = is_rel;
                is_top = e;
                is_in = u;
                lands = l;
              })
              (act-Lands host t share user top rel r v2)))
