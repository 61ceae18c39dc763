-- ===== src/Sharing/Within.antt =====
-- What a recipient's action can change (server/src/handlers/sharing.rs, `shared_action`).
use nexa_drive.Prelude.{ℕ, ◌≡◌, refl, ap, false_of_negation}
use nexa_drive.Text.{codes}
use nexa_drive.Error.{Result, ok, err}
use nexa_drive.Error.Exec.{Exec}
use nexa_drive.Error.Ensures.{
  Ensures, Post, ensures_both, ensures_bind, ensures_check, ensures_lift, ensures_mono,
}
use nexa_drive.Paths.{FilePath, safe_relative_path}
use nexa_drive.Upload.World.{Host}
use nexa_drive.Shelf.{Vault}
use nexa_drive.Shelf.Apart.{Apart, Kept}
use nexa_drive.Shelf.Transfer.{path_of, is_root}
use nexa_drive.Shelf.Trash.{trash_of}
use nexa_drive.Sharing.{Exchange, Errand, Resolved, resolve_share, in_vault, vault_back}
use nexa_drive.Sharing.Scope.{in_vault-Ensures}
use nexa_drive.Sharing.Untouched.{act_inside-Kept}
use nexa_drive.Sharing.Named.{Names, resolve_share-Names, writes}
use nexa_drive.Sharing.Inside.{Inside, act_inside-Inside}
use nexa_drive.Sharing.Action.{SharedActionRequest, shared_action}

-- A path that no share which the request may write to leads to, neither in its folder nor by the owner's trash.
abbrev pub OutOfReach : Host → Errand → ℕ → ℕ → Exchange → FilePath → Type 0
OutOfReach host e user id x p =
    (r : Resolved)
    → Names e user id x r
    → r.permission ≡ codes "write"
    → Apart (path_of host r.owner_id r.base) p × Apart (trash_of host r.owner_id) p

in_vault-known :
    {A : Type 0} (P : Type 0) (m : Exec Vault A) (x : Exchange)
    → Ensures (λ _. Unit {0}) (λ _ _. P) (m x.vault)
    → Ensures (λ _. Unit {0}) (λ _ _. P) (in_vault m x)
unfolding in_vault
in_vault-known {A} P m x h = record { holds = seen (m x.vault) h.holds }
  where
    seen :
        (r : Result A × Vault)
        → Post (λ _. Unit {0}) (λ _ _. P) r
        → Post (λ _. Unit {0}) (λ _ _. P) (vault_back x r)
    seen (ok a, v) k = k
    seen (err e, v) k = tt

-- The share that a request names, for writing, and that the action stays inside of it.
pub record Allowed (host : Host) (e : Errand) (user : ℕ) (x : Exchange) (r : SharedActionRequest)
    : Type 0 where
  pub share : Resolved
  pub is_named : Names e user r.share_id x share
  pub is_for_writing : share.permission ≡ codes "write"
  pub is_inside : Inside host e.pass share r

shared_action-Allowed :
    (host : Host) (e : Errand) (user : ℕ) (r : SharedActionRequest) (x : Exchange)
    → Ensures (λ _. Unit {0}) (λ _ _. Allowed host e user x r) (shared_action host e user r x)
unfolding shared_action
shared_action-Allowed host e user r x =
    ensures_bind _ (λ share _. Names e user r.share_id x share) _ _ _ x
      (ensures_mono _ _ _ _ (resolve_share e user r.share_id x) (λ _ _. tt) (λ _ _ q. q.1)
        (resolve_share-Names e user r.share_id x))
      (λ share y names. ensures_check _ _ _ _ _ y tt (λ allowed.
        ensures_bind _ (λ rel _. safe_relative_path r.path ≡ ok rel) _ _ _ y
          (ensures_lift _ _ _ y tt (λ rel q. q))
          (λ rel z q. ensures_check _ _ _ _ _ z tt (λ _.
            ensures_mono _ _ _ _ _ (λ _ h. h)
              (λ _ _ i. record {
                share = share;
                is_named = names;
                is_for_writing = writes share.permission allowed;
                is_inside = i;
              })
              (in_vault-known (Inside host e.pass share r) _ z
                (act_inside-Inside host e.pass user share rel r z.vault q))))))

shared_action-Kept :
    (host : Host) (e : Errand) (user : ℕ) (r : SharedActionRequest) (p : FilePath) (x : Exchange)
    → OutOfReach host e user r.share_id x p
    → Ensures
        (λ y. Kept p (x.vault.world.files p) (x.vault.specials p) y.vault)
        (λ _ y. Kept p (x.vault.world.files p) (x.vault.specials p) y.vault)
        (shared_action host e user r x)
unfolding shared_action
shared_action-Kept host e user r p x out =
    ensures_bind _ (λ share y. (y ≡ x) × Names e user r.share_id x share) _ _ _ x
      (ensures_mono _ _ _ _ (resolve_share e user r.share_id x) (λ y same. unchanged y same)
        (λ _ _ q. q) (resolve_share-Names e user r.share_id x))
      (λ share y q. ensures_check _ _ _ _ _ y (unchanged y q.0) (λ allowed.
        ensures_bind _ (λ _ z. z ≡ x) _ _ _ y (ensures_lift _ _ _ y (unchanged y q.0) (λ _ _. q.0))
          (λ rel z same. ensures_check _ _ _ _ _ z (unchanged z same) (λ named.
            in_vault-Ensures (Kept p (x.vault.world.files p) (x.vault.specials p)) _ z (
              act_inside-Kept host p (x.vault.world.files p) (x.vault.specials p) share.owner_id
                share.base (out share q.1 (writes share.permission allowed)).0
                (out share q.1 (writes share.permission allowed)).1 e.pass user share rel r z.vault
                refl refl (false_of_negation (is_root rel) named) (unchanged z same))))))
  where
    K : Exchange → Type 0
    K y = Kept p (x.vault.world.files p) (x.vault.specials p) y.vault

    unchanged : (y : Exchange) → y ≡ x → K y
    unchanged y same = (ap (λ z. z.vault.world.files p) same, ap (λ z. z.vault.specials p) same)

-- Whatever a recipient asks for, and wherever it stops, nothing changes but in the folder of a share that is
-- the recipient's, not over and for writing, and in the trash of its owner. Where it succeeds, it is for such a
-- share, and the folder of the entry, and that to which it moves, are really, by `canonicalize`, the
-- share's folder or below it.
pub shared_action-OutOfReach :
    (host : Host) (e : Errand) (user : ℕ) (r : SharedActionRequest) (p : FilePath) (x : Exchange)
    → OutOfReach host e user r.share_id x p
    → Ensures
        (λ y. Kept p (x.vault.world.files p) (x.vault.specials p) y.vault)
        (λ _ y.
          Kept p (x.vault.world.files p) (x.vault.specials p) y.vault × Allowed host e user x r)
        (shared_action host e user r x)
shared_action-OutOfReach host e user r p x out =
    ensures_both _ _ _ _ _ (shared_action-Kept host e user r p x out)
      (shared_action-Allowed host e user r x)
