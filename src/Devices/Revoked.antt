-- ===== src/Devices/Revoked.antt =====
-- Which devices the requests of server/src/handlers/sync.rs rename and revoke, and where a sync client deletes.
use nexa_drive.Prelude.{ℕ, ◌≡◌, refl, sym, subst, ◌∙◌, true, false, some, List, arith, ◌==◌, keep}
use nexa_drive.Prelude.Rows.{
  Has, update_rows, delete_rows, keep-update_rows, keep-delete_rows, Has-delete_rows,
}
use nexa_drive.Text.{Text, trim}
use nexa_drive.Error.{Result, ok, err}
use nexa_drive.Error.Exec.{Exec}
use nexa_drive.Error.Ensures.{
  Ensures, Post, ensures_mono, ensures_bind, ensures_check, ensures_check_end, ensures_gets,
  ensures_lift, ensures_modify,
}
use nexa_drive.Paths.{FilePath}
use nexa_drive.Upload.World.{Host, World}
use nexa_drive.Shelf.{Vault, Pass}
use nexa_drive.Shelf.Apart.{Kept, audit-Kept}
use nexa_drive.Shelf.Confined.{Outside, delete_one_to_trash-Kept}
use nexa_drive.Devices.{Device, SyncMoment, is_row}
use nexa_drive.Devices.Owner.{is_device_of}
use nexa_drive.Devices.Requests.{
  Desk, world_back, on_world, change_row, renamed, rename_sync_device, delete_sync_device,
  sync_delete,
}

module _ {A : Type 0} (I : List Device → Type 0) (m : Exec World A) (x : Desk)
    (h : I x.devices) where
  on_world-devices : Ensures (λ y. I y.devices) (λ _ y. I y.devices) (on_world m x)
  unfolding on_world
  on_world-devices = record { holds = seen (m x.world) }
    where
      seen : (r : Result A × World) → Post (λ y. I y.devices) (λ _ y. I y.devices) (world_back x r)
      seen (ok a, w) = h
      seen (err e, w) = h

-- What holds of the table before and after the statement holds wherever it stops.
change_row-after :
    (I J : List Device → Type 0) (m : SyncMoment) (id user : ℕ) (f : List Device → List Device)
    (x : Desk)
    → I x.devices
    → I (f x.devices)
    → J (f x.devices)
    → Ensures (λ y. I y.devices) (λ _ y. I y.devices × J y.devices) (change_row m id user f x)
unfolding change_row
change_row-after I J m id user f x before after more = ensures_check _ _ _ _ _ x before (λ _.
    ensures_gets _ _ _ _ x
      (ensures_modify _ _ _ _ x (ensures_check_end _ _ _ _ _ after (λ _. (after, more)))))

foreign_row :
    (id user other : ℕ) (d : Device)
    → (other == user) ≡ false
    → is_device_of other d ≡ true
    → is_row id user d ≡ false
unfolding is_device_of is_row
foreign_row id user other d h e = ground arith

own_renamed :
    (other : ℕ) (name : Text) (d : Device)
    → is_device_of other d ≡ false
    → is_device_of other (renamed name d) ≡ false
unfolding is_device_of renamed
own_renamed other name d e = e

-- Revoking a device, also where it fails, keeps the devices of every other account; where it succeeds, the
-- account has no device of that id any more.
pub delete_sync_device-Has :
    (host : Host) (t : Pass) (m : SyncMoment) (user other id : ℕ) (x : Desk)
    → (other == user) ≡ false
    → Ensures
        (λ y. keep (is_device_of other) y.devices ≡ keep (is_device_of other) x.devices)
        (λ _ y.
          (keep (is_device_of other) y.devices ≡ keep (is_device_of other) x.devices)
          × ((d : Device) → Has d y.devices → is_row id user d ≡ false))
        (delete_sync_device host t m user (some id) x)
unfolding delete_sync_device
delete_sync_device-Has host t m user other id x h =
    ensures_bind _ (λ i y. (id ≡ i) × I y.devices) _ _ _ x
      (ensures_lift _ _ _ x refl (λ i e. (cc, refl)))
      (λ i y q.
        ensures_bind _ (λ _ z. I z.devices × J i z.devices) _ _ _ y
          (change_row-after I (J i) m i user (delete_rows (is_row i user)) y q.1
            (keep-delete_rows (is_device_of other) (is_row i user)
                (λ d e. foreign_row i user other d h e) y.devices
              ∙ q.1)
            (λ d k. Has-delete_rows (is_row i user) y.devices d k))
          (λ _ z k.
            ensures_mono _ _ _ _ _ (λ _ a. a.0)
              (λ _ u a. (a.0, subst (λ n. J n u.devices) (sym q.0) a.1))
              (on_world-devices (λ ds. I ds × J i ds) _ z k)))
  where
    I : List Device → Type 0
    I ds = keep (is_device_of other) ds ≡ keep (is_device_of other) x.devices

    J : ℕ → List Device → Type 0
    J i ds = (d : Device) → Has d ds → is_row i user d ≡ false

-- Renaming a device, also where it fails, keeps the devices of every other account.
rename_sync_device-is_device_of :
    (host : Host) (t : Pass) (m : SyncMoment) (user other id : ℕ) (name : Text) (x : Desk)
    → (other == user) ≡ false
    → Ensures
        (λ y. keep (is_device_of other) y.devices ≡ keep (is_device_of other) x.devices)
        (λ _ y. keep (is_device_of other) y.devices ≡ keep (is_device_of other) x.devices)
        (rename_sync_device host t m user id name x)
unfolding rename_sync_device
rename_sync_device-is_device_of host t m user other id name x h =
    ensures_check _ _ _ _ _ x refl (λ _.
      ensures_bind _ (λ _ z. I z.devices × Unit {0}) _ _ _ x
        (change_row-after I (λ _. Unit {0}) m id user
          (update_rows (is_row id user) (renamed (trim name))) x refl
          (keep-update_rows (is_device_of other) (is_row id user) (renamed (trim name))
            (λ d e. foreign_row id user other d h e) (λ d e _. own_renamed other (trim name) d e)
            x.devices)
          tt)
        (λ _ z k. on_world-devices I _ z k.0))
  where
    I : List Device → Type 0
    I ds = keep (is_device_of other) ds ≡ keep (is_device_of other) x.devices

-- A deletion that a sync client asks for leaves what stands outside of the account's folder and its trash as it is,
-- wherever it stops.
pub sync_delete-Outside :
    (host : Host) (t : Pass) (user : ℕ) (path : Text) (p : FilePath) (v : Vault)
    → Outside host user p
    → Ensures
        (Kept p (v.world.files p) (v.specials p))
        (λ _. Kept p (v.world.files p) (v.specials p))
        (sync_delete host t user path v)
unfolding sync_delete
sync_delete-Outside host t user path p v far =
    ensures_bind _ (λ _. K) _ _ _ v (ensures_lift _ _ _ v (refl, refl) (λ _ _. (refl, refl)))
      (λ relative v1 h1. ensures_check _ _ _ _ _ v1 h1 (λ _. ensures_gets _ _ _ _ v1 (
        ensures_bind _ (λ _. K) _ _ _ v1 (ensures_lift _ _ _ v1 h1 (λ _ _. h1))
          (λ kind v2 h2. ensures_check _ _ _ _ _ v2 h2 (λ _.
            ensures_bind _ (λ _. K) _ _ _ v2
              (delete_one_to_trash-Kept host user p far _ _ t relative v2 h2)
              (λ _ v3 h3. audit-Kept p _ _ t.moment user "sync_delete" (some path) v3 h3))))))
  where
    K : Vault → Type 0
    K = Kept p (v.world.files p) (v.specials p)
