-- ===== src/Devices/Owner.antt =====
-- The rows of accounts in `sync_devices` (server/src/handlers/sync.rs), as filters of the table.
use nexa_drive.Prelude.{
  ℕ, ◌≡◌, refl, ap, sym, ◌∙◌, Bool, true, false, Option, List, [], ◌∷◌, arith, ◌==◌, keep,
  if◌then◌else◌, Bool-cases, inl, inr,
}
use nexa_drive.Prelude.Filter.{keep_here, keep_past}
use nexa_drive.Text.{Text}
use nexa_drive.Error.Ensures.{Ensures, ensures_check, ensures_gets, ensures_modify, ensures_pure}
use nexa_drive.Devices.{
  Device, DeviceLink, refresh, adopt, adopt_existing, mint, SyncMoment, is_row, touched, touch_rows,
  is_taken, new_device, touch, insert, adopt_id, follow, resolve_sync_device,
}

unfoldable pub is_device_of : ℕ → Device → Bool
is_device_of user d = d.user_id == user

module _ (user other : ℕ) (h : (other == user) ≡ false) (m : SyncMoment) (name : Text)
    (platform : Option Text) where
  not_mine : (id : ℕ) (d : Device) → is_device_of other d ≡ true → is_row id user d ≡ false
  unfolding is_device_of is_row
  not_mine id d e = ground arith

  mine_not :
      (id : ℕ) (d : Device)
      → is_device_of other d ≡ false
      → is_device_of other (touched m name platform d) ≡ false
  unfolding is_device_of touched
  mine_not id d e = e

  picked_true : (c : Bool) (x y : Device) → c ≡ true → (if c then x else y) ≡ x
  picked_true true x y k = refl
  picked_true false x y k = cc

  picked_false : (c : Bool) (x y : Device) → c ≡ false → (if c then x else y) ≡ y
  picked_false true x y k = cc
  picked_false false x y k = refl

  touched-other :
      (id : ℕ) (d : Device) (c : Bool)
      → is_device_of other d ≡ false
      → is_device_of other (if c then touched m name platform d else d) ≡ false
  touched-other id d true e = mine_not id d e
  touched-other id d false e = e

  touch_rows-kept :
      (id : ℕ) (ds : List Device)
      → keep (is_device_of other) (touch_rows m id user name platform ds)
        ≡ keep (is_device_of other) ds
  unfolding touch_rows
  touch_rows-kept id [] = refl
  touch_rows-kept id (d ∷ ds) = elim (Bool-cases (is_device_of other d)) [
    | inl e ↦
        ap (λ x. keep (is_device_of other) (x ∷ touch_rows m id user name platform ds))
          (picked_false (is_row id user d) (touched m name platform d) d (not_mine id d e))
        ∙ keep_here (is_device_of other) d (touch_rows m id user name platform ds) e
        ∙ ap (◌∷◌ d) (touch_rows-kept id ds)
        ∙ sym (keep_here (is_device_of other) d ds e)
    | inr e ↦
        keep_past (is_device_of other) _ (touch_rows m id user name platform ds)
          (touched-other id d (is_row id user d) e)
        ∙ touch_rows-kept id ds
        ∙ sym (keep_past (is_device_of other) d ds e)
  ]

  module _ (ds : List Device) where
    abbrev Kept : List Device → Type 0
    Kept s = keep (is_device_of other) s ≡ keep (is_device_of other) ds

    touch-Kept : (id : ℕ) → Ensures Kept (λ _ s. Kept s) (touch m user name platform id ds)
    unfolding touch
    touch-Kept id =
        ensures_check _ _ _ _ _ ds refl
          (λ _. ensures_modify _ _ _ _ ds (ensures_pure _ _ _ _ (touch_rows-kept id ds)))

    insert-Kept : (id : ℕ) → Ensures Kept (λ _ s. Kept s) (insert m user name platform id ds)
    unfolding insert
    insert-Kept id = ensures_check _ _ _ _ _ ds refl (λ _. ensures_gets _ _ _ _ ds (
        ensures_check _ _ _ _ _ ds refl (λ _. ensures_modify _ _ _ _ ds (
          ensures_pure _ _ _ _ (
            keep_past (is_device_of other) (new_device m id user name platform) ds
              (new_other id))))))
      where
        new_other : (id : ℕ) → is_device_of other (new_device m id user name platform) ≡ false
        new_other id = unfold is_device_of new_device in ground arith

    adopt_id-Kept :
        (id : ℕ) (taken : Bool)
        → Ensures Kept (λ _ s. Kept s) (adopt_id m user name platform id taken ds)
    unfolding adopt_id
    adopt_id-Kept id true = touch-Kept id
    adopt_id-Kept id false = insert-Kept id

    follow-Kept :
        (link : DeviceLink) → Ensures Kept (λ _ s. Kept s) (follow m user name platform link ds)
    unfolding follow
    follow-Kept (refresh id) = touch-Kept id
    follow-Kept (adopt_existing id) = touch-Kept id
    follow-Kept (adopt id) = ensures_gets _ _ _ _ ds (adopt_id-Kept id (is_taken id ds))
    follow-Kept mint = insert-Kept m.new_id

-- Whatever device id a request names, and also where it fails, the rows of any other account stay as
-- they are.
pub resolve_sync_device-is_device_of :
    (m : SyncMoment) (user other : ℕ) (requested : Option ℕ) (name : Text) (platform : Option Text)
    (ds : List Device)
    → (other == user) ≡ false
    → Ensures
        (λ s. keep (is_device_of other) s ≡ keep (is_device_of other) ds)
        (λ _ s. keep (is_device_of other) s ≡ keep (is_device_of other) ds)
        (resolve_sync_device m user requested name platform ds)
unfolding resolve_sync_device
resolve_sync_device-is_device_of m user other requested name platform ds h =
    ensures_check _ _ _ _ _ ds refl
      (λ _. ensures_gets _ _ _ _ ds (follow-Kept user other h m name platform ds _))
