-- ===== src/Devices.antt =====
-- The devices of the sync (server/src/handlers/sync.rs): which row a request is bound to.
pub mod Owner
pub mod Requests
pub mod Revoked
use nexa_drive.Prelude.{
  ℕ, ◌≡◌, Bool, true, false, not, ◌&&◌, Option, none, some, List, [], ◌∷◌, ltb, leb, ◌==◌,
  if◌then◌else◌, keep,
}
use nexa_drive.Text.{Text, text_eq}
use nexa_drive.Error.{database}
use nexa_drive.Error.Exec.{Exec, pure, gets, check, modify, ◌>>=◌, ◌>>◌}

-- A row of `sync_devices`.
pub record Device : Type 0 where
  pub id : ℕ
  pub user_id : ℕ
  pub name : Text
  pub platform : Option Text
  pub last_seen_at : ℕ

pub data DeviceLink : Type 0 where
  refresh adopt adopt_existing : ℕ → DeviceLink
  mint : DeviceLink

-- The statements that can fail, the clock, and the id of `Uuid::new_v4`.
pub record SyncMoment : Type 0 where
  pub select_fails : Bool
  pub write_fails : Bool
  pub now : ℕ
  pub new_id : ℕ

unfoldable pub plan_requested : ℕ → Option ℕ → ℕ → DeviceLink
plan_requested id none caller = adopt id
plan_requested id (some owner) caller = if owner == caller then refresh id else mint

unfoldable pub plan_unnamed : Option ℕ → DeviceLink
plan_unnamed none = mint
plan_unnamed (some id) = adopt_existing id

unfoldable pub plan_device_link : Option ℕ → Option ℕ → ℕ → Option ℕ → DeviceLink
plan_device_link (some id) owner caller same = plan_requested id owner caller
plan_device_link none owner caller same = plan_unnamed same

unfoldable pub owner_of : ℕ → List Device → Option ℕ
owner_of id [] = none
owner_of id (d ∷ ds) = if d.id == id then some d.user_id else owner_of id ds

unfoldable pub same_platform : Option Text → Option Text → Bool
same_platform none none = true
same_platform (some a) (some b) = text_eq a b
same_platform _ _ = false

unfoldable pub is_same : ℕ → Text → Option Text → Device → Bool
is_same user name platform d =
    d.user_id == user && (text_eq d.name name && same_platform d.platform platform)

-- `ORDER BY last_seen_at DESC LIMIT 1`
unfoldable pub newer : Device → Option Device → Device
newer d none = d
newer d (some e) = if leb e.last_seen_at d.last_seen_at then d else e

unfoldable pub newest : List Device → Option Device
newest [] = none
newest (d ∷ ds) = some (newer d (newest ds))

unfoldable pub id_of : Option Device → Option ℕ
id_of none = none
id_of (some d) = some d.id

unfoldable pub requested_owner : Option ℕ → List Device → Option ℕ
requested_owner none ds = none
requested_owner (some id) ds = owner_of id ds

unfoldable pub same_name_platform : Option ℕ → ℕ → Text → Option Text → List Device → Option ℕ
same_name_platform (some id) user name platform ds = none
same_name_platform none user name platform ds =
    id_of (newest (keep (is_same user name platform) ds))

unfoldable pub coalesce : Option Text → Option Text → Option Text
coalesce none old = old
coalesce (some p) old = some p

unfoldable pub is_row : ℕ → ℕ → Device → Bool
is_row id user d = d.id == id && d.user_id == user

unfoldable pub touched : SyncMoment → Text → Option Text → Device → Device
touched m name platform d = record d {
  last_seen_at = m.now;
  name = name;
  platform = coalesce platform d.platform;
}

unfoldable pub touch_rows : SyncMoment → ℕ → ℕ → Text → Option Text → List Device → List Device
touch_rows m id user name platform [] = []
touch_rows m id user name platform (d ∷ ds) =
    (if is_row id user d then touched m name platform d else d)
    ∷ touch_rows m id user name platform ds

unfoldable pub is_taken : ℕ → List Device → Bool
is_taken id [] = false
is_taken id (d ∷ ds) = if d.id == id then true else is_taken id ds

unfoldable pub new_device : SyncMoment → ℕ → ℕ → Text → Option Text → Device
new_device m id user name platform = record {
  id = id;
  user_id = user;
  name = name;
  platform = platform;
  last_seen_at = m.now;
}

unfoldable pub touch : SyncMoment → ℕ → Text → Option Text → ℕ → Exec (List Device) ℕ
touch m user name platform id = do
  check (not m.write_fails) database
  modify (touch_rows m id user name platform)
  pure id

unfoldable pub insert : SyncMoment → ℕ → Text → Option Text → ℕ → Exec (List Device) ℕ
insert m user name platform id = do
  check (not m.write_fails) database
  taken ← gets (is_taken id)
  check (not taken) database
  modify (λ ds. new_device m id user name platform ∷ ds)
  pure id

-- An insertion that meets the same id (a unique violation) becomes a touch.
unfoldable pub adopt_id : SyncMoment → ℕ → Text → Option Text → ℕ → Bool → Exec (List Device) ℕ
adopt_id m user name platform id true = touch m user name platform id
adopt_id m user name platform id false = insert m user name platform id

unfoldable pub follow : SyncMoment → ℕ → Text → Option Text → DeviceLink → Exec (List Device) ℕ
follow m user name platform (refresh id) = touch m user name platform id
follow m user name platform (adopt_existing id) = touch m user name platform id
follow m user name platform (adopt id) = do
  taken ← gets (is_taken id)
  adopt_id m user name platform id taken
follow m user name platform mint = insert m user name platform m.new_id

unfoldable pub resolve_sync_device :
    SyncMoment → ℕ → Option ℕ → Text → Option Text → Exec (List Device) ℕ
resolve_sync_device m user requested name platform = do
  check (not m.select_fails) database
  link ← gets (λ ds.
      plan_device_link requested (requested_owner requested ds) user
        (same_name_platform requested user name platform ds))
  follow m user name platform link
