-- ===== src/Examples/Devices.antt =====
-- A table of two devices (server/src/handlers/sync.rs), and the theorems at it.
use nexa_drive.Prelude.{◌≡◌, refl, false, none, some, [], ◌∷◌, keep}
use nexa_drive.Prelude.Rows.{Has}
use nexa_drive.Text.{codes}
use nexa_drive.Error.Ensures.{Ensures}
use nexa_drive.Devices.{Device, SyncMoment, is_row}
use nexa_drive.Devices.Owner.{is_device_of}
use nexa_drive.Devices.Requests.{Desk, delete_sync_device}
use nexa_drive.Devices.Revoked.{delete_sync_device-Has}
use nexa_drive.Examples.Shelf.{a_host, a_pass, a_world}

abbrev a_laptop : Device
a_laptop = record { id = 5; user_id = 1; name = codes "laptop"; platform = none; last_seen_at = 1 }

abbrev a_phone : Device
a_phone = record { id = 6; user_id = 2; name = codes "phone"; platform = none; last_seen_at = 2 }

abbrev a_desk : Desk
a_desk = record { devices = a_laptop ∷ a_phone ∷ []; world = a_world }

abbrev a_sync : SyncMoment
a_sync = record { select_fails = false; write_fails = false; now = 3; new_id = 8 }

delete_sync_device-Has_example :
    Ensures
      (λ y. keep (is_device_of 2) y.devices ≡ keep (is_device_of 2) a_desk.devices)
      (λ _ y.
        (keep (is_device_of 2) y.devices ≡ keep (is_device_of 2) a_desk.devices)
        × ((d : Device) → Has d y.devices → is_row 5 1 d ≡ false))
      (delete_sync_device a_host a_pass a_sync 1 (some 5) a_desk)
delete_sync_device-Has_example = delete_sync_device-Has a_host a_pass a_sync 1 2 5 a_desk refl
