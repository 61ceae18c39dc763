-- ===== src/Auth/Platform.antt =====
-- The platform that a client reports (`normalize_platform`, server/src/handlers/sync.rs).
use nexa_drive.Prelude.{◌||◌, Option, none, some, if◌then◌else◌}
use nexa_drive.Text.{Text, codes, text_eq, trim, to_ascii_lowercase}

unfoldable pub platform_of : Text → Option Text
platform_of v =
    if text_eq v (codes "android")
    then some (codes "android")
    else if text_eq v (codes "windows") || text_eq v (codes "win32")
    then some (codes "windows")
    else if text_eq v (codes "linux")
    then some (codes "linux")
    else if text_eq v (codes "macos") || (text_eq v (codes "mac") || text_eq v (codes "darwin"))
    then some (codes "macos")
    else none

unfoldable pub normalize_platform : Option Text → Option Text
normalize_platform none = none
normalize_platform (some raw) = platform_of (to_ascii_lowercase (trim raw))
