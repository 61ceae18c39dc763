-- ===== src/Paths/Mime/Inline.antt =====
-- Which stored files are served for display in the browser.
use nexa_drive.Prelude.{Bool, true, List, [], ◌∷◌, all, ◌||◌, ◌&&◌}
use nexa_drive.Text.{Text, codes, one_of}
use nexa_drive.Paths.Mime.{mime_is_safe_inline}

-- Extensions of what a browser would execute.
abbrev pub executable : List Text
executable = codes "html" ∷ codes "htm" ∷ codes "js" ∷ []

-- Every arm is for executable extensions only, or its content type is safe.
arms_checked : List (List Text × Text) → Bool
arms_checked [] = true
arms_checked ((patterns, mime) ∷ arms) =
    (mime_is_safe_inline mime || all (one_of executable) patterns) && arms_checked arms
