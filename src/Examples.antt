-- ===== src/Examples.antt =====
-- Small inputs of the modelled code (server/src), and the theorems at them.
mod Console
mod Storage
mod Shelf
mod Sharing
mod Devices
mod Sweep
use nexa_drive.Prelude.{
  ◌≤◌, ◌↔◌, ◌<◌, ◌+◌, ℕ, ◌-◌, ◌≡◌, ◌≢◌, refl, sym, ap, subst, ◌∙◌, true, false, ◌&&◌, none, some,
  List, [], ◌∷◌, ◌++◌, arith, leb, ◌==◌, keep, length, take, min, if◌then◌else◌,
}
use nexa_drive.Text.{
  Text, codes, text_eq, is_empty, is_whitespace, trim, trim_start, trim_cons, trim_end, starts_with,
  strip_prefix, contains_char, split, split_cons, join,
}
use nexa_drive.Text.Decimal.{to_decimal, decimal_digits}
use nexa_drive.Error.{ok}
use nexa_drive.Error.Exec.{◌>>=◌}
use nexa_drive.Error.Ensures.{Ensures}
use nexa_drive.Paths.{
  FilePath, safe_relative_path, components, pieces_components, piece_components, leading_components,
  clean_components, is_trash_name, user_root, sanitize_name,
}
use nexa_drive.Paths.Safety.{IsSafePath, safe_relative_path-IsSafePath}
use nexa_drive.Paths.RoundTrip.{safe_relative_path-join}
use nexa_drive.Paths.Walk.{walk, walk-safe_relative_path}
use nexa_drive.Paths.Names.{safe_relative_path-sanitize_name}
use nexa_drive.Paths.Range.{part, parse_byte_range}
use nexa_drive.Paths.Range.Bounds.{Inside, parse_byte_range-Inside}
use nexa_drive.Paths.Range.Forms.{header, parse_byte_range-forms}
use nexa_drive.Paths.Mime.{content_disposition}
use nexa_drive.Paths.Mime.Disposition.{Unquoted, content_disposition-Unquoted}
use nexa_drive.Upload.Files.{file, path_eq, path_eq_refl}
use nexa_drive.Upload.Jobs.{find}
use nexa_drive.Upload.World.{User, World, Host, Moment}
use nexa_drive.Upload.Chunk.{ChunkQuery, Target, checked_name, last_name, target_of, upload_chunk}
use nexa_drive.Upload.Staging.{Frame, bytes, arrived, written_from, staging_path}
use nexa_drive.Error.Gives.{Gives}
use nexa_drive.Upload.Chunk.Progress.{upload_chunk-still_receiving}
use nexa_drive.Upload.Chunk.{not_special, too_long, still_receiving}
use nexa_drive.Upload.Staging.{break_of, wrong_length}
use nexa_drive.Upload.Files.{is_blocked as has_file_above, parent, is_file}
use nexa_drive.Upload.Jobs.{Job, receiving, is_row, is_completed}
use nexa_drive.Text.Decimal.{saturating_add}
use nexa_drive.Upload.Chunk.Intact.{Upload, Intact}
use nexa_drive.Upload.Chunk.Finish.{Outcome}
use nexa_drive.Upload.Chunk.Integrity.{Asks, upload_chunk-Outcome}
use nexa_drive.Upload.World.{nonneg}
use nexa_drive.Upload.Jobs.{reserved_upload_bytes, outstanding, is_live, is_excluded}
use nexa_drive.Upload.Quota.{ensure_quota}
use nexa_drive.Upload.Quota.Admission.{Outstanding, ensure_quota_iff}
use nexa_drive.Upload.Cancel.{cancel_upload}
use nexa_drive.Upload.Cancel.Kept.{Ended, cancel_upload-Intact}
use nexa_drive.Upload.Chunk.Prefix.{IsPrefix}
use nexa_drive.Upload.Whole.{store_file}
use nexa_drive.Upload.Whole.Stored.{store_file-Stands}
use nexa_drive.Download.{OpenFile, file_response}
use nexa_drive.Download.Slice.{Sends, file_response-Sends}
use nexa_drive.Auth.{log_action, Session, Store, Crypto, Tick}
use nexa_drive.Auth.Throttle.{window, max_failures, is_blocked}
use nexa_drive.Auth.Throttle.Window.{fail_at, is_blocked-fail_at}
use nexa_drive.Auth.Sessions.{
  revoke_user, count_where, delete_where, is_of, sign_out_everywhere, revoke_session,
  revoke_other_sessions,
}
use nexa_drive.Auth.Sessions.Scope.{
  Keeps, is_safe, revoke_other_sessions-is_safe, revoke_session-is_of,
}
use nexa_drive.Auth.Login.{auth_middleware}
use nexa_drive.Auth.Login.Access.{auth_middleware-sign_out_everywhere}
use nexa_drive.Devices.{Device, resolve_sync_device}
use nexa_drive.Devices.Owner.{is_device_of, resolve_sync_device-is_device_of}
use nexa_drive.Log.{write, flush}
use nexa_drive.Log.Ring.{Each, Fits, write-Fits}

abbrev a_path : FilePath
a_path = codes "b" ∷ []

b_read : safe_relative_path (codes "./b") ≡ ok a_path
unfolding safe_relative_path trim trim_start trim_cons trim_end is_empty is_whitespace starts_with
    strip_prefix contains_char split split_cons components pieces_components piece_components
    leading_components clean_components is_trash_name text_eq
b_read = refl

empty_read : safe_relative_path (codes "") ≡ ok []
unfolding safe_relative_path trim trim_start trim_cons trim_end is_empty is_whitespace starts_with
    strip_prefix contains_char split split_cons components pieces_components piece_components
    leading_components clean_components is_trash_name text_eq
empty_read = refl

name_read : checked_name (codes "a") ≡ ok (codes "a")
unfolding checked_name last_name trim trim_start trim_cons trim_end is_empty is_whitespace split
    split_cons components pieces_components piece_components leading_components text_eq
name_read = refl

sanitized : sanitize_name (codes " b") ≡ ok (codes "b")
unfolding sanitize_name trim trim_start trim_cons trim_end is_empty is_whitespace starts_with
    strip_prefix contains_char split split_cons components pieces_components piece_components
    leading_components clean_components is_trash_name text_eq
sanitized = refl

b_no_null : contains_char 0 (codes "b") ≡ false
unfolding contains_char
b_no_null = refl

b_trimmed : trim (join 47 a_path) ≡ join 47 a_path
unfolding trim trim_start trim_cons trim_end is_empty is_whitespace join
b_trimmed = refl

safe_relative_path-IsSafePath_example : IsSafePath a_path
safe_relative_path-IsSafePath_example = safe_relative_path-IsSafePath (codes "./b") a_path b_read

safe_relative_path-join_example : safe_relative_path (join 47 a_path) ≡ ok a_path
safe_relative_path-join_example =
    safe_relative_path-join a_path (safe_relative_path-IsSafePath (codes "./b") a_path b_read)
      b_trimmed

walk-safe_relative_path_example :
    (starts_with (codes "/") (trim (codes "./b")) ≡ false)
    × (walk (codes "srv" ∷ []) (split 47 (trim (codes "./b"))) ≡ (codes "srv" ∷ []) ++ a_path)
walk-safe_relative_path_example =
    walk-safe_relative_path (codes "srv" ∷ []) (codes "./b") a_path b_read

safe_relative_path-sanitize_name_example : safe_relative_path (codes "b") ≡ ok (codes "b" ∷ [])
safe_relative_path-sanitize_name_example =
    safe_relative_path-sanitize_name (codes " b") (codes "b") sanitized b_no_null

parse_byte_range-Inside_example : Inside 10 (parse_byte_range (some (codes "bytes=3-")) 10)
parse_byte_range-Inside_example = parse_byte_range-Inside (some (codes "bytes=3-")) 10

parse_byte_range-forms_example :
    (parse_byte_range (header (to_decimal 2 ++ (b'-' ∷ to_decimal 20))) 10
      ≡ part (record { start = 2; end = min 20 (10 - 1) }))
    × (parse_byte_range (header (to_decimal 2 ++ (b'-' ∷ []))) 10
        ≡ part (record { start = 2; end = 10 - 1 }))
    × (parse_byte_range (header (b'-' ∷ to_decimal 4)) 10
        ≡ part (record { start = 10 - min 4 10; end = 10 - 1 }))
parse_byte_range-forms_example =
    parse_byte_range-forms 10 2 20 4 (omega arith) (omega arith) (omega arith) (omega arith)
      (omega arith)

content_disposition-Unquoted_example :
    (quoted rest : Text) × (content_disposition (codes "a\"b") true
      ≡ (if true then codes "inline" else codes "attachment")
        ++ (codes "; filename=\"" ++ (quoted ++ (codes "\"" ++ rest))))
    × Unquoted quoted
    × Unquoted rest
content_disposition-Unquoted_example = content_disposition-Unquoted (codes "a\"b") true refl

-- A host, and an upload of three bytes.
abbrev a_host : Host
a_host = record {
  storage_root = codes "srv" ∷ [];
  max_upload_bytes = 1000;
  uuid_text = to_decimal;
  sha256 = λ b. b;
}

abbrev a_moment : Moment
a_moment = record {
  fails = λ c. false;
  clock = 5;
  instant = 7;
  tree_used = 0;
  reached = 0;
  folder_len = 4096;
}

abbrev a_world : World
a_world = record {
  users = λ n. some (record { role = codes "user"; disabled = false; quota_bytes = none });
  jobs = [];
  files = λ p. none;
  tombstones = [];
  audit_logs = [];
  quota_cache = λ n. none;
}

abbrev a_target : Target
a_target = target_of a_host 1 [] (codes "a")

staged_apart : staging_path a_host a_target.absolute 7 ≢ a_target.absolute
unfolding staging_path target_of user_root path_eq text_eq to_decimal decimal_digits
staged_apart e =
    let same : path_eq (staging_path a_host a_target.absolute 7) a_target.absolute ≡ true =
      subst (λ x. path_eq (staging_path a_host a_target.absolute 7) x ≡ true) e
        (path_eq_refl (staging_path a_host a_target.absolute 7)) in
    let differ : path_eq (staging_path a_host a_target.absolute 7) a_target.absolute ≡ false =
      refl in
    cc

abbrev a_upload : Upload
a_upload = record {
  user = 1;
  id = 7;
  target = a_target;
  staging = staging_path a_host a_target.absolute 7;
  content = 1 ∷ 2 ∷ 3 ∷ [];
  apart = staged_apart;
}

abbrev a_body : List Frame
a_body = bytes (1 ∷ []) ∷ bytes (2 ∷ []) ∷ []

ok_injective : {A : Type 0} (a b : A) → ok a ≡ ok b → a ≡ b
ok_injective a b e = cc

a_aim :
    (dir : FilePath) (filename : Text)
    → safe_relative_path (codes "") ≡ ok dir
    → checked_name (codes "a") ≡ ok filename
    → target_of a_host 1 dir filename ≡ a_target
a_aim dir filename d f =
    let here = ok_injective [] dir (sym empty_read ∙ d) in
    let named = ok_injective (codes "a") filename (sym name_read ∙ f) in
    ap (λ x. target_of a_host 1 x filename) (sym here) ∙ ap (target_of a_host 1 []) (sym named)

-- The upload with one of its three bytes stored, and the second one on its way.
abbrev a_job : Job
a_job = record {
  id = 7;
  user_id = 1;
  path = a_target.text;
  size_bytes = 1;
  status = receiving;
  updated_at = 5;
  bytes_received = 1;
  total_bytes = some 3;
  checksum_sha256 = none;
  last_error = none;
}

abbrev a_user : User
a_user = record { role = codes "user"; disabled = false; quota_bytes = none }

abbrev a_started_world : World
a_started_world = record a_world {
  jobs = a_job ∷ [];
  files = λ p.
      if path_eq p (staging_path a_host a_target.absolute 7) then some (file (1 ∷ [])) else none;
}

abbrev a_second : ChunkQuery
a_second = record { upload_id = 7; path = codes ""; name = codes "a"; total = 3; offset = 1 }

a_request : Asks a_host a_upload a_second (bytes (2 ∷ []) ∷ [])
unfolding arrived
a_request = record {
  id = refl;
  total = refl;
  staging = refl;
  target = a_aim;
  body = (refl, tt);
  bound = omega arith;
}

a_not_special : not_special (codes "a") ≡ true
unfolding not_special is_empty text_eq
a_not_special = refl

a_free : has_file_above [] (parent a_target.absolute) a_started_world.files ≡ false
unfolding has_file_above parent target_of user_root staging_path path_eq text_eq is_file to_decimal
    decimal_digits
a_free = refl

a_found : find 7 1 a_started_world.jobs ≡ some a_job
unfolding find is_row
a_found = refl

a_staged : a_started_world.files (staging_path a_host a_target.absolute 7) ≡ some (file (1 ∷ []))
a_staged = rw (path_eq_refl (staging_path a_host a_target.absolute 7)) refl

a_file_injective : (a b : List ℕ) → some (file a) ≡ some (file b) → a ≡ b
a_file_injective a b e = cc

a_started_world-Intact : Intact a_upload a_started_world
unfolding Intact find is_row is_completed
a_started_world-Intact = (
  refl,
  refl,
  record {
    stored = λ b e.
        subst (λ x. IsPrefix (take 1 x) (1 ∷ 2 ∷ 3 ∷ []))
          (a_file_injective (1 ∷ []) b (sym a_staged ∙ e)) (refl, tt);
    within = omega arith;
  },
)

upload_chunk-Outcome_example :
    Ensures
      (Intact a_upload)
      (Outcome a_host a_upload)
      (upload_chunk a_host a_moment 1 a_second (some 1) (bytes (2 ∷ []) ∷ []) a_started_world)
upload_chunk-Outcome_example =
    upload_chunk-Outcome a_host a_moment a_upload a_second (some 1) (bytes (2 ∷ []) ∷ [])
      a_started_world a_request a_started_world-Intact

a_short : too_long (some 1) 1 3 ≡ false
unfolding too_long saturating_add
a_short = refl

a_whole : break_of (bytes (2 ∷ []) ∷ []) ≡ none
unfolding break_of
a_whole = refl

a_length : wrong_length (some 1) (written_from 0 (bytes (2 ∷ []) ∷ [])) ≡ false
unfolding wrong_length written_from saturating_add
a_length = refl

a_below : 1 + length (arrived (bytes (2 ∷ []) ∷ [])) < 3
unfolding arrived
a_below = omega arith

a_open : is_completed receiving ≡ false
unfolding is_completed
a_open = refl

upload_chunk-still_receiving_example :
    Gives
      (λ reply _. reply ≡ still_receiving (1 + length (arrived (bytes (2 ∷ []) ∷ []))) 3)
      (upload_chunk a_host a_moment 1 a_second (some 1) (bytes (2 ∷ []) ∷ []) a_started_world)
upload_chunk-still_receiving_example =
    upload_chunk-still_receiving a_host a_moment 1 a_user a_second (some 1) (bytes (2 ∷ []) ∷ []) []
      (codes "a") a_job (1 ∷ []) a_started_world (λ c. refl) refl refl empty_read name_read
      a_not_special a_free refl a_found a_open refl refl a_staged refl refl a_short a_whole a_length
      a_below (omega arith)

abbrev a_limited_user : User
a_limited_user = record { role = codes "user"; disabled = false; quota_bytes = some (nonneg 10) }

abbrev a_limited_world : World
a_limited_world = record a_started_world { users = λ n. some a_limited_user }

-- Another upload of the account under way, of which two bytes have still to come.
abbrev a_busy_world : World
a_busy_world = record a_limited_world { jobs = a_job ∷ record a_job { id = 8 } ∷ [] }

ensure_quota_iff_example :
    (others : ℕ) × Outstanding 1 (some 7) a_busy_world.jobs others
    × (((ensure_quota a_moment 1 8 (some 7) a_busy_world).0 ≡ ok tt) ↔ (0 + others + 8 ≤ 10))
ensure_quota_iff_example =
    ensure_quota_iff a_moment 1 8 10 (some 7) a_limited_user a_busy_world (λ c. refl) refl refl
      (λ e q. cc) (omega arith)

a_busy_world_reserved : reserved_upload_bytes 1 (some 7) a_busy_world.jobs ≡ 2
unfolding reserved_upload_bytes outstanding is_live is_excluded
a_busy_world_reserved = refl

cancel_upload-Intact_example :
    Ensures
      (Intact a_upload)
      (λ reply w. Intact a_upload w × Ended a_upload a_started_world reply w)
      (cancel_upload a_host a_moment 1 7 a_started_world)
cancel_upload-Intact_example =
    cancel_upload-Intact a_host a_moment a_upload a_started_world a_started_world-Intact

store_file-Stands_example :
    Ensures
      (λ _. Unit {0})
      (λ n w.
        (n ≡ written_from 0 a_body) × (w.files a_target.absolute ≡ some (file (arrived a_body))))
      (store_file a_host a_moment 1 7 a_target a_body a_world)
store_file-Stands_example =
    store_file-Stands a_host a_moment 1 7 a_target a_body a_world staged_apart

abbrev a_file : OpenFile
a_file = record { content = 1 ∷ 2 ∷ 3 ∷ []; read_fails = λ p. false; seek_fails = false }

file_response-Sends_example :
    Sends
      (1 ∷ 2 ∷ 3 ∷ [])
      (parse_byte_range (some (codes "bytes=1-1")) 3)
      (file_response a_file 3 (codes "x.txt") (some (codes "bytes=1-1"))).body
file_response-Sends_example =
    file_response-Sends a_file (codes "x.txt") (some (codes "bytes=1-1")) (λ p. refl) refl

-- Two accounts with a session each.
abbrev a_session : ℕ → ℕ → Session
a_session id user = record {
  id = id;
  user_id = user;
  token_hash = codes "t";
  created_at = 0;
  expires_at = 100;
  last_activity_at = none;
  device_name = none;
  platform = none;
}

abbrev a_store : Store
a_store = record {
  accounts = [];
  sessions = a_session 10 1 ∷ a_session 11 1 ∷ a_session 20 2 ∷ [];
  login_attempts = λ k. none;
  audit_logs = [];
}

abbrev a_tick : Tick
a_tick = record {
  fails = λ s. false;
  fails_delete = λ i. false;
  now = 50;
  instant = 50;
  new_id = 30;
  new_token = codes "n";
}

abbrev a_crypto : Crypto
a_crypto = record { to_lowercase = λ t. t; verify_password = text_eq; token_hash = λ t. t }

revoke_other_sessions-is_safe_example :
    Ensures
      (Keeps (is_safe 2 10) (keep (is_safe 2 10) a_store.sessions))
      (λ _ w. Keeps (is_safe 2 10) (keep (is_safe 2 10) a_store.sessions) w)
      (revoke_other_sessions a_tick 1 10 none a_store)
revoke_other_sessions-is_safe_example =
    revoke_other_sessions-is_safe a_tick 1 2 10 none a_store refl (λ e. cc)

revoke_session-is_of_example :
    Ensures
      (Keeps (is_of 2) (keep (is_of 2) a_store.sessions))
      (λ _ w. Keeps (is_of 2) (keep (is_of 2) a_store.sessions) w)
      (revoke_session a_tick 1 (some 20) a_store)
revoke_session-is_of_example = revoke_session-is_of a_tick 1 2 (some 20) a_store refl

signed_out : sign_out_everywhere a_tick 1 a_store ≡ (ok 2, (sign_out_everywhere a_tick 1 a_store).1)
unfolding sign_out_everywhere revoke_user count_where is_of delete_where log_action ◌>>=◌
signed_out = refl

auth_middleware-sign_out_everywhere_example :
    Ensures
      (λ _. Unit {0})
      (λ r _. (r.0 == 1) ≡ false)
      (auth_middleware a_crypto a_tick
        (some (codes "Bearer t"))
        (sign_out_everywhere a_tick 1 a_store).1)
auth_middleware-sign_out_everywhere_example =
    auth_middleware-sign_out_everywhere a_crypto a_tick a_tick (some (codes "Bearer t")) 1 2 a_store
      (sign_out_everywhere a_tick 1 a_store).1 signed_out

is_blocked-fail_at_example :
    is_blocked 60 (fail_at (codes "k") (50 ∷ 51 ∷ []) (λ k. none) (codes "k"))
    ≡ (leb (60 - 50) window && leb max_failures (length {A = ℕ} (50 ∷ 51 ∷ [])))
is_blocked-fail_at_example =
    is_blocked-fail_at (codes "k") 50 60 (51 ∷ []) (λ k. none) refl (omega arith, omega arith, tt)
      (omega arith)

abbrev a_device : Device
a_device = record { id = 5; user_id = 2; name = codes "d"; platform = none; last_seen_at = 0 }

resolve_sync_device-is_device_of_example :
    Ensures
      (λ s. keep (is_device_of 2) s ≡ keep (is_device_of 2) (a_device ∷ []))
      (λ _ s. keep (is_device_of 2) s ≡ keep (is_device_of 2) (a_device ∷ []))
      (resolve_sync_device
        (record { select_fails = false; write_fails = false; now = 9; new_id = 6 })
        1
        (some 5)
        (codes "d")
        none
        (a_device ∷ []))
resolve_sync_device-is_device_of_example =
    resolve_sync_device-is_device_of
      (record { select_fails = false; write_fails = false; now = 9; new_id = 6 }) 1 2 (some 5)
      (codes "d") none (a_device ∷ []) refl

write-Fits_example :
    Each Fits (write (record { ring = []; pending = [] }) (codes "a\nb"))
    × Each Fits (flush (record { ring = []; pending = [] }))
write-Fits_example = write-Fits (record { ring = []; pending = [] }) (codes "a\nb") (omega arith)
