-- ===== src/Lib.antt =====
-- The server of NexaDrive, a private cloud storage: users keep files below a storage root, upload them
-- in resumable chunks, download them, and sync them from several devices.
--
-- Which file models what (the paths are those of the repository):
-- - Paths: server/src/paths.rs. `safe_relative_path` turns a client's text into a path, the list of its
--   components; Paths/Range is `parse_byte_range`, Paths/Mime the content types and dispositions.
-- - Upload: server/src/handlers/upload.rs. Upload/Files is the file system, a function from paths to
--   entries; Upload/Jobs the table `upload_jobs`; Upload/World the state that requests share, with the
--   configuration (`Host`) and what one request meets (`Moment`: clocks, and the calls that fail);
--   Upload/Quota is `ensure_quota`; Upload/Staging the staging file; Upload/Chunk `upload_chunk`;
--   Upload/Whole `upload_file`; Upload/Cancel `cancel_upload`, `upload_status` and
--   `recover_upload_jobs`; Upload/Sweep `sweep_expired_uploads`.
-- - Auth: server/src/auth.rs (Auth/Throttle, Auth/Login) and server/src/handlers/sessions.rs
--   (Auth/Sessions), on the tables of accounts and sessions.
-- - Devices: the devices of server/src/handlers/sync.rs, with `sync_delete` (Devices/Requests);
--   Auth/Platform its `normalize_platform`.
-- - Download: the response for a file of server/src/handlers/download.rs.
-- - Log: server/src/logbuf.rs.
-- - Shelf: server/src/handlers/files.rs, and the trash of server/src/handlers/storage.rs. Shelf/Entry
--   is what a path leads to and `fs::rename`, Shelf/Transfer rename, move, copy and batch, Shelf/Trash
--   deletion, trash and folders, Shelf/Listing the list of a folder, the search and the photos. Its
--   state is a `Vault`: the uploads' world, what else stands at paths (links, sockets), and the table
--   of the trash.
-- - Storage: the walks of server/src/handlers/storage.rs over a `Directory`, in which entries can be
--   gone or unreadable (Storage/Tree); Storage/Stats is `tree_stats`, Storage/Insights `tree_insights`;
--   Storage/Summary is server/src/storage_stats.rs.
-- - Sharing: server/src/handlers/sharing.rs. Sharing/Grants is the owner's side, Sharing/Received and
--   Sharing/Action the recipient's, Sharing/Link a public link. Sharing/Named and Sharing/Inside say which
--   share an action is for and where it may act, Sharing/Untouched what it leaves.
-- - Console: server/src/console/session.rs. Console/Cookies is the text of cookies, Console/Session
--   sign-in, gate and logout.
-- - Error: server/src/error.rs, and the handlers' monad: a function of the state to a result and a state.
--   Error/Ensures is the logic in which the properties of handlers are stated: a condition on the
--   state beside every error, and one on result and state beside every success; Error/Gives is that
--   of runs that succeed, Error/Cases splits a run where a handler stops.
-- - Prelude, Text: lists and numbers, tables as lists of rows (Prelude/Rows), and the operations of
--   `str`. Examples: inputs and runs, a file for each part.
--
-- How they interact: an upload handler reads a path (Paths), checks the account and the quota, writes
-- the journal (Upload/Jobs) and the staging file, and moves it into place; the lock of an upload id
-- makes the chunks of one upload follow one another, so a request is one step. `cancel_upload` takes no lock in the code; it
-- is one step here too, so a chunk of the same upload in the middle of it is not described. Every statement and
-- every file operation can fail, by the function `fails` of the moment, and what was written stays.
--
-- Bounds: numbers are those of ℕ; additions that saturate in the code saturate at 2^64 - 1, and the
-- failure counter at 2^32 - 1. The stream of a range steps once for each byte at most, so its fuel, the
-- length of the range, is enough. A file has at most 2^64 - 1 bytes.
--
-- The walk over a tree reads each directory once; its fuel, also that of a search, is their number,
-- which is proved enough. Lengths of files are not cut to 63 bits where the code casts them.
-- The days of the activity count from 1970; a breakdown's counters saturate at 2^64 - 1.
--
-- A deletion, a move and an action of a recipient go through `fs::rename`, which carries all that is
-- below a path; a share names a path of its owner, and the recipient's path is joined to it. The console
-- keeps its own sessions and its own counter of failures, on the same accounts.
--
-- Parameters: the text of a UUID, the digests (sha2), password hashes (argon2), Unicode case mapping,
-- dates as text (chrono); the walk over a user's files in the quota (its result, as `tree_stats` gives
-- it); and for a request on files (`Pass`), where links lead, the real place of a path (`canonicalize`),
-- which folders are empty, and what a copy or a removal that fails has reached.
--
-- Not modelled: symbolic links on the way to a path, the times of tombstones and of folders, and the
-- wildcards of LIKE, which are taken as plain characters; the manifest and delta of sync, the removal
-- of stale staging files at the start, the console's API, administration, metrics, backups,
-- notifications, start-up, and the app.
pub mod Prelude
pub mod Sharing
pub mod Shelf
pub mod Storage
pub mod Text
pub mod Error
pub mod Paths
pub mod Upload
pub mod Auth
pub mod Download
pub mod Console
pub mod Devices
pub mod Log
pub mod Examples
