-- ===== src/Upload.antt =====
-- Uploads (server/src/handlers/upload.rs): the journal of upload jobs, the files on disk, the
-- resumable chunk protocol, its cancellation and recovery, and the quota.
pub mod Files
pub mod Jobs
pub mod World
pub mod Quota
pub mod Staging
pub mod Chunk
pub mod Cancel
pub mod Whole
pub mod Sweep
