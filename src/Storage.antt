-- ===== src/Storage.antt =====
-- The storage overview (server/src/handlers/storage.rs): walks over a directory tree, and the statistics that
-- they collect.
pub mod Tree
pub mod Stats
pub mod Insights
pub mod Summary
