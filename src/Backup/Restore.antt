-- ===== src/Backup/Restore.antt =====
-- Where a restoration puts the entries of an archive (api/crates/backup/src/restoration.rs).
pub mod Paths
pub mod Migrations
