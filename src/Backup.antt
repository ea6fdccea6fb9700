-- ===== src/Backup.antt =====
-- The backup library (api/crates/backup).
pub mod Cache
pub mod Id
pub mod Listing
pub mod Store
pub mod Verify
pub mod Restore
pub mod Service
pub mod Amount
pub mod Decryption
pub mod Tar
