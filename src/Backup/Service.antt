-- ===== src/Backup/Service.antt =====
-- Operations of `BackupService` that put its parts together: `delete_backup` and `get_details`
-- (api/crates/backup/src/lib.rs), and `CachedStore::delete`
-- (api/crates/backup/src/stores/cache.rs). Both stores are directories.
pub mod Deletion
pub mod Restorable
mod Tests
use prose_pod_server.Common.{
  ℕ, Bool, true, false, Option, none, some, List, [], ◌∷◌, Text, text, if◌then◌else◌,
}
use prose_pod_server.Common.Members.{contains}
use prose_pod_server.Backup.Id.{BackupId}
use prose_pod_server.Backup.Cache.{StoreCache, remove}
use prose_pod_server.Backup.Store.{
  ObjectMetadata, DeletedState, BulkDeleteOutput, ReadObjectError, Result, ok, err, panicked,
}
use prose_pod_server.Backup.Store.Fs.{IoResult, Directory, delete, delete_all}
use prose_pod_server.Backup.Verify.Signatures.{PgpSignatureReport}
use prose_pod_server.Backup.Verify.Download.{
  Content, VerificationError, VerificationReport, Service, download_backup_and_check_integrity,
}

-- The state that a deletion changes.
pub record Stored : Type 0 where
  pub backups : Directory
  pub cached : StoreCache
  pub checks : Directory

-- What follows `self.store.delete(key).await?` in `CachedStore::delete`.
unfoldable pub forget :
    Text
    → StoreCache
    → IoResult DeletedState × Directory
    → IoResult DeletedState × (Directory × StoreCache)
forget key cached (ok state, d) = (ok state, (d, remove key cached))
forget key cached (err e, d) = (err e, (d, cached))
forget key cached (panicked, d) = (panicked, (d, cached))

-- `CachedStore::delete`
unfoldable pub cached_delete :
    Text → Directory → StoreCache → IoResult DeletedState × (Directory × StoreCache)
cached_delete key d cached = forget key cached (delete d key)

abbrev pub done : IoResult BulkDeleteOutput → IoResult (Unit {0})
done (ok output) = ok tt
done (err e) = err e
done panicked = panicked

-- The second half of `delete_backup`; what it logs is left out.
abbrev pub delete_checks : Text → Directory → StoreCache → Directory → IoResult (Unit {0}) × Stored
delete_checks key d cached checks =
    let (r, checks') = delete_all checks key in
    (done r, record { backups = d; cached = cached; checks = checks' })

unfoldable pub after_delete :
    Text
    → Directory
    → IoResult DeletedState × (Directory × StoreCache)
    → IoResult (Unit {0}) × Stored
after_delete key checks (ok state, (d, cached)) = delete_checks key d cached checks
after_delete key checks (err e, (d, cached)) =
    (err e, record { backups = d; cached = cached; checks = checks })
after_delete key checks (panicked, (d, cached)) =
    (panicked, record { backups = d; cached = cached; checks = checks })

-- `delete_backup`, from the object identifier of the backup.
unfoldable pub delete_backup : Text → Stored → IoResult (Unit {0}) × Stored
delete_backup key s = after_delete key s.checks (cached_delete key s.backups s.cached)

-- The flags of `BackupMetadataFullDto` that `get_details` computes.
pub record BackupMetadataFullDto : Type 0 where
  pub size_bytes : ℕ
  pub is_signed : Bool
  pub is_intact : Bool
  pub is_encrypted : Bool
  pub known_signing_keys : List PgpSignatureReport
  pub is_encryption_valid : Option Bool
  pub can_be_restored : Bool

-- The match on the result of the verification: `is_encryption_valid` and `can_be_restored`, where
-- `readable` says whether `get_metadata` succeeds on a backup.
unfoldable pub on_verified :
    (Content → Bool) → Result VerificationError Content → Result (Unit {0}) (Option Bool × Bool)
on_verified readable (ok backup) =
    if readable backup then ok (some true, true) else ok (some false, false)
on_verified readable (err e) = ok (none, false)
on_verified readable panicked = panicked

abbrev pub empty_report : VerificationReport
empty_report = record {
  is_signed = false;
  is_intact = false;
  known_signing_keys = [];
  signature = none;
}

unfoldable pub details_of :
    {Time : Type 0}
    → BackupId Time
    → VerificationReport
    → Result (Unit {0}) (Option Bool × Bool)
    → Result ReadObjectError ObjectMetadata
    → IoResult BackupMetadataFullDto
details_of id r (err e) m = err tt
details_of id r panicked m = panicked
details_of id r (ok (valid, restorable)) (err e) = err tt
details_of id r (ok (valid, restorable)) panicked = panicked
details_of id r (ok (valid, restorable)) (ok meta) = ok (record {
  size_bytes = meta.size_bytes;
  is_signed = r.is_signed;
  is_intact = r.is_intact;
  is_encrypted = contains (text "pgp") id.extensions;
  known_signing_keys = r.known_signing_keys;
  is_encryption_valid = valid;
  can_be_restored = restorable;
})

-- `get_details` of the backup stored as `key`, where `metadata` is that of the backup store.
unfoldable pub get_details :
    {Time : Type 0}
    → Service
    → (Content → Bool)
    → (Text → Result ReadObjectError ObjectMetadata)
    → BackupId Time
    → Text
    → IoResult BackupMetadataFullDto
get_details s readable metadata id key =
    let (result, report) = download_backup_and_check_integrity s key empty_report in
    details_of id report (on_verified readable result) (metadata key)
