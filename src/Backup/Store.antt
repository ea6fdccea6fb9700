-- ===== src/Backup/Store.antt =====
-- What every object store of the backup library shares: metadata, deletion reports, errors, and
-- `reader_if_not_too_large` (api/crates/backup/src/stores/mod.rs). An object is its bytes; the
-- texts of errors are not modelled.
pub mod Fs
pub mod S3
pub use prose_pod_server.Common.Results.{Result, ok, err, panicked, ◌>>=◌, >>=-ok, map_err}
use prose_pod_server.Common.{ℕ, List, Text, leb, if◌then◌else◌}

pub record ObjectMetadata : Type 0 where
  pub file_name : Text
  pub size_bytes : ℕ

pub data DeletedState : Type 0 where
  deleted marked_for_deletion : DeletedState

pub record BulkDeleteOutput : Type 0 where
  pub deleted : List Text
  pub marked_for_deletion : List Text
  pub errors : ℕ

pub data ReadObjectError : Type 0 where
  object_not_found other : ReadObjectError

pub data ReadSizedObjectError : Type 0 where
  read_failed : ReadObjectError → ReadSizedObjectError
  object_too_large : ReadSizedObjectError

-- `ObjectStore::reader_if_not_too_large`, over the `metadata` and `reader` of a store.
unfoldable pub reader_if_not_too_large :
    (Text → Result ReadObjectError ObjectMetadata)
    → (Text → Result ReadObjectError Text)
    → Text
    → ℕ
    → Result ReadSizedObjectError Text
reader_if_not_too_large metadata reader key max_size = do
  meta ← map_err read_failed (metadata key)
  if leb meta.size_bytes max_size then map_err read_failed (reader key) else err object_too_large
