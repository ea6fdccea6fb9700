-- ===== src/Backup/Listing.antt =====
-- `list_backups` (api/crates/backup/src/lib.rs, `mod read`), over what the two stores list.
pub mod Signed
pub mod Prefix
pub mod Succeeds
mod Tests
use mathlib.Core.List.{reverse}
use prose_pod_server.Common.{
  ℕ, Bool, true, false, not, ◌&&◌, ◌||◌, Option, none, some, List, [], ◌∷◌, ◌++◌, map, Text, text,
  same, keep, ends_with, split, if◌then◌else◌,
}
use prose_pod_server.Common.Members.{contains}
use prose_pod_server.Backup.Id.{External, BackupId, dot, parse}
use prose_pod_server.Backup.Store.{ObjectMetadata, Result, ok, err, panicked, ◌>>=◌}
use prose_pod_server.Backup.Store.Fs.{IoResult}

-- `BackupDto<BackupMetadataPartialDto>`
pub record BackupDto (Time : Type 0) : Type 0 where
  pub id : BackupId Time
  pub description : Text
  pub created_at : Time
  pub size_bytes : ℕ
  pub is_signed : Bool
  pub is_encrypted : Bool
  pub can_be_restored : Bool

-- What `list_all` gives of the backup store, and `list_all_after` of the check store, with the two
-- hashing features of the build.
pub record Stores : Type 0 where
  pub backups : IoResult (List ObjectMetadata)
  pub checks_after : Text → IoResult (List ObjectMetadata)
  pub has_sha2 : Bool
  pub has_blake3 : Bool

-- `file_name.rsplit(".").next()`, which is there for every name.
abbrev pub last_piece : Text → List Text → Text
last_piece p [] = p
last_piece p (q ∷ qs) = last_piece q qs

unfoldable pub file_ext : Text → Text
file_ext name = last_piece [] (split dot name)

unfoldable pub is_backup : Stores → Text → Bool
is_backup s name =
    let ext = file_ext name in
    not (
      s.has_sha2 && same ext (text "sha256")
      || s.has_blake3 && same ext (text "blake3")
      || same ext (text "sig"))

module _ (ext : External) where
  -- One round of the last loop: `none` is `continue`.
  unfoldable pub dto_of : Bool → List Text → ObjectMetadata → Option (BackupDto ext.Time)
  dto_of mandatory checks backup =
      let signed = contains (backup.file_name ++ text ".sig") checks in
      elim (parse ext backup.file_name) [
        | none ↦ none
        | some id ↦ some (record {
          id = id;
          description = id.description;
          created_at = id.created_at;
          size_bytes = backup.size_bytes;
          is_signed = signed;
          is_encrypted = ends_with backup.file_name (text ".pgp");
          can_be_restored = not mandatory || signed;
        })
      ]

  unfoldable pub dtos_of : Bool → List Text → List ObjectMetadata → List (BackupDto ext.Time)
  dtos_of mandatory checks [] = []
  dtos_of mandatory checks (b ∷ bs) =
      let rest = dtos_of mandatory checks bs in
      elim (dto_of mandatory checks b) [ none ↦ rest | some d ↦ d ∷ rest ]

  -- From the objects that are backups.
  unfoldable pub list_rows :
      Stores → Bool → List ObjectMetadata → IoResult (List (BackupDto ext.Time))
  list_rows s mandatory [] = ok []
  list_rows s mandatory (oldest ∷ newer) = do
    objects ← s.checks_after oldest.file_name
    let checks = keep (λ n. not (is_backup s n)) (map (λ m. m.file_name) objects)
    ok (dtos_of mandatory checks (reverse (oldest ∷ newer)))

  unfoldable pub list_backups : Stores → Bool → IoResult (List (BackupDto ext.Time))
  list_backups s mandatory = do
    objects ← s.backups
    list_rows s mandatory (keep (λ m. is_backup s m.file_name) objects)
