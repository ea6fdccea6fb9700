-- ===== src/Backup/Listing/Succeeds.antt =====
-- A listing over two directories that can be read.
use mathlib.Core.List.{reverse}
use prose_pod_server.Common.{
  ◌≡◌, refl, ◌∙◌, ap, Bool, true, not, List, [], ◌∷◌, map, Text, All, keep, lt_text,
}
use prose_pod_server.Backup.Id.{External}
use prose_pod_server.Backup.Store.{ObjectMetadata, ok, ◌>>=◌}
use prose_pod_server.Backup.Store.Fs.{Directory, list_all_after}
use prose_pod_server.Backup.Store.Fs.Names.{IsUnicode}
use prose_pod_server.Backup.Store.Fs.Listing.{listing_succeeds}
use prose_pod_server.Backup.Listing.{BackupDto, is_backup, dtos_of, list_rows, list_backups}
use prose_pod_server.Backup.Listing.Signed.{in_directories}

module _ (ext : External) (backups checks : Directory) (has_sha2 has_blake3 mandatory : Bool) where
  list_rows_succeeds :
      (ms : List ObjectMetadata)
      → checks.listable ≡ true
      → ((n : Text) → checks.statable n ≡ true)
      → All IsUnicode checks.entries
      → (dtos : List (BackupDto ext.Time)) × (list_rows ext
            (in_directories ext backups checks has_sha2 has_blake3 mandatory)
            mandatory
            ms
          ≡ ok dtos)
  unfolding list_rows list_all_after
  list_rows_succeeds [] l h u = ([], refl)
  list_rows_succeeds (oldest ∷ newer) l h u =
      let (objects, e) = listing_succeeds (λ m. lt_text oldest.file_name m) checks l h u in
      let stores = in_directories ext backups checks has_sha2 has_blake3 mandatory in
      let found = keep (λ n. not (is_backup stores n)) (map (λ m. m.file_name) objects) in
      (
        dtos_of ext mandatory found (reverse (oldest ∷ newer)),
        ap
            (λ r. r >>= (λ objects'. ok (
              dtos_of ext mandatory
                (keep (λ n. not (is_backup stores n)) (map (λ m. m.file_name) objects'))
                (reverse (oldest ∷ newer)))))
            e,
      )

  -- Over two directories that can be listed, whose names are Unicode and whose files' metadata can be
  -- read, the listing of backups succeeds.
  pub list_backups_succeeds :
      backups.listable ≡ true
      → ((n : Text) → backups.statable n ≡ true)
      → All IsUnicode backups.entries
      → checks.listable ≡ true
      → ((n : Text) → checks.statable n ≡ true)
      → All IsUnicode checks.entries
      → (dtos : List (BackupDto ext.Time)) × (list_backups ext
            (in_directories ext backups checks has_sha2 has_blake3 mandatory)
            mandatory
          ≡ ok dtos)
  unfolding list_backups list_all_after
  list_backups_succeeds l h u l' h' u' =
      let stores = in_directories ext backups checks has_sha2 has_blake3 mandatory in
      let (objects, e) = listing_succeeds (λ m. lt_text [] m) backups l h u in
      let (dtos, e') =
        list_rows_succeeds (keep (λ m. is_backup stores m.file_name) objects) l' h' u' in
      (
        dtos,
        ap
              (λ r. r >>= (λ objects'.
                list_rows ext stores mandatory (keep (λ m. is_backup stores m.file_name) objects')))
              e
            ∙ e',
      )
