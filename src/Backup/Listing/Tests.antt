-- ===== src/Backup/Listing/Tests.antt =====
-- Two backups in a directory, the signature of one of them in another.
use prose_pod_server.Common.{
  refl, Bool, true, false, some, [], ◌∷◌, Text, text, split_once, split, lt_text, text_dec,
  ends_with, starts_with,
}
use prose_pod_server.Common.Int.{ℤ, pos}
use prose_pod_server.Backup.Id.{External, BackupId, parse, parse_i64, parse_digits}
use prose_pod_server.Backup.Store.Fs.{
  Directory, file, list_all_after, listing, collect, sort, insert, is_present,
}
use prose_pod_server.Backup.Listing.{
  list_backups, list_rows, dtos_of, dto_of, is_backup, file_ext, BackupDto,
}
use prose_pod_server.Common.Members.{IsIn}
use prose_pod_server.Backup.Store.{ObjectMetadata, ok}
use prose_pod_server.Backup.Listing.Prefix.{list_rows-unsigned}
use prose_pod_server.Common.{List, inl, ◌≡◌, ◌++◌}
use prose_pod_server.Backup.Listing.{Stores}
use prose_pod_server.Backup.Listing.Signed.{ShowsSignature, list_backups-signed, in_directories}
use prose_pod_server.Backup.Listing.Succeeds.{list_backups_succeeds}

-- Nothing is percent-encoded, and a time is its seconds.
abbrev plain_codec : External
plain_codec = record {
  encode = λ s. s;
  decode = λ s. some s;
  Time = ℤ;
  unix_timestamp = λ t. t;
  from_unix_timestamp = λ n. some n;
}

abbrev directory : Text → Text → Directory
directory a b = record {
  entries = file b (2 ∷ []) ∷ file a (1 ∷ []) ∷ [];
  listable = true;
  writable = λ n. true;
  removable = λ n. true;
  openable = λ n. true;
  statable = λ n. true;
}

abbrev first_backup : Text
first_backup = text "p-1-a.tar"

abbrev second_backup : Text
second_backup = text "p-2-b.tar"

abbrev backups : Directory
backups = directory first_backup second_backup

abbrev checks : Directory
checks = directory (text "p-2-b.tar.blake3") (text "p-2-b.tar.sig")

abbrev second_id : BackupId ℤ
second_id = record {
  prefix = text "p";
  created_at = pos 2;
  description = text "b";
  extensions = text "tar" ∷ [];
}

abbrev row : BackupId ℤ → Bool → BackupDto ℤ
row id signed = record {
  id = id;
  description = id.description;
  created_at = id.created_at;
  size_bytes = 1;
  is_signed = signed;
  is_encrypted = false;
  can_be_restored = signed;
}

abbrev first_id : BackupId ℤ
first_id = record {
  prefix = text "p";
  created_at = pos 1;
  description = text "a";
  extensions = text "tar" ∷ [];
}

list_backups-signed_example :
    ShowsSignature plain_codec backups checks true true true second_backup second_id
      (row second_id true ∷ row first_id false ∷ [])
unfolding list_backups list_all_after listing collect list_rows sort lt_text insert is_backup
    text_dec file_ext split dtos_of dto_of parse split_once parse_i64 parse_digits ends_with
    starts_with is_present
list_backups-signed_example =
    list_backups-signed plain_codec backups checks true true true
      (row second_id true ∷ row first_id false ∷ []) second_backup second_id refl refl refl refl

-- The check store lists by prefix, with a signature of the newer backup that it does not list.
abbrev by_prefix : Stores
by_prefix = record {
  backups = list_all_after backups [];
  checks_after = λ prefix. ok (record { file_name = prefix ++ text ".sig"; size_bytes = 1 } ∷ []);
  has_sha2 = true;
  has_blake3 = true;
}

abbrev object : Text → ObjectMetadata
object n = record { file_name = n; size_bytes = 1 }

list_rows-unsigned_example :
    (dtos : List (BackupDto ℤ)) × (d : BackupDto ℤ) × (list_rows plain_codec by_prefix true
        (object first_backup ∷ object second_backup ∷ [])
      ≡ ok dtos)
    × IsIn d dtos
    × (d.id ≡ second_id)
    × (d.is_signed ≡ false)
    × (d.can_be_restored ≡ false)
unfolding parse split_once split parse_i64 parse_digits starts_with
list_rows-unsigned_example =
    list_rows-unsigned plain_codec by_prefix true (object first_backup) (object second_backup)
      (object second_backup ∷ []) (object (first_backup ++ text ".sig") ∷ []) second_id refl
      (refl, tt) refl (inl refl) refl

list_backups_succeeds_example :
    (dtos : List (BackupDto ℤ)) × (list_backups plain_codec
        (in_directories plain_codec backups checks true true true)
        true
      ≡ ok dtos)
list_backups_succeeds_example =
    list_backups_succeeds plain_codec backups checks true true true refl (λ n. refl) (tt, (tt, tt))
      refl (λ n. refl) (tt, (tt, tt))
