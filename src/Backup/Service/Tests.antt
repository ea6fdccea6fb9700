-- ===== src/Backup/Service/Tests.antt =====
-- A backup with a digest, deleted and described.
use prose_pod_server.Common.{
  ◌≡◌, refl, Bool, true, false, not, ◌&&◌, none, some, [], ◌∷◌, Text, text, same, text_dec, lt_text,
  if◌then◌else◌, replicate,
}
use prose_pod_server.Common.Int.{ℤ, pos}
use prose_pod_server.Backup.Id.{BackupId}
use prose_pod_server.Backup.Cache.{CacheEntry, remove, indices, remove_all, remove_at}
use prose_pod_server.Backup.Cache.Invariant.{IsConsistent, without}
use prose_pod_server.Backup.Store.{ok, err, read_failed, object_not_found}
use prose_pod_server.Backup.Store.Fs.{
  Directory, file, is_present, unlink, delete, delete_all, delete_entries, delete_entry,
}
use prose_pod_server.Backup.Verify.Download.{
  Content, Service, download_backup_and_check_integrity, on_backup, pgp_sig, on_signature,
  then_stage, check_digests, blake3_check, on_digest, verify_digest, with_extension,
}
use prose_pod_server.Backup.Verify.Download.Justified.{Justified}
use prose_pod_server.Backup.Service.{
  Stored, forget, cached_delete, after_delete, delete_backup, BackupMetadataFullDto, on_verified,
  details_of, get_details,
}
use prose_pod_server.Backup.Service.Deletion.{delete_backup-removes}
use prose_pod_server.Backup.Service.Restorable.{get_details-Justified}

abbrev key : Text
key = text "p-1-a.tar"

abbrev directory : Text → Directory
directory n = record {
  entries = file n (7 ∷ []) ∷ [];
  listable = true;
  writable = λ n. true;
  removable = λ n. true;
  openable = λ n. true;
  statable = λ n. true;
}

abbrev entry : CacheEntry
entry = record { key = key; path = text "/c/p-1-a.tar"; size = 1 }

abbrev stored : Stored
stored = record {
  backups = directory key;
  cached = record { entries = entry ∷ []; total_size = 1 };
  checks = directory (text "p-1-a.tar.blake3");
}

abbrev nothing_stored : Stored
nothing_stored = record {
  backups = record (directory key) { entries = [] };
  cached = record { entries = []; total_size = 0 };
  checks = record (directory key) { entries = [] };
}

cached-IsConsistent : IsConsistent none stored.cached
unfolding text_dec
cached-IsConsistent = record { counted = refl; distinct = (refl, tt); within = tt }

delete_backup-removes_example :
    (is_present key nothing_stored.backups.entries
      ≡ (is_present key stored.backups.entries && not (same key key)))
    × (nothing_stored.cached.entries ≡ without key stored.cached.entries)
    × IsConsistent none nothing_stored.cached
    × (is_present key nothing_stored.checks.entries ≡ (
        is_present key stored.checks.entries
        && not (lt_text key key && stored.checks.removable key)))
unfolding delete_backup cached_delete after_delete forget delete delete_all delete_entries
    delete_entry is_present unlink remove indices remove_all remove_at text_dec lt_text
delete_backup-removes_example =
    delete_backup-removes none key key stored nothing_stored cached-IsConsistent refl

abbrev backup_id : BackupId ℤ
backup_id = record {
  prefix = text "p";
  created_at = pos 1;
  description = text "a";
  extensions = text "tar" ∷ [];
}

abbrev service : Service
service = record {
  backup = λ k. ok (some (7 ∷ []));
  check_object = λ k max_size.
      if same k (text "p-1-a.tar.blake3")
      then ok (some (replicate 32 1))
      else err (read_failed object_not_found);
  has_pgp = true;
  verifier = λ s. true;
  layers = λ s b. none;
  is_signing_mandatory = false;
  rewinds = true;
  blake3_enabled = true;
  blake3 = λ s. replicate 32 1;
  sha2_enabled = false;
  sha256 = λ s. replicate 32 1;
}

abbrev details : BackupMetadataFullDto
details = record {
  size_bytes = 1;
  is_signed = false;
  is_intact = true;
  is_encrypted = false;
  known_signing_keys = [];
  is_encryption_valid = some true;
  can_be_restored = true;
}

get_details-Justified_example :
    (backup : Content) × (service.backup key ≡ ok backup)
    × Justified service key backup
    × (◌≡◌ {A = Bool} true true)
    × (details.is_intact ≡ true)
unfolding get_details details_of on_verified download_backup_and_check_integrity on_backup
    then_stage pgp_sig on_signature with_extension check_digests blake3_check on_digest
    verify_digest text_dec
get_details-Justified_example =
    get_details-Justified backup_id service (λ b. true) key details
      (λ k. ok (record { file_name = k; size_bytes = 1 })) refl refl
