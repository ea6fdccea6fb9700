-- ===== src/Backup/Store/Fs/Tests.antt =====
-- A directory of digests of two backups.
use Prim.Native.Nat.{bit_and}
use prose_pod_server.Common.{
  ◌≡◌, ◌≢◌, refl, true, false, not, ◌&&◌, some, [], ◌∷◌, Text, text, same, lt_text, starts_with,
  if◌then◌else◌, text_dec,
}
use prose_pod_server.Backup.Store.{BulkDeleteOutput, ok, panicked}
use prose_pod_server.Backup.Store.Fs.{
  FsStore, mode_ok, mode_warn, mode_err, file, Directory, validate_mode, try_from_config,
  is_present, contents, unlink, write, delete_all, listing, collect, sort, insert,
}
use prose_pod_server.Backup.Store.Fs.Mode.{try_from_config-bits, write-ne-panicked}
use prose_pod_server.Backup.Store.Fs.Names.{contents-write}
use prose_pod_server.Backup.Store.Fs.Listing.{IsAscending, has_name, listing_complete}
use prose_pod_server.Backup.Store.Fs.Deletion.{is_present-delete_all}

abbrev older : Text
older = text "p-1772432392-a.tar.blake3"

abbrev newer : Text
newer = text "p-1772432999-b.tar.blake3"

abbrev checks : Directory
checks = record {
  entries = file newer (2 ∷ []) ∷ file older (1 ∷ []) ∷ [];
  listable = true;
  writable = λ n. true;
  removable = λ n. true;
  openable = λ n. true;
  statable = λ n. true;
}

abbrev recommended : FsStore
recommended = record { overwrite = false; mode = 0o600 }

-- The program's own tests of `validate_mode`.
validate_modes :
    (validate_mode 0o600 0o600 ≡ mode_ok)
    × (validate_mode 0o700 0o600 ≡ mode_err)
    × (validate_mode 0o604 0o600 ≡ mode_err)
    × (validate_mode 0o400 0o600 ≡ mode_err)
    × (validate_mode 0o640 0o600 ≡ mode_warn)
    × (validate_mode 400 0o600 ≡ mode_warn)
    × (validate_mode 640 0o600 ≡ mode_err)
unfolding validate_mode
validate_modes = (refl, refl, refl, refl, refl, refl, refl)

try_from_config-bits_test : (bit_and 0o600 0o117 ≡ 0) × (bit_and 0o600 0o600 ≡ 0o600)
unfolding try_from_config validate_mode
try_from_config-bits_test = try_from_config-bits false 0o600 0o600 recommended refl refl refl

write-ne-panicked_test : write recommended (text "x") [] checks ≢ panicked
unfolding try_from_config validate_mode starts_with
write-ne-panicked_test =
    write-ne-panicked false 0o600 0o600 recommended (text "x") [] checks refl refl refl

abbrev written : Directory
written = record checks {
  entries = file newer (2 ∷ []) ∷ file older (1 ∷ []) ∷ file (text "x") (7 ∷ []) ∷ [];
}

contents-write_test :
    contents (text "x") written.entries
    ≡ (if same (text "x") (text "x") then some (7 ∷ []) else contents (text "x") checks.entries)
unfolding write unlink is_present starts_with text_dec
contents-write_test = contents-write recommended (text "x") (7 ∷ []) checks written (text "x") refl

-- Deleting the checks of the older backup deletes those of the newer one.
is_present-delete_all_example :
    ((out : BulkDeleteOutput) × ((delete_all checks (text "p-1772432392-a.tar")).0 ≡ ok out))
    × (is_present newer (delete_all checks (text "p-1772432392-a.tar")).1.entries ≡ (
        is_present newer checks.entries
        && not (lt_text (text "p-1772432392-a.tar") newer && checks.removable newer)))
is_present-delete_all_example =
    is_present-delete_all checks (text "p-1772432392-a.tar") newer refl (tt, (tt, tt))

newer_is_lost :
    (is_present newer (delete_all checks (text "p-1772432392-a.tar")).1.entries ≡ false)
    × (starts_with newer (text "p-1772432392-a.tar") ≡ false)
unfolding is_present lt_text starts_with text_dec
newer_is_lost =
    ((is_present-delete_all checks (text "p-1772432392-a.tar") newer refl (tt, (tt, tt))).1, refl)

listing_complete_example :
    IsAscending (record { file_name = newer; size_bytes = 1 } ∷ [])
    × ((n : Text)
        → has_name n (record { file_name = newer; size_bytes = 1 } ∷ [])
          ≡ (is_present n checks.entries && lt_text older n))
unfolding listing collect lt_text text_dec sort insert
listing_complete_example =
    listing_complete (λ n. lt_text older n) checks
      (record { file_name = newer; size_bytes = 1 } ∷ []) refl
