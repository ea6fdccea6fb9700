-- ===== src/Backup/Verify/Download/Policy.antt =====
-- When a backup is refused, and with which error.
use prose_pod_server.Common.{◌≡◌, ◌≢◌, true, false, some, [], Text, text, arith, ◌⊎◌}
use prose_pod_server.Backup.Store.{ok, err, object_not_found, read_failed, object_too_large}
use prose_pod_server.Backup.Verify.Download.{
  Content, VerificationReport, Service, breaks, backup_not_signed, invalid_signature,
  with_extension, max_pgp_signature_length, verify_reader, verify_signature, on_signature, pgp_sig,
  then_stage, on_backup, check_digests, download_backup_and_check_integrity,
}

module _ (s : Service) (id : Text) (r : VerificationReport) (backup : Content) where
  -- The backup has no signature that the service can look at.
  abbrev pub IsUnsigned : Type 0
  IsUnsigned =
      (s.has_pgp ≡ false)
      ⊎ (s.check_object (with_extension id (text "sig")) max_pgp_signature_length
          ≡ err (read_failed object_not_found))
      ⊎ (s.check_object (with_extension id (text "sig")) max_pgp_signature_length
          ≡ err object_too_large)

  pgp_sig-IsUnsigned : IsUnsigned → pgp_sig s id backup r ≡ (breaks, r)
  unfolding pgp_sig on_signature
  pgp_sig-IsUnsigned h = ground arith

  -- Where signing is mandatory, a backup without a configured key, without a signature or with one
  -- that is too large is refused as not signed, whatever its digests say.
  pub unsigned-backup_not_signed :
      s.backup id ≡ ok backup
      → s.is_signing_mandatory ≡ true
      → IsUnsigned
      → download_backup_and_check_integrity s id r ≡ (err backup_not_signed, r)
  unfolding download_backup_and_check_integrity on_backup then_stage check_digests
  unsigned-backup_not_signed b m u = ground (arith, pgp_sig-IsUnsigned u)

  -- A stored signature that names a known key and does not verify is an invalid signature: the
  -- digests are not asked.
  pub known_key-invalid_signature :
      (signature : Text)
      → s.backup id ≡ ok backup
      → s.has_pgp ≡ true
      → s.check_object (with_extension id (text "sig")) max_pgp_signature_length
        ≡ ok (some signature)
      → (verify_reader s signature backup).1 ≡ false
      → (verify_reader s signature backup).0.known_signing_keys ≢ []
      → (download_backup_and_check_integrity s id r).0 ≡ err invalid_signature
  unfolding download_backup_and_check_integrity on_backup then_stage pgp_sig on_signature
      verify_signature
  known_key-invalid_signature signature b p c v k = ground arith
