-- ===== src/Backup/Service/Restorable.antt =====
-- What `get_details` promises of a backup that can be restored.
use prose_pod_server.Common.{◌≡◌, refl, ◌∙◌, ap, Bool, true, Option, Text, arith}
use prose_pod_server.Backup.Id.{BackupId}
use prose_pod_server.Backup.Store.{ObjectMetadata, ReadObjectError, Result, ok, err, panicked}
use prose_pod_server.Backup.Verify.Download.{
  Content, VerificationError, VerificationReport, Service, download_backup_and_check_integrity,
}
use prose_pod_server.Backup.Verify.Download.Justified.{Justified, download-Justified}
use prose_pod_server.Backup.Service.{
  BackupMetadataFullDto, on_verified, details_of, get_details, empty_report,
}

on_verified-restorable :
    (readable : Content → Bool) (r : Result VerificationError Content) (valid : Option Bool)
    → on_verified readable r ≡ ok (valid, true)
    → (backup : Content) × (r ≡ ok backup) × (readable backup ≡ true)
unfolding on_verified
on_verified-restorable readable (ok backup) valid h = (backup, refl, ground arith)
on_verified-restorable readable (err e) valid h = cc
on_verified-restorable readable panicked valid h = cc

module _ {Time : Type 0} (id : BackupId Time) where
  details_of-ok :
      (r : VerificationReport) (v : Result (Unit {0}) (Option Bool × Bool))
      (m : Result ReadObjectError ObjectMetadata) (d : BackupMetadataFullDto)
      → details_of id r v m ≡ ok d
      → (d.is_intact ≡ r.is_intact) × ((valid : Option Bool) × (v ≡ ok (valid, d.can_be_restored)))
  unfolding details_of
  details_of-ok r (err e) m d h = cc
  details_of-ok r panicked m d h = cc
  details_of-ok r (ok (valid, restorable)) (err e) d h = cc
  details_of-ok r (ok (valid, restorable)) panicked d h = cc
  details_of-ok r (ok (valid, restorable)) (ok meta) d h = (cc, (valid, cc))

  module _ (s : Service) (readable : Content → Bool) (key : Text) (d : BackupMetadataFullDto)
      (metadata : Text → Result ReadObjectError ObjectMetadata) where
    -- A backup whose details say that it can be restored is in the store, passes the integrity check
    -- with a justification, has metadata that can be read, and is shown as intact.
    pub get_details-Justified :
        get_details s readable metadata id key ≡ ok d
        → d.can_be_restored ≡ true
        → (backup : Content) × (s.backup key ≡ ok backup)
          × Justified s key backup
          × (readable backup ≡ true)
          × (d.is_intact ≡ true)
    unfolding get_details
    get_details-Justified h restorable =
        let checked = download_backup_and_check_integrity s key empty_report in
        let (intact, (valid, e)) =
          details_of-ok checked.1 (on_verified readable checked.0) (metadata key) d h in
        let (backup, passed, read) =
          on_verified-restorable readable checked.0 valid
            (e ∙ ap (λ b. ok (valid, b)) restorable) in
        let (stored, justified, is_intact) =
          download-Justified s key empty_report checked.1 backup
            (ap (λ x. (x, checked.1)) passed) in
        (backup, stored, justified, read, intact ∙ is_intact)
