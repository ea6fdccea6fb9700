-- ===== src/Backup/Verify/Download/Tests.antt =====
-- A service with one backup, whose digest is stored and whose signature is by a known key.
use prose_pod_server.Common.{
  ◌≡◌, refl, Bool, true, false, Option, none, some, List, [], ◌∷◌, Text, text, same, inl, inr,
  if◌then◌else◌, text_dec, replicate,
}
use prose_pod_server.Backup.Store.{ok, err, object_not_found, read_failed}
use prose_pod_server.Backup.Verify.Signatures.{
  Layer, signature_group, good_checksum, bad_signature, no_signatures, check, check_group,
  check-AllGood, record_result, SignatureResult, AllGood, keys_of,
}
use prose_pod_server.Backup.Verify.Download.{
  VerificationReport, Service, with_extension, verify_reader, on_signature, pgp_sig, then_stage,
  on_backup, check_digests, blake3_check, on_digest, verify_digest, backup_not_signed,
  invalid_signature, download_backup_and_check_integrity,
}
use prose_pod_server.Backup.Verify.Download.Justified.{Justified, IsSigned, download-Justified}
use prose_pod_server.Backup.Verify.Download.Accepted.{present, IsGenuine, download-is_accepted}
use prose_pod_server.Backup.Verify.Download.Policy.{
  unsigned-backup_not_signed, known_key-invalid_signature,
}

abbrev name : Text
name = text "p-1772432392-a.tar"

abbrev bytes : Text
bytes = 7 ∷ 8 ∷ []

abbrev digest : Text → Text
digest s = replicate 32 1

abbrev key : Text
key = text "CERT"

abbrev empty_report : VerificationReport
empty_report = record {
  is_signed = false;
  is_intact = false;
  known_signing_keys = [];
  signature = none;
}

-- `sig` is the stored signature, if there is one, and `layers` what it contains.
abbrev service : Option Text → List Layer → Bool → Service
service sig layers mandatory = record {
  backup = λ k. ok (some bytes);
  check_object = λ k max_size.
      if same k (text "p-1772432392-a.tar.sig")
      then (elim sig [ none ↦ err (read_failed object_not_found) | some s ↦ ok (some s) ])
      else ok (some (digest bytes));
  has_pgp = true;
  verifier = λ s. true;
  layers = λ s b. some layers;
  is_signing_mandatory = mandatory;
  rewinds = true;
  blake3_enabled = true;
  blake3 = digest;
  sha2_enabled = false;
  sha256 = digest;
}

abbrev by_digest : Service
by_digest = service none [] false

abbrev forged : Service
forged = service (some (1 ∷ [])) (signature_group (bad_signature key key ∷ []) ∷ []) false

download-Justified_example :
    (by_digest.backup name ≡ ok (some bytes))
    × Justified by_digest name (some bytes)
    × (◌≡◌ {A = Bool} true true)
unfolding download_backup_and_check_integrity on_backup then_stage pgp_sig on_signature
    with_extension check_digests blake3_check on_digest verify_digest text_dec
download-Justified_example =
    download-Justified by_digest name empty_report (record empty_report { is_intact = true })
      (some bytes) refl

unsigned-backup_not_signed_test :
    download_backup_and_check_integrity (service none [] true) name empty_report
    ≡ (err backup_not_signed, empty_report)
unfolding with_extension text_dec
unsigned-backup_not_signed_test =
    unsigned-backup_not_signed (service none [] true) name empty_report (some bytes) refl refl
      (inr (inl refl))

known_key-invalid_signature_test :
    (download_backup_and_check_integrity forged name empty_report).0 ≡ err invalid_signature
unfolding with_extension text_dec verify_reader check check_group record_result
known_key-invalid_signature_test =
    known_key-invalid_signature forged name empty_report (some bytes) (1 ∷ []) refl refl refl refl
      (λ e. cc)

abbrev good : List SignatureResult
good = good_checksum key key ∷ []

check-AllGood_example :
    (results : List SignatureResult) × (signature_group good ≡ signature_group results)
    × (◌≡◌ {A = List Layer} [] [])
    × AllGood results
    × ((check (signature_group good ∷ []) no_signatures).0.known_signing_keys ≡ keys_of results)
unfolding check check_group record_result
check-AllGood_example = check-AllGood (signature_group good) [] refl

abbrev signed : Service
signed = service (some (1 ∷ [])) (signature_group good ∷ []) true

signed-IsSigned : IsSigned signed name (some bytes)
unfolding with_extension text_dec verify_reader check check_group record_result
signed-IsSigned = record {
  configured = refl;
  signature = 1 ∷ [];
  stored = refl;
  parsed = refl;
  verified = refl;
}

signed-IsGenuine : IsGenuine signed name bytes true true true
unfolding with_extension text_dec verify_reader check check_group record_result
signed-IsGenuine = record {
  signature = present (1 ∷ []) (refl, refl);
  blake3_digest = present (digest bytes) (refl, refl);
  sha256_digest = present (digest bytes) (refl, refl);
}

download-is_accepted_example :
    ((download_backup_and_check_integrity signed name empty_report).0 ≡ ok (some bytes))
    × ((download_backup_and_check_integrity signed name empty_report).1.is_intact ≡ true)
download-is_accepted_example =
    download-is_accepted signed name bytes true true true signed-IsGenuine empty_report refl
