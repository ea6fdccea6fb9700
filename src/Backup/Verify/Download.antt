-- ===== src/Backup/Verify/Download.antt =====
-- `BackupService::download_backup_and_check_integrity` (api/crates/backup/src/verification.rs).
pub mod Justified
pub mod Policy
pub mod Accepted
mod Tests
use prose_pod_server.Common.{
  ℕ, ◌*◌, Bool, true, false, Option, none, some, List, [], ◌∷◌, ◌++◌, ◌&&◌, not, Text, text, same,
  length, ◌==◌, if◌then◌else◌,
}
use prose_pod_server.Backup.Store.{
  Result, ok, err, panicked, ReadObjectError, object_not_found, other, ReadSizedObjectError,
  read_failed, object_too_large,
}
use prose_pod_server.Backup.Verify.Signatures.{
  Layer, PgpSignatureReport, PgpVerificationReport, no_signatures, check,
}

abbrev pub Content : Type 0
Content = Option Text

pub data VerificationError : Type 0 where
  backup_not_found invalid_signature backup_not_signed invalid_checksum other_error :
      VerificationError

pub record VerificationReport : Type 0 where
  pub is_signed : Bool
  pub is_intact : Bool
  pub known_signing_keys : List PgpSignatureReport
  pub signature : Option Text

-- The configuration and what lies outside: the cached backup store, the check store's
-- `reader_if_not_too_large`, the OpenPGP library, the hash functions and whether the local copy can
-- be read again. `verifier` says whether a signature can be parsed under the policy at the date of
-- the backup, and `layers` what the library hands to `check` for a signature and a backup; `none` is
-- an error of its own.
pub record Service : Type 0 where
  pub backup : Text → Result ReadObjectError Content
  pub check_object : Text → ℕ → Result ReadSizedObjectError Content
  pub has_pgp : Bool
  pub verifier : Text → Bool
  pub layers : Text → Content → Option (List Layer)
  pub is_signing_mandatory : Bool
  pub rewinds : Bool
  pub blake3_enabled : Bool
  pub blake3 : Text → Text
  pub sha2_enabled : Bool
  pub sha256 : Text → Text

abbrev pub max_pgp_signature_length : ℕ
max_pgp_signature_length = 2 * 1024

abbrev pub hash_len : ℕ
hash_len = 32

-- A labelled block ends by a return, or by a `break` to what follows it.
pub data Stage : Type 0 where
  returns : Result VerificationError Content → Stage
  breaks : Stage

unfoldable pub with_extension : Text → Text → Text
with_extension id extension = id ++ b'.' ∷ extension

-- `verify_reader`, then `report()`.
unfoldable pub verify_reader : Service → Text → Content → PgpVerificationReport × Bool
verify_reader s signature backup = elim (s.layers signature backup) [
  | none ↦ (no_signatures, false)
  | some ls ↦ check ls no_signatures
]

abbrev is_nil : List PgpSignatureReport → Bool
is_nil [] = true
is_nil (k ∷ ks) = false

-- From a signature that was read to the end of the block.
unfoldable pub verify_signature :
    Service → Content → Text → VerificationReport → Stage × VerificationReport
verify_signature s backup signature r =
    let (pgp, verified) = verify_reader s signature backup in
    let r' = record r { known_signing_keys = pgp.known_signing_keys } in
    if not (s.verifier signature)
    then (returns (err invalid_signature), r)
    else if verified
    then (returns (ok backup), record r' { is_intact = true })
    else if not (is_nil pgp.known_signing_keys)
    then (returns (err invalid_signature), r')
    else if s.rewinds
    then (breaks, r')
    else (returns (err other_error), r')

-- The match on the reader of the signature.
unfoldable pub on_signature :
    Service
    → Content
    → VerificationReport
    → Result ReadSizedObjectError Content
    → Stage × VerificationReport
on_signature s backup r panicked = (returns panicked, r)
on_signature s backup r (err object_too_large) = (breaks, r)
on_signature s backup r (err (read_failed object_not_found)) = (breaks, r)
on_signature s backup r (err (read_failed other)) = (returns (err other_error), r)
on_signature s backup r (ok none) = (returns (err other_error), record r { is_signed = true })
on_signature s backup r (ok (some signature)) =
    verify_signature s backup signature (record r { is_signed = true; signature = some signature })

-- The block `'pgp_sig`.
unfoldable pub pgp_sig : Service → Text → Content → VerificationReport → Stage × VerificationReport
pgp_sig s id backup r =
    if s.has_pgp
    then on_signature s backup r
        (s.check_object (with_extension id (text "sig")) max_pgp_signature_length)
    else (breaks, r)

-- From a stored digest that was read to the end of its block.
unfoldable pub verify_digest :
    (Text → Text) → Content → Text → VerificationReport → Stage × VerificationReport
verify_digest hash backup expected r =
    if not (length expected == hash_len) then (returns (err invalid_checksum), r) else elim backup [
      | none ↦ (returns (err other_error), r)
      | some bytes ↦
          if same (hash bytes) expected
          then (returns (ok (some bytes)), record r { is_intact = true })
          else (returns (err invalid_checksum), r)
    ]

-- The match on the reader of the digest.
unfoldable pub on_digest :
    (Text → Text)
    → Content
    → VerificationReport
    → Result ReadSizedObjectError Content
    → Stage × VerificationReport
on_digest hash backup r panicked = (returns panicked, r)
on_digest hash backup r (err object_too_large) = (breaks, r)
on_digest hash backup r (err (read_failed object_not_found)) = (breaks, r)
on_digest hash backup r (err (read_failed other)) = (returns (err other_error), r)
on_digest hash backup r (ok none) = (returns (err other_error), r)
on_digest hash backup r (ok (some expected)) = verify_digest hash backup expected r

-- The block `'blake3_check`.
unfoldable pub blake3_check :
    Service → Text → Content → VerificationReport → Stage × VerificationReport
blake3_check s id backup r =
    if s.blake3_enabled
    then on_digest s.blake3 backup r (s.check_object (with_extension id (text "blake3")) hash_len)
    else (breaks, r)

-- The block `'sha256_check`.
unfoldable pub sha256_check :
    Service → Text → Content → VerificationReport → Stage × VerificationReport
sha256_check s id backup r =
    if s.sha2_enabled
    then on_digest s.sha256 backup r (s.check_object (with_extension id (text "sha256")) hash_len)
    else (breaks, r)

abbrev pub Outcome : Type 0
Outcome = Result VerificationError Content × VerificationReport

-- A block, then the rest of the function.
unfoldable pub then_stage : Stage × VerificationReport → (VerificationReport → Outcome) → Outcome
then_stage (returns res, r) rest = (res, r)
then_stage (breaks, r) rest = rest r

-- What follows the block `'pgp_sig`.
unfoldable pub check_digests : Service → Text → Content → VerificationReport → Outcome
check_digests s id backup r =
    if s.is_signing_mandatory
    then (err backup_not_signed, r)
    else then_stage (blake3_check s id backup r)
        (λ r'. then_stage (sha256_check s id backup r') (λ r''. (err other_error, r'')))

-- The match on the reader of the backup.
unfoldable pub on_backup :
    Service → Text → VerificationReport → Result ReadObjectError Content → Outcome
on_backup s id r panicked = (panicked, r)
on_backup s id r (err object_not_found) = (err backup_not_found, r)
on_backup s id r (err other) = (err other_error, r)
on_backup s id r (ok backup) = then_stage (pgp_sig s id backup r) (check_digests s id backup)

unfoldable pub download_backup_and_check_integrity : Service → Text → VerificationReport → Outcome
download_backup_and_check_integrity s id r = on_backup s id r (s.backup id)
