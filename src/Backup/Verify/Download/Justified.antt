-- ===== src/Backup/Verify/Download/Justified.antt =====
-- Why a backup is accepted.
use prose_pod_server.Common.{
  ◌≡◌, refl, length, true, false, none, some, Text, text, arith, ◌⊎◌, inl, inr, Bool-cases,
}
use prose_pod_server.Backup.Store.{
  Result, ok, err, panicked, ReadObjectError, object_not_found, other, ReadSizedObjectError,
  read_failed, object_too_large,
}
use prose_pod_server.Backup.Verify.Download.{
  Content, VerificationError, VerificationReport, Service, Stage, returns, breaks, with_extension,
  max_pgp_signature_length, hash_len, verify_reader, verify_signature, on_signature, on_digest,
  pgp_sig, verify_digest, then_stage, on_backup, blake3_check, sha256_check, check_digests,
  download_backup_and_check_integrity,
}

module _ (s : Service) (id : Text) where
  -- The stored signature was parsed, and every layer of it checked against the backup.
  pub record IsSigned (backup : Content) : Type 0 where
    pub configured : s.has_pgp ≡ true
    pub signature : Text
    pub stored :
        s.check_object (with_extension id (text "sig")) max_pgp_signature_length
        ≡ ok (some signature)
    pub parsed : s.verifier signature ≡ true
    pub verified : (verify_reader s signature backup).1 ≡ true

  -- The stored digest is that of the backup, and has the length of a digest.
  pub record IsHashed (extension : Text) (hash : Text → Text) (backup : Content) : Type 0 where
    pub bytes : Text
    pub read : backup ≡ some bytes
    pub stored : s.check_object (with_extension id extension) hash_len ≡ ok (some (hash bytes))
    pub sized : length (hash bytes) ≡ hash_len

  abbrev pub Justified : Content → Type 0
  Justified backup =
      IsSigned backup
      ⊎ ((s.is_signing_mandatory ≡ false)
          × (IsHashed (text "blake3") s.blake3 backup ⊎ IsHashed (text "sha256") s.sha256 backup))

  verify_signature-ok :
      (backup out : Content) (signature : Text) (r r' : VerificationReport)
      → verify_signature s backup signature r ≡ (returns (ok out), r')
      → (out ≡ backup)
        × (s.verifier signature ≡ true)
        × ((verify_reader s signature backup).1 ≡ true)
        × (r'.is_intact ≡ true)
  unfolding verify_signature
  verify_signature-ok backup out signature r r' h = ground arith

  on_signature-ok :
      (backup out : Content) (c : Result ReadSizedObjectError Content) (r r' : VerificationReport)
      → on_signature s backup r c ≡ (returns (ok out), r')
      → (signature : Text) × (c ≡ ok (some signature))
        × (out ≡ backup)
        × (s.verifier signature ≡ true)
        × ((verify_reader s signature backup).1 ≡ true)
        × (r'.is_intact ≡ true)
  unfolding on_signature
  on_signature-ok backup out (ok (some signature)) r r' h =
      let (same, parsed, verified, intact) = verify_signature-ok backup out signature _ r' h in
      (signature, refl, same, parsed, verified, intact)
  on_signature-ok backup out (ok none) r r' h = cc
  on_signature-ok backup out (err object_too_large) r r' h = cc
  on_signature-ok backup out (err (read_failed object_not_found)) r r' h = cc
  on_signature-ok backup out (err (read_failed other)) r r' h = cc
  on_signature-ok backup out panicked r r' h = cc

  pgp_sig-ok :
      (backup out : Content) (r r' : VerificationReport)
      → pgp_sig s id backup r ≡ (returns (ok out), r')
      → (out ≡ backup) × IsSigned backup × (r'.is_intact ≡ true)
  unfolding pgp_sig
  pgp_sig-ok backup out r r' h = elim (Bool-cases s.has_pgp) [
    | inl on ↦
        let (signature, stored, same, parsed, verified, intact) =
          on_signature-ok backup out
            (s.check_object (with_extension id (text "sig")) max_pgp_signature_length) r r'
            (simp on at h) in
        (
          same,
          record {
            configured = on;
            signature = signature;
            stored = stored;
            parsed = parsed;
            verified = verified;
          },
          intact,
        )
    | inr off ↦ absurd (ground arith)
  ]

  on_digest-ok :
      (hash : Text → Text) (backup out : Content) (c : Result ReadSizedObjectError Content)
      (r r' : VerificationReport)
      → on_digest hash backup r c ≡ (returns (ok out), r')
      → (bytes : Text) × (backup ≡ some bytes)
        × (out ≡ backup)
        × (c ≡ ok (some (hash bytes)))
        × (length (hash bytes) ≡ hash_len)
        × (r'.is_intact ≡ true)
  unfolding on_digest verify_digest
  on_digest-ok hash (some bytes) out (ok (some expected)) r r' h =
      (bytes, refl, ground arith, ground arith, ground arith, ground arith)
  on_digest-ok hash none out (ok (some expected)) r r' h = absurd (ground arith)
  on_digest-ok hash backup out (ok none) r r' h = cc
  on_digest-ok hash backup out (err object_too_large) r r' h = cc
  on_digest-ok hash backup out (err (read_failed object_not_found)) r r' h = cc
  on_digest-ok hash backup out (err (read_failed other)) r r' h = cc
  on_digest-ok hash backup out panicked r r' h = cc

  blake3_check-ok :
      (backup out : Content) (r r' : VerificationReport)
      → blake3_check s id backup r ≡ (returns (ok out), r')
      → (out ≡ backup) × IsHashed (text "blake3") s.blake3 backup × (r'.is_intact ≡ true)
  unfolding blake3_check
  blake3_check-ok backup out r r' h = elim (Bool-cases s.blake3_enabled) [
    | inl on ↦
        let (bytes, read, same, stored, sized, intact) =
          on_digest-ok s.blake3 backup out
            (s.check_object (with_extension id (text "blake3")) hash_len) r r' (simp on at h) in
        (same, record { bytes = bytes; read = read; stored = stored; sized = sized }, intact)
    | inr off ↦ absurd (ground arith)
  ]

  sha256_check-ok :
      (backup out : Content) (r r' : VerificationReport)
      → sha256_check s id backup r ≡ (returns (ok out), r')
      → (out ≡ backup) × IsHashed (text "sha256") s.sha256 backup × (r'.is_intact ≡ true)
  unfolding sha256_check
  sha256_check-ok backup out r r' h = elim (Bool-cases s.sha2_enabled) [
    | inl on ↦
        let (bytes, read, same, stored, sized, intact) =
          on_digest-ok s.sha256 backup out
            (s.check_object (with_extension id (text "sha256")) hash_len) r r' (simp on at h) in
        (same, record { bytes = bytes; read = read; stored = stored; sized = sized }, intact)
    | inr off ↦ absurd (ground arith)
  ]

  -- A stage that does not return leaves the verdict to the rest.
  then_stage-ok :
      (st : Stage × VerificationReport)
      (rest : VerificationReport → Result VerificationError Content × VerificationReport)
      (out : Content) (r' : VerificationReport)
      → then_stage st rest ≡ (ok out, r')
      → (st ≡ (returns (ok out), r')) ⊎ (rest st.1 ≡ (ok out, r'))
  unfolding then_stage
  then_stage-ok (returns res, r) rest out r' h = inl (ground arith)
  then_stage-ok (breaks, r) rest out r' h = inr h

  check_digests-ok :
      (backup out : Content) (r r' : VerificationReport)
      → check_digests s id backup r ≡ (ok out, r')
      → (out ≡ backup) × Justified backup × (r'.is_intact ≡ true)
  unfolding check_digests
  check_digests-ok backup out r r' h = elim (Bool-cases s.is_signing_mandatory) [
    | inl on ↦ absurd (ground arith)
    | inr off ↦ elim (then_stage-ok (blake3_check s id backup r) _ out r' (simp off at h)) [
      | inl b ↦
          let (same, hashed, intact) = blake3_check-ok backup out r r' b in
          (same, inr (off, inl hashed), intact)
      | inr b ↦ elim (then_stage-ok (sha256_check s id backup _) _ out r' b) [
        | inl c ↦
            let (same, hashed, intact) = sha256_check-ok backup out _ r' c in
            (same, inr (off, inr hashed), intact)
        | inr c ↦ absurd (ground arith)
      ]
    ]
  ]

  on_backup-ok :
      (b : Result ReadObjectError Content) (out : Content) (r r' : VerificationReport)
      → on_backup s id r b ≡ (ok out, r')
      → (b ≡ ok out) × Justified out × (r'.is_intact ≡ true)
  unfolding on_backup
  on_backup-ok panicked out r r' h = absurd (ground arith)
  on_backup-ok (err object_not_found) out r r' h = absurd (ground arith)
  on_backup-ok (err other) out r r' h = absurd (ground arith)
  on_backup-ok (ok backup) out r r' h =
      elim (then_stage-ok (pgp_sig s id backup r) (check_digests s id backup) out r' h) [
        | inl p ↦
            let (same, signed, intact) = pgp_sig-ok backup out r r' p in
            rw same (refl, inl signed, intact)
        | inr p ↦
            let (same, why, intact) = check_digests-ok backup out _ r' p in
            rw same (refl, why, intact)
      ]

  -- A backup that passes the integrity check is the one in the store, is reported intact, and is
  -- justified: either its stored signature was checked against it, or signing is not mandatory and
  -- a stored digest of 32 bytes is its digest.
  pub download-Justified :
      (r r' : VerificationReport) (out : Content)
      → download_backup_and_check_integrity s id r ≡ (ok out, r')
      → (s.backup id ≡ ok out) × Justified out × (r'.is_intact ≡ true)
  unfolding download_backup_and_check_integrity
  download-Justified r r' out h = on_backup-ok (s.backup id) out r r' h
