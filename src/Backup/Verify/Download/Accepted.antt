-- ===== src/Backup/Verify/Download/Accepted.antt =====
-- What is decided where all checks that are stored are those of the backup.
use prose_pod_server.Common.{
  ◌≡◌, refl, subst, Bool, true, false, not, ◌&&◌, ◌||◌, Bool-cases, some, Text, text, length, ◌==◌,
  same, same_refl, inl, inr, if◌then◌else◌, arith,
}
use prose_pod_server.Backup.Store.{
  Result, ok, err, ReadSizedObjectError, read_failed, object_not_found,
}
use prose_pod_server.Backup.Verify.Download.{
  Content, VerificationError, backup_not_signed, other_error, VerificationReport, Service,
  with_extension, max_pgp_signature_length, hash_len, verify_reader, verify_signature, on_signature,
  pgp_sig, verify_digest, on_digest, blake3_check, sha256_check, then_stage, on_backup, Stage,
  returns, breaks, Outcome, check_digests, download_backup_and_check_integrity,
}

-- A check that is not there, or is there and good.
pub data Check (IsGood : Text → Type 0) : Bool → Result ReadSizedObjectError Content → Type 0 where
  absent : Check IsGood false (err (read_failed object_not_found))
  present : (x : Text) → IsGood x → Check IsGood true (ok (some x))

or_false : (b : Bool) → (b || false) ≡ b
or_false true = refl
or_false false = refl

module _ (s : Service) (id bytes : Text) where
  abbrev pub IsSignature : Text → Type 0
  IsSignature x = (s.verifier x ≡ true) × ((verify_reader s x (some bytes)).1 ≡ true)

  abbrev pub IsDigest : (Text → Text) → Text → Type 0
  IsDigest hash x = (length x ≡ hash_len) × (hash bytes ≡ x)

  -- The checks that are stored, each of them good, or absent.
  pub record IsGenuine (signed blake3 sha256 : Bool) : Type 0 where
    pub signature :
        Check IsSignature signed
          (s.check_object (with_extension id (text "sig")) max_pgp_signature_length)
    pub blake3_digest :
        Check
          (IsDigest s.blake3)
          blake3
          (s.check_object (with_extension id (text "blake3")) hash_len)
    pub sha256_digest :
        Check
          (IsDigest s.sha256)
          sha256
          (s.check_object (with_extension id (text "sha256")) hash_len)

  -- A block that accepts the backup, or leaves it to the rest.
  data Gives (intact : Bool) : Bool → Stage × VerificationReport → Type 0 where
    accepts :
        {r : VerificationReport}
        → r.is_intact ≡ true
        → Gives intact true (returns (ok (some bytes)), r)
    passes : {r : VerificationReport} → r.is_intact ≡ intact → Gives intact false (breaks, r)

  on_signature-Gives :
      (r : VerificationReport) (signed : Bool) (c : Result ReadSizedObjectError Content)
      → Check IsSignature signed c
      → Gives r.is_intact signed (on_signature s (some bytes) r c)
  unfolding on_signature verify_signature
  on_signature-Gives r _ _ absent = passes refl
  on_signature-Gives r _ _ (present x (parsed, verified)) = rw (parsed, verified) (accepts refl)

  on_digest-Gives :
      (hash : Text → Text) (r : VerificationReport) (found : Bool)
      (c : Result ReadSizedObjectError Content)
      → Check (IsDigest hash) found c
      → Gives r.is_intact found (on_digest hash (some bytes) r c)
  unfolding on_digest verify_digest
  on_digest-Gives hash r _ _ absent = passes refl
  on_digest-Gives hash r _ _ (present x (l, h)) =
      let sized : (length x == hash_len) ≡ true = ground arith in
      let equal : same (hash bytes) x ≡ true = rw h (same_refl x) in
      rw (sized, equal) (accepts refl)

  from_intact :
      {i j accepted : Bool} {x : Stage × VerificationReport}
      → i ≡ j
      → Gives i accepted x
      → Gives j accepted x
  from_intact {accepted = a} {x} e g = subst (λ i. Gives i a x) e g

  -- What is decided in the end: `e` is the error if no block accepts.
  abbrev Ends : (intact accepted : Bool) → VerificationError → Outcome → Type 0
  Ends intact accepted e o =
      (o.0 ≡ (if accepted then ok (some bytes) else err e)) × (o.1.is_intact ≡ (accepted || intact))

  then_stage-Ends :
      (intact a b : Bool) (e : VerificationError) (x : Stage × VerificationReport)
      (rest : VerificationReport → Outcome)
      → Gives intact a x
      → ((r : VerificationReport) → r.is_intact ≡ intact → Ends intact b e (rest r))
      → Ends intact (a || b) e (then_stage x rest)
  unfolding then_stage
  then_stage-Ends intact _ b e _ rest (accepts h) k = (refl, h)
  then_stage-Ends intact _ b e _ rest (passes {r = r} h) k = k r h

  -- The checks of which one must be there: a signature under a configured key, or else a digest that is
  -- enabled, where signing is not mandatory.
  abbrev pub is_accepted : (signed blake3 sha256 : Bool) → Bool
  is_accepted signed blake3 sha256 =
      (s.has_pgp && signed)
      || (not s.is_signing_mandatory
          && ((s.blake3_enabled && blake3) || (s.sha2_enabled && sha256)))

  abbrev pub refusal : VerificationError
  refusal = if s.is_signing_mandatory then backup_not_signed else other_error

  module _ (signed blake3 sha256 : Bool) (g : IsGenuine signed blake3 sha256) where
    pgp_sig-Gives :
        (r : VerificationReport)
        → Gives r.is_intact (s.has_pgp && signed) (pgp_sig s id (some bytes) r)
    unfolding pgp_sig
    pgp_sig-Gives r = elim (Bool-cases s.has_pgp) [
      | inl p ↦ simp p (on_signature-Gives r signed _ g.signature)
      | inr p ↦ simp p (passes refl)
    ]

    blake3_check-Gives :
        (r : VerificationReport)
        → Gives r.is_intact (s.blake3_enabled && blake3) (blake3_check s id (some bytes) r)
    unfolding blake3_check
    blake3_check-Gives r = elim (Bool-cases s.blake3_enabled) [
      | inl p ↦ simp p (on_digest-Gives s.blake3 r blake3 _ g.blake3_digest)
      | inr p ↦ simp p (passes refl)
    ]

    sha256_check-Gives :
        (r : VerificationReport)
        → Gives r.is_intact (s.sha2_enabled && sha256) (sha256_check s id (some bytes) r)
    unfolding sha256_check
    sha256_check-Gives r = elim (Bool-cases s.sha2_enabled) [
      | inl p ↦ simp p (on_digest-Gives s.sha256 r sha256 _ g.sha256_digest)
      | inr p ↦ simp p (passes refl)
    ]

    check_digests-Ends :
        (intact : Bool) (r : VerificationReport)
        → r.is_intact ≡ intact
        → Ends intact
            (not s.is_signing_mandatory
              && ((s.blake3_enabled && blake3) || (s.sha2_enabled && sha256)))
            refusal
            (check_digests s id (some bytes) r)
    unfolding check_digests
    check_digests-Ends intact r h = elim (Bool-cases s.is_signing_mandatory) [
      | inl p ↦ simp p (refl, h)
      | inr p ↦ simp p (
          then_stage-Ends intact _ _ other_error _ _ (from_intact h (blake3_check-Gives r))
            (λ r' h'.
              subst
                (λ b.
                  Ends intact b other_error (
                    then_stage (sha256_check s id (some bytes) r') (λ r''. (err other_error, r''))))
                (or_false (s.sha2_enabled && sha256))
                (then_stage-Ends intact _ false other_error _ _
                  (from_intact h' (sha256_check-Gives r')) (λ r'' h''. (refl, h'')))))
    ]

    -- Where a backup is stored with checks that are all its own, or absent, the integrity check accepts
    -- it exactly if there is one that counts: a signature, if a key is configured, or where signing is
    -- not mandatory a digest that is enabled. It is then reported intact. Otherwise the report says of
    -- that what it said before, and the error is whether a signature is missing or any check.
    pub download-is_accepted :
        (r : VerificationReport)
        → s.backup id ≡ ok (some bytes)
        → ((download_backup_and_check_integrity s id r).0
            ≡ (if is_accepted signed blake3 sha256 then ok (some bytes) else err refusal))
          × ((download_backup_and_check_integrity s id r).1.is_intact
              ≡ (is_accepted signed blake3 sha256 || r.is_intact))
    unfolding download_backup_and_check_integrity on_backup
    download-is_accepted r stored = rw stored (
        then_stage-Ends r.is_intact _ _ refusal _ _ (pgp_sig-Gives r)
          (check_digests-Ends r.is_intact))
