-- ===== src/Backup/Verify/Signatures.antt =====
-- The verdict on a detached OpenPGP signature: `PgpVerificationHelper::check`
-- (api/crates/backup/src/verification.rs). `Layer` and `SignatureResult` are the cases of
-- `MessageLayer` and of a verification result that the code tells apart.
use mathlib.Core.List.{append-nil, append_assoc}
use prose_pod_server.Common.{
  ℕ, ◌+◌, ◌≡◌, refl, sym, ◌∙◌, Bool, true, false, Option, none, some, List, [], ◌∷◌, ◌++◌, ◌&&◌,
  Text, All, arith,
}

pub data SignatureResult : Type 0 where
  good_checksum : Text → Text → SignatureResult
  missing_key : SignatureResult
  unbound_key : Text → SignatureResult
  bad_key : Text → Text → SignatureResult
  bad_signature : Text → Text → SignatureResult
  malformed_signature : SignatureResult
  unknown_error : SignatureResult

pub data Layer : Type 0 where
  signature_group : List SignatureResult → Layer
  compression encryption : Layer

pub record PgpSignatureReport : Type 0 where
  pub cert_fingerprint : Text
  pub subkey_fingerprint : Option Text
  pub is_valid : Bool

pub record PgpVerificationReport : Type 0 where
  pub known_signing_keys : List PgpSignatureReport
  pub rejected_signatures_count : ℕ

abbrev pub no_signatures : PgpVerificationReport
no_signatures = record { known_signing_keys = []; rejected_signatures_count = 0 }

abbrev push_key : PgpSignatureReport → PgpVerificationReport → PgpVerificationReport
push_key k r = record r { known_signing_keys = r.known_signing_keys ++ k ∷ [] }

abbrev reject : PgpVerificationReport → PgpVerificationReport
reject r = record r { rejected_signatures_count = r.rejected_signatures_count + 1 }

abbrev known : Text → Option Text → Bool → PgpSignatureReport
known cert subkey valid = record {
  cert_fingerprint = cert;
  subkey_fingerprint = subkey;
  is_valid = valid;
}

-- One result of a group. (The counter saturates at `usize::MAX`, far above the number of
-- signatures that 2 KiB can hold.)
unfoldable pub record_result : SignatureResult → PgpVerificationReport → PgpVerificationReport
record_result (good_checksum cert key) r = push_key (known cert (some key) true) r
record_result missing_key r = reject r
record_result (unbound_key cert) r = push_key (known cert none false) (reject r)
record_result (bad_key cert key) r = push_key (known cert (some key) false) (reject r)
record_result (bad_signature cert key) r = push_key (known cert (some key) false) (reject r)
record_result malformed_signature r = reject r
record_result unknown_error r = reject r

abbrev pub is_good : SignatureResult → Bool
is_good (good_checksum cert key) = true
is_good _ = false

-- The loop over a group: the report, and whether no error was collected.
unfoldable pub check_group :
    List SignatureResult → PgpVerificationReport → PgpVerificationReport × Bool
check_group [] r = (r, true)
check_group (s ∷ ss) r =
    let (r', good) = check_group ss (record_result s r) in (r', is_good s && good)

-- The layers after the first: every one is unexpected.
unfoldable pub check_rest : List Layer → Bool
check_rest [] = true
check_rest (l ∷ ls) = false

unfoldable pub check : List Layer → PgpVerificationReport → PgpVerificationReport × Bool
unfolding check_rest
check [] r = (r, true)
check (signature_group results ∷ ls) r =
    let (r', good) = check_group results r in (r', good && check_rest ls)
check (compression ∷ ls) r = (r, false)
check (encryption ∷ ls) r = (r, false)

abbrev key_of : SignatureResult → List PgpSignatureReport
key_of (good_checksum cert key) = known cert (some key) true ∷ []
key_of (unbound_key cert) = known cert none false ∷ []
key_of (bad_key cert key) = known cert (some key) false ∷ []
key_of (bad_signature cert key) = known cert (some key) false ∷ []
key_of _ = []

-- The keys of a group that are known, in its order.
abbrev pub keys_of : List SignatureResult → List PgpSignatureReport
keys_of [] = []
keys_of (s ∷ ss) = key_of s ++ keys_of ss

abbrev pub AllGood : List SignatureResult → Type 0
AllGood = All (λ s. is_good s ≡ true)

record_result-key_of :
    (s : SignatureResult) (r : PgpVerificationReport)
    → (record_result s r).known_signing_keys ≡ r.known_signing_keys ++ key_of s
unfolding record_result
record_result-key_of (good_checksum cert key) r = refl
record_result-key_of (unbound_key cert) r = refl
record_result-key_of (bad_key cert key) r = refl
record_result-key_of (bad_signature cert key) r = refl
record_result-key_of _ r = sym (append-nil r.known_signing_keys)

check_group-keys_of :
    (ss : List SignatureResult) (r : PgpVerificationReport)
    → (check_group ss r).0.known_signing_keys ≡ r.known_signing_keys ++ keys_of ss
unfolding check_group
check_group-keys_of [] r = sym (append-nil r.known_signing_keys)
check_group-keys_of (s ∷ ss) r =
    check_group-keys_of ss (record_result s r)
    ∙ rw record_result-key_of (append_assoc r.known_signing_keys (key_of s) (keys_of ss))

check_group-AllGood :
    (ss : List SignatureResult) (r : PgpVerificationReport)
    → (check_group ss r).1 ≡ true
    → AllGood ss
unfolding check_group
check_group-AllGood [] r h = tt
check_group-AllGood (s ∷ ss) r h = ground (arith, check_group-AllGood ss (record_result s r))

-- A message that has a layer is accepted only if that layer is a group of signatures, all of them
-- good, with nothing behind it; the keys reported are those of the group.
pub check-AllGood :
    (l : Layer) (ls : List Layer)
    → (check (l ∷ ls) no_signatures).1 ≡ true
    → (results : List SignatureResult) × (l ≡ signature_group results)
      × (ls ≡ [])
      × AllGood results
      × ((check (l ∷ ls) no_signatures).0.known_signing_keys ≡ keys_of results)
unfolding check
check-AllGood (signature_group results) [] h = (
  results,
  refl,
  refl,
  check_group-AllGood results no_signatures (ground arith),
  check_group-keys_of results no_signatures,
)
check-AllGood (signature_group results) (l ∷ ls) h = ground arith
check-AllGood compression ls h = cc
check-AllGood encryption ls h = cc
