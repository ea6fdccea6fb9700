-- ===== src/Backup/Decryption/Tests.antt =====
-- A backup for two recipients, the second of whom has a key with a passphrase.
use prose_pod_server.Common.{
  ◌≡◌, refl, true, Option, none, some, List, [], ◌∷◌, Text, text, same, text_dec, if◌then◌else◌,
}
use prose_pod_server.Common.Members.{IsIn}
use prose_pod_server.Backup.Decryption.{
  Pgp, find_key, lookup_secret_key, recipients, try_plain, first_pass, second_pass, on_first,
  decrypt,
}
use prose_pod_server.Backup.Decryption.Unlocked.{IsKey, Unlocks, decrypt-Unlocks}

-- A packet is its recipient, a certificate is its only key, and the fingerprint of a certificate is not
-- that of its key.
abbrev keyring : Pgp
keyring = record {
  Pkesk = Text;
  Cert = Text;
  Key = Text;
  Keypair = Text;
  SessionKey = Text;
  recipient = λ p. some p;
  is_tsk = λ c. true;
  candidates = λ c. c ∷ [];
  has_handle = λ handle k. same handle k;
  is_encrypted = λ k. same k (text "locked");
  into_keypair = λ k. some k;
  decrypt_secret =
      λ k passphrase. if same passphrase (text "secret") then some (text "open") else none;
  key_fingerprint = λ k. k;
  cert_fingerprint = λ c. text "CERT";
  decrypt_pkesk = λ p kp. some kp;
  accepts = λ sk. same sk (text "open");
  passphrases =
      λ fingerprint. if same fingerprint (text "CERT") then some (text "secret") else none;
}

abbrev certificates : List Text
certificates = text "other" ∷ text "locked" ∷ []

decrypt-Unlocks_example :
    (p : Text) × (handle : Text) × IsIn p (text "other" ∷ text "locked" ∷ [])
    × (◌≡◌ {A = Option Text} (some p) (some handle))
    × IsKey keyring handle certificates (text "locked") (text "locked")
    × Unlocks keyring p (text "locked") (text "locked")
unfolding decrypt recipients lookup_secret_key find_key first_pass second_pass try_plain on_first
    text_dec
decrypt-Unlocks_example =
    decrypt-Unlocks keyring certificates (text "other" ∷ text "locked" ∷ []) (text "locked")
      (text "locked") refl
