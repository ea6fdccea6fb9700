-- ===== src/Backup/Decryption.antt =====
-- The search for a key that decrypts a backup: `PgpDecryptionHelper::decrypt`
-- (api/crates/backup/src/decryption.rs) and `lookup_secret_key` (api/crates/backup/src/pgp.rs).
-- OpenPGP is a parameter. A release build is modelled: a packet without a recipient is only logged.
pub mod Unlocked
mod Tests
use prose_pod_server.Common.{
  Bool, true, false, Option, none, some, List, [], ◌∷◌, Text, not, if◌then◌else◌,
}

-- What is called of OpenPGP, with the configured passphrases and the callback of the decryptor.
-- `candidates` are the keys of a certificate that are valid at the date of the backup, supported,
-- alive, not revoked, made for encryption at rest and have a secret part.
pub record Pgp : Type 1 where
  pub Pkesk : Type 0
  pub Cert : Type 0
  pub Key : Type 0
  pub Keypair : Type 0
  pub SessionKey : Type 0
  pub recipient : Pkesk → Option Text
  pub is_tsk : Cert → Bool
  pub candidates : Cert → List Key
  pub has_handle : Text → Key → Bool
  pub is_encrypted : Key → Bool
  pub into_keypair : Key → Option Keypair
  pub decrypt_secret : Key → Text → Option Key
  pub key_fingerprint : Key → Text
  pub cert_fingerprint : Cert → Text
  pub decrypt_pkesk : Pkesk → Keypair → Option SessionKey
  pub accepts : SessionKey → Bool
  pub passphrases : Text → Option Text

-- What a pass over the recipients ends with: a certificate and its key, an error, or nothing.
pub data Pass (C K : Type 0) : Type 0 where
  found : C → K → Pass C K
  aborted : Pass C K
  exhausted : Pass C K

infixl 5 ◌>>=◌
abbrev pub ◌>>=◌ : {A B : Type 0} → Option A → (A → Option B) → Option B
none >>= f = none
some a >>= f = f a

module _ (pgp : Pgp) where
  open pgp use {Pkesk, Cert, Key, Keypair}

  unfoldable pub find_key : Text → List Key → Option Key
  find_key handle [] = none
  find_key handle (k ∷ ks) =
      let rest = find_key handle ks in if pgp.has_handle handle k then some k else rest

  -- The keys of the first certificate that has the recipient's, or the lookup in the others.
  abbrev pub or_else : Cert → Option (Cert × Key) → Option Key → Option (Cert × Key)
  or_else cert rest none = rest
  or_else cert rest (some k) = some (cert, k)

  unfoldable pub lookup_secret_key : Text → List Cert → Option (Cert × Key)
  lookup_secret_key handle [] = none
  lookup_secret_key handle (c ∷ cs) =
      let rest = lookup_secret_key handle cs in
      if pgp.is_tsk c then or_else c rest (find_key handle (pgp.candidates c)) else rest

  abbrev pub Recipient : Type 0
  Recipient = Pkesk × Cert × Key

  abbrev pub recipient_key : List Cert → Pkesk → Option (Cert × Key)
  recipient_key tsks p = do handle ← pgp.recipient p; lookup_secret_key handle tsks

  abbrev pub recipient_onto : Pkesk → List Recipient → Option (Cert × Key) → List Recipient
  recipient_onto p rest none = rest
  recipient_onto p rest (some (c, k)) = (p, c, k) ∷ rest

  unfoldable pub recipients : List Cert → List Pkesk → List Recipient
  recipients tsks [] = []
  recipients tsks (p ∷ ps) = recipient_onto p (recipients tsks ps) (recipient_key tsks p)

  abbrev pub session_accepted : Option pgp.SessionKey → Bool
  session_accepted none = false
  session_accepted (some sk) = pgp.accepts sk

  -- `pkesk.decrypt(…).map(decrypt).unwrap_or(false)`
  abbrev pub opens : Pkesk → Keypair → Bool
  opens p kp = session_accepted (pgp.decrypt_pkesk p kp)

  abbrev pub opens_with : Pkesk → Option Keypair → Bool
  opens_with p none = false
  opens_with p (some kp) = opens p kp

  -- A recipient of the first pass whose key is not encrypted.
  unfoldable pub try_plain : Recipient → Pass Cert Key → Option Keypair → Pass Cert Key
  try_plain (p, c, k) rest none = aborted
  try_plain (p, c, k) rest (some kp) = if opens p kp then found c k else rest

  unfoldable pub first_pass : List Recipient → Pass Cert Key
  first_pass [] = exhausted
  first_pass ((p, c, k) ∷ rs) =
      let rest = first_pass rs in
      if pgp.is_encrypted k then rest else try_plain (p, c, k) rest (pgp.into_keypair k)

  -- The keypair that the passphrase for a fingerprint gives.
  abbrev pub unlock : Key → Text → Option Keypair
  unlock k fingerprint = do
    passphrase ← pgp.passphrases fingerprint
    decrypted ← pgp.decrypt_secret k passphrase
    pgp.into_keypair decrypted

  unfoldable pub second_pass : List Recipient → Pass Cert Key
  second_pass [] = exhausted
  second_pass ((p, c, k) ∷ rs) =
      let rest = second_pass rs in
      if not (pgp.is_encrypted k)
      then rest
      else if opens_with p (unlock k (pgp.key_fingerprint k))
      then found c k
      else if opens_with p (unlock k (pgp.cert_fingerprint c))
      then found c k
      else rest

  unfoldable pub on_first : Pass Cert Key → Pass Cert Key → Pass Cert Key
  on_first (found c k) second = found c k
  on_first aborted second = aborted
  on_first exhausted second = second

  -- `exhausted` is the error that no key matches.
  unfoldable pub decrypt : List Cert → List Pkesk → Pass Cert Key
  decrypt tsks pkesks = let rs = recipients tsks pkesks in on_first (first_pass rs) (second_pass rs)
