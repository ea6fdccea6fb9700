-- ===== src/Backup/Decryption/Unlocked.antt =====
-- A key that decrypts was found among the certificates and opens a packet of the backup.
use prose_pod_server.Common.{
  ◌≡◌, refl, sym, ◌∙◌, ap, true, false, Option, none, some, List, [], ◌∷◌, Text, ◌⊎◌, inl, inr,
  Bool-cases,
}
use prose_pod_server.Common.Members.{IsIn}
use prose_pod_server.Backup.Decryption.{
  Pgp, Pass, found, aborted, exhausted, find_key, or_else, lookup_secret_key, Recipient,
  recipient_key, recipient_onto, recipients, opens, opens_with, try_plain, first_pass, unlock,
  second_pass, on_first, decrypt, ◌>>=◌,
}

module _ (pgp : Pgp) where
  open pgp use {Pkesk, Cert, Key, Keypair}

  find_key-IsIn :
      (handle : Text) (ks : List Key) (k : Key)
      → find_key pgp handle ks ≡ some k
      → IsIn k ks × (pgp.has_handle handle k ≡ true)
  unfolding find_key
  find_key-IsIn handle [] k h = cc
  find_key-IsIn handle (x ∷ ks) k h = elim (Bool-cases (pgp.has_handle handle x)) [
    | inl hit ↦
        let e : some x ≡ some k = simp hit at h in
        let e' : x ≡ k = cc in (inl (sym e'), ap (pgp.has_handle handle) (sym e') ∙ hit)
    | inr miss ↦ let (i, t) = find_key-IsIn handle ks k (simp miss at h) in (inr i, t)
  ]

  -- A secret key of a certificate among `tsks`, for the handle.
  abbrev pub IsKey : Text → List Cert → Cert → Key → Type 0
  IsKey handle tsks c k =
      IsIn c tsks
      × (pgp.is_tsk c ≡ true)
      × IsIn k (pgp.candidates c)
      × (pgp.has_handle handle k ≡ true)

  or_else-cases :
      (x c : Cert) (k : Key) (rest : Option (Cert × Key)) (o : Option Key)
      → or_else pgp x rest o ≡ some (c, k)
      → ((x ≡ c) × (o ≡ some k)) ⊎ (rest ≡ some (c, k))
  or_else-cases x c k rest none h = inr h
  or_else-cases x c k rest (some k') h = inl (cc, cc)

  lookup-IsKey :
      (handle : Text) (tsks : List Cert) (c : Cert) (k : Key)
      → lookup_secret_key pgp handle tsks ≡ some (c, k)
      → IsKey handle tsks c k
  unfolding lookup_secret_key
  lookup-IsKey handle [] c k h = cc
  lookup-IsKey handle (x ∷ cs) c k h = elim (Bool-cases (pgp.is_tsk x)) [
    | inl tsk ↦
        elim (or_else-cases x c k (lookup_secret_key pgp handle cs)
          (find_key pgp handle (pgp.candidates x)) (simp tsk at h)) [
            | inl (same_cert, e) ↦
                let (i, t) = find_key-IsIn handle (pgp.candidates x) k e in
                rw (← same_cert) (inl refl, tsk, i, t)
            | inr e ↦ let (i, t, j, m) = lookup-IsKey handle cs c k e in (inr i, t, j, m)
          ]
    | inr no_tsk ↦
        let (i, t, j, m) = lookup-IsKey handle cs c k (simp no_tsk at h) in (inr i, t, j, m)
  ]

  recipient_onto-IsIn :
      (p' p : Pkesk) (c : Cert) (k : Key) (rest : List (Recipient pgp)) (o : Option (Cert × Key))
      → IsIn (p, c, k) (recipient_onto pgp p' rest o)
      → ((p ≡ p') × (o ≡ some (c, k))) ⊎ IsIn (p, c, k) rest
  recipient_onto-IsIn p' p c k rest none i = inr i
  recipient_onto-IsIn p' p c k rest (some (c', k')) (inl e) =
      inl (ap (λ r. r.0) e, sym (ap (λ r. some (r.1, r.2)) e))
  recipient_onto-IsIn p' p c k rest (some (c', k')) (inr i) = inr i

  recipients-IsIn :
      (tsks : List Cert) (ps : List Pkesk) (p : Pkesk) (c : Cert) (k : Key)
      → IsIn (p, c, k) (recipients pgp tsks ps)
      → IsIn p ps × (recipient_key pgp tsks p ≡ some (c, k))
  unfolding recipients
  recipients-IsIn tsks [] p c k i = absurd i
  recipients-IsIn tsks (p' ∷ ps) p c k i =
      elim (recipient_onto-IsIn p' p c k (recipients pgp tsks ps) (recipient_key pgp tsks p') i) [
        | inl (e, o) ↦ (inl e, ap (recipient_key pgp tsks) e ∙ o)
        | inr j ↦ let (l, o) = recipients-IsIn tsks ps p c k j in (inr l, o)
      ]

  recipient_key-handle :
      (tsks : List Cert) (c : Cert) (k : Key) (o : Option Text)
      → (o >>= (λ handle. lookup_secret_key pgp handle tsks)) ≡ some (c, k)
      → (handle : Text) × (o ≡ some handle) × (lookup_secret_key pgp handle tsks ≡ some (c, k))
  recipient_key-handle tsks c k none h = cc
  recipient_key-handle tsks c k (some handle) h = (handle, refl, h)

  -- The secret part of the key, as it is or unlocked by the passphrase for one of the two
  -- fingerprints, opens the packet with a session key that the decryptor accepts.
  abbrev pub Unlocks : Pkesk → Cert → Key → Type 0
  Unlocks p c k =
      ((pgp.is_encrypted k ≡ false) × (opens_with pgp p (pgp.into_keypair k) ≡ true))
      ⊎ ((pgp.is_encrypted k ≡ true)
          × ((opens_with pgp p (unlock pgp k (pgp.key_fingerprint k)) ≡ true)
              ⊎ (opens_with pgp p (unlock pgp k (pgp.cert_fingerprint c)) ≡ true)))

  abbrev Found : List (Recipient pgp) → Cert → Key → Type 0
  Found rs c k = (p : Pkesk) × IsIn (p, c, k) rs × Unlocks p c k

  later :
      (r : Recipient pgp) (rs : List (Recipient pgp)) (c : Cert) (k : Key)
      → Found rs c k
      → Found (r ∷ rs) c k
  later r rs c k (p, i, u) = (p, inr i, u)

  here :
      (p : Pkesk) (x c : Cert) (y k : Key) (rs : List (Recipient pgp))
      → Unlocks p x y
      → ◌≡◌ {A = Pass Cert Key} (found x y) (found c k)
      → Found ((p, x, y) ∷ rs) c k
  here p x c y k rs u e =
      let same_cert : x ≡ c = cc in
      let same_key : y ≡ k = cc in rw (← same_cert, ← same_key) (p, inl refl, u)

  try_plain-found :
      (p : Pkesk) (x c : Cert) (y k : Key) (rest : Pass Cert Key) (o : Option Keypair)
      → try_plain pgp (p, x, y) rest o ≡ found c k
      → ((opens_with pgp p o ≡ true) × (◌≡◌ {A = Pass Cert Key} (found x y) (found c k)))
        ⊎ (rest ≡ found c k)
  unfolding try_plain
  try_plain-found p x c y k rest none h = cc
  try_plain-found p x c y k rest (some kp) h = elim (Bool-cases (opens pgp p kp)) [
    | inl open_it ↦ inl (open_it, simp open_it at h)
    | inr shut ↦ inr (simp shut at h)
  ]

  first_pass-Found :
      (rs : List (Recipient pgp)) (c : Cert) (k : Key)
      → first_pass pgp rs ≡ found c k
      → Found rs c k
  unfolding first_pass
  first_pass-Found [] c k h = cc
  first_pass-Found ((p, x, y) ∷ rs) c k h = elim (Bool-cases (pgp.is_encrypted y)) [
    | inl enc ↦ later (p, x, y) rs c k (first_pass-Found rs c k (simp enc at h))
    | inr plain ↦
        elim (try_plain-found p x c y k (first_pass pgp rs) (pgp.into_keypair y)
          (simp plain at h)) [
            | inl (opened, e) ↦ here p x c y k rs (inl (plain, opened)) e
            | inr e ↦ later (p, x, y) rs c k (first_pass-Found rs c k e)
          ]
  ]

  second_pass-Found :
      (rs : List (Recipient pgp)) (c : Cert) (k : Key)
      → second_pass pgp rs ≡ found c k
      → Found rs c k
  unfolding second_pass
  second_pass-Found [] c k h = cc
  second_pass-Found ((p, x, y) ∷ rs) c k h = elim (Bool-cases (pgp.is_encrypted y)) [
    | inr plain ↦ later (p, x, y) rs c k (second_pass-Found rs c k (simp plain at h))
    | inl enc ↦ elim (Bool-cases (opens_with pgp p (unlock pgp y (pgp.key_fingerprint y)))) [
      | inl by_key ↦ here p x c y k rs (inr (enc, inl by_key)) (simp (enc, by_key) at h)
      | inr not_key ↦ elim (Bool-cases (opens_with pgp p (unlock pgp y (pgp.cert_fingerprint x)))) [
        | inl by_cert ↦
            here p x c y k rs (inr (enc, inr by_cert)) (simp (enc, not_key, by_cert) at h)
        | inr not_cert ↦
            later (p, x, y) rs c k (second_pass-Found rs c k (simp (enc, not_key, not_cert) at h))
      ]
    ]
  ]

  on_first-Found :
      (rs : List (Recipient pgp)) (c : Cert) (k : Key) (first : Pass Cert Key)
      → first_pass pgp rs ≡ first
      → on_first pgp first (second_pass pgp rs) ≡ found c k
      → Found rs c k
  unfolding on_first
  on_first-Found rs c k (found x y) e h = first_pass-Found rs c k (e ∙ h)
  on_first-Found rs c k aborted e h = cc
  on_first-Found rs c k exhausted e h = second_pass-Found rs c k h

  -- The key that decrypts a backup is a secret key of one of the certificates, valid for the recipient
  -- of one of its packets, and it opens that packet: as it is, or with the passphrase for its own or
  -- its certificate's fingerprint.
  pub decrypt-Unlocks :
      (tsks : List Cert) (pkesks : List Pkesk) (c : Cert) (k : Key)
      → decrypt pgp tsks pkesks ≡ found c k
      → (p : Pkesk) × (handle : Text) × IsIn p pkesks
        × (pgp.recipient p ≡ some handle)
        × IsKey handle tsks c k
        × Unlocks p c k
  unfolding decrypt
  decrypt-Unlocks tsks pkesks c k h =
      let rs = recipients pgp tsks pkesks in
      let (p, i, u) = on_first-Found rs c k (first_pass pgp rs) refl h in
      let (j, e) = recipients-IsIn tsks pkesks p c k i in
      let (handle, r, l) = recipient_key-handle tsks c k (pgp.recipient p) e in
      (p, handle, j, r, lookup-IsKey handle tsks c k l, u)
