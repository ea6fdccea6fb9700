-- ===== src/Api/Secrets/Passwords.antt =====
-- Setting a password.
use prose_pod_server.Common.{
  ℕ, ap, if◌then◌else◌, ◌≡◌, ◌≢◌, refl, Bool, false, Bool-cases, true, Option, none, some,
  Option-cases, List, [], ◌∷◌, Text, same, same_refl, same→eq, inl, inr, sym, ◌∙◌,
}
use prose_pod_server.Common.Results.{Result, ok, err}
use prose_pod_server.Api.Secrets.{
  lookup, without, put, DelayQueue, Cache, SecretsStore, SecretsError, not_revoked, value, get,
  remove, on_previous, set_password,
}

none-ne-some : {A : Type 0} {a : A} → none ≢ some a
none-ne-some h = cc

some_injective : {a b : Text} → ◌≡◌ {A = Option Text} (some a) (some b) → a ≡ b
some_injective h = cc

module _ {V : Type 0} where
  lookup-without : (k : Text) (es : List (Text × V)) → lookup k (without k es) ≡ none
  unfolding lookup without
  lookup-without k [] = refl
  lookup-without k ((l, v) ∷ es) = elim (Bool-cases (same k l)) [
    | inl p ↦ rw p (lookup-without k es)
    | inr p ↦ rw (p, p) (lookup-without k es)
  ]

  pub lookup-put : (k : Text) (v : V) (es : List (Text × V)) → lookup k (put k v es) ≡ some v
  unfolding lookup put
  lookup-put k v es = rw (same_refl k) refl

  pub lookup-without_other :
      (k l : Text) (es : List (Text × V)) → same l k ≡ false → lookup l (without k es) ≡ lookup l es
  unfolding lookup without
  lookup-without_other k l [] h = refl
  lookup-without_other k l ((m, v) ∷ es) h = elim (Bool-cases (same k m)) [
    | inl p ↦ rw (p, sym (same→eq k m p), h) (lookup-without_other k l es h)
    | inr p ↦ rw p (ap (λ z. if same l m then some v else z) (lookup-without_other k l es h))
  ]

  pub lookup-put_other :
      (k l : Text) (v : V) (es : List (Text × V))
      → same l k ≡ false
      → lookup l (put k v es) ≡ lookup l es
  unfolding lookup put
  lookup-put_other k l v es h = rw h (lookup-without_other k l es h)

-- What the cache relies on: an inserted key waits in the queue, under the text it was inserted with,
-- until it is removed, and to remove a key that waits does not panic.
pub record IsDelayQueue (d : DelayQueue) : Type 1 where
  pub Waits : d.Queue → d.Key → Text → Type 0
  pub insert-Waits :
      (k : Text) (ttl : ℕ) (q : d.Queue) → Waits (d.insert k ttl q).1 (d.insert k ttl q).0 k
  pub insert_keeps :
      (k l : Text) (ttl : ℕ) (q : d.Queue) (u : d.Key)
      → Waits q u l
      → Waits (d.insert k ttl q).1 u l
  pub remove-some :
      (k : Text) (q : d.Queue) (t : d.Key) → Waits q t k → (q' : d.Queue) × (d.remove t q ≡ some q')
  pub remove_keeps :
      (k l : Text) (q q' : d.Queue) (t u : d.Key)
      → Waits q t k
      → Waits q u l
      → same l k ≡ false
      → d.remove t q ≡ some q'
      → Waits q' u l

module _ {d : DelayQueue} (w : IsDelayQueue d) where
  -- Each entry of the cache has its key in the queue.
  abbrev pub IsConsistent : Cache d → Type 0
  IsConsistent c =
      (k v : Text) (t : d.Key) → lookup k c.entries ≡ some (v, t) → w.Waits c.expirations t k

  -- What has become of the token of `k` in a cache: it is gone, and those of others are kept.
  pub record Forgets (k : Text) (c c' : Cache d) : Type 0 where
    pub gone : get k c' ≡ none
    pub kept : (l : Text) → same l k ≡ false → get l c' ≡ get l c
    pub consistent : IsConsistent c'

  pub data Removes (k : Text) (c : Cache d)
      : Option Text → Result SecretsError (Option Text × Cache d) → Type 0 where
    removes :
        {token : Option Text} (c' : Cache d) → Forgets k c c' → Removes k c token (ok (token, c'))

  expired-Forgets :
      (k v : Text) (t : d.Key) (c : Cache d) (q : d.Queue)
      → IsConsistent c
      → lookup k c.entries ≡ some (v, t)
      → d.remove t c.expirations ≡ some q
      → Forgets k c (record { entries = without k c.entries; expirations = q; ttl = c.ttl })
  unfolding get
  expired-Forgets k v t c q h p r = record {
    gone = rw (lookup-without k c.entries) refl;
    kept = λ l n. ap value (lookup-without_other k l c.entries n);
    consistent = λ l x u e. elim (Bool-cases (same l k)) [
      | inl y ↦ absurd (
          none-ne-some (
            sym (lookup-without k c.entries)
            ∙ ap (λ z. lookup z (without k c.entries)) (sym (same→eq l k y))
            ∙ e))
      | inr n ↦
          w.remove_keeps k l c.expirations q t u (h k v t p)
            (h l x u (sym (lookup-without_other k l c.entries n) ∙ e)) n r
    ];
  }

  remove-Removes : (k : Text) (c : Cache d) → IsConsistent c → Removes k c (get k c) (remove k c)
  unfolding remove get
  remove-Removes k c h = elim (Option-cases (lookup k c.entries)) [
    | inl p ↦ rw p (removes c (record { gone = rw p refl; kept = λ l n. refl; consistent = h }))
    | inr ((v, t), p) ↦
        let (q, r) = w.remove-some k c.expirations t (h k v t p) in
        rw (p, r) (removes _ (expired-Forgets k v t c q h p r))
  ]

  -- What `set_password` has done: the password is replaced, or the token could not be revoked and
  -- it is not.
  pub data Sets (k password : Text) (revoke : Text → Bool) (s : SecretsStore d)
      : Result {0, 0} SecretsError Unit × SecretsStore d → Type 0 where
    set :
        {s' : SecretsStore d}
        → lookup k s'.passwords ≡ some password
        → ((l : Text) → same l k ≡ false → lookup l s'.passwords ≡ lookup l s.passwords)
        → ((token : Text) → get k s.tokens_cache ≡ some token → revoke token ≡ true)
        → Forgets k s.tokens_cache s'.tokens_cache
        → Sets k password revoke s (ok tt, s')
    refused :
        {s' : SecretsStore d} (token : Text)
        → get k s.tokens_cache ≡ some token
        → revoke token ≡ false
        → s'.passwords ≡ s.passwords
        → Forgets k s.tokens_cache s'.tokens_cache
        → Sets k password revoke s (err not_revoked, s')

  on_previous-Sets :
      (k password : Text) (revoke : Text → Bool) (s : SecretsStore d) (token : Option Text)
      (r : Result SecretsError (Option Text × Cache d))
      → get k s.tokens_cache ≡ token
      → Removes k s.tokens_cache token r
      → Sets k password revoke s (on_previous k password revoke s r)
  on_previous-Sets k password revoke s none _ e (removes c f) =
      set (lookup-put k password s.passwords) (λ l n. lookup-put_other k l password s.passwords n)
        (λ t h. absurd (none-ne-some (sym e ∙ h))) f
  on_previous-Sets k password revoke s (some token) _ e (removes c f) =
      elim (Bool-cases (revoke token)) [
        | inl p ↦ rw p (
            set (lookup-put k password s.passwords)
              (λ l n. lookup-put_other k l password s.passwords n)
              (λ t h. ap revoke (some_injective (sym h ∙ e)) ∙ p) f)
        | inr p ↦ rw p (refused token e p refl f)
      ]

-- Setting a password in a consistent store does not panic and leaves no token of the user in the
-- cache, the tokens of others kept and the cache consistent. If there was no token or revoking it
-- succeeds, the password is replaced, and those of others are kept; if revoking it fails, so does
-- the operation, and the passwords are as before.
pub set_password-Sets :
    {d : DelayQueue} (w : IsDelayQueue d) (k password : Text) (revoke : Text → Bool)
    (s : SecretsStore d)
    → IsConsistent w s.tokens_cache
    → Sets w k password revoke s (set_password k password revoke s)
unfolding set_password
set_password-Sets w k password revoke s h =
    on_previous-Sets w k password revoke s _ _ refl (remove-Removes w k s.tokens_cache h)
