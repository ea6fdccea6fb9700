-- ===== src/Api/Secrets/Tokens.antt =====
-- Getting a token, from the cache or by logging in.
use prose_pod_server.Common.{
  ◌==◌, ap, ◌≡◌, refl, false, Bool-cases, Option, none, some, Option-cases, List, Text, same,
  same→eq, inl, inr, sym, ◌∙◌, subst,
}
use prose_pod_server.Common.Results.{Result, ok, err}
use prose_pod_server.Api.Secrets.{
  lookup, put, DelayQueue, Cache, SecretsStore, SecretsError, value, get, insert, get_password,
  save_token, with_login, with_username, get_token,
}
use prose_pod_server.Api.Secrets.Passwords.{
  lookup-put, lookup-put_other, IsDelayQueue, IsConsistent,
}

module _ {d : DelayQueue} (w : IsDelayQueue d) where
  -- What the cache holds after the token of `k` is stored
  pub record Holds (k token : Text) (c c' : Cache d) : Type 0 where
    pub held : get k c' ≡ some token
    pub kept : (l : Text) → same l k ≡ false → get l c' ≡ get l c
    pub consistent : IsConsistent w c'

  newest :
      {k l : Text} (r : d.Key × d.Queue) (v x : Text) (u : d.Key)
      (es : List (Text × (Text × d.Key)))
      → k ≡ l
      → w.Waits r.1 r.0 k
      → lookup l (put k (v, r.0) es) ≡ some (x, u)
      → w.Waits r.1 u l
  newest {k} {l} r v x u es p h e =
      let f : lookup l (put k (v, r.0) es) ≡ some (v, r.0) =
        subst (λ z. lookup z (put k (v, r.0) es) ≡ some (v, r.0)) p (lookup-put k (v, r.0) es) in
      let q : r.0 ≡ u = cc in subst (λ z. w.Waits r.1 z l) q (subst (λ z. w.Waits r.1 r.0 z) p h)

  pub insert-Holds :
      (k token : Text) (c : Cache d)
      → (c.ttl == 0) ≡ false
      → IsConsistent w c
      → Holds k token c (insert k token c).1
  unfolding insert get
  insert-Holds k token c n h = rw n (record {
    held = ap value (lookup-put k _ c.entries);
    kept = λ l m. ap value (lookup-put_other k l _ c.entries m);
    consistent = λ l x u e. elim (Bool-cases (same l k)) [
      | inl y ↦
          newest (d.insert k c.ttl c.expirations) token x u c.entries (sym (same→eq l k y))
            (w.insert-Waits k c.ttl c.expirations) e
      | inr m ↦
          w.insert_keeps k l c.ttl c.expirations u
            (h l x u (sym (lookup-put_other k l _ c.entries m) ∙ e))
    ];
  })

  -- What `get_token` gives: the token that is cached, or else that of a login with the password of
  -- the user, which is cached.
  pub data Gets (node : Text → Option Text) (log_in : Text → Text → Option Text) (k : Text)
      (s : SecretsStore d) : Result SecretsError Text × SecretsStore d → Type 0 where
    cached : {token : Text} → get k s.tokens_cache ≡ some token → Gets node log_in k s (ok token, s)
    logged_in :
        {token : Text} {s' : SecretsStore d} (username password : Text)
        → get k s.tokens_cache ≡ none
        → node k ≡ some username
        → lookup k s.passwords ≡ some password
        → log_in username password ≡ some token
        → s'.passwords ≡ s.passwords
        → Holds k token s.tokens_cache s'.tokens_cache
        → Gets node log_in k s (ok token, s')
    failed : {e : SecretsError} → get k s.tokens_cache ≡ none → Gets node log_in k s (err e, s)

  module _ (node : Text → Option Text) (log_in : Text → Text → Option Text) (k : Text)
      (s : SecretsStore d) (n : (s.tokens_cache.ttl == 0) ≡ false)
      (h : IsConsistent w s.tokens_cache) (absent : get k s.tokens_cache ≡ none) where
    with_login-Gets :
        (username password : Text) (t : Option Text)
        → node k ≡ some username
        → lookup k s.passwords ≡ some password
        → log_in username password ≡ t
        → Gets node log_in k s (with_login k s t)
    unfolding save_token
    with_login-Gets username password none p q r = failed absent
    with_login-Gets username password (some token) p q r =
        let holds = insert-Holds k token s.tokens_cache n h in
        rw (holds.held) (logged_in username password absent p q r refl holds)

    with_username-Gets :
        (username : Option Text)
        → node k ≡ username
        → Gets node log_in k s (with_username k log_in s username)
    unfolding get_password
    with_username-Gets none p = failed absent
    with_username-Gets (some username) p = elim (Option-cases (lookup k s.passwords)) [
      | inl q ↦ rw q (failed absent)
      | inr (password, q) ↦ rw q (with_login-Gets username password _ p q refl)
    ]

-- Where the time to live is not zero and the cache is consistent, getting a token does not panic. It
-- gives the cached token, or else one of a login with the stored password, which is then cached,
-- the tokens of others kept and the cache consistent; or it fails and changes nothing.
pub get_token-Gets :
    {d : DelayQueue} (w : IsDelayQueue d) (node : Text → Option Text)
    (log_in : Text → Text → Option Text) (k : Text) (s : SecretsStore d)
    → (s.tokens_cache.ttl == 0) ≡ false
    → IsConsistent w s.tokens_cache
    → Gets w node log_in k s (get_token node log_in k s)
unfolding get_token
get_token-Gets w node log_in k s n h = elim (Option-cases (get k s.tokens_cache)) [
  | inl p ↦ rw p (with_username-Gets w node log_in k s n h p (node k) refl)
  | inr (token, p) ↦ rw p (cached p)
]
