-- ===== src/Api/Secrets.antt =====
-- The secrets of service accounts: `Cache` (api/src/util/cache.rs), `SecretsStore`
-- (api/src/secrets_store.rs) and `SecretsService` (api/src/secrets_service.rs). A `HashMap` is a
-- list of pairs, and the queue of expirations, of the crate `tokio_util`, a parameter. The locks are
-- held over a whole operation.
pub mod Passwords
pub mod Tokens
mod Tests
use prose_pod_server.Common.{
  ℕ, Bool, Option, none, some, List, [], ◌∷◌, Text, same, ◌==◌, if◌then◌else◌,
}
use prose_pod_server.Common.Results.{Result, ok, err, panicked}

module _ {V : Type 0} where
  -- `HashMap::get`, `remove` and `insert`
  unfoldable pub lookup : Text → List (Text × V) → Option V
  lookup k [] = none
  lookup k ((l, v) ∷ es) = let rest = lookup k es in if same k l then some v else rest

  unfoldable pub without : Text → List (Text × V) → List (Text × V)
  without k [] = []
  without k ((l, v) ∷ es) = let rest = without k es in if same k l then rest else (l, v) ∷ rest

  unfoldable pub put : Text → V → List (Text × V) → List (Text × V)
  put k v es = (k, v) ∷ without k es

-- `tokio_util::time::DelayQueue`: `insert`, and `remove`, which panics where it is `none`
pub record DelayQueue : Type 1 where
  pub Queue : Type 0
  pub Key : Type 0
  pub insert : Text → ℕ → Queue → Key × Queue
  pub remove : Key → Queue → Option Queue

pub record Cache (d : DelayQueue) : Type 0 where
  pub entries : List (Text × (Text × d.Key))
  pub expirations : d.Queue
  pub ttl : ℕ

-- The passwords, and the cache of tokens
pub record SecretsStore (d : DelayQueue) : Type 0 where
  pub passwords : List (Text × Text)
  pub tokens_cache : Cache d

-- Any `anyhow::Error`
pub data SecretsError : Type 0 where
  no_localpart : SecretsError
  no_password : SecretsError
  not_logged_in : SecretsError
  not_revoked : SecretsError

-- The value of an entry, without its key
abbrev pub value {ℓ} : {K : Type ℓ} → Option (Text × K) → Option Text
value none = none
value (some (v, key)) = some v

abbrev pub stored : Option Text → Result SecretsError Text
stored none = err no_password
stored (some password) = ok password

module _ {d : DelayQueue} where
  unfoldable pub get : Text → Cache d → Option Text
  get k c = value (lookup k c.entries)

  abbrev pub inserted : Text → Text → Cache d → d.Key × d.Queue → Option Text × Cache d
  inserted k v c (delay, q) = (
    value (lookup k c.entries),
    record { entries = put k (v, delay) c.entries; expirations = q; ttl = c.ttl },
  )

  -- `Cache::insert`, which does nothing where the time to live is zero
  unfoldable pub insert : Text → Text → Cache d → Option Text × Cache d
  insert k v c = if c.ttl == 0 then (none, c) else inserted k v c (d.insert k c.ttl c.expirations)

  abbrev pub expired :
      Text → Text → Cache d → Option d.Queue → Result SecretsError (Option Text × Cache d)
  expired k v c none = panicked
  expired k v c (some q) =
      ok (some v, record { entries = without k c.entries; expirations = q; ttl = c.ttl })

  abbrev pub removed :
      Text → Cache d → Option (Text × d.Key) → Result SecretsError (Option Text × Cache d)
  removed k c none = ok (none, c)
  removed k c (some (v, key)) = expired k v c (d.remove key c.expirations)

  -- `Cache::remove`
  unfoldable pub remove : Text → Cache d → Result SecretsError (Option Text × Cache d)
  remove k c = removed k c (lookup k c.entries)

  unfoldable pub get_password : Text → SecretsStore d → Result SecretsError Text
  get_password jid s = stored (lookup jid s.passwords)

  -- The rest of `set_password`, the previous token being gone
  abbrev pub store_password :
      Text → Text → SecretsStore d → Cache d → Result {0, 0} SecretsError Unit × SecretsStore d
  store_password jid password s c =
      (ok tt, record { passwords = put jid password s.passwords; tokens_cache = c })

  abbrev pub revoked :
      Text
      → Text
      → SecretsStore d
      → Cache d
      → Bool
      → Result {0, 0} SecretsError Unit × SecretsStore d
  revoked jid password s c is_revoked =
      if is_revoked
      then store_password jid password s c
      else (err not_revoked, record { passwords = s.passwords; tokens_cache = c })

  abbrev pub on_previous :
      Text
      → Text
      → (Text → Bool)
      → SecretsStore d
      → Result SecretsError (Option Text × Cache d)
      → Result {0, 0} SecretsError Unit × SecretsStore d
  on_previous jid password revoke s (ok (none, c)) = store_password jid password s c
  on_previous jid password revoke s (ok (some token, c)) = revoked jid password s c (revoke token)
  on_previous jid password revoke s (err e) = (err e, s)
  on_previous jid password revoke s panicked = (panicked, s)

  -- `set_password`, with whether the revocation of a token succeeds
  unfoldable pub set_password :
      Text
      → Text
      → (Text → Bool)
      → SecretsStore d
      → Result {0, 0} SecretsError Unit × SecretsStore d
  set_password jid password revoke s = on_previous jid password revoke s (remove jid s.tokens_cache)

  unfoldable pub save_token : Text → Text → SecretsStore d → Option Text × SecretsStore d
  save_token jid token s =
      let (previous, c) = insert jid token s.tokens_cache in
      (previous, record { passwords = s.passwords; tokens_cache = c })

  -- The end of `get_token`, which unwraps what the cache holds
  abbrev pub unwrap_token : SecretsStore d → Option Text → Result SecretsError Text × SecretsStore d
  unwrap_token s none = (panicked, s)
  unwrap_token s (some token) = (ok token, s)

  abbrev pub with_login :
      Text → SecretsStore d → Option Text → Result SecretsError Text × SecretsStore d
  with_login jid s none = (err not_logged_in, s)
  with_login jid s (some token) =
      let (_, s') = save_token jid token s in unwrap_token s' (get jid s'.tokens_cache)

  abbrev pub with_password :
      Text
      → (Text → Option Text)
      → SecretsStore d
      → Result SecretsError Text
      → Result SecretsError Text × SecretsStore d
  with_password jid log_in s (ok password) = with_login jid s (log_in password)
  with_password jid log_in s (err e) = (err e, s)
  with_password jid log_in s panicked = (panicked, s)

  abbrev pub with_username :
      Text
      → (Text → Text → Option Text)
      → SecretsStore d
      → Option Text
      → Result SecretsError Text × SecretsStore d
  with_username jid log_in s none = (err no_localpart, s)
  with_username jid log_in s (some username) =
      with_password jid (log_in username) s (get_password jid s)

  abbrev pub or_login :
      SecretsStore d
      → Option Text
      → Result SecretsError Text × SecretsStore d
      → Result SecretsError Text × SecretsStore d
  or_login s none logged_in = logged_in
  or_login s (some token) logged_in = (ok token, s)

  -- `get_token`, with the localpart of a JID and the token that logging in gives
  unfoldable pub get_token :
      (Text → Option Text)
      → (Text → Text → Option Text)
      → Text
      → SecretsStore d
      → Result SecretsError Text × SecretsStore d
  get_token node log_in jid s =
      or_login s (get jid s.tokens_cache) (with_username jid log_in s (node jid))
