-- ===== src/Api/Secrets/Tests.antt =====
-- The secrets, tried on a queue that is the test of what waits in it.
use prose_pod_server.Common.{
  ◌≡◌, refl, ap, sym, ◌∙◌, Bool, true, false, not, ◌&&◌, ◌||◌, Option, none, some, [], ◌∷◌, Text,
  text, same, same_refl, text_dec, if◌then◌else◌,
}
use prose_pod_server.Common.Results.{panicked}
use prose_pod_server.Api.Secrets.{
  DelayQueue, Cache, SecretsStore, lookup, without, put, get, insert, remove, get_password,
  save_token, get_token, set_password,
}
use prose_pod_server.Api.Secrets.Passwords.{IsDelayQueue, IsConsistent, Sets, set_password-Sets}
use prose_pod_server.Api.Secrets.Tokens.{insert-Holds, Gets, get_token-Gets}

abbrev queue : DelayQueue
queue = record {
  Queue = Text → Bool;
  Key = Text;
  insert = λ k ttl q. (k, λ l. same l k || q l);
  remove = λ t q. if q t then some (λ l. not (same l t) && q l) else none;
}

keeps : (a : Bool) {b : Bool} → b ≡ true → (a || b) ≡ true
keeps true h = refl
keeps false h = h

abbrev at : Text → Option (Text → Bool) → Bool
at l none = false
at l (some q) = q l

others :
    (q q' : Text → Bool) (t l : Text)
    → q t ≡ true
    → q l ≡ true
    → same l t ≡ false
    → queue.remove t q ≡ some q'
    → q' l ≡ true
others q q' t l h j n e = sym (ap (at l) e) ∙ rw (h, n, j) refl

queue-IsDelayQueue : IsDelayQueue queue
queue-IsDelayQueue = record {
  Waits = λ q t k. (t ≡ k) × (q k ≡ true);
  insert-Waits = λ k ttl q. (refl, rw (same_refl k) refl);
  insert_keeps = λ k l ttl q u h. (h.0, keeps (same l k) h.1);
  remove-some = λ k q t h. rw (ap q h.0 ∙ h.1) (_, refl);
  remove_keeps =
      λ k l q q' t u h j n e. (j.0, others q q' t l (ap q h.0 ∙ h.1) j.1 (ap (same l) h.0 ∙ n) e);
}

abbrev no_tokens : Cache queue
no_tokens = record { entries = []; expirations = λ _. false; ttl = 60 }

no_tokens-IsConsistent : IsConsistent queue-IsDelayQueue no_tokens
unfolding lookup
no_tokens-IsConsistent k v t h = cc

abbrev store : Cache queue → SecretsStore queue
store c = record { passwords = (text "alice", text "secret") ∷ []; tokens_cache = c }

-- The cache with a token of alice
abbrev one_token : Cache queue
one_token = (insert (text "alice") (text "token") no_tokens).1

abbrev node : Text → Option Text
node k = some k

abbrev log_in : Text → Text → Option Text
log_in username password = some (text "fresh")

-- The time to live of zero, that is used in tests, keeps nothing in the cache to be unwrapped.
zero_ttl_test :
    (get_token node log_in
      (text "alice")
      (store (record { entries = []; expirations = λ _. false; ttl = 0 }))).0
    ≡ panicked
unfolding get_token get get_password save_token insert lookup text_dec
zero_ttl_test = refl

set_password_test :
    (set_password (text "alice") (text "new") (λ _. true) (store one_token)).1.passwords
    ≡ (text "alice", text "new") ∷ []
unfolding set_password remove insert lookup without put text_dec
set_password_test = refl

set_password-Sets_example :
    Sets queue-IsDelayQueue
      (text "alice")
      (text "new")
      (λ _. true)
      (store one_token)
      (set_password (text "alice") (text "new") (λ _. true) (store one_token))
set_password-Sets_example =
    set_password-Sets queue-IsDelayQueue (text "alice") (text "new") (λ _. true) (store one_token)
      (insert-Holds queue-IsDelayQueue (text "alice") (text "token") no_tokens refl
        no_tokens-IsConsistent).consistent

get_token-Gets_example :
    Gets queue-IsDelayQueue node log_in
      (text "alice")
      (store no_tokens)
      (get_token node log_in (text "alice") (store no_tokens))
get_token-Gets_example =
    get_token-Gets queue-IsDelayQueue node log_in (text "alice") (store no_tokens) refl
      no_tokens-IsConsistent
