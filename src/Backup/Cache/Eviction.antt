-- ===== src/Backup/Cache/Eviction.antt =====
-- What `CachedStore::cache` throws out, and what a lookup finds afterwards.
use prose_pod_server.Common.{
  ℕ, ◌+◌, ◌-◌, ◌≤◌, ◌<◌, ◌≡◌, refl, ap, true, false, Option, none, some, List, [], ◌∷◌, ◌++◌, Text,
  same, ◌⊎◌, ◌∙◌, same_refl, arith, u64_mod, inl, inr, Bool-cases, ltb, add_u64, if◌then◌else◌,
}
use prose_pod_server.Backup.Cache.{CacheEntry, StoreCache, has_key, purge, cache}
use prose_pod_server.Backup.Cache.Invariant.{sizes, IsConsistent}

-- As long as entries of `gone` were left in front of `kept`, the object did not fit.
abbrev pub Needed : ℕ → ℕ → List CacheEntry → List CacheEntry → Type 0
Needed max_size size [] kept = Unit
Needed max_size size (g ∷ gone) kept =
    (max_size < g.size + sizes gone + sizes kept + size) × Needed max_size size gone kept

purge_split :
    (m s : ℕ) (es : List CacheEntry) (t : ℕ)
    → t ≡ sizes es
    → t ≤ m
    → s ≤ m
    → m + m < u64_mod
    → (gone : List CacheEntry) × (es ≡ gone ++ (purge m s es t).entries)
      × (sizes es ≡ sizes gone + sizes (purge m s es t).entries)
      × Needed m s gone (purge m s es t).entries
unfolding purge
purge_split m s [] t h b c d = ([], refl, omega arith, tt)
purge_split m s (e ∷ es) t h b c d = elim (Bool-cases (ltb m (add_u64 t s))) [
  | inl full ↦
      let (gone, p, q, r) = purge_split m s es (t - e.size) (omega arith) (omega arith) c d in
      rw full (e ∷ gone, ap (◌∷◌ e) p, omega arith, (ground arith, r))
  | inr fits ↦ rw fits ([], refl, omega arith, tt)
]

-- The entry that `cached_reader` finds: the first one with the key.
unfoldable pub find : Text → List CacheEntry → Option CacheEntry
find key [] = none
find key (e ∷ es) = if same e.key key then some e else find key es

find-append :
    (key : Text) (es : List CacheEntry) (e : CacheEntry)
    → has_key key es ≡ false
    → find key (es ++ e ∷ []) ≡ (if same e.key key then some e else none)
unfolding find
find-append key [] e h = refl
find-append key (x ∷ es) e h = ground (arith, find-append key es e)

has_key-suffix :
    (key : Text) (gone kept : List CacheEntry)
    → has_key key (gone ++ kept) ≡ false
    → has_key key kept ≡ false
has_key-suffix key [] kept h = h
has_key-suffix key (g ∷ gone) kept h = ground (arith, has_key-suffix key gone kept)

-- From a consistent cache whose maximum is below 2^63 bytes, so that no sum of sizes wraps, storing
-- a new object that is not larger than the maximum evicts the oldest entries only, each of them because without it the object still did not fit, and keeps the
-- others in their order with the object behind them, where the next lookup of its key finds it.
pub cache_evicts :
    (m : ℕ) (e : CacheEntry) (c : StoreCache)
    → IsConsistent (some m) c
    → m + m < u64_mod
    → has_key e.key c.entries ≡ false
    → e.size ≤ m
    → (gone : List CacheEntry) × (kept : List CacheEntry) × (c.entries ≡ gone ++ kept)
      × ((cache (some m) e c).entries ≡ kept ++ e ∷ [])
      × Needed m e.size gone kept
      × (find e.key (cache (some m) e c).entries ≡ some e)
unfolding cache
cache_evicts m e c v r new fits =
    let kept = (purge m e.size c.entries c.total_size).entries in
    let (gone, p, q, n) = purge_split m e.size c.entries c.total_size v.counted v.within fits r in
    let out : (cache (some m) e c).entries ≡ kept ++ e ∷ [] = ground arith in
    (
      gone,
      kept,
      p,
      out,
      n,
      rw out (
          find-append e.key kept e (has_key-suffix e.key gone kept (rw p at new))
          ∙ ground (arith, same_refl e.key)),
    )

-- An object larger than the maximum, or whose key is already cached, leaves the cache unchanged.
pub cache_refuses :
    (m : ℕ) (e : CacheEntry) (c : StoreCache)
    → (m < e.size) ⊎ (has_key e.key c.entries ≡ true)
    → cache (some m) e c ≡ c
unfolding cache
cache_refuses m e c h = ground arith
