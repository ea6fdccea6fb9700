-- ===== src/Backup/Cache.antt =====
-- The cache of downloaded backups: `StoreCache`, `CachedStore::cache` and `CachedStore::remove`
-- (api/crates/backup/src/stores/cache.rs). A release build is modelled, in which
-- `debug_panic_or_log_error!` only logs. A `VecDeque` is a list, its front first.
pub mod Invariant
pub mod Eviction
pub mod Reader
mod Tests
use prose_pod_server.Common.{
  ℕ, zero, suc, ◌+◌, ◌-◌, Bool, Option, none, some, List, [], ◌∷◌, ◌++◌, Text, same, any, ltb,
  add_u64, if◌then◌else◌,
}

pub record CacheEntry : Type 0 where
  pub key : Text
  pub path : Text
  pub size : ℕ

pub record StoreCache : Type 0 where
  pub entries : List CacheEntry
  pub total_size : ℕ

abbrev pub has_key : Text → List CacheEntry → Bool
has_key key = any (λ e. same e.key key)

-- `while cache.total_size + size > max_size { pop_front … }`
unfoldable pub purge : ℕ → ℕ → List CacheEntry → ℕ → StoreCache
purge max_size size [] total = record {
  entries = [];
  total_size = if ltb max_size (add_u64 total size) then 0 else total;
}
purge max_size size (e ∷ es) total =
    if ltb max_size (add_u64 total size)
    then purge max_size size es (total - e.size)
    else record { entries = e ∷ es; total_size = total }

unfoldable pub push_back : CacheEntry → StoreCache → StoreCache
push_back e c = record { entries = c.entries ++ e ∷ []; total_size = add_u64 c.total_size e.size }

unfoldable pub make_space : Option ℕ → ℕ → StoreCache → Option StoreCache
unfolding purge
make_space none size c = some c
make_space (some max_size) size c =
    if ltb max_size size then none else some (purge max_size size c.entries c.total_size)

-- `CachedStore::cache`
unfoldable pub cache : Option ℕ → CacheEntry → StoreCache → StoreCache
unfolding make_space push_back
cache max_size e c =
    if has_key e.key c.entries
    then c
    else elim (make_space max_size e.size c) [ none ↦ c | some c' ↦ push_back e c' ]

-- The first loop of `CachedStore::remove`: positions and sizes of the entries of a key.
unfoldable pub indices : Text → ℕ → List CacheEntry → List (ℕ × ℕ)
indices key n [] = []
indices key n (e ∷ es) =
    if same e.key key then (n, e.size) ∷ indices key (n + 1) es else indices key (n + 1) es

-- `VecDeque::remove`, which does nothing out of range.
unfoldable pub remove_at : ℕ → List CacheEntry → List CacheEntry
remove_at i [] = []
remove_at zero (e ∷ es) = es
remove_at (suc i) (e ∷ es) = e ∷ remove_at i es

-- Its second loop.
unfoldable pub remove_all : List (ℕ × ℕ) → StoreCache → StoreCache
unfolding remove_at
remove_all [] c = c
remove_all ((i, size) ∷ rest) c =
    remove_all rest (record { entries = remove_at i c.entries; total_size = c.total_size - size })

-- `CachedStore::remove`
unfoldable pub remove : Text → StoreCache → StoreCache
unfolding indices remove_all
remove key c = remove_all (indices key 0 c.entries) c
