-- ===== src/Backup/Cache/Tests.antt =====
-- A cache of at most ten bytes that holds two objects.
use prose_pod_server.Common.{ℕ, ◌≡◌, refl, Option, some, List, [], ◌∷◌, ◌++◌, text, arith, text_dec}
use prose_pod_server.Backup.Cache.{CacheEntry, StoreCache, cache, remove, purge, push_back}
use prose_pod_server.Backup.Cache.Invariant.{
  IsConsistent, cache-IsConsistent, remove-without, without,
}
use prose_pod_server.Backup.Cache.Eviction.{Needed, find, cache_evicts}

abbrev first : CacheEntry
first = record { key = text "a"; path = text "/c/a"; size = 4 }

abbrev second : CacheEntry
second = record { key = text "b"; path = text "/c/b"; size = 5 }

abbrev third : CacheEntry
third = record { key = text "c"; path = text "/c/c"; size = 3 }

abbrev two_objects : StoreCache
two_objects = record { entries = first ∷ second ∷ []; total_size = 9 }

abbrev ten : Option ℕ
ten = some 10

two_objects-IsConsistent : IsConsistent ten two_objects
unfolding text_dec
two_objects-IsConsistent = record {
  counted = refl;
  distinct = (refl, (refl, tt));
  within = omega arith;
}

cache-third : cache ten third two_objects ≡ record { entries = second ∷ third ∷ []; total_size = 8 }
unfolding cache purge push_back text_dec
cache-third = refl

cache-IsConsistent_example : IsConsistent ten (cache ten third two_objects)
cache-IsConsistent_example =
    cache-IsConsistent ten third two_objects two_objects-IsConsistent (omega arith)

remove-without_test :
    ((remove (text "a") two_objects).entries ≡ without (text "a") two_objects.entries)
    × IsConsistent ten (remove (text "a") two_objects)
remove-without_test = remove-without ten (text "a") two_objects two_objects-IsConsistent

cache_evicts_example :
    (gone : List CacheEntry) × (kept : List CacheEntry) × (two_objects.entries ≡ gone ++ kept)
    × ((cache ten third two_objects).entries ≡ kept ++ third ∷ [])
    × Needed 10 3 gone kept
    × (find (text "c") (cache ten third two_objects).entries ≡ some third)
unfolding text_dec
cache_evicts_example =
    cache_evicts 10 third two_objects two_objects-IsConsistent (omega arith) refl (omega arith)
