-- ===== src/Backup/Cache/Invariant.antt =====
-- What `StoreCache` keeps: the recorded size is that of the entries, no key stands twice, and the
-- configured maximum is respected.
use Prim.Native.Nat.add
use prose_pod_server.Common.{
  ℕ, suc, ◌+◌, ◌-◌, ◌≤◌, ◌<◌, ◌≡◌, refl, sym, true, false, Option, none, some, List, [], ◌∷◌, ◌++◌,
  Text, same, same_sym, arith, u64_mod, keep, not, inl, inr, Bool-cases, ltb,
}
use prose_pod_server.Backup.Cache.{
  CacheEntry, StoreCache, has_key, purge, push_back, cache, indices, remove_at, remove_all, remove,
}

abbrev pub sizes : List CacheEntry → ℕ
sizes [] = 0
sizes (e ∷ es) = e.size + sizes es

abbrev pub NodupKeys : List CacheEntry → Type 0
NodupKeys [] = Unit
NodupKeys (e ∷ es) = (has_key e.key es ≡ false) × NodupKeys es

abbrev pub IsWithin : Option ℕ → ℕ → Type 0
IsWithin none total = Unit
IsWithin (some max_size) total = total ≤ max_size

pub record IsConsistent (max_size : Option ℕ) (c : StoreCache) : Type 0 where
  pub counted : c.total_size ≡ sizes c.entries
  pub distinct : NodupKeys c.entries
  pub within : IsWithin max_size c.total_size

-- No sum of sizes reaches 2⁶⁴: twice the maximum fits, or the sum does where there is no maximum.
abbrev pub HasRoom : Option ℕ → StoreCache → ℕ → Type 0
HasRoom none c size = c.total_size + size < u64_mod
HasRoom (some max_size) c size = max_size + max_size < u64_mod

sizes-append : (xs ys : List CacheEntry) → sizes (xs ++ ys) ≡ sizes xs + sizes ys
sizes-append [] ys = omega arith
sizes-append (x ∷ xs) ys = omega (arith, sizes-append xs ys)

has_key-append :
    (key : Text) (xs : List CacheEntry) (e : CacheEntry)
    → has_key key xs ≡ false
    → same e.key key ≡ false
    → has_key key (xs ++ e ∷ []) ≡ false
has_key-append key [] e h k = ground arith
has_key-append key (x ∷ xs) e h k = ground (arith, has_key-append key xs e)

NodupKeys-append :
    (xs : List CacheEntry) (e : CacheEntry)
    → NodupKeys xs
    → has_key e.key xs ≡ false
    → NodupKeys (xs ++ e ∷ [])
NodupKeys-append [] e u h = (refl, tt)
NodupKeys-append (x ∷ xs) e u h =
    ground (arith, NodupKeys-append xs e, has_key-append x.key xs e, same_sym e.key x.key)

-- After the purge the counter is right, and the new object fits.
purge_fits :
    (m s : ℕ) (es : List CacheEntry) (t : ℕ)
    → t ≡ sizes es
    → t ≤ m
    → s ≤ m
    → m + m < u64_mod
    → ((purge m s es t).total_size ≡ sizes (purge m s es t).entries)
      × ((purge m s es t).total_size + s ≤ m)
unfolding purge
purge_fits m s [] t h b c d = ground arith
purge_fits m s (e ∷ es) t h b c d = ground (arith, purge_fits m s es (t - e.size))

purge-has_key :
    (m s : ℕ) (es : List CacheEntry) (t : ℕ) (key : Text)
    → has_key key es ≡ false
    → has_key key (purge m s es t).entries ≡ false
unfolding purge
purge-has_key m s [] t key h = refl
purge-has_key m s (e ∷ es) t key h = ground (arith, purge-has_key m s es (t - e.size) key)

purge-NodupKeys :
    (m s : ℕ) (es : List CacheEntry) (t : ℕ) → NodupKeys es → NodupKeys (purge m s es t).entries
unfolding purge
purge-NodupKeys m s [] t h = tt
purge-NodupKeys m s (e ∷ es) t h = ground (arith, purge-NodupKeys m s es (t - e.size))

push_back-IsConsistent :
    (max_size : Option ℕ) (e : CacheEntry) (c : StoreCache)
    → c.total_size ≡ sizes c.entries
    → NodupKeys c.entries
    → has_key e.key c.entries ≡ false
    → c.total_size + e.size < u64_mod
    → IsWithin max_size (c.total_size + e.size)
    → IsConsistent max_size (push_back e c)
unfolding push_back
push_back-IsConsistent none e c h u f o w = record {
  counted = omega (arith, sizes-append c.entries (e ∷ []));
  distinct = NodupKeys-append c.entries e u f;
  within = tt;
}
push_back-IsConsistent (some m) e c h u f o w = record {
  counted = omega (arith, sizes-append c.entries (e ∷ []));
  distinct = NodupKeys-append c.entries e u f;
  within = omega arith;
}

cache_bounded :
    (m : ℕ) (e : CacheEntry) (c : StoreCache)
    → IsConsistent (some m) c
    → m + m < u64_mod
    → has_key e.key c.entries ≡ false
    → e.size ≤ m
    → IsConsistent (some m) (push_back e (purge m e.size c.entries c.total_size))
cache_bounded m e c v r new fits =
    push_back-IsConsistent (some m) e (purge m e.size c.entries c.total_size) purged.0
      (purge-NodupKeys m e.size c.entries c.total_size v.distinct)
      (purge-has_key m e.size c.entries c.total_size e.key new) (omega (arith, purged.1)) purged.1
  where
    purged :
        ((purge m e.size c.entries c.total_size).total_size
          ≡ sizes (purge m e.size c.entries c.total_size).entries)
        × ((purge m e.size c.entries c.total_size).total_size + e.size ≤ m)
    purged = purge_fits m e.size c.entries c.total_size v.counted v.within fits r

-- A consistent cache is consistent after `cache`, whether the object was stored, too large or
-- already there, as long as no sum of sizes reaches 2⁶⁴.
pub cache-IsConsistent :
    (max_size : Option ℕ) (e : CacheEntry) (c : StoreCache)
    → IsConsistent max_size c
    → HasRoom max_size c e.size
    → IsConsistent max_size (cache max_size e c)
unfolding cache
cache-IsConsistent none e c v r = elim (Bool-cases (has_key e.key c.entries)) [
  | inl old ↦ rw old v
  | inr new ↦ rw new (push_back-IsConsistent none e c v.counted v.distinct new r tt)
]
cache-IsConsistent (some m) e c v r = elim (Bool-cases (has_key e.key c.entries)) [
  | inl old ↦ rw old v
  | inr new ↦ rw new (elim (Bool-cases (ltb m e.size)) [
    | inl big ↦ rw big v
    | inr fits ↦ rw fits (cache_bounded m e c v r new (ground arith))
  ])
]

abbrev pub without : Text → List CacheEntry → List CacheEntry
without key = keep (λ e. not (same e.key key))

indices-none :
    (key : Text) (n : ℕ) (es : List CacheEntry) → has_key key es ≡ false → indices key n es ≡ []
unfolding indices
indices-none key n [] h = refl
indices-none key n (e ∷ es) h = ground (arith, indices-none key (n + 1) es)

without-none : (key : Text) (es : List CacheEntry) → has_key key es ≡ false → without key es ≡ es
without-none key [] h = refl
without-none key (e ∷ es) h = ground (arith, without-none key es)

-- Where no key stands twice, the first loop of `remove` finds one position, which the second one
-- deletes.
indices-one :
    (key : Text) (n : ℕ) (es : List CacheEntry)
    → NodupKeys es
    → has_key key es ≡ true
    → (i : ℕ) × (s : ℕ) × (indices key n es ≡ (n + i, s) ∷ [])
      × (remove_at i es ≡ without key es)
      × (sizes es ≡ s + sizes (without key es))
unfolding indices remove_at
indices-one key n [] u h = cc
indices-one key n (e ∷ es) u h = elim (Bool-cases (same e.key key)) [
  | inl hit ↦ (
    0,
    e.size,
    ground (arith, indices-none key (n + 1) es),
    ground (arith, without-none key es),
    ground (arith, without-none key es),
  )
  | inr miss ↦
      let (i, s, p, q, r) = indices-one key (n + 1) es u.1 (ground arith) in
      (suc i, s, ground arith, ground arith, ground arith)
]

has_key-without :
    (key k : Text) (es : List CacheEntry)
    → has_key k es ≡ false
    → has_key k (without key es) ≡ false
has_key-without key k [] h = refl
has_key-without key k (e ∷ es) h = ground (arith, has_key-without key k es)

NodupKeys-without : (key : Text) (es : List CacheEntry) → NodupKeys es → NodupKeys (without key es)
NodupKeys-without key [] u = tt
NodupKeys-without key (e ∷ es) u =
    ground (arith, NodupKeys-without key es, has_key-without key e.key es)

IsWithin-sub : (max_size : Option ℕ) (t s : ℕ) → IsWithin max_size t → IsWithin max_size (t - s)
IsWithin-sub none t s h = tt
IsWithin-sub (some m) t s h = omega arith

removed :
    (max_size : Option ℕ) (key : Text) (c : StoreCache) (i s : ℕ)
    → IsConsistent max_size c
    → remove_at i c.entries ≡ without key c.entries
    → sizes c.entries ≡ s + sizes (without key c.entries)
    → ((remove_all ((i, s) ∷ []) c).entries ≡ without key c.entries)
      × IsConsistent max_size (remove_all ((i, s) ∷ []) c)
unfolding remove_all
removed max_size key c i s v q r = rw q (
  refl,
  record {
    counted = omega (arith, v.counted);
    distinct = NodupKeys-without key c.entries v.distinct;
    within = IsWithin-sub max_size c.total_size s v.within;
  },
)

-- From a consistent cache `remove` deletes exactly the entries of the key, though it removes by
-- positions and sizes that were read beforehand, and the cache stays consistent.
pub remove-without :
    (max_size : Option ℕ) (key : Text) (c : StoreCache)
    → IsConsistent max_size c
    → ((remove key c).entries ≡ without key c.entries) × IsConsistent max_size (remove key c)
unfolding remove
remove-without max_size key c v = elim (Bool-cases (has_key key c.entries)) [
  | inl found ↦
      let (i, s, p, q, r) = indices-one key 0 c.entries v.distinct found in
      rw p (removed max_size key c (0 + i) s v (rw add.zero q) r)
  | inr missing ↦
      rw (indices-none key 0 c.entries missing) (sym (without-none key c.entries missing), v)
]
