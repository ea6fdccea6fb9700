-- ===== src/Backup/Cache/Reader/Source.antt =====
-- Where the bytes of a successful read come from.
use prose_pod_server.Common.{
  ◌≡◌, refl, sym, ◌∙◌, ap, Bool, true, false, Option, none, some, List, [], ◌∷◌, Text, same, ◌⊎◌,
  inl, inr, Bool-cases,
}
use prose_pod_server.Common.Members.{IsIn}
use prose_pod_server.Backup.Cache.{CacheEntry}
use prose_pod_server.Backup.Store.{ReadObjectError, Result, ok, err, panicked}
use prose_pod_server.Backup.Cache.Reader.{
  Files, CachedFiles, CachedReader, caching, in_cache, contents_at, join_path, with_path,
  find_cached, on_reader, open_new, on_cached, cached_reader,
}

-- An entry of the cache has the key, and its file these bytes.
abbrev pub IsCached : Text → List CacheEntry → Files → Text → Text → Type 0
IsCached key es files bytes path =
    (e : CacheEntry) × IsIn e es
    × (same e.key key ≡ true)
    × (e.path ≡ path)
    × (contents_at path files ≡ some bytes)

with_path-some :
    (path p bytes : Text) (o : Option Text)
    → with_path path o ≡ some (bytes, p)
    → (o ≡ some bytes) × (path ≡ p)
with_path-some path p bytes none h = cc
with_path-some path p bytes (some b) h = (cc, cc)

find_cached-IsCached :
    (key : Text) (es : List CacheEntry) (files : Files) (bytes path : Text)
    → find_cached key es files ≡ some (bytes, path)
    → IsCached key es files bytes path
unfolding find_cached
find_cached-IsCached key [] files bytes path h = cc
find_cached-IsCached key (e ∷ es) files bytes path h = elim (Bool-cases (same e.key key)) [
  | inl hit ↦
      let (there, same_path) =
        with_path-some e.path path bytes (contents_at e.path files) (simp hit at h) in
      (e, inl refl, hit, same_path, ap (λ p. contents_at p files) (sym same_path) ∙ there)
  | inr miss ↦
      let (e', i, k, p, c) = find_cached-IsCached key es files bytes path (simp miss at h) in
      (e', inr i, k, p, c)
]

module _ {R : Type 0} where
  -- A reader that fills a new file with what the store gives.
  abbrev pub IsCaching :
      (Text → Result ReadObjectError R)
      → Text
      → Text
      → CachedFiles
      → CachedReader R
      → CachedFiles
      → Type 0
  IsCaching reader key path s out s' =
      (r : R) × (reader key ≡ ok r)
      × (out ≡ caching r key path)
      × (contents_at path s.files ≡ none)
      × (s' ≡ record s { files = (path, []) ∷ s.files })

  -- A reader of the file of an entry, which changes nothing.
  abbrev pub IsReading : Text → CachedFiles → CachedReader R → CachedFiles → Type 0
  IsReading key s out s' =
      (bytes : Text) × (path : Text) × (out ≡ in_cache bytes path)
      × (s' ≡ s)
      × IsCached key s.cached.entries s.files bytes path

  on_reader-ok :
      (key path : Text) (s s' : CachedFiles) (r : Result ReadObjectError R) (out : CachedReader R)
      → on_reader key path s r ≡ (ok out, s')
      → (a : R) × (r ≡ ok a) × (out ≡ caching a key path) × (s' ≡ s)
  unfolding on_reader
  on_reader-ok key path s s' (ok a) out h = (a, refl, cc, cc)
  on_reader-ok key path s s' (err e) out h = cc
  on_reader-ok key path s s' panicked out h = cc

  module _ (reader : Text → Result ReadObjectError R) where
    open_new-ok :
        (key path : Text) (may : Bool) (s s' : CachedFiles) (o : Option Text) (out : CachedReader R)
        → contents_at path s.files ≡ o
        → open_new reader key path may s o ≡ (ok out, s')
        → IsCaching reader key path s out s'
    unfolding open_new
    open_new-ok key path may s s' (some bytes) out e h = cc
    open_new-ok key path true s s' none out e h =
        let (a, got, same_out, same_s) =
          on_reader-ok key path (record s { files = (path, []) ∷ s.files }) s' (reader key) out h in
        (a, got, same_out, e, same_s)
    open_new-ok key path false s s' none out e h = cc

    on_cached-ok :
        (key path : Text) (may : Bool) (s s' : CachedFiles) (o : Option (Text × Text))
        (out : CachedReader R)
        → find_cached key s.cached.entries s.files ≡ o
        → on_cached reader key path may s o ≡ (ok out, s')
        → IsReading key s out s' ⊎ IsCaching reader key path s out s'
    unfolding on_cached
    on_cached-ok key path may s s' (some (bytes, p)) out e h =
        inl (bytes, p, cc, cc, find_cached-IsCached key s.cached.entries s.files bytes p e)
    on_cached-ok key path may s s' none out e h =
        inr (open_new-ok key path may s s' (contents_at path s.files) out refl h)

    -- A successful read through the cache either reads the file of an entry of that key and
    -- changes nothing, or reads the object of that key from the store, into a file that was not
    -- there before.
    pub cached_reader-ok :
        (creatable : Text → Bool) (cache_dir key : Text) (s s' : CachedFiles) (out : CachedReader R)
        → cached_reader reader creatable cache_dir key s ≡ (ok out, s')
        → IsReading key s out s' ⊎ IsCaching reader key (join_path cache_dir key) s out s'
    unfolding cached_reader
    cached_reader-ok creatable cache_dir key s s' out h =
        on_cached-ok key (join_path cache_dir key) (creatable (join_path cache_dir key)) s s'
          (find_cached key s.cached.entries s.files) out refl h
