-- ===== src/Backup/Cache/Reader/Leftover.antt =====
-- What a read that fails at the store leaves behind.
use prose_pod_server.Common.{
  ◌≡◌, refl, ◌∙◌, ap, Bool, true, false, none, some, List, [], ◌∷◌, Text, same, same_refl, All,
  if◌then◌else◌,
}
use prose_pod_server.Backup.Cache.{CacheEntry}
use prose_pod_server.Backup.Store.{ReadObjectError, other, Result, err}
use prose_pod_server.Backup.Cache.Reader.{
  Files, CachedFiles, contents_at, join_path, find_cached, on_reader, open_new, on_cached,
  cached_reader,
}

-- No entry of the cache has the key.
abbrev pub IsUncached : Text → List CacheEntry → Type 0
IsUncached key = All (λ e. same e.key key ≡ false)

find_cached-none :
    (key : Text) (es : List CacheEntry) (files : Files)
    → IsUncached key es
    → find_cached key es files ≡ none
unfolding find_cached
find_cached-none key [] files h = refl
find_cached-none key (e ∷ es) files h = rw (h.0, find_cached-none key es files h.1) refl

module _ {R : Type 0} (creatable : Text → Bool) (cache_dir key : Text) (s : CachedFiles) where
  -- A read of an object that is not cached, whose file is not there and can be created, and that
  -- fails at the store leaves the file behind: whatever the store answers then, the next read of
  -- the object is an error, and changes nothing.
  pub cached_reader-leftover :
      (reader reader' : Text → Result ReadObjectError R) (e : ReadObjectError)
      → IsUncached key s.cached.entries
      → contents_at (join_path cache_dir key) s.files ≡ none
      → creatable (join_path cache_dir key) ≡ true
      → reader key ≡ err e
      → (s' : CachedFiles) × (cached_reader reader creatable cache_dir key s ≡ (err e, s'))
        × (cached_reader reader' creatable cache_dir key s' ≡ (err other, s'))
  unfolding cached_reader on_cached open_new on_reader contents_at
  cached_reader-leftover reader reader' e uncached absent may_create fails =
      let path = join_path cache_dir key in
      let s' : CachedFiles = record s { files = (path, []) ∷ s.files } in
      (
        s',
        ap (on_cached reader key path (creatable path) s)
              (find_cached-none key s.cached.entries s.files uncached)
            ∙ ap (open_new reader key path (creatable path) s) absent
            ∙ ap (λ b. if b then on_reader key path s' (reader key) else (err other, s)) may_create
            ∙ ap (on_reader key path s') fails,
        ap (on_cached reader' key path (creatable path) s')
              (find_cached-none key s.cached.entries s'.files uncached)
            ∙ ap
                (λ b.
                  open_new reader' key path (creatable path) s'
                    (if b then some [] else contents_at path s.files))
                (same_refl path),
      )
