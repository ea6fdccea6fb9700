-- ===== src/Backup/Cache/Reader.antt =====
-- Reading through the cache: `CachedStore::cached_reader` (api/crates/backup/src/stores/cache.rs) and
-- the files that it reads and creates. A file is its path and its bytes.
pub mod Leftover
pub mod Source
mod Tests
use prose_pod_server.Common.{
  Bool, true, false, Option, none, some, List, [], ◌∷◌, ◌++◌, Text, text, same, starts_with, not,
  ◌&&◌, if◌then◌else◌,
}
use prose_pod_server.Backup.Cache.{CacheEntry, StoreCache}
use prose_pod_server.Backup.Store.{ReadObjectError, other, Result, ok, err, panicked}

abbrev pub Files : Type 0
Files = List (Text × Text)

unfoldable pub contents_at : Text → Files → Option Text
contents_at path [] = none
contents_at path ((p, bytes) ∷ fs) = if same p path then some bytes else contents_at path fs

pub record CachedFiles : Type 0 where
  pub cached : StoreCache
  pub files : Files

-- `Caching` has the store's reader, `Cached` the bytes of the file.
pub data CachedReader (R : Type 0) : Type 0 where
  caching : R → Text → Text → CachedReader R
  in_cache : Text → Text → CachedReader R

-- `PathBuf::join`, of a directory whose path does not end in a slash.
unfoldable pub join_path : Text → Text → Text
join_path dir key = if starts_with key (text "/") then key else dir ++ b'/' ∷ key

abbrev pub with_path : Text → Option Text → Option (Text × Text)
with_path path none = none
with_path path (some bytes) = some (bytes, path)

-- The entry that the loop returns: of the first one with the key, if its file opens. A file that is
-- there opens.
unfoldable pub find_cached : Text → List CacheEntry → Files → Option (Text × Text)
find_cached key [] files = none
find_cached key (e ∷ es) files =
    let rest = find_cached key es files in
    if same e.key key then with_path e.path (contents_at e.path files) else rest

module _ {R : Type 0} where
  -- The answer of the store, with the file of the object created.
  unfoldable pub on_reader :
      Text
      → Text
      → CachedFiles
      → Result ReadObjectError R
      → Result ReadObjectError (CachedReader R) × CachedFiles
  on_reader key path s (ok r) = (ok (caching r key path), s)
  on_reader key path s (err e) = (err e, s)
  on_reader key path s panicked = (panicked, s)

  -- Without a file in the cache: `create_new`, then the store's reader.
  unfoldable pub open_new :
      (Text → Result ReadObjectError R)
      → Text
      → Text
      → Bool
      → CachedFiles
      → Option Text
      → Result ReadObjectError (CachedReader R) × CachedFiles
  open_new reader key path creatable s (some bytes) = (err other, s)
  open_new reader key path creatable s none =
      if creatable
      then on_reader key path (record s { files = (path, []) ∷ s.files }) (reader key)
      else (err other, s)

  unfoldable pub on_cached :
      (Text → Result ReadObjectError R)
      → Text
      → Text
      → Bool
      → CachedFiles
      → Option (Text × Text)
      → Result ReadObjectError (CachedReader R) × CachedFiles
  on_cached reader key path creatable s (some (bytes, p)) = (ok (in_cache bytes p), s)
  on_cached reader key path creatable s none =
      open_new reader key path creatable s (contents_at path s.files)

  -- `creatable` says whether the directory lets a file of that path be created.
  unfoldable pub cached_reader :
      (Text → Result ReadObjectError R)
      → (Text → Bool)
      → Text
      → Text
      → CachedFiles
      → Result ReadObjectError (CachedReader R) × CachedFiles
  cached_reader reader creatable cache_dir key s =
      let path = join_path cache_dir key in
      on_cached reader key path (creatable path) s (find_cached key s.cached.entries s.files)
