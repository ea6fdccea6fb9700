-- ===== src/Backup/Cache/Reader/Tests.antt =====
-- A store that fails on the first request, and a cache that holds another object.
use prose_pod_server.Common.{◌≡◌, refl, Bool, true, [], ◌∷◌, Text, text, text_dec, starts_with, ◌⊎◌}
use prose_pod_server.Backup.Store.{ReadObjectError, other, object_not_found, Result, ok, err}
use prose_pod_server.Backup.Cache.Reader.{
  CachedFiles, in_cache, contents_at, join_path, find_cached, on_cached, cached_reader,
}
use prose_pod_server.Backup.Cache.Reader.Leftover.{cached_reader-leftover}
use prose_pod_server.Backup.Cache.Reader.Source.{IsReading, IsCaching, cached_reader-ok}

abbrev start : CachedFiles
start = record {
  cached = record {
    entries = record { key = text "a"; path = text "/c/a"; size = 1 } ∷ [];
    total_size = 1;
  };
  files = (text "/c/a", 7 ∷ []) ∷ [];
}

abbrev failing : Text → Result ReadObjectError Text
failing key = err object_not_found

abbrev working : Text → Result ReadObjectError Text
working key = ok (8 ∷ [])

abbrev anywhere : Text → Bool
anywhere path = true

cached_reader-leftover_example :
    (s' : CachedFiles) × (cached_reader failing anywhere (text "/c") (text "b") start
      ≡ (err object_not_found, s'))
    × (cached_reader working anywhere (text "/c") (text "b") s' ≡ (err other, s'))
unfolding join_path contents_at starts_with text_dec
cached_reader-leftover_example =
    cached_reader-leftover anywhere (text "/c") (text "b") start failing working object_not_found
      (refl, tt) refl refl refl

cached_reader-ok_test :
    IsReading {R = Text} (text "a") start (in_cache (7 ∷ []) (text "/c/a")) start
    ⊎ IsCaching working (text "a") (text "/c/a") start (in_cache (7 ∷ []) (text "/c/a")) start
unfolding cached_reader on_cached find_cached contents_at join_path starts_with text_dec
cached_reader-ok_test =
    cached_reader-ok working anywhere (text "/c") (text "a") start start
      (in_cache (7 ∷ []) (text "/c/a")) refl
