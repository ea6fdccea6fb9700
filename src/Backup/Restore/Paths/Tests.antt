-- ===== src/Backup/Restore/Paths/Tests.antt =====
-- The mappings of the documentation of `map_path`, and an override of a part of a directory.
use prose_pod_server.Common.{◌≡◌, refl, none, some, List, [], ◌∷◌, All, text, strip_prefix, length}
use prose_pod_server.Common.Members.{IsIn}
use prose_pod_server.Backup.Store.{ok}
use prose_pod_server.Backup.Restore.Paths.{
  apply_migrations, map_path, find_destination, on_match, match_prefix, match_suffix, trim_slash,
  sort_by_len, insert_by_len,
}
use prose_pod_server.Backup.Restore.Paths.Order.{Mapping}
use prose_pod_server.Backup.Restore.Paths.Longest.{
  Lands, IsNoLonger, IsDifferent, map_path-Longest, map_path_unmapped,
}

abbrev mappings : List Mapping
mappings =
    (text "foo/", text "foo" ∷ text "lib" ∷ []) ∷ (text "foo/a", text "a" ∷ text "etc" ∷ []) ∷ []

map_path-documented :
    (map_path [] mappings (text "foo/bar") ≡ ok (text "bar", some (text "foo" ∷ text "lib" ∷ [])))
    × (map_path [] mappings (text "baz") ≡ ok (text "baz", none))
    × (map_path [] mappings (text "foobar") ≡ ok (text "foobar", none))
unfolding map_path apply_migrations find_destination on_match match_prefix match_suffix trim_slash
    strip_prefix
map_path-documented = (refl, refl, refl)

-- Where the whole path is mapped, the entry keeps its name and goes to the parent of the destination.
map_path-exact :
    map_path [] ((text "foo/bar", text "bar" ∷ text "foo" ∷ text "lib" ∷ []) ∷ []) (text "foo/bar")
    ≡ ok (text "bar", some (text "foo" ∷ text "lib" ∷ []))
unfolding map_path apply_migrations find_destination on_match match_prefix match_suffix trim_slash
    strip_prefix
map_path-exact = refl

map_path-Longest_example :
    (m : Mapping) × IsIn m mappings
    × Lands m (text "foo/a") (text "a") (text "etc" ∷ [])
    × All (IsNoLonger (text "foo/a") (length m.0)) mappings
unfolding map_path apply_migrations find_destination on_match match_prefix match_suffix trim_slash
    strip_prefix sort_by_len insert_by_len
map_path-Longest_example =
    map_path-Longest [] mappings (text "foo/a") (text "a") (text "etc" ∷ []) refl

map_path_unmapped_test : (text "baz" ≡ text "baz") × All (IsDifferent (text "baz")) mappings
unfolding map_path apply_migrations find_destination on_match match_prefix match_suffix trim_slash
    strip_prefix sort_by_len insert_by_len
map_path_unmapped_test = map_path_unmapped [] mappings (text "baz") (text "baz") refl
