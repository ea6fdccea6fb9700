-- ===== src/Backup/Restore/Paths.antt =====
-- `map_path` and the order of the mappings (api/crates/backup/src/restoration.rs). A destination is
-- an absolute path without `.` and `..`, written as its components from the last to the first.
pub mod Order
pub mod Longest
pub mod Tests
use prose_pod_server.Common.{
  ℕ, Bool, true, false, Option, none, some, List, [], ◌∷◌, ◌++◌, Text, length, ltb, ◌==◌,
  if◌then◌else◌, strip_prefix,
}
use prose_pod_server.Backup.Store.{Result, ok, panicked}

abbrev pub PathBuf : Type 0
PathBuf = List Text

abbrev pub slash : ℕ
slash = b'/'

-- `from` without a `/` at its end.
unfoldable pub trim_slash : Text → Text
trim_slash [] = []
trim_slash (c ∷ []) = if c == slash then [] else c ∷ []
trim_slash (c ∷ d ∷ s) = c ∷ trim_slash (d ∷ s)

-- What is left of a path: nothing, or what follows the slash of a proper prefix.
pub data PrefixMatch : Type 0 where
  exact : PrefixMatch
  proper : Text → PrefixMatch
  different : PrefixMatch

unfoldable pub match_suffix : Text → PrefixMatch
match_suffix [] = exact
match_suffix (c ∷ []) = if c == slash then exact else different
match_suffix (c ∷ d ∷ s) = if c == slash then proper (d ∷ s) else different

unfoldable pub match_prefix : Text → Text → PrefixMatch
match_prefix from path = elim (strip_prefix (trim_slash from) path) [
  | none ↦ different
  | some suffix ↦ match_suffix suffix
]

-- The first loop of `map_path`.
unfoldable pub apply_migrations : List (Text × Text) → Text → Text
apply_migrations [] path = path
apply_migrations ((from, to) ∷ ms) path =
    let rest = apply_migrations ms path in
    elim (match_prefix from path) [ exact ↦ to | proper s ↦ to ++ slash ∷ s | different ↦ rest ]

-- `to.file_name().unwrap()` in `to.parent()`.
abbrev pub in_parent : PathBuf → Result (Unit {0}) (Text × Option PathBuf)
in_parent [] = panicked
in_parent (name ∷ parent) = ok (name, some parent)

-- A match of the second loop; `different` is `continue`.
unfoldable pub on_match :
    PathBuf
    → Result (Unit {0}) (Text × Option PathBuf)
    → PrefixMatch
    → Result (Unit {0}) (Text × Option PathBuf)
on_match to rest exact = in_parent to
on_match to rest (proper s) = ok (s, some to)
on_match to rest different = rest

-- The second loop: the path of the entry and where it is unpacked.
unfoldable pub find_destination :
    List (Text × PathBuf) → Text → Result (Unit {0}) (Text × Option PathBuf)
find_destination [] path = ok (path, none)
find_destination ((from, to) ∷ ms) path =
    on_match to (find_destination ms path) (match_prefix from path)

unfoldable pub map_path :
    List (Text × Text) → List (Text × PathBuf) → Text → Result (Unit {0}) (Text × Option PathBuf)
map_path migrations mappings path = find_destination mappings (apply_migrations migrations path)

-- `sort_by_key(|(prefix, _)| Reverse(prefix.len()))`, which is stable.
unfoldable pub insert_by_len {ℓ} : {A : Type ℓ} → Text × A → List (Text × A) → List (Text × A)
insert_by_len m [] = m ∷ []
insert_by_len m (x ∷ xs) =
    let rest = insert_by_len m xs in if ltb (length m.0) (length x.0) then x ∷ rest else m ∷ x ∷ xs

unfoldable pub sort_by_len {ℓ} : {A : Type ℓ} → List (Text × A) → List (Text × A)
sort_by_len [] = []
sort_by_len (m ∷ ms) = insert_by_len m (sort_by_len ms)
