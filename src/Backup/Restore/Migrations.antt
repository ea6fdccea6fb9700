-- ===== src/Backup/Restore/Migrations.antt =====
-- Migrations between the versions of a backup: `filter_migrations` and `flatten`
-- (api/crates/backup/src/restoration.rs).
pub mod Versions
pub mod Chain
pub mod Tests
use prose_pod_server.Common.{
  ℕ, Bool, true, false, Option, none, some, List, [], ◌∷◌, ◌++◌, Text, leb, ltb, if◌then◌else◌,
}
use prose_pod_server.Backup.Restore.Paths.{
  PrefixMatch, exact, proper, different, match_prefix, slash, sort_by_len,
}

pub record ArchiveMigration : Type 0 where
  pub version : ℕ
  pub migrate_paths : List (Text × Text)

unfoldable pub skip_until : ℕ → List ArchiveMigration → List ArchiveMigration
skip_until from [] = []
skip_until from (m ∷ ms) =
    let rest = skip_until from ms in if leb m.version from then rest else m ∷ ms

unfoldable pub take_until : ℕ → List ArchiveMigration → List ArchiveMigration
take_until to [] = []
take_until to (m ∷ ms) = let rest = take_until to ms in if leb m.version to then m ∷ rest else []

unfoldable pub filter_migrations : List ArchiveMigration → ℕ → ℕ → List ArchiveMigration
filter_migrations migrations from to = take_until to (skip_until from migrations)

-- A match of the inner loop of `flatten` on the mapping of `from`: the mappings, and `need_insert`.
-- `rest` is what the loop does from the next mapping on.
unfoldable pub on_flat :
    Text
    → Text × Text
    → List (Text × Text)
    → List (Text × Text) × Bool
    → PrefixMatch
    → List (Text × Text) × Bool
on_flat new_to (from, to) ms rest exact = ((from, new_to) ∷ ms, false)
on_flat new_to (from, to) ms rest (proper s) = ((from, new_to ++ slash ∷ s) ∷ ms, true)
on_flat new_to (from, to) ms (ms', need_insert) different = ((from, to) ∷ ms', need_insert)

unfoldable pub extend : Text → Text → List (Text × Text) → List (Text × Text) × Bool
extend new_from new_to [] = ([], true)
extend new_from new_to (m ∷ ms) =
    on_flat new_to m ms (extend new_from new_to ms) (match_prefix new_from m.1)

abbrev pub push_new : Text × Text → List (Text × Text) × Bool → List (Text × Text)
push_new m (flat, need_insert) = if need_insert then flat ++ m ∷ [] else flat

-- One round of the outer loop.
unfoldable pub add_migration : Text × Text → List (Text × Text) → List (Text × Text)
add_migration (new_from, new_to) flat = push_new (new_from, new_to) (extend new_from new_to flat)

unfoldable pub flatten_onto : List (Text × Text) → List (Text × Text) → List (Text × Text)
flatten_onto flat [] = flat
flatten_onto flat (m ∷ ms) = flatten_onto (add_migration m flat) ms

unfoldable pub flatten : List (Text × Text) → List (Text × Text)
flatten migrations = sort_by_len (flatten_onto [] migrations)
