-- ===== src/Backup/Restore/Migrations/Tests.antt =====
-- Migrations of a few paths.
use prose_pod_server.Common.{ℕ, List, ◌≡◌, refl, [], ◌∷◌, Text, text, strip_prefix, arith}
use prose_pod_server.Backup.Restore.Paths.{
  apply_migrations, trim_slash, match_suffix, match_prefix, sort_by_len, insert_by_len,
}
use prose_pod_server.Backup.Restore.Migrations.{
  ArchiveMigration, filter_migrations, flatten, flatten_onto, add_migration, extend, on_flat,
}
use prose_pod_server.Backup.Restore.Migrations.Versions.{filter_migrations-keep}
use prose_pod_server.Backup.Restore.Migrations.Chain.{flatten-chain}

abbrev renamed : ℕ → ArchiveMigration
renamed v = record { version = v; migrate_paths = [] }

filter_migrations-keep_example :
    filter_migrations (renamed 1 ∷ renamed 2 ∷ renamed 3 ∷ renamed 4 ∷ []) 1 3
    ≡ renamed 2 ∷ renamed 3 ∷ []
filter_migrations-keep_example =
    filter_migrations-keep (renamed 1 ∷ renamed 2 ∷ renamed 3 ∷ renamed 4 ∷ []) 1 3 (
      (omega arith, (omega arith, (omega arith, tt))),
      ((omega arith, (omega arith, tt)), ((omega arith, tt), (tt, tt))),
    )

flatten-chain_test :
    flatten ((text "a", text "b/") ∷ (text "b/", text "c") ∷ []) ≡ (text "a", text "c") ∷ []
flatten-chain_test = flatten-chain (text "a") (text "b/") (text "c" ∷ [])

abbrev gathered : List (Text × Text)
gathered = (text "a", text "x/a") ∷ (text "b", text "x/b") ∷ (text "x", text "y") ∷ []

-- Two paths that one version gathers under `x` and the next moves with it to `y`: only the first
-- arrives there.
apply_migrations-flatten-gathered :
    (apply_migrations (flatten gathered) (text "a") ≡ text "y/a")
    × (apply_migrations (flatten gathered) (text "b") ≡ text "x/b")
unfolding flatten flatten_onto add_migration extend on_flat match_prefix match_suffix strip_prefix
    trim_slash sort_by_len insert_by_len apply_migrations
apply_migrations-flatten-gathered = (refl, refl)
