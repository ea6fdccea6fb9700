-- ===== src/Backup/Restore/Migrations/Versions.antt =====
-- Which migrations a backup needs.
use prose_pod_server.Common.{
  ℕ, ◌≡◌, ◌≤◌, refl, Bool, true, false, ◌&&◌, List, [], ◌∷◌, keep, All, leb, ltb, arith, inl, inr,
  Bool-cases,
}
use prose_pod_server.Backup.Restore.Migrations.{
  ArchiveMigration, skip_until, take_until, filter_migrations,
}

abbrev pub IsSorted : List ArchiveMigration → Type 0
IsSorted [] = Unit
IsSorted (m ∷ ms) = All (λ x. m.version ≤ x.version) ms × IsSorted ms

-- The migrations after one version, up to another.
abbrev pub is_needed : ℕ → ℕ → ArchiveMigration → Bool
is_needed from to m = ltb from m.version && leb m.version to

keep-beyond :
    (from to v : ℕ) (ms : List ArchiveMigration)
    → leb v to ≡ false
    → All (λ x. v ≤ x.version) ms
    → keep (is_needed from to) ms ≡ []
keep-beyond from to v [] h k = refl
keep-beyond from to v (m ∷ ms) h k = ground (arith, keep-beyond from to v ms h k.1)

take_until-keep :
    (from to : ℕ) (ms : List ArchiveMigration)
    → IsSorted ms
    → All (λ x. ltb from x.version ≡ true) ms
    → take_until to ms ≡ keep (is_needed from to) ms
unfolding take_until
take_until-keep from to [] h k = refl
take_until-keep from to (m ∷ ms) h k =
    ground (arith, take_until-keep from to ms h.1 k.1, keep-beyond from to m.version ms)

All-after :
    (from v : ℕ) (ms : List ArchiveMigration)
    → leb v from ≡ false
    → All (λ x. v ≤ x.version) ms
    → All (λ x. ltb from x.version ≡ true) ms
All-after from v [] h k = tt
All-after from v (m ∷ ms) h k = (ground arith, All-after from v ms h k.1)

-- With the migrations sorted by version, exactly those that are newer than the backup and not newer
-- than the blueprint are applied, in their order.
pub filter_migrations-keep :
    (migrations : List ArchiveMigration) (from to : ℕ)
    → IsSorted migrations
    → filter_migrations migrations from to ≡ keep (is_needed from to) migrations
unfolding filter_migrations skip_until
filter_migrations-keep [] from to h = take_until-keep from to [] tt tt
filter_migrations-keep (m ∷ ms) from to h = elim (Bool-cases (leb m.version from)) [
  | inl old ↦ ground (arith, filter_migrations-keep ms from to h.1)
  | inr new ↦
      rw new
        (take_until-keep from to (m ∷ ms) h (ground arith, All-after from m.version ms new h.0))
]
