-- ===== src/Backup/Restore/Migrations/Chain.antt =====
-- A path that every version renames.
use prose_pod_server.Common.{◌≡◌, refl, ◌∙◌, ap, true, List, [], ◌∷◌, Text, strip_prefix, arith}
use prose_pod_server.Backup.Restore.Paths.{
  trim_slash, exact, match_suffix, match_prefix, sort_by_len, insert_by_len,
}
use prose_pod_server.Backup.Restore.Migrations.{
  extend, on_flat, push_new, add_migration, flatten_onto, flatten,
}

abbrev pub chain : Text → List Text → List (Text × Text)
chain a [] = []
chain a (b ∷ bs) = (a, b) ∷ chain b bs

abbrev pub last_name : Text → List Text → Text
last_name b [] = b
last_name b (c ∷ cs) = last_name c cs

match_prefix_self : (b : Text) → match_prefix b b ≡ exact
unfolding match_prefix strip_prefix trim_slash match_suffix
match_prefix_self [] = refl
match_prefix_self (c ∷ []) = ground arith
match_prefix_self (c ∷ d ∷ b) = ground (arith, match_prefix_self (d ∷ b))

add_migration-chain : (a b c : Text) → add_migration (b, c) ((a, b) ∷ []) ≡ (a, c) ∷ []
unfolding add_migration extend on_flat
add_migration-chain a b c =
    ap (λ r. push_new (b, c) (on_flat c (a, b) [] ([], true) r)) (match_prefix_self b)

flatten_onto-chain :
    (a b : Text) (bs : List Text)
    → flatten_onto ((a, b) ∷ []) (chain b bs) ≡ (a, last_name b bs) ∷ []
unfolding flatten_onto
flatten_onto-chain a b [] = refl
flatten_onto-chain a b (c ∷ cs) =
    ap (λ f. flatten_onto f (chain c cs)) (add_migration-chain a b c) ∙ flatten_onto-chain a c cs

-- Migrations that rename one path again and again flatten to a single one, from its first name to
-- its last.
pub flatten-chain :
    (a b : Text) (bs : List Text) → flatten (chain a (b ∷ bs)) ≡ (a, last_name b bs) ∷ []
unfolding flatten flatten_onto sort_by_len insert_by_len add_migration extend on_flat
flatten-chain a b bs = rw (flatten_onto-chain a b bs) refl
