-- ===== src/Backup/Tar/Walk/Estimate.antt =====
-- The estimate of an archive's size, and the size of its contents.
use prose_pod_server.Common.{
  ℕ, ◌+◌, ◌<◌, ◌≡◌, refl, sym, ap, ◌∙◌, Option, none, some, List, [], ◌∷◌, Text, u64_mod, add_u64,
  arith,
}
use prose_pod_server.Common.Results.{Result, ok}
use prose_pod_server.Backup.Tar.{
  Node, file, directory, other, missing, IoError, of_file, of_other, entry_size_at_path, path_size,
  add_path, estimate_paths, estimate_tar_size, archive_contents_size,
}
use prose_pod_server.Backup.Tar.Walk.{
  plus, tree_size, outcome, plus_assoc, outcome-add, walk-outcome,
}

-- The size of the paths of an archive.
unfoldable pub root_size : Text → Node → Option ℕ
root_size key (file len) = some (entry_size_at_path key (of_file len))
root_size key (directory es) = tree_size key [] (directory es)
root_size key other = some (entry_size_at_path key of_other)
root_size key missing = none

unfoldable pub paths_size : List (Text × Node) → Option ℕ
paths_size [] = some 0
paths_size ((key, node) ∷ ps) = plus (root_size key node) (paths_size ps)

add_u64-zero : (total n : ℕ) → add_u64 total (add_u64 0 n) ≡ add_u64 total n
add_u64-zero total n = omega arith

-- A path whose size is `a`, before paths of size `b`.
add_path-outcome :
    (run : ℕ → Option (Result IoError ℕ)) (total : ℕ) (a b : Option ℕ)
    → ((t : ℕ) → run t ≡ some (outcome t b))
    → add_path run total (some (outcome 0 a)) ≡ some (outcome total (plus a b))
unfolding outcome plus
add_path-outcome run total none b h = refl
add_path-outcome run total (some n) b h =
    ap run (add_u64-zero total n) ∙ h (add_u64 total n) ∙ ap some (outcome-add total n b)

path_size-outcome :
    (run : ℕ → Option (Result IoError ℕ)) (total : ℕ) (key : Text) (node : Node) (b : Option ℕ)
    → ((t : ℕ) → run t ≡ some (outcome t b))
    → add_path run total (path_size key node) ≡ some (outcome total (plus (root_size key node) b))
unfolding path_size root_size outcome plus
path_size-outcome run total key (file len) b h = h _ ∙ ap some (outcome-add total _ b)
path_size-outcome run total key (directory es) b h =
    rw (walk-outcome (directory es) key) (add_path-outcome run total _ b h)
path_size-outcome run total key other b h = h _ ∙ ap some (outcome-add total _ b)
path_size-outcome run total key missing b h = refl

estimate_paths-outcome :
    (ps : List (Text × Node)) (total : ℕ)
    → estimate_paths ps total ≡ some (outcome total (plus (paths_size ps) (some 1024)))
unfolding estimate_paths paths_size outcome plus
estimate_paths-outcome [] total = refl
estimate_paths-outcome ((key, node) ∷ ps) total =
    path_size-outcome _ total key node _ (estimate_paths-outcome ps)
    ∙ ap (λ z. some (outcome total z)) (sym (plus_assoc (root_size key node) _ _))

-- The estimate of an archive, whose walks go through a queue, is the sum over the trees of its paths
-- and the marker at its end, modulo 2^64; it fails if and only if something cannot be read.
pub estimate_tar_size-paths_size :
    (ps : List (Text × Node))
    → estimate_tar_size ps ≡ some (outcome 0 (plus (paths_size ps) (some 1024)))
unfolding estimate_tar_size
estimate_tar_size-paths_size ps = estimate_paths-outcome ps 0

-- Where all sizes are known and the archive is smaller than 2^64 bytes, `archive_contents_size` of
-- the estimate is the sum of the sizes of the paths.
pub archive_contents_size-estimate :
    (ps : List (Text × Node)) (size : ℕ)
    → paths_size ps ≡ some size
    → size + 1024 < u64_mod
    → (archive_len : ℕ) × (estimate_tar_size ps ≡ some (ok archive_len))
      × (archive_contents_size archive_len ≡ size)
unfolding outcome plus archive_contents_size
archive_contents_size-estimate ps size h l = (
  size + 1024,
  estimate_tar_size-paths_size ps ∙ rw h (ap some (ap ok (omega arith))),
  omega arith,
)
