-- ===== src/Backup/Tar/Walk/Tests.antt =====
-- The estimate of an archive, tried on a small tree.
use prose_pod_server.Common.{
  ℕ, ◌+◌, ◌%◌, ◌≤◌, ◌<◌, ◌≡◌, refl, some, List, [], ◌∷◌, Text, text, arith, starts_with, ends_with,
  text_dec, replicate,
}
use prose_pod_server.Common.Results.{ok, err}
use prose_pod_server.Backup.Tar.{
  Node, file, directory, empty, entry, unreadable, io_error, entry_header_size, round_up_blocks,
  file_entry_size, entry_size_at_path, read_dir, visit, walk_queue, walk, path_size, estimate_paths,
  estimate_tar_size, archive_contents_size, nodes,
}
use prose_pod_server.Backup.Tar.Bounds.{header_room, file_entry_size-bounds}
use prose_pod_server.Backup.Tar.Walk.{plus, tree_size, outcome}
use prose_pod_server.Backup.Tar.Walk.Estimate.{
  root_size, paths_size, estimate_tar_size-paths_size, archive_contents_size-estimate,
}

abbrev data_dir : Node
data_dir = directory (
    entry (text "a") (file 513)
      (entry (text "sub") (directory (entry (text "b") (file 0) empty)) empty))

abbrev paths : List (Text × Node)
paths = (text "data", data_dir) ∷ (text "cert", file 1) ∷ []

-- Four headers below the directory, two blocks of `a`, and a header and a block of `cert`.
estimate_test : estimate_tar_size paths ≡ some (ok 5120)
unfolding estimate_tar_size estimate_paths path_size walk walk_queue visit read_dir nodes
    entry_size_at_path entry_header_size round_up_blocks starts_with ends_with text_dec
estimate_test = refl

unreadable_test :
    walk (directory (entry (text "a") (directory unreadable) empty)) [] ≡ some (err io_error)
unfolding walk walk_queue visit read_dir nodes starts_with ends_with text_dec
unreadable_test = refl

abbrev long_path : Text
long_path = replicate 101 97

long_path_test : entry_header_size (long_path) ≡ 1536
unfolding entry_header_size round_up_blocks
long_path_test = refl

paths_test : paths_size paths ≡ some 4096
unfolding paths_size root_size tree_size plus entry_size_at_path entry_header_size round_up_blocks
    starts_with ends_with text_dec
paths_test = refl

file_entry_size-bounds_example :
    (file_entry_size long_path 700 % 512 ≡ 0)
    × (header_room long_path + 700 ≤ file_entry_size long_path 700)
    × (file_entry_size long_path 700 < header_room long_path + 700 + 1024)
file_entry_size-bounds_example = file_entry_size-bounds long_path 700 (omega arith)

estimate_tar_size-paths_size_example :
    estimate_tar_size paths ≡ some (outcome 0 (plus (paths_size paths) (some 1024)))
estimate_tar_size-paths_size_example = estimate_tar_size-paths_size paths

archive_contents_size-estimate_test :
    (archive_len : ℕ) × (estimate_tar_size paths ≡ some (ok archive_len))
    × (archive_contents_size archive_len ≡ 4096)
archive_contents_size-estimate_test =
    archive_contents_size-estimate paths 4096 paths_test (omega arith)
