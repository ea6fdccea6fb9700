-- ===== src/Backup/Tar.antt =====
-- The size of an archive, computed before it is made: `TarSizeCalculator`
-- (api/crates/backup/src/util/tar.rs). The file system is the tree that `metadata` and `read_dir`
-- show, what they fail on included. A release build is modelled, in which a sum of `u64` wraps.
pub mod Bounds
pub mod Walk
use prose_pod_server.Common.{
  ℕ, zero, suc, ◌+◌, ◌-◌, ◌*◌, ◌%◌, ◌||◌, Option, none, some, List, [], ◌∷◌, ◌++◌, Text, text, same,
  starts_with, ends_with, length, ltb, if◌then◌else◌, add_u64,
}
use prose_pod_server.Common.Results.{Result, ok, err, panicked}

-- Any `anyhow::Error`: a system call failed.
pub data IoError : Type 0 where
  io_error : IoError

-- What stands at a path. No metadata can be read of one that is `missing`, and reading the entries
-- of a directory fails at `unreadable`.
mutual
  pub data Node : Type 0 where
    file : ℕ → Node
    directory : Entries → Node
    other : Node
    missing : Node

  pub data Entries : Type 0 where
    empty : Entries
    entry : Text → Node → Entries → Entries
    unreadable : Entries

-- `fs::Metadata`, a file's with its length
pub data Metadata : Type 0 where
  of_file : ℕ → Metadata
  of_directory : Metadata
  of_other : Metadata

abbrev pub block_size : ℕ
block_size = 512

abbrev pub archive_header_size : ℕ
archive_header_size = 0

abbrev pub end_of_archive_marker_size : ℕ
end_of_archive_marker_size = 2 * block_size

-- `n & !(BLOCK_SIZE - 1)` clears the bits below the size of a block.
abbrev pub clear_below_block : ℕ → ℕ
clear_below_block n = n - n % block_size

unfoldable pub round_up_blocks : ℕ → ℕ
round_up_blocks n = clear_below_block (add_u64 n (block_size - 1))

-- The size of a header, that of the stored path included where it is long.
unfoldable pub entry_header_size : Text → ℕ
entry_header_size path_in_archive =
    let path_bytes = length path_in_archive in
    if ltb 100 path_bytes
    then add_u64 block_size (add_u64 block_size (round_up_blocks (add_u64 path_bytes 1)))
    else block_size

unfoldable pub file_entry_size : Text → ℕ → ℕ
file_entry_size path_in_archive expected_len =
    add_u64 (entry_header_size path_in_archive) (round_up_blocks expected_len)

unfoldable pub entry_size_at_path : Text → Metadata → ℕ
entry_size_at_path path_in_archive (of_file file_len) =
    add_u64 (entry_header_size path_in_archive) (round_up_blocks file_len)
entry_size_at_path path_in_archive of_directory = entry_header_size path_in_archive
entry_size_at_path path_in_archive of_other = entry_header_size path_in_archive

-- `Path::join`: an absolute path replaces the other one.
abbrev pub join : Text → Text → Text
join p q =
    if starts_with q (text "/")
    then q
    else if same p [] || ends_with p (text "/")
    then p ++ q
    else p ++ text "/" ++ q

abbrev pub add_entry : Text × Node → Option (List (Text × Node)) → Option (List (Text × Node))
add_entry e none = none
add_entry e (some es) = some (e ∷ es)

-- The entries of a directory, each with its path.
unfoldable pub read_dir : Text → Entries → Option (List (Text × Node))
read_dir path empty = some []
read_dir path (entry name node es) = add_entry (join path name, node) (read_dir path es)
read_dir path unreadable = none

-- What a turn of `walk`'s loop adds: the size of an entry, and the paths that are queued.
pub data Visit : Type 0 where
  failed : Visit
  visited : ℕ → List (Text × Node) → Visit

abbrev pub queued : ℕ → Option (List (Text × Node)) → Visit
queued size none = failed
queued size (some es) = visited size es

unfoldable pub visit : Text → Text → Node → Visit
visit dst path missing = failed
visit dst path (file len) = visited (entry_size_at_path (join dst path) (of_file len)) []
visit dst path other = visited (entry_size_at_path (join dst path) of_other) []
visit dst path (directory es) =
    queued (entry_size_at_path (join dst path) of_directory) (read_dir path es)

abbrev pub continue :
    (List (Text × Node) → ℕ → Option (Result IoError ℕ))
    → List (Text × Node)
    → ℕ
    → Visit
    → Option (Result IoError ℕ)
continue next paths total failed = some (err io_error)
continue next paths total (visited size es) = next (paths ++ es) (add_u64 total size)

-- The loop of `walk` over its queue, the paths relative to the reference; `none` is out of fuel.
unfoldable pub walk_queue : ℕ → Text → List (Text × Node) → ℕ → Option (Result IoError ℕ)
walk_queue n dst [] total = some (ok total)
walk_queue zero dst (p ∷ paths) total = none
walk_queue (suc n) dst ((path, node) ∷ paths) total =
    continue (walk_queue n dst) paths total (visit dst path node)

-- The number of paths below and at a node: the loop has a turn for each.
mutual
  pub nodes : Node → ℕ
  nodes (file len) = 1
  nodes (directory es) = suc (entries_nodes es)
  nodes other = 1
  nodes missing = 1

  pub entries_nodes : Entries → ℕ
  entries_nodes empty = 0
  entries_nodes (entry name node es) = nodes node + entries_nodes es
  entries_nodes unreadable = 0

unfoldable pub walk : Node → Text → Option (Result IoError ℕ)
walk reference dst = walk_queue (nodes reference) dst (([], reference) ∷ []) 0

-- The size of one of the paths to archive.
unfoldable pub path_size : Text → Node → Option (Result IoError ℕ)
path_size key missing = some (err io_error)
path_size key (directory es) = walk (directory es) key
path_size key (file len) = some (ok (entry_size_at_path key (of_file len)))
path_size key other = some (ok (entry_size_at_path key of_other))

abbrev pub add_path :
    (ℕ → Option (Result IoError ℕ)) → ℕ → Option (Result IoError ℕ) → Option (Result IoError ℕ)
add_path next total none = none
add_path next total (some (ok size)) = next (add_u64 total size)
add_path next total (some (err e)) = some (err e)
add_path next total (some panicked) = some panicked

unfoldable pub estimate_paths : List (Text × Node) → ℕ → Option (Result IoError ℕ)
estimate_paths [] total = some (ok (add_u64 total end_of_archive_marker_size))
estimate_paths ((key, node) ∷ paths) total =
    add_path (estimate_paths paths) total (path_size key node)

unfoldable pub estimate_tar_size : List (Text × Node) → Option (Result IoError ℕ)
estimate_tar_size paths = estimate_paths paths archive_header_size

-- A subtraction that saturates.
unfoldable pub archive_contents_size : ℕ → ℕ
archive_contents_size archive_len = archive_len - (archive_header_size + end_of_archive_marker_size)
