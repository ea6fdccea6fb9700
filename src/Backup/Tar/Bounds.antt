-- ===== src/Backup/Tar/Bounds.antt =====
-- How large the calculator makes an entry of an archive.
use prose_pod_server.Common.{
  ℕ, ◌+◌, ◌%◌, ◌≤◌, ◌<◌, ◌≡◌, Text, length, ltb, if◌then◌else◌, u64_mod, add_u64, arith, refl,
  Bool-cases, inl, inr,
}
use prose_pod_server.Backup.Tar.{round_up_blocks, entry_header_size, file_entry_size}

-- The least multiple of a block that is at least `n`.
round_up_blocks-bounds :
    (n : ℕ)
    → n + 511 < u64_mod
    → (round_up_blocks n % 512 ≡ 0) × (n ≤ round_up_blocks n) × (round_up_blocks n < n + 512)
unfolding round_up_blocks
round_up_blocks-bounds n h = (omega arith, omega arith, omega arith)

-- What the headers of an entry hold: one header, and where the path is longer than 100 bytes, one
-- more and the path with a null byte behind it.
unfoldable pub header_room : Text → ℕ
header_room path = if ltb 100 (length path) then 512 + 512 + (length path + 1) else 512

entry_header_size-bounds :
    (path : Text)
    → length path + 2048 < u64_mod
    → (entry_header_size path % 512 ≡ 0)
      × (header_room path ≤ entry_header_size path)
      × (entry_header_size path < header_room path + 512)
unfolding entry_header_size header_room
entry_header_size-bounds path h =
    let (d, l, u) = round_up_blocks-bounds (add_u64 (length path) 1) (omega arith) in
    elim (Bool-cases (ltb 100 (length path))) [
      | inl p ↦ rw p (omega arith, omega arith, omega arith)
      | inr p ↦ rw p (refl, omega arith, omega arith)
    ]

header_room-le : (path : Text) → header_room path ≤ length path + 1025
unfolding header_room
header_room-le path = ground arith

-- The size of a file's entry is a multiple of a block's, as long as it does not come near 2^64. It
-- has room for the headers, a long stored path included, and for the file, and beyond these for less
-- than two blocks.
pub file_entry_size-bounds :
    (path : Text) (len : ℕ)
    → length path + len + 4096 < u64_mod
    → (file_entry_size path len % 512 ≡ 0)
      × (header_room path + len ≤ file_entry_size path len)
      × (file_entry_size path len < header_room path + len + 1024)
unfolding file_entry_size
file_entry_size-bounds path len h =
    let (d, l, u) = entry_header_size-bounds path (omega arith) in
    let (d', l', u') = round_up_blocks-bounds len (omega arith) in
    let room = header_room-le path in (omega arith, omega arith, omega arith)
