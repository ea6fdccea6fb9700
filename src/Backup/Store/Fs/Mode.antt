-- ===== src/Backup/Store/Fs/Mode.antt =====
-- Permission bits: what `try_from_config` accepts, `writer` may use.
use Prim.Native.Nat.{bit_and}
use prose_pod_server.Common.{ℕ, ◌≡◌, ◌≢◌, Bool, false, Text, text, starts_with, arith}
use prose_pod_server.Backup.Store.{ok, panicked}
use prose_pod_server.Backup.Store.Fs.{FsStore, Directory, validate_mode, try_from_config, write}

-- A directory store that the configuration accepts has no execute bit and no permission for
-- others, and has all the required bits, provided that the required bits are themselves such.
pub try_from_config-bits :
    (overwrite : Bool) (mode min_permissions : ℕ) (s : FsStore)
    → bit_and min_permissions 0o117 ≡ 0
    → bit_and min_permissions min_permissions ≡ min_permissions
    → try_from_config overwrite mode min_permissions ≡ ok s
    → (bit_and s.mode 0o117 ≡ 0) × (bit_and s.mode min_permissions ≡ min_permissions)
unfolding try_from_config validate_mode
try_from_config-bits overwrite mode min s h k e = ground arith

-- The assertions of the writer hold: a directory store that the configuration accepted, with
-- required bits that are themselves allowed, does not panic on a name without a leading slash.
pub write-ne-panicked :
    (overwrite : Bool) (mode min_permissions : ℕ) (s : FsStore) (name bytes : Text) (d : Directory)
    → bit_and min_permissions 0o117 ≡ 0
    → try_from_config overwrite mode min_permissions ≡ ok s
    → starts_with name (text "/") ≡ false
    → write s name bytes d ≢ panicked
unfolding write try_from_config validate_mode
write-ne-panicked overwrite mode min s name bytes d h e n = ground arith
