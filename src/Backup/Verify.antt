-- ===== src/Backup/Verify.antt =====
-- The integrity check that precedes every restoration (api/crates/backup/src/verification.rs).
-- OpenPGP and the hash functions are parameters. The bytes of an object are an `Option`: `none` is
-- an object that opens and then fails to be read. The report is returned beside the result, since
-- the code fills it through a `&mut`. What happens to the local copy of the backup is modelled with
-- the cache, not here; the names of errors are kept and their texts are not.
pub mod Signatures
pub mod Download
use prose_pod_server.Common.{ℕ, Bool, Option, List, Text}
