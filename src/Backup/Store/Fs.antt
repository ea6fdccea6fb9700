-- ===== src/Backup/Store/Fs.antt =====
-- Backups in a directory: `FsStore` (api/crates/backup/src/stores/fs.rs). The directory is the
-- list of its entries in the order in which `read_dir` gives them; a name holds no slash, so that
-- `directory.join(name)` is an entry.
pub mod Mode
pub mod Names
pub mod Deletion
pub mod Listing
mod Tests
use Prim.Native.Nat.{bit_and}
use prose_pod_server.Common.{
  ℕ, ◌+◌, Bool, true, false, not, ◌&&◌, Option, none, some, List, [], ◌∷◌, ◌++◌, Text, text, same,
  length, ◌==◌, if◌then◌else◌, starts_with, lt_text,
}
use prose_pod_server.Backup.Store.{
  ObjectMetadata, DeletedState, BulkDeleteOutput, ReadObjectError, object_not_found, other, Result,
  ok, err, panicked, ◌>>=◌,
}

-- `unreadable` is an error of the iterator, `not_unicode` an entry whose name is not Unicode, on which
-- the loops panic.
pub data Entry : Type 0 where
  file : Text → Text → Entry
  unreadable : Entry
  not_unicode : Entry

-- `listable` is the success of `read_dir`, `writable` that of opening a file to write it where the name
-- is free or may be overwritten, and of the writes to it, `removable` that of `remove_file`, `openable` that of
-- opening a file that is there, `statable` that of reading its metadata.
pub record Directory : Type 0 where
  pub entries : List Entry
  pub listable : Bool
  pub writable : Text → Bool
  pub removable : Text → Bool
  pub openable : Text → Bool
  pub statable : Text → Bool

pub record FsStore : Type 0 where
  pub overwrite : Bool
  pub mode : ℕ

pub data ModeResult : Type 0 where
  mode_ok mode_warn mode_err : ModeResult

unfoldable pub validate_mode : ℕ → ℕ → ModeResult
validate_mode mode min_permissions =
    if mode == min_permissions
    then mode_ok
    else if not (bit_and mode 0o117 == 0)
    then mode_err
    else if not (bit_and mode min_permissions == min_permissions)
    then mode_err
    else mode_warn

abbrev pub IoResult : Type 0 → Type 0
IoResult A = Result (Unit {0}) A

-- `FsStore::try_from_config`
unfoldable pub try_from_config : Bool → ℕ → ℕ → IoResult FsStore
try_from_config overwrite mode min_permissions = elim (validate_mode mode min_permissions) [
  | mode_ok ↦ ok (record { overwrite = overwrite; mode = mode })
  | mode_warn ↦ ok (record { overwrite = overwrite; mode = mode })
  | mode_err ↦ err tt
]

abbrev pub is_named : Text → Entry → Bool
is_named name (file n c) = same n name
is_named name unreadable = false
is_named name not_unicode = false

unfoldable pub contents : Text → List Entry → Option Text
contents name [] = none
contents name (file n c ∷ es) = if same n name then some c else contents name es
contents name (unreadable ∷ es) = contents name es
contents name (not_unicode ∷ es) = contents name es

unfoldable pub is_present : Text → List Entry → Bool
is_present name [] = false
is_present name (e ∷ es) = if is_named name e then true else is_present name es

-- The entries without a name.
unfoldable pub unlink : Text → List Entry → List Entry
unlink name [] = []
unlink name (e ∷ es) = if is_named name e then unlink name es else e ∷ unlink name es

-- `FsStore::writer`, then all of `data` written and the file closed.
unfoldable pub write : FsStore → Text → Text → Directory → IoResult Directory
write s name bytes d =
    if starts_with name (text "/")
    then panicked
    else if not (bit_and s.mode 0o117 == 0)
    then panicked
    else if is_present name d.entries && not s.overwrite
    then err tt
    else if not (d.writable name)
    then err tt
    else ok (record d { entries = unlink name d.entries ++ file name bytes ∷ [] })

-- `FsStore::reader`, read to its end.
unfoldable pub reader : Directory → Text → Result ReadObjectError Text
reader d name = if starts_with name (text "/") then panicked else elim (contents name d.entries) [
  | none ↦ err object_not_found
  | some c ↦ if d.openable name then ok c else err other
]

unfoldable pub exists : Directory → Text → Bool
exists d name = is_present name d.entries

-- The loop of `find` and `list_all_after`, over the test of the name.
unfoldable pub collect : (Text → Bool) → (Text → Bool) → List Entry → IoResult (List ObjectMetadata)
collect statable test [] = ok []
collect statable test (file n c ∷ es) =
    let rest = collect statable test es in
    if statable n
    then (do
      results ← rest
      ok (if test n then record { file_name = n; size_bytes = length c } ∷ results else results))
    else err tt
collect statable test (unreadable ∷ es) = collect statable test es
collect statable test (not_unicode ∷ es) = panicked

unfoldable pub insert : ObjectMetadata → List ObjectMetadata → List ObjectMetadata
insert m [] = m ∷ []
insert m (x ∷ xs) = if lt_text x.file_name m.file_name then x ∷ insert m xs else m ∷ x ∷ xs

-- `sort_unstable_by` on the names, which differ within a directory.
unfoldable pub sort : List ObjectMetadata → List ObjectMetadata
sort [] = []
sort (m ∷ ms) = insert m (sort ms)

unfoldable pub listing : (Text → Bool) → Directory → IoResult (List ObjectMetadata)
listing test d =
    if d.listable
    then (do results ← collect d.statable test d.entries; ok (sort results))
    else err tt

unfoldable pub find : Directory → Text → IoResult (List ObjectMetadata)
find d prefix = listing (λ n. starts_with n prefix) d

unfoldable pub list_all_after : Directory → Text → IoResult (List ObjectMetadata)
list_all_after d prefix = listing (λ n. lt_text prefix n) d

unfoldable pub metadata : Directory → Text → Result ReadObjectError ObjectMetadata
metadata d name = elim (contents name d.entries) [
  | none ↦ err object_not_found
  | some c ↦
      if d.statable name
      then ok (record { file_name = name; size_bytes = length c })
      else err object_not_found
]

-- The state goes on beside the result.
unfoldable pub delete : Directory → Text → IoResult DeletedState × Directory
delete d name =
    if is_present name d.entries && d.removable name
    then (ok DeletedState.deleted, record d { entries = unlink name d.entries })
    else (err tt, d)

abbrev add_deleted : Text → BulkDeleteOutput → BulkDeleteOutput
add_deleted n o = record o { deleted = o.deleted ++ n ∷ [] }

abbrev add_error : BulkDeleteOutput → BulkDeleteOutput
add_error o = record o { errors = o.errors + 1 }

abbrev report : Text → IoResult DeletedState → BulkDeleteOutput → BulkDeleteOutput
report n (ok _) o = add_deleted n o
report n (err _) o = add_error o
report n panicked o = o

-- One round of the loop of `delete_all`; a panic ends the loop.
unfoldable pub delete_entry :
    Text → Entry → BulkDeleteOutput × Directory → IoResult BulkDeleteOutput × Directory
delete_entry prefix (file n c) (o, d) =
    if lt_text prefix n then (let (r, d') = delete d n in (ok (report n r o), d')) else (ok o, d)
delete_entry prefix unreadable (o, d) = (ok (add_error o), d)
delete_entry prefix not_unicode (o, d) = (panicked, d)

abbrev pub then_entries :
    IoResult BulkDeleteOutput × Directory
    → (BulkDeleteOutput × Directory → IoResult BulkDeleteOutput × Directory)
    → IoResult BulkDeleteOutput × Directory
then_entries (ok o, d) rest = rest (o, d)
then_entries (err e, d) rest = (err e, d)
then_entries (panicked, d) rest = (panicked, d)

-- The loop, over the entries that `read_dir` has read.
unfoldable pub delete_entries :
    Text → List Entry → BulkDeleteOutput × Directory → IoResult BulkDeleteOutput × Directory
delete_entries prefix [] (o, d) = (ok o, d)
delete_entries prefix (e ∷ es) s = then_entries (delete_entry prefix e s) (delete_entries prefix es)

abbrev pub no_output : BulkDeleteOutput
no_output = record { deleted = []; marked_for_deletion = []; errors = 0 }

unfoldable pub delete_all : Directory → Text → IoResult BulkDeleteOutput × Directory
delete_all d prefix =
    if d.listable then delete_entries prefix d.entries (no_output, d) else (err tt, d)
