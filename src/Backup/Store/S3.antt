-- ===== src/Backup/Store/S3.antt =====
-- Backups in an S3 bucket: `S3Store` (api/crates/backup/src/stores/s3.rs). What the service answers
-- to a request is a parameter; `panicked` is a failed `unwrap` or `expect`.
pub mod Stream
pub mod Pages
pub mod Upload
pub mod Accepted
pub mod Download
mod Tests
use prose_pod_server.Common.{
  ℕ, zero, suc, ◌+◌, Bool, true, false, Option, none, some, List, [], ◌∷◌, ◌++◌, Text,
  if◌then◌else◌, strip_prefix,
}
use prose_pod_server.Common.Int.{ℤ, pos, negsuc}
use prose_pod_server.Backup.Store.{
  ObjectMetadata, DeletedState, BulkDeleteOutput, ReadObjectError, object_not_found, other, Result,
  ok, err, panicked, ◌>>=◌,
}
use prose_pod_server.Backup.Store.Fs.{IoResult}

-- An object of a page: its key and its size.
pub record Object : Type 0 where
  pub key : Option Text
  pub size : Option ℤ

pub record Page (Token : Type 0) : Type 0 where
  pub contents : List Object
  pub is_truncated : Option Bool
  pub next : Option Token

pub data Head : Type 0 where
  found : Option ℤ → Head
  not_found failed : Head

-- An object of the answer to a bulk deletion.
pub record DeletedObject : Type 0 where
  pub deleted_key : Option Text
  pub delete_marker : Option Bool

-- The requests: a page by prefix and continuation token, the head of an object, the deletion of an
-- object (whether there is a delete marker), and that of many (with the number of errors).
pub record Client : Type 1 where
  pub Token : Type 0
  pub list_objects : Text → Option Token → Option (Page Token)
  pub head_object : Text → Head
  pub delete_object : Text → Option (Option Bool)
  pub delete_objects : List Text → Option (List DeletedObject × ℕ)

unfoldable pub saturating_i64_to_u64 : ℤ → ℕ
saturating_i64_to_u64 (pos n) = n
saturating_i64_to_u64 (negsuc n) = 0

abbrev pub is_true : Option Bool → Bool
is_true none = false
is_true (some b) = b

-- The match of `exists_`.
unfoldable pub on_head : Head → Result ReadObjectError (Option ℤ)
on_head (found size) = ok size
on_head not_found = err object_not_found
on_head failed = err object_not_found

unfoldable pub on_exists : Result ReadObjectError (Option ℤ) → IoResult Bool
on_exists (ok size) = ok true
on_exists (err object_not_found) = ok false
on_exists (err other) = err tt
on_exists panicked = panicked

-- The content length of a head must be there.
unfoldable pub on_metadata : Text → Head → Result ReadObjectError ObjectMetadata
on_metadata key (found none) = panicked
on_metadata key (found (some size)) =
    ok (record { file_name = key; size_bytes = saturating_i64_to_u64 size })
on_metadata key not_found = err object_not_found
on_metadata key failed = err object_not_found

abbrev pub unwrap : Option Text → IoResult Text
unwrap none = panicked
unwrap (some name) = ok name

module _ (c : Client) (store_prefix : Text) where
  -- `key.strip_prefix(&self.prefix).unwrap()`
  abbrev pub name_of : Text → IoResult Text
  name_of key = unwrap (strip_prefix store_prefix key)

  -- An object that has both a key and a size, in front of the rows of the others.
  abbrev pub row_onto :
      Option Text → Option ℤ → IoResult (List ObjectMetadata) → IoResult (List ObjectMetadata)
  row_onto none size rest = rest
  row_onto (some key) none rest = rest
  row_onto (some key) (some size) rest = do
    name ← name_of key
    others ← rest
    ok (record { file_name = name; size_bytes = saturating_i64_to_u64 size } ∷ others)

  -- The `filter_map` over a page.
  unfoldable pub rows : List Object → IoResult (List ObjectMetadata)
  rows [] = ok []
  rows (o ∷ os) = row_onto o.key o.size (rows os)

  -- The end of a round, with the rows of its page: on to `continue`, or out of the loop.
  unfoldable pub on_rows :
      (List ObjectMetadata → Option (IoResult (List ObjectMetadata)))
      → List ObjectMetadata
      → Bool
      → IoResult (List ObjectMetadata)
      → Option (IoResult (List ObjectMetadata))
  on_rows continue results truncated (err e) = some (err e)
  on_rows continue results truncated panicked = some panicked
  on_rows continue results true (ok page) = continue (results ++ page)
  on_rows continue results false (ok page) = some (ok (results ++ page))

  unfoldable pub on_page :
      (Option c.Token → List ObjectMetadata → Option (IoResult (List ObjectMetadata)))
      → List ObjectMetadata
      → Option (Page c.Token)
      → Option (IoResult (List ObjectMetadata))
  on_page continue results none = some (err tt)
  on_page continue results (some page) =
      on_rows (continue page.next) results (is_true page.is_truncated) (rows page.contents)

  -- The loop over the pages, a round for every unit of fuel; `none` is that it goes on.
  unfoldable pub list_pages :
      ℕ → Text → Option c.Token → List ObjectMetadata → Option (IoResult (List ObjectMetadata))
  list_pages zero full continuation_token results = none
  list_pages (suc fuel) full continuation_token results =
      on_page (list_pages fuel full) results (c.list_objects full continuation_token)

  unfoldable pub find : ℕ → Text → Option (IoResult (List ObjectMetadata))
  find fuel prefix = list_pages fuel (store_prefix ++ prefix) none []

  unfoldable pub list_all_after : ℕ → Text → Option (IoResult (List ObjectMetadata))
  list_all_after fuel prefix = list_pages fuel (store_prefix ++ prefix) none []

  -- `exists_`, with the size that the head of the object gives.
  unfoldable pub check_exists : Text → Result ReadObjectError (Option ℤ)
  check_exists key = on_head (c.head_object (store_prefix ++ key))

  unfoldable pub exists : Text → IoResult Bool
  exists key = on_exists (check_exists key)

  unfoldable pub metadata : Text → Result ReadObjectError ObjectMetadata
  metadata key = on_metadata key (c.head_object (store_prefix ++ key))

  abbrev state_of : Bool → DeletedState
  state_of true = DeletedState.marked_for_deletion
  state_of false = DeletedState.deleted

  unfoldable pub delete : Text → IoResult DeletedState
  delete key = elim (c.delete_object (store_prefix ++ key)) [
    | none ↦ err tt
    | some delete_marker ↦ ok (state_of (is_true delete_marker))
  ]

  -- The keys of the objects to delete.
  unfoldable pub identifiers : List Object → List Text
  identifiers [] = []
  identifiers (o ∷ os) =
      let rest = identifiers os in elim o.key [ none ↦ rest | some key ↦ key ∷ rest ]

  abbrev add_name : Bool → Text → BulkDeleteOutput → BulkDeleteOutput
  add_name true name o = record o { marked_for_deletion = o.marked_for_deletion ++ name ∷ [] }
  add_name false name o = record o { deleted = o.deleted ++ name ∷ [] }

  -- The loop over the deleted objects.
  unfoldable pub report_deleted : List DeletedObject → BulkDeleteOutput → IoResult BulkDeleteOutput
  report_deleted [] output = ok output
  report_deleted (o ∷ os) output = do
    name ← name_of (elim o.deleted_key [ none ↦ [] | some key ↦ key ])
    report_deleted os (add_name (is_true o.delete_marker) name output)

  abbrev count_errors : ℕ → BulkDeleteOutput → BulkDeleteOutput
  count_errors n o = record o { errors = o.errors + n }

  -- From the keys that were listed.
  unfoldable pub delete_listed : List Text → IoResult BulkDeleteOutput
  delete_listed [] = ok (record { deleted = []; marked_for_deletion = []; errors = 0 })
  delete_listed (key ∷ keys) = elim (c.delete_objects (key ∷ keys)) [
    | none ↦ err tt
    | some (objects, errors) ↦ do
      output ←
          report_deleted objects (record { deleted = []; marked_for_deletion = []; errors = 0 })
      ok (count_errors errors output)
  ]

  -- One page is listed.
  unfoldable pub delete_all : Text → IoResult BulkDeleteOutput
  delete_all prefix = elim (c.list_objects (store_prefix ++ prefix) none) [
    | none ↦ err tt
    | some page ↦ delete_listed (identifiers page.contents)
  ]
