-- ===== src/Backup/Store/S3/Tests.antt =====
-- A bucket whose listing has two pages, and small transfers.
use prose_pod_server.Common.{
  ◌≡◌, ◌↔◌, ◌≤◌, refl, Bool, true, false, Option, none, some, List, [], ◌∷◌, ◌++◌, map, Text, text,
  All, length, starts_with, arith,
}
use prose_pod_server.Common.Int.{ℤ, pos}
use prose_pod_server.Backup.Store.{ObjectMetadata, ok, object_not_found, err}
use prose_pod_server.Backup.Store.S3.{
  Client, Page, found, failed, find, list_all_after, exists, metadata,
}
use prose_pod_server.Backup.Store.S3.Pages.{
  Named, object_of, metadata_of, find-Serves, list_all_after-starts_with, exists-metadata,
}
use prose_pod_server.Backup.Store.S3.Stream.{
  Part, UploadService, new_reader, write, write_buffered, complete, flush_part, on_upload, read,
  read_parts, read_stream, ensure_stream, read_chunk,
}
use prose_pod_server.Backup.Store.S3.Upload.{
  bodies, IsNumbered, IsFullButLast, upload, upload-bodies,
}
use prose_pod_server.Backup.Store.S3.Accepted.{upload-Accepts}
use prose_pod_server.Backup.Store.S3.Download.{remaining, read-remaining}

abbrev store_prefix : Text
store_prefix = text "s/"

abbrev page_of : List Named → Option Bool → Option Bool → Page Bool
page_of os truncated token = record {
  contents = map (object_of store_prefix) os;
  is_truncated = truncated;
  next = token;
}

abbrev first_page : List Named
first_page = (text "p-1", pos 5) ∷ []

abbrev second_page : List Named
second_page = (text "p-2", pos 6) ∷ []

-- No request about a single object is answered.
abbrev bucket : Client
bucket = record {
  Token = Bool;
  list_objects = λ prefix token. elim token [
    | none ↦ some (page_of first_page (some true) (some true))
    | some t ↦ some (page_of second_page none none)
  ];
  head_object = λ key. failed;
  delete_object = λ key. none;
  delete_objects = λ keys. none;
}

find-Serves_example :
    find bucket store_prefix 2 (text "p-")
    ≡ some (ok (metadata_of (text "p-1", pos 5) ∷ metadata_of (text "p-2", pos 6) ∷ []))
find-Serves_example =
    find-Serves bucket store_prefix (text "p-") (first_page ∷ second_page ∷ []) 2
      (
        page_of first_page (some true) (some true),
        refl,
        refl,
        refl,
        (page_of second_page none none, refl, refl, refl),
      )
      (omega arith)

list_all_after-starts_with_test :
    (ms : List ObjectMetadata) × (list_all_after bucket store_prefix 2 (text "p-") ≡ some (ok ms))
    × All (λ m. starts_with m.file_name (text "p-") ≡ true) ms
unfolding starts_with
list_all_after-starts_with_test =
    list_all_after-starts_with bucket store_prefix (text "p-") (first_page ∷ second_page ∷ []) 2
      (
        page_of first_page (some true) (some true),
        refl,
        refl,
        refl,
        (page_of second_page none none, refl, refl, refl),
      )
      (omega arith) (refl, (refl, tt))

exists-metadata_example :
    (b : Bool) × (exists bucket store_prefix (text "p-1.sig") ≡ ok b)
    × ((b ≡ true)
        ↔ ((size : Option ℤ) × (bucket.head_object (store_prefix ++ text "p-1.sig") ≡ found size)))
    × ((b ≡ false) ↔ (metadata bucket store_prefix (text "p-1.sig") ≡ err object_not_found))
exists-metadata_example = exists-metadata bucket store_prefix (text "p-1.sig")

abbrev accepting : UploadService
accepting = record {
  upload_part = λ n b. true;
  complete_multipart_upload = λ ps. true;
  put_object_retention = none;
  put_object_legal_hold = some true;
}

upload-bodies_example :
    (bodies ((1, text "abc") ∷ []) ≡ text "abc")
    × IsNumbered 1 ((1, text "abc") ∷ [])
    × IsFullButLast ((1, text "abc") ∷ [])
unfolding write write_buffered complete flush_part on_upload
upload-bodies_example =
    upload-bodies accepting (text "a" ∷ text "bc" ∷ []) ((1, text "abc") ∷ []) refl

upload-Accepts_test :
    (ps : List Part) × (upload accepting (text "a" ∷ text "bc" ∷ []) ≡ ok ps)
    × (bodies ps ≡ text "abc")
upload-Accepts_test =
    upload-Accepts accepting (text "a" ∷ text "bc" ∷ [])
      (record { parts = λ n b. refl; completes = λ ps. refl; retention = refl; legal_hold = refl })

read-remaining_test :
    (remaining (some (some (text "abc") ∷ [])) new_reader
      ≡ text "ab"
        ++ remaining (some (some (text "abc") ∷ [])) (record { buf = text "c"; stream = some [] }))
    × (length (text "ab") ≤ 2)
unfolding read read_parts read_stream ensure_stream read_chunk
read-remaining_test =
    read-remaining (some (some (text "abc") ∷ [])) 2 new_reader
      (record { buf = text "c"; stream = some [] }) (text "ab") refl
