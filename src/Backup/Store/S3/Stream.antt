-- ===== src/Backup/Store/S3/Stream.antt =====
-- `S3Writer` and `S3Reader` (api/crates/backup/src/stores/s3.rs). What the service answers is a
-- parameter: whether a part is accepted and the upload completed, and the chunks of a download.
use prose_pod_server.Common.{
  ℕ, ◌+◌, ◌*◌, Bool, true, false, Option, none, some, List, [], ◌∷◌, ◌++◌, Text, length, take, drop,
  leb, if◌then◌else◌,
}
use prose_pod_server.Backup.Store.{ok, err, ◌>>=◌}
use prose_pod_server.Backup.Store.Fs.{IoResult}

-- 8 MiB.
abbrev pub upload_part_size : ℕ
upload_part_size = 8 * 1024 * 1024

-- A part of an upload: its number and its bytes.
abbrev pub Part : Type 0
Part = ℕ × Text

pub record S3Writer : Type 0 where
  pub buf : Text
  pub parts : List Part
  pub part_number : ℕ

-- Whether a part is accepted, the upload completed, and the requests for a retention and a legal
-- hold, where those are configured.
pub record UploadService : Type 0 where
  pub upload_part : ℕ → Text → Bool
  pub complete_multipart_upload : List Part → Bool
  pub put_object_retention : Option Bool
  pub put_object_legal_hold : Option Bool

-- The state of `S3Writer::new`.
abbrev pub new_writer : S3Writer
new_writer = record { buf = []; parts = []; part_number = 1 }

abbrev pub succeeds : Bool → IoResult (Unit {0})
succeeds true = ok tt
succeeds false = err tt

abbrev pub if_configured : Option Bool → IoResult (Unit {0})
if_configured none = ok tt
if_configured (some accepted) = succeeds accepted

-- The answer to the upload of the buffer.
unfoldable pub on_upload : S3Writer → Bool → IoResult (Unit {0}) × S3Writer
on_upload w true = (
  ok tt,
  record {
    buf = [];
    parts = w.parts ++ (w.part_number, w.buf) ∷ [];
    part_number = w.part_number + 1;
  },
)
on_upload w false = (err tt, w)

module _ (s : UploadService) where
  abbrev pub flush_buffer : S3Writer → Text → IoResult (Unit {0}) × S3Writer
  flush_buffer w [] = (ok tt, w)
  flush_buffer w (b ∷ bs) = on_upload w (s.upload_part w.part_number (b ∷ bs))

  unfoldable pub flush_part : S3Writer → IoResult (Unit {0}) × S3Writer
  flush_part w = flush_buffer w w.buf

  -- `write`, from the buffer with its bytes put behind.
  unfoldable pub write_buffered : ℕ → S3Writer → IoResult ℕ × S3Writer
  write_buffered written w =
      if leb upload_part_size (length w.buf)
      then (let (r, w') = flush_part w in ((do _ ← r; ok written), w'))
      else (ok written, w)

  unfoldable pub write : Text → S3Writer → IoResult ℕ × S3Writer
  write data_ w = write_buffered (length data_) (record w { buf = w.buf ++ data_ })

  -- `Write::flush`, which uploads the buffer also where it is smaller than a part
  unfoldable pub flush : S3Writer → IoResult (Unit {0}) × S3Writer
  flush w = flush_part w

  -- The parts of the completed upload.
  unfoldable pub complete : S3Writer → IoResult (List Part)
  complete w =
      let (r, w') = flush_part w in
      (do
        _ ← r
        _ ← succeeds (s.complete_multipart_upload w'.parts)
        _ ← if_configured s.put_object_retention
        _ ← if_configured s.put_object_legal_hold
        ok w'.parts)

-- A chunk of the body, or an error.
abbrev pub Chunk : Type 0
Chunk = Option Text

pub record S3Reader : Type 0 where
  pub buf : Text
  pub stream : Option (List Chunk)

abbrev pub new_reader : S3Reader
new_reader = record { buf = []; stream = none }

-- The first `n` bytes of what there is.
abbrev pub hand_out : ℕ → Text → List Chunk → IoResult Text × S3Reader
hand_out n bytes rest = (ok (take n bytes), record { buf = drop n bytes; stream = some rest })

-- The next chunk of an open stream.
unfoldable pub read_chunk : ℕ → List Chunk → IoResult Text × S3Reader
read_chunk n [] = (ok [], record { buf = []; stream = some [] })
read_chunk n (none ∷ rest) = (err tt, record { buf = []; stream = some rest })
read_chunk n (some chunk ∷ rest) = hand_out n chunk rest

-- `ensure_stream`, where `body` is the answer to `get_object`.
unfoldable pub ensure_stream : Option (List Chunk) → Option (List Chunk) → Option (List Chunk)
ensure_stream body none = body
ensure_stream body (some stream) = some stream

unfoldable pub read_stream : ℕ → Option (List Chunk) → IoResult Text × S3Reader
read_stream n none = (err tt, new_reader)
read_stream n (some stream) = read_chunk n stream

-- `read` into a buffer of `n` bytes, over what is left of the current chunk and the stream.
unfoldable pub read_parts :
    Option (List Chunk) → ℕ → Option (List Chunk) → Text → IoResult Text × S3Reader
read_parts body n stream [] = read_stream n (ensure_stream body stream)
read_parts body n stream (b ∷ bs) =
    (ok (take n (b ∷ bs)), record { buf = drop n (b ∷ bs); stream = stream })

unfoldable pub read : Option (List Chunk) → ℕ → S3Reader → IoResult Text × S3Reader
read body n r = read_parts body n r.stream r.buf
