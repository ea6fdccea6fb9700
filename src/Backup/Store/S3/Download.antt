-- ===== src/Backup/Store/S3/Download.antt =====
-- Reading hands out the bytes of the object in order.
use mathlib.Core.List.{append_assoc}
use prose_pod_server.Common.{
  ℕ, ◌≡◌, ◌≤◌, refl, sym, ◌∙◌, ap, Option, none, some, List, [], ◌∷◌, ◌++◌, Text, length, take,
  drop, take-drop, length-take, arith,
}
use prose_pod_server.Backup.Store.{ok}
use prose_pod_server.Backup.Store.S3.Stream.{
  Chunk, S3Reader, hand_out, read_chunk, ensure_stream, read_stream, read_parts, read,
}

-- The bytes of the chunks that arrive.
abbrev pub bytes_of : List Chunk → Text
bytes_of [] = []
bytes_of (none ∷ cs) = bytes_of cs
bytes_of (some chunk ∷ cs) = chunk ++ bytes_of cs

abbrev stream_bytes : Option (List Chunk) → Text
stream_bytes none = []
stream_bytes (some cs) = bytes_of cs

-- What is still to be read.
abbrev pub remaining : Option (List Chunk) → S3Reader → Text
remaining body r = r.buf ++ stream_bytes (ensure_stream body r.stream)

hand_out-remaining :
    (body : Option (List Chunk)) (n : ℕ) (bytes : Text) (rest : List Chunk) (out : Text)
    (r : S3Reader)
    → hand_out n bytes rest ≡ (ok out, r)
    → (bytes ++ bytes_of rest ≡ out ++ remaining body r) × (length out ≤ n)
unfolding ensure_stream
hand_out-remaining body n bytes rest out r h =
    let e : out ≡ take n bytes = cc in
    let e' : r ≡ record { buf = drop n bytes; stream = some rest } = cc in
    rw (e, e')
      (
        ap (λ b. b ++ bytes_of rest) (sym (take-drop n bytes))
            ∙ append_assoc (take n bytes) (drop n bytes) (bytes_of rest),
        length-take n bytes,
      )

read_stream-remaining :
    (body stream : Option (List Chunk)) (n : ℕ) (out : Text) (r : S3Reader)
    → read_stream n stream ≡ (ok out, r)
    → (stream_bytes stream ≡ out ++ remaining body r) × (length out ≤ n)
unfolding read_stream read_chunk ensure_stream
read_stream-remaining body none n out r h = cc
read_stream-remaining body (some []) n out r h =
    let e : out ≡ [] = cc in
    let e' : r ≡ record { buf = []; stream = some [] } = cc in rw (e, e') (refl, omega arith)
read_stream-remaining body (some (none ∷ rest)) n out r h = cc
read_stream-remaining body (some (some chunk ∷ rest)) n out r h =
    hand_out-remaining body n chunk rest out r h

read_parts-remaining :
    (body stream : Option (List Chunk)) (n : ℕ) (buf out : Text) (r : S3Reader)
    → read_parts body n stream buf ≡ (ok out, r)
    → (buf ++ stream_bytes (ensure_stream body stream) ≡ out ++ remaining body r) × (length out ≤ n)
unfolding read_parts
read_parts-remaining body stream n [] out r h =
    read_stream-remaining body (ensure_stream body stream) n out r h
read_parts-remaining body stream n (b ∷ bs) out r h =
    let e : out ≡ take n (b ∷ bs) = cc in
    let e' : r ≡ record { buf = drop n (b ∷ bs); stream = stream } = cc in
    let rest = stream_bytes (ensure_stream body stream) in
    rw (e, e')
      (
        ap (λ x. x ++ rest) (sym (take-drop n (b ∷ bs)))
            ∙ append_assoc (take n (b ∷ bs)) (drop n (b ∷ bs)) rest,
        length-take n (b ∷ bs),
      )

-- A successful read from a bucket returns at most as many bytes as there is room for, the first of
-- those that are still to be read, and leaves the others.
pub read-remaining :
    (body : Option (List Chunk)) (n : ℕ) (r r' : S3Reader) (out : Text)
    → read body n r ≡ (ok out, r')
    → (remaining body r ≡ out ++ remaining body r') × (length out ≤ n)
unfolding read
read-remaining body n r r' out h = read_parts-remaining body r.stream n r.buf out r' h
