-- ===== src/Backup/Store/S3/Upload.antt =====
-- A multipart upload holds exactly the bytes written, in parts that the service accepts.
use mathlib.Core.List.{append-nil, append_assoc}
use prose_pod_server.Common.{
  ℕ, suc, ◌+◌, ◌≡◌, ◌≤◌, refl, sym, ◌∙◌, ap, Bool, true, false, List, [], ◌∷◌, ◌++◌, Text, length,
  All, All-append, leb, arith, inl, inr, Bool-cases,
}
use prose_pod_server.Backup.Store.{ok, err, panicked, ◌>>=◌, >>=-ok}
use prose_pod_server.Backup.Store.Fs.{IoResult}
use prose_pod_server.Backup.Store.S3.Stream.{
  Part, S3Writer, UploadService, upload_part_size, new_writer, on_upload, flush_buffer, flush_part,
  write_buffered, write, complete, succeeds, if_configured,
}

-- The bytes of the parts, in order.
abbrev pub bodies : List Part → Text
bodies [] = []
bodies (p ∷ ps) = p.1 ++ bodies ps

-- The parts are numbered from `n` on.
abbrev pub IsNumbered : ℕ → List Part → Type 0
IsNumbered n [] = Unit
IsNumbered n (p ∷ ps) = (p.0 ≡ n) × IsNumbered (suc n) ps

abbrev IsFull : Part → Type 0
IsFull p = upload_part_size ≤ length p.1

-- Every part but the last has the size of a part at least.
abbrev pub IsFullButLast : List Part → Type 0
IsFullButLast [] = Unit
IsFullButLast (p ∷ []) = Unit
IsFullButLast (p ∷ q ∷ ps) = IsFull p × IsFullButLast (q ∷ ps)

abbrev pub all_written : List Text → Text
all_written [] = []
all_written (d ∷ ds) = d ++ all_written ds

-- `write_all`, chunk by chunk up to the first error, then `complete`.
abbrev pub write_all : UploadService → List Text → S3Writer → IoResult S3Writer
write_all s [] w = ok w
write_all s (d ∷ ds) w = let (r, w') = write s d w in (do _ ← r; write_all s ds w')

abbrev pub upload : UploadService → List Text → IoResult (List Part)
upload s ds = do w ← write_all s ds new_writer; complete s w

-- The writer holds these bytes, in full parts and the buffer.
record Holds (bytes : Text) (w : S3Writer) : Type 0 where
  content : bodies w.parts ++ w.buf ≡ bytes
  numbered : IsNumbered 1 w.parts
  next : w.part_number ≡ suc (length w.parts)
  full : All IsFull w.parts

bodies-snoc : (ps : List Part) (p : Part) → bodies (ps ++ p ∷ []) ≡ bodies ps ++ p.1
bodies-snoc [] p = append-nil p.1
bodies-snoc (q ∷ ps) p =
    ap (λ b. q.1 ++ b) (bodies-snoc ps p) ∙ sym (append_assoc q.1 (bodies ps) p.1)

IsNumbered-snoc :
    (n : ℕ) (ps : List Part) (p : Part)
    → IsNumbered n ps
    → p.0 ≡ n + length ps
    → IsNumbered n (ps ++ p ∷ [])
IsNumbered-snoc n [] p h e = (omega arith, tt)
IsNumbered-snoc n (q ∷ ps) p h e = (h.0, IsNumbered-snoc (suc n) ps p h.1 (omega arith))

All-IsFullButLast : (ps : List Part) → All IsFull ps → IsFullButLast ps
All-IsFullButLast [] h = tt
All-IsFullButLast (p ∷ []) h = tt
All-IsFullButLast (p ∷ q ∷ ps) h = (h.0, All-IsFullButLast (q ∷ ps) h.1)

IsFullButLast-snoc : (ps : List Part) (p : Part) → All IsFull ps → IsFullButLast (ps ++ p ∷ [])
IsFullButLast-snoc [] p h = tt
IsFullButLast-snoc (q ∷ []) p h = (h.0, tt)
IsFullButLast-snoc (q ∷ q' ∷ ps) p h = (h.0, IsFullButLast-snoc (q' ∷ ps) p h.1)

length-snoc : (ps : List Part) (p : Part) → length (ps ++ p ∷ []) ≡ suc (length ps)
length-snoc [] p = refl
length-snoc (q ∷ ps) p = omega (arith, length-snoc ps p)

-- What a flush leaves: nothing in the buffer, and every byte in a numbered part.
record Flushed (bytes : Text) (w : S3Writer) : Type 0 where
  empty : w.buf ≡ []
  content : bodies w.parts ≡ bytes
  numbered : IsNumbered 1 w.parts
  next : w.part_number ≡ suc (length w.parts)
  full_but_last : IsFullButLast w.parts

on_upload-Flushed :
    (bytes : Text) (w w' : S3Writer) (accepted : Bool)
    → Holds bytes w
    → on_upload w accepted ≡ (ok tt, w')
    → Flushed bytes w'
unfolding on_upload
on_upload-Flushed bytes w w' true i h =
    let p : Part = (w.part_number, w.buf) in
    let e : w' ≡ record { buf = []; parts = w.parts ++ p ∷ []; part_number = w.part_number + 1 } =
      cc in
    rw e (record {
      empty = refl;
      content = bodies-snoc w.parts p ∙ i.content;
      numbered = IsNumbered-snoc 1 w.parts p i.numbered (omega (arith, i.next));
      next = omega (arith, i.next, length-snoc w.parts p);
      full_but_last = IsFullButLast-snoc w.parts p i.full;
    })
on_upload-Flushed bytes w w' false i h = cc

on_upload-Holds :
    (bytes : Text) (w w' : S3Writer) (accepted : Bool)
    → Holds bytes w
    → upload_part_size ≤ length w.buf
    → on_upload w accepted ≡ (ok tt, w')
    → Holds bytes w'
unfolding on_upload
on_upload-Holds bytes w w' true i big h =
    let p : Part = (w.part_number, w.buf) in
    let e : w' ≡ record { buf = []; parts = w.parts ++ p ∷ []; part_number = w.part_number + 1 } =
      cc in
    rw e (record {
      content = append-nil (bodies (w.parts ++ p ∷ [])) ∙ bodies-snoc w.parts p ∙ i.content;
      numbered = IsNumbered-snoc 1 w.parts p i.numbered (omega (arith, i.next));
      next = omega (arith, i.next, length-snoc w.parts p);
      full = All-append IsFull w.parts (p ∷ []) i.full (big, tt);
    })
on_upload-Holds bytes w w' false i big h = cc

module _ (s : UploadService) where
  flush_buffer-Flushed :
      (bytes : Text) (w w' : S3Writer) (buf : Text)
      → w.buf ≡ buf
      → Holds bytes w
      → flush_buffer s w buf ≡ (ok tt, w')
      → Flushed bytes w'
  flush_buffer-Flushed bytes w w' [] e i h =
      let same : w' ≡ w = cc in
      rw same (record {
        empty = e;
        content =
            sym (append-nil (bodies w.parts)) ∙ ap (λ b. bodies w.parts ++ b) (sym e) ∙ i.content;
        numbered = i.numbered;
        next = i.next;
        full_but_last = All-IsFullButLast w.parts i.full;
      })
  flush_buffer-Flushed bytes w w' (b ∷ bs) e i h =
      on_upload-Flushed bytes w w' (s.upload_part w.part_number (b ∷ bs)) i h

  flush_buffer-Holds :
      (bytes : Text) (w w' : S3Writer) (buf : Text)
      → w.buf ≡ buf
      → Holds bytes w
      → upload_part_size ≤ length w.buf
      → flush_buffer s w buf ≡ (ok tt, w')
      → Holds bytes w'
  flush_buffer-Holds bytes w w' [] e i big h = let same : w' ≡ w = cc in rw same i
  flush_buffer-Holds bytes w w' (b ∷ bs) e i big h =
      on_upload-Holds bytes w w' (s.upload_part w.part_number (b ∷ bs)) i big h

  finished :
      (n : ℕ) (r : IoResult (Unit {0})) (w w' : S3Writer) (k : ℕ)
      → ◌≡◌ {A = IoResult ℕ × S3Writer} ((do _ ← r; ok n), w) (ok k, w')
      → (r ≡ ok tt) × (w ≡ w')
  finished n (ok u) w w' k h = (refl, cc)
  finished n (err e) w w' k h = cc
  finished n panicked w w' k h = cc

  write_buffered-Holds :
      (bytes : Text) (n k : ℕ) (w w' : S3Writer)
      → Holds bytes w
      → write_buffered s n w ≡ (ok k, w')
      → Holds bytes w'
  unfolding write_buffered flush_part
  write_buffered-Holds bytes n k w w' i h =
      elim (Bool-cases (leb upload_part_size (length w.buf))) [
        | inl big ↦
            let (r, w'') = flush_buffer s w w.buf in
            let (done, same) =
              finished n (flush_buffer s w w.buf).0 (flush_buffer s w w.buf).1 w' k
                (simp big at h) in
            rw (← same) (
              flush_buffer-Holds bytes w _ w.buf refl i (ground arith)
                (ap (λ x. (x, (flush_buffer s w w.buf).1)) done))
        | inr small ↦ let same : w' ≡ w = ground arith in rw same i
      ]

  write-Holds :
      (bytes data_ : Text) (k : ℕ) (w w' : S3Writer)
      → Holds bytes w
      → write s data_ w ≡ (ok k, w')
      → Holds (bytes ++ data_) w'
  unfolding write
  write-Holds bytes data_ k w w' i h =
      write_buffered-Holds (bytes ++ data_) (length data_) k (record w { buf = w.buf ++ data_ }) w'
        (record {
          content =
              sym (append_assoc (bodies w.parts) w.buf data_) ∙ ap (λ b. b ++ data_) i.content;
          numbered = i.numbered;
          next = i.next;
          full = i.full;
        })
        h

  write_all-Holds :
      (bytes : Text) (ds : List Text) (w w' : S3Writer)
      → Holds bytes w
      → write_all s ds w ≡ ok w'
      → Holds (bytes ++ all_written ds) w'
  write_all-Holds bytes [] w w' i h = let e : w ≡ w' = cc in rw (← e, append-nil bytes) i
  write_all-Holds bytes (d ∷ ds) w w' i h =
      let (k, e, h') = >>=-ok (write s d w).0 _ h in
      rw (← append_assoc bytes d (all_written ds)) (
        write_all-Holds (bytes ++ d) ds (write s d w).1 w'
          (write-Holds bytes d k w (write s d w).1 i (ap (λ x. (x, (write s d w).1)) e)) h')

  -- The parts of a completed upload to a bucket hold exactly the bytes that were written, are
  -- numbered from 1 on, and all but the last have at least 8 MiB.
  pub upload-bodies :
      (ds : List Text) (ps : List Part)
      → upload s ds ≡ ok ps
      → (bodies ps ≡ all_written ds) × IsNumbered 1 ps × IsFullButLast ps
  unfolding complete flush_part
  upload-bodies ds ps h =
      let (w, e, h1) = >>=-ok (write_all s ds new_writer) _ h in
      let i =
        write_all-Holds [] ds new_writer w
          (record { content = refl; numbered = tt; next = refl; full = tt }) e in
      let (a, f, h2) = >>=-ok (flush_buffer s w w.buf).0 _ h1 in
      let (b, g, h3) =
        >>=-ok (succeeds (s.complete_multipart_upload (flush_buffer s w w.buf).1.parts)) _ h2 in
      let (c, g', h4) = >>=-ok (if_configured s.put_object_retention) _ h3 in
      let (d, g'', h5) = >>=-ok (if_configured s.put_object_legal_hold) _ h4 in
      let fl =
        flush_buffer-Flushed (all_written ds) w (flush_buffer s w w.buf).1 w.buf refl i
          (ap (λ x. (x, (flush_buffer s w w.buf).1)) f) in
      let same : (flush_buffer s w w.buf).1.parts ≡ ps = cc in
      rw (← same) (fl.content, fl.numbered, fl.full_but_last)
