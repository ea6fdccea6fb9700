-- ===== src/Backup/Store/S3/Accepted.antt =====
-- An upload that the service accepts completes.
use prose_pod_server.Common.{
  ℕ, ◌≡◌, refl, ◌∙◌, ap, true, List, [], ◌∷◌, ◌++◌, Text, length, leb, inl, inr, Bool-cases,
}
use prose_pod_server.Backup.Store.{ok, ◌>>=◌}
use prose_pod_server.Backup.Store.S3.Stream.{
  Part, S3Writer, UploadService, upload_part_size, new_writer, on_upload, flush_buffer, flush_part,
  write_buffered, write, complete, if_configured,
}
use prose_pod_server.Backup.Store.S3.Upload.{bodies, all_written, write_all, upload, upload-bodies}

module _ (s : UploadService) where
  -- The service accepts every request.
  pub record Accepts : Type 0 where
    pub parts : (n : ℕ) (b : Text) → s.upload_part n b ≡ true
    pub completes : (ps : List Part) → s.complete_multipart_upload ps ≡ true
    pub retention : if_configured s.put_object_retention ≡ ok tt
    pub legal_hold : if_configured s.put_object_legal_hold ≡ ok tt

  flush_buffer-Accepts : (w : S3Writer) (buf : Text) → Accepts → (flush_buffer s w buf).0 ≡ ok tt
  unfolding on_upload
  flush_buffer-Accepts w [] a = refl
  flush_buffer-Accepts w (b ∷ bs) a = ap (λ t. (on_upload w t).0) (a.parts w.part_number (b ∷ bs))

  write_buffered-Accepts : (n : ℕ) (w : S3Writer) → Accepts → (write_buffered s n w).0 ≡ ok n
  unfolding write_buffered flush_part
  write_buffered-Accepts n w a = elim (Bool-cases (leb upload_part_size (length w.buf))) [
    | inl big ↦ rw (big, flush_buffer-Accepts w w.buf a) refl
    | inr small ↦ rw small refl
  ]

  write_all-Accepts :
      (ds : List Text) (w : S3Writer) → Accepts → (w' : S3Writer) × (write_all s ds w ≡ ok w')
  unfolding write
  write_all-Accepts [] w a = (w, refl)
  write_all-Accepts (d ∷ ds) w a =
      let (w', e) = write_all-Accepts ds (write s d w).1 a in
      (
        w',
        ap (λ r. r >>= (λ _. write_all s ds (write s d w).1))
              (write_buffered-Accepts (length d) (record w { buf = w.buf ++ d }) a)
            ∙ e,
      )

  complete-Accepts : (w : S3Writer) → Accepts → complete s w ≡ ok (flush_buffer s w w.buf).1.parts
  unfolding complete flush_part
  complete-Accepts w a =
      rw
        (
          flush_buffer-Accepts w w.buf a,
          a.completes (flush_buffer s w w.buf).1.parts,
          a.retention,
          a.legal_hold,
        )
        refl

  -- Where the service accepts every request, the upload completes with the bytes that were written.
  pub upload-Accepts :
      (ds : List Text)
      → Accepts
      → (ps : List Part) × (upload s ds ≡ ok ps) × (bodies ps ≡ all_written ds)
  upload-Accepts ds a =
      let (w, e) = write_all-Accepts ds new_writer a in
      let e' : upload s ds ≡ ok (flush_buffer s w w.buf).1.parts =
        ap (λ r. r >>= complete s) e ∙ complete-Accepts w a in
      ((flush_buffer s w w.buf).1.parts, e', (upload-bodies s ds _ e').0)
