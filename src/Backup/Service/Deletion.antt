-- ===== src/Backup/Service/Deletion.antt =====
-- What the deletion of a backup leaves in the two directories and the cache.
use prose_pod_server.Common.{
  ℕ, ◌≡◌, refl, sym, ◌∙◌, ap, not, ◌&&◌, Option, Text, same, lt_text, arith,
}
use prose_pod_server.Backup.Cache.{StoreCache, remove}
use prose_pod_server.Backup.Cache.Invariant.{IsConsistent, without, remove-without}
use prose_pod_server.Backup.Store.{DeletedState, BulkDeleteOutput, ok, err, panicked}
use prose_pod_server.Backup.Store.Fs.{IoResult, Directory, is_present, unlink, delete, delete_all}
use prose_pod_server.Backup.Store.Fs.Names.{is_present-unlink}
use prose_pod_server.Backup.Store.Fs.Deletion.{delete_all-ok}
use prose_pod_server.Backup.Service.{
  Stored, forget, cached_delete, done, after_delete, delete_backup,
}

delete-ok :
    (key : Text) (d d' : Directory) (state : DeletedState)
    → delete d key ≡ (ok state, d')
    → d'.entries ≡ unlink key d.entries
unfolding delete
delete-ok key d d' state h = ground arith

err-ne-ok : (e : Unit {0}) → ¬ (◌≡◌ {A = IoResult (Unit {0})} (err e) (ok tt))
err-ne-ok e h = cc

panicked-ne-ok : ¬ (◌≡◌ {A = IoResult (Unit {0})} panicked (ok tt))
panicked-ne-ok h = cc

done-ok : (r : IoResult BulkDeleteOutput) → done r ≡ ok tt → (o : BulkDeleteOutput) × (r ≡ ok o)
done-ok (ok o) h = (o, refl)
done-ok (err e) h = cc
done-ok panicked h = cc

forget-ok :
    (key : Text) (c : StoreCache) (r : IoResult DeletedState) (d : Directory) (state : DeletedState)
    → (forget key c (r, d)).0 ≡ ok state
    → (r ≡ ok state) × ((forget key c (r, d)).1 ≡ (d, remove key c))
unfolding forget
forget-ok key c (ok state') d state h = (h, refl)
forget-ok key c (err e) d state h = cc
forget-ok key c panicked d state h = cc

after_delete-ok :
    (key : Text) (checks d : Directory) (c : StoreCache) (r : IoResult DeletedState) (s : Stored)
    → after_delete key checks (r, (d, c)) ≡ (ok tt, s)
    → (state : DeletedState) × (r ≡ ok state)
      × (s ≡ record { backups = d; cached = c; checks = (delete_all checks key).1 })
      × ((o : BulkDeleteOutput) × ((delete_all checks key).0 ≡ ok o))
unfolding after_delete
after_delete-ok key checks d c (ok state) s h =
    let (o, e) = done-ok (delete_all checks key).0 (ap (λ x. x.0) h) in
    (state, refl, sym (ap (λ x. x.1) h), (o, e))
after_delete-ok key checks d c (err e) s h = absurd (err-ne-ok e (ap (λ x. x.0) h))
after_delete-ok key checks d c panicked s h = absurd (panicked-ne-ok (ap (λ x. x.0) h))

-- After a successful deletion over two directories and a consistent cache, of the backups only the
-- one of that name is gone, the cache has lost exactly its entries and stays consistent, and of
-- the checks exactly the removable ones with a greater name are gone.
pub delete_backup-removes :
    (max_size : Option ℕ) (key n : Text) (s s' : Stored)
    → IsConsistent max_size s.cached
    → delete_backup key s ≡ (ok tt, s')
    → (is_present n s'.backups.entries ≡ (is_present n s.backups.entries && not (same key n)))
      × (s'.cached.entries ≡ without key s.cached.entries)
      × IsConsistent max_size s'.cached
      × (is_present n s'.checks.entries
          ≡ (is_present n s.checks.entries && not (lt_text key n && s.checks.removable n)))
unfolding delete_backup cached_delete
delete_backup-removes max_size key n s s' v h =
    let deleted = delete s.backups key in
    let forgotten = forget key s.cached deleted in
    let (state, r, e, (out, deleted_all)) =
      after_delete-ok key s.checks forgotten.1.0 forgotten.1.1 forgotten.0 s' h in
    let (r', e') = forget-ok key s.cached deleted.0 deleted.1 state r in
    let gone : deleted.1.entries ≡ unlink key s.backups.entries =
      delete-ok key s.backups deleted.1 state (ap (λ x. (x, deleted.1)) r') in
    let backups : s'.backups ≡ deleted.1 = ap (λ x. x.backups) e ∙ ap (λ x. x.0) e' in
    let cached : s'.cached ≡ remove key s.cached = ap (λ x. x.cached) e ∙ ap (λ x. x.1) e' in
    let (without_key, consistent) = remove-without max_size key s.cached v in
    (
      ap (λ x. is_present n x.entries) backups
          ∙ ap (is_present n) gone
          ∙ is_present-unlink key n s.backups.entries,
      ap (λ x. x.entries) cached ∙ without_key,
      rw cached consistent,
      ap (λ x. is_present n x.checks.entries) e ∙ delete_all-ok s.checks key n out deleted_all,
    )
