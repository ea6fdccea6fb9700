-- ===== src/Backup/Store/Fs/Deletion.antt =====
-- What `FsStore::delete_all` deletes.
use prose_pod_server.Common.{
  ◌≡◌, refl, ap, ◌∙◌, Bool, true, false, not, ◌&&◌, Bool-cases, List, [], ◌∷◌, Text, same, same→eq,
  All, lt_text, inl, inr, arith,
}
use prose_pod_server.Backup.Store.{BulkDeleteOutput, ok, err, panicked}
use prose_pod_server.Backup.Store.Fs.{
  IoResult, Entry, file, unreadable, not_unicode, Directory, is_present, delete, delete_entry,
  then_entries, delete_entries, delete_all, no_output,
}
use prose_pod_server.Backup.Store.Fs.Names.{IsUnicode, is_present-unlink}

panicked-ne-ok :
    (out : BulkDeleteOutput) → ¬ (◌≡◌ {A = IoResult BulkDeleteOutput} panicked (ok out))
panicked-ne-ok out h = cc

-- One round takes away the entry's name if it is greater than the prefix and can be removed.
abbrev goes : Text → Entry → Directory → Text → Bool
goes prefix (file m c) d n = same m n && lt_text prefix m && d.removable m
goes prefix unreadable d n = false
goes prefix not_unicode d n = false

delete_entry-is_present :
    (prefix : Text) (e : Entry) (o : BulkDeleteOutput) (d : Directory) (n : Text)
    → (is_present n (delete_entry prefix e (o, d)).1.entries
        ≡ (is_present n d.entries && not (goes prefix e d n)))
      × ((delete_entry prefix e (o, d)).1.removable ≡ d.removable)
unfolding delete_entry delete
delete_entry-is_present prefix (file m c) o d n =
    ground (arith, is_present-unlink m n d.entries, same→eq m n)
delete_entry-is_present prefix unreadable o d n = ground arith
delete_entry-is_present prefix not_unicode o d n = ground arith

delete_entry_succeeds :
    (prefix : Text) (e : Entry) (o : BulkDeleteOutput) (d : Directory)
    → IsUnicode e
    → (o' : BulkDeleteOutput) × ((delete_entry prefix e (o, d)).0 ≡ ok o')
unfolding delete_entry
delete_entry_succeeds prefix (file m c) o d h = elim (Bool-cases (lt_text prefix m)) [
  | inl p ↦ rw p (_, refl)
  | inr p ↦ rw p (_, refl)
]
delete_entry_succeeds prefix unreadable o d h = (_, refl)
delete_entry_succeeds prefix not_unicode o d h = absurd h

delete_entry-not_unicode :
    (prefix : Text) (s : BulkDeleteOutput × Directory)
    (rest : BulkDeleteOutput × Directory → IoResult BulkDeleteOutput × Directory)
    → then_entries (delete_entry prefix not_unicode s) rest ≡ (panicked, s.1)
unfolding delete_entry
delete_entry-not_unicode prefix (o, d) rest = refl

then_entries-ok :
    (x : IoResult BulkDeleteOutput × Directory)
    (rest : BulkDeleteOutput × Directory → IoResult BulkDeleteOutput × Directory)
    (o : BulkDeleteOutput)
    → x.0 ≡ ok o
    → then_entries x rest ≡ rest (o, x.1)
then_entries-ok (ok a, d) rest o h = let e : a ≡ o = cc in ap (λ z. rest (z, d)) e
then_entries-ok (err e, d) rest o h = cc
then_entries-ok (panicked, d) rest o h = cc

-- The loop, over any list of entries.
delete_entries-is_present :
    (prefix : Text) (es : List Entry) (o : BulkDeleteOutput) (d : Directory) (n : Text)
    (out : BulkDeleteOutput)
    → (delete_entries prefix es (o, d)).0 ≡ ok out
    → is_present n (delete_entries prefix es (o, d)).1.entries
      ≡ (is_present n d.entries && not (is_present n es && lt_text prefix n && d.removable n))
unfolding delete_entries is_present
delete_entries-is_present prefix [] o d n out h = ground arith
delete_entries-is_present prefix (file m c ∷ es) o d n out h =
    let x = delete_entry prefix (file m c) (o, d) in
    let (o', e) = delete_entry_succeeds prefix (file m c) o d tt in
    let step = then_entries-ok x (delete_entries prefix es) o' e in
    let (present, removable) = delete_entry-is_present prefix (file m c) o d n in
    let rest = delete_entries-is_present prefix es o' x.1 n out (rw step at h) in
    rw step (ground (arith, present, removable, rest))
delete_entries-is_present prefix (unreadable ∷ es) o d n out h =
    let x = delete_entry prefix unreadable (o, d) in
    let (o', e) = delete_entry_succeeds prefix unreadable o d tt in
    let step = then_entries-ok x (delete_entries prefix es) o' e in
    let (present, removable) = delete_entry-is_present prefix unreadable o d n in
    let rest = delete_entries-is_present prefix es o' x.1 n out (rw step at h) in
    rw step (ground (arith, present, removable, rest))
delete_entries-is_present prefix (not_unicode ∷ es) o d n out h =
    let step = delete_entry-not_unicode prefix (o, d) (delete_entries prefix es) in
    absurd (panicked-ne-ok out (rw step at h))

delete_entries_succeed :
    (prefix : Text) (es : List Entry) (o : BulkDeleteOutput) (d : Directory)
    → All IsUnicode es
    → (out : BulkDeleteOutput) × ((delete_entries prefix es (o, d)).0 ≡ ok out)
unfolding delete_entries
delete_entries_succeed prefix [] o d h = (o, refl)
delete_entries_succeed prefix (e ∷ es) o d (u, h) =
    let x = delete_entry prefix e (o, d) in
    let (o', p) = delete_entry_succeeds prefix e o d u in
    let (out, q) = delete_entries_succeed prefix es o' x.1 h in
    (out, ap (λ z. z.0) (then_entries-ok x (delete_entries prefix es) o' p) ∙ q)

-- Where `delete_all` succeeds.
pub delete_all-ok :
    (d : Directory) (prefix n : Text) (out : BulkDeleteOutput)
    → (delete_all d prefix).0 ≡ ok out
    → is_present n (delete_all d prefix).1.entries
      ≡ (is_present n d.entries && not (lt_text prefix n && d.removable n))
unfolding delete_all
delete_all-ok d prefix n out h = elim (Bool-cases d.listable) [
  | inl p ↦
      let rest = delete_entries-is_present prefix d.entries no_output d n out (simp p at h) in
      ground (arith, rest)
  | inr p ↦ absurd (ground arith)
]

-- In a directory that can be listed and whose names are Unicode, `delete_all` succeeds and deletes
-- exactly the removable files whose name is greater than the prefix in the order of strings. Whether
-- a name begins with the prefix does not matter.
pub is_present-delete_all :
    (d : Directory) (prefix n : Text)
    → d.listable ≡ true
    → All IsUnicode d.entries
    → ((out : BulkDeleteOutput) × ((delete_all d prefix).0 ≡ ok out))
      × (is_present n (delete_all d prefix).1.entries
          ≡ (is_present n d.entries && not (lt_text prefix n && d.removable n)))
unfolding delete_all
is_present-delete_all d prefix n h u =
    let (out, p) = delete_entries_succeed prefix d.entries no_output d u in
    let q : (delete_all d prefix).0 ≡ ok out = simp h p in
    ((out, q), delete_all-ok d prefix n out q)
