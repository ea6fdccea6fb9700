-- ===== src/Backup/Store/Fs/Listing.antt =====
-- What `find` and `list_all_after` of a directory store return: every matching file, in order.
use prose_pod_server.Common.{
  if◌then◌else◌, true, length, ◌≡◌, refl, Bool, false, ◌&&◌, ◌||◌, List, [], ◌∷◌, Text, same,
  same→eq, ◌∙◌, any, All, lt_text, arith, inl, inr, Bool-cases,
}
use prose_pod_server.Common.TextOrder.{lt_text_asymm, lt_text_trans}
use prose_pod_server.Backup.Store.{ObjectMetadata, ok, >>=-ok}
use prose_pod_server.Backup.Store.Fs.{
  Entry, file, unreadable, not_unicode, Directory, is_present, collect, insert, sort, listing,
}
use prose_pod_server.Backup.Store.Fs.Names.{IsUnicode}

abbrev pub has_name : Text → List ObjectMetadata → Bool
has_name n = any (λ m. same m.file_name n)

-- No later object has a smaller name.
abbrev pub IsAscending : List ObjectMetadata → Type 0
IsAscending [] = Unit
IsAscending (m ∷ ms) = All (λ x. lt_text x.file_name m.file_name ≡ false) ms × IsAscending ms

insert-All {ℓ} :
    (P : ObjectMetadata → Type ℓ) (m : ObjectMetadata) (ms : List ObjectMetadata)
    → P m
    → All P ms
    → All P (insert m ms)
unfolding insert
insert-All P m [] h k = (h, tt)
insert-All P m (x ∷ xs) h k = elim (Bool-cases (lt_text x.file_name m.file_name)) [
  | inl lt ↦ rw lt (k.0, insert-All P m xs h k.1)
  | inr ge ↦ rw ge (h, k)
]

All-ge_trans :
    (m x : ObjectMetadata) (xs : List ObjectMetadata)
    → lt_text x.file_name m.file_name ≡ false
    → All (λ y. lt_text y.file_name x.file_name ≡ false) xs
    → All (λ y. lt_text y.file_name m.file_name ≡ false) xs
All-ge_trans m x [] h k = tt
All-ge_trans m x (y ∷ ys) h k =
    (lt_text_trans m.file_name x.file_name y.file_name h k.0, All-ge_trans m x ys h k.1)

insert-IsAscending :
    (m : ObjectMetadata) (ms : List ObjectMetadata) → IsAscending ms → IsAscending (insert m ms)
unfolding insert
insert-IsAscending m [] h = (tt, tt)
insert-IsAscending m (x ∷ xs) h = elim (Bool-cases (lt_text x.file_name m.file_name)) [
  | inl lt ↦ rw lt (
    insert-All _ m xs (lt_text_asymm x.file_name m.file_name lt) h.0,
    insert-IsAscending m xs h.1,
  )
  | inr ge ↦ rw ge ((ge, All-ge_trans m x xs ge h.0), h)
]

sort-IsAscending : (ms : List ObjectMetadata) → IsAscending (sort ms)
unfolding sort
sort-IsAscending [] = tt
sort-IsAscending (m ∷ ms) = insert-IsAscending m (sort ms) (sort-IsAscending ms)

has_name-insert :
    (n : Text) (m : ObjectMetadata) (ms : List ObjectMetadata)
    → has_name n (insert m ms) ≡ (same m.file_name n || has_name n ms)
unfolding insert
has_name-insert n m [] = refl
has_name-insert n m (x ∷ xs) = ground (arith, has_name-insert n m xs)

has_name-sort : (n : Text) (ms : List ObjectMetadata) → has_name n (sort ms) ≡ has_name n ms
unfolding sort
has_name-sort n [] = refl
has_name-sort n (m ∷ ms) = ground (arith, has_name-insert n m (sort ms), has_name-sort n ms)

has_name-collect :
    (statable test : Text → Bool) (es : List Entry) (ms : List ObjectMetadata) (n : Text)
    → collect statable test es ≡ ok ms
    → has_name n ms ≡ (is_present n es && test n)
unfolding collect is_present
has_name-collect statable test [] ms n h = ground arith
has_name-collect statable test (file m c ∷ es) ms n h = elim (Bool-cases (statable m)) [
  | inl readable ↦
      let (rest, p, q) = >>=-ok (collect statable test es) _ (simp readable at h) in
      ground (arith, has_name-collect statable test es rest n p, same→eq m n)
  | inr hidden ↦ absurd (ground arith)
]
has_name-collect statable test (unreadable ∷ es) ms n h = has_name-collect statable test es ms n h
has_name-collect statable test (not_unicode ∷ es) ms n h = cc

-- A successful listing of a directory is in ascending order, and has exactly the names of the
-- files that pass the test: `find` by prefix, `list_all_after` by being greater.
pub listing_complete :
    (test : Text → Bool) (d : Directory) (ms : List ObjectMetadata)
    → listing test d ≡ ok ms
    → IsAscending ms × ((n : Text) → has_name n ms ≡ (is_present n d.entries && test n))
unfolding listing
listing_complete test d ms h = elim (Bool-cases d.listable) [
  | inl open_dir ↦
      let (found, p, q) = >>=-ok (collect d.statable test d.entries) _ (simp open_dir at h) in
      let e : sort found ≡ ms = ground arith in
      rw (← e) (
        sort-IsAscending found,
        λ n. has_name-sort n found ∙ has_name-collect d.statable test d.entries found n p,
      )
  | inr shut ↦ absurd (ground arith)
]

collect_succeeds :
    (statable test : Text → Bool) (es : List Entry)
    → ((n : Text) → statable n ≡ true)
    → All IsUnicode es
    → (ms : List ObjectMetadata) × (collect statable test es ≡ ok ms)
unfolding collect
collect_succeeds statable test [] h u = ([], refl)
collect_succeeds statable test (file n c ∷ es) h u =
    let (ms, e) = collect_succeeds statable test es h u.1 in
    (if test n then record { file_name = n; size_bytes = length c } ∷ ms else ms, rw (h n, e) refl)
collect_succeeds statable test (unreadable ∷ es) h u = collect_succeeds statable test es h u.1
collect_succeeds statable test (not_unicode ∷ es) h u = absurd u.0

-- A directory that can be listed, with Unicode names, and files whose metadata can be read.
pub listing_succeeds :
    (test : Text → Bool) (d : Directory)
    → d.listable ≡ true
    → ((n : Text) → d.statable n ≡ true)
    → All IsUnicode d.entries
    → (ms : List ObjectMetadata) × (listing test d ≡ ok ms)
unfolding listing
listing_succeeds test d open_dir h u =
    let (ms, e) = collect_succeeds d.statable test d.entries h u in (sort ms, ground arith)
