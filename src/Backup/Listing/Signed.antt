-- ===== src/Backup/Listing/Signed.antt =====
-- With both stores in directories, the listing shows which backups are signed.
use mathlib.Core.List.{reverse}
use prose_pod_server.Common.{
  ◌≡◌, refl, ◌∙◌, ap, Bool, true, false, not, ◌&&◌, ◌||◌, some, List, [], ◌∷◌, ◌++◌, map, Text,
  text, same, same→eq, split_once, ◌==◌, keep, lt_text, split, ends_with, arith, inl, inr,
  Bool-cases, Option-cases,
}
use prose_pod_server.Common.TextOrder.{lt_text-append, lt_text_irrefl}
use prose_pod_server.Common.Members.{
  IsIn, IsIn-reverse, IsIn-keep, All-IsIn, All-keep, contains, contains-keep,
}
use prose_pod_server.Backup.Id.{External, BackupId, dot, parse}
use prose_pod_server.Backup.Store.{ObjectMetadata, ok, >>=-ok}
use prose_pod_server.Backup.Store.Fs.{Directory, is_present, list_all_after}
use prose_pod_server.Backup.Store.Fs.Listing.{has_name, IsAscending, listing_complete}
use prose_pod_server.Backup.Listing.{
  BackupDto, Stores, last_piece, file_ext, is_backup, dto_of, dtos_of, list_rows, list_backups,
}

abbrev pub sig : Text
sig = text ".sig"

-- The pieces of such a name: at least one, then the extension.
split-sig :
    (n : Text)
    → (q : Text) × (qs : List Text) × (split dot (n ++ sig) ≡ q ∷ (qs ++ text "sig" ∷ []))
unfolding split
split-sig [] = ([], [], refl)
split-sig (c ∷ n) =
    let (q, qs, e) = split-sig n in
    elim (Bool-cases (c == dot)) [
      | inl hit ↦ ([], q ∷ qs, rw (hit, e))
      | inr miss ↦ (c ∷ q, qs, rw (miss, e))
    ]

last_piece-append : (p x : Text) (qs : List Text) → last_piece p (qs ++ x ∷ []) ≡ x
last_piece-append p x [] = refl
last_piece-append p x (q ∷ qs) = last_piece-append q x qs

file_ext-sig : (n : Text) → file_ext (n ++ sig) ≡ text "sig"
unfolding file_ext
file_ext-sig n = let (q, qs, e) = split-sig n in rw e (last_piece-append q (text "sig") qs)

is_backup-sig : (s : Stores) (n : Text) → is_backup s (n ++ sig) ≡ false
unfolding is_backup
is_backup-sig s n = rw (file_ext-sig n) (ground arith)

has_name-IsIn :
    (n : Text) (ms : List ObjectMetadata)
    → has_name n ms ≡ true
    → (o : ObjectMetadata) × IsIn o ms × (o.file_name ≡ n)
has_name-IsIn n [] h = cc
has_name-IsIn n (m ∷ ms) h = elim (Bool-cases (same m.file_name n)) [
  | inl hit ↦ (m, inl refl, same→eq m.file_name n hit)
  | inr miss ↦ let (o, i, e) = has_name-IsIn n ms (ground arith) in (o, inr i, e)
]

keep-IsAscending :
    (p : ObjectMetadata → Bool) (ms : List ObjectMetadata)
    → IsAscending ms
    → IsAscending (keep p ms)
keep-IsAscending p [] h = tt
keep-IsAscending p (m ∷ ms) h = elim (Bool-cases (p m)) [
  | inl kept ↦ rw kept (All-keep _ p ms h.0, keep-IsAscending p ms h.1)
  | inr dropped ↦ rw dropped (keep-IsAscending p ms h.1)
]

contains-file_names :
    (n : Text) (ms : List ObjectMetadata) → contains n (map (λ m. m.file_name) ms) ≡ has_name n ms
contains-file_names n [] = refl
contains-file_names n (m ∷ ms) = ground (arith, contains-file_names n ms)

module _ (ext : External) where
  pub IsIn-dtos_of :
      (mandatory : Bool) (checks : List Text) (o : ObjectMetadata) (d : BackupDto ext.Time)
      (ms : List ObjectMetadata)
      → dto_of ext mandatory checks o ≡ some d
      → IsIn o ms
      → IsIn d (dtos_of ext mandatory checks ms)
  unfolding dtos_of
  IsIn-dtos_of mandatory checks o d [] e h = absurd h
  IsIn-dtos_of mandatory checks o d (m ∷ ms) e (inl here) = rw (← here) (rw (e, dtos_of) (inl refl))
  IsIn-dtos_of mandatory checks o d (m ∷ ms) e (inr h) =
      elim (Option-cases (dto_of ext mandatory checks m)) [
        | inl skip ↦ rw (skip, dtos_of) (IsIn-dtos_of mandatory checks o d ms e h)
        | inr (d', row) ↦ rw (row, dtos_of) (inr (IsIn-dtos_of mandatory checks o d ms e h))
      ]

  pub dto_of-signed :
      (mandatory : Bool) (checks : List Text) (o : ObjectMetadata) (id : BackupId ext.Time)
      → parse ext o.file_name ≡ some id
      → (d : BackupDto ext.Time) × (dto_of ext mandatory checks o ≡ some d)
        × (d.id ≡ id)
        × (d.is_signed ≡ contains (o.file_name ++ sig) checks)
        × (d.can_be_restored ≡ (not mandatory || contains (o.file_name ++ sig) checks))
  unfolding dto_of ends_with
  dto_of-signed mandatory checks o id e = (
    record {
      id = id;
      description = id.description;
      created_at = id.created_at;
      size_bytes = o.size_bytes;
      is_signed = contains (o.file_name ++ sig) checks;
      is_encrypted = ends_with o.file_name (text ".pgp");
      can_be_restored = not mandatory || contains (o.file_name ++ sig) checks;
    },
    rw (e, dto_of) refl,
    refl,
    refl,
    refl,
  )

  -- The rows of a listing over two directories.
  module _ (backups checks : Directory) (has_sha2 has_blake3 mandatory : Bool) where
    -- `list_all` is `list_all_after("")`.
    abbrev pub in_directories : Stores
    in_directories = record {
      backups = list_all_after backups [];
      checks_after = list_all_after checks;
      has_sha2 = has_sha2;
      has_blake3 = has_blake3;
    }

    -- A row of the listing that shows whether the backup of that name is signed.
    abbrev pub ShowsSignature : Text → BackupId ext.Time → List (BackupDto ext.Time) → Type 0
    ShowsSignature n id dtos =
        (d : BackupDto ext.Time) × IsIn d dtos
        × (d.id ≡ id)
        × (d.is_signed ≡ is_present (n ++ sig) checks.entries)
        × (d.can_be_restored ≡ (not mandatory || is_present (n ++ sig) checks.entries))

    checks_contain :
        (oldest n : Text) (objects : List ObjectMetadata)
        → lt_text n oldest ≡ false
        → list_all_after checks oldest ≡ ok objects
        → contains
            (n ++ sig)
            (keep (λ m. not (is_backup in_directories m)) (map (λ m. m.file_name) objects))
          ≡ is_present (n ++ sig) checks.entries
    unfolding list_all_after
    checks_contain oldest n objects ge e =
        let (asc, names) = listing_complete (λ m. lt_text oldest m) checks objects e in
        ground (
          arith,
          contains-keep (n ++ sig) (λ m. not (is_backup in_directories m))
              (map (λ m. m.file_name) objects),
          contains-file_names (n ++ sig) objects,
          is_backup-sig in_directories n,
          names (n ++ sig),
          lt_text-append oldest n b'.' (text "sig") ge,
        )

    ge_oldest :
        (oldest : ObjectMetadata) (newer : List ObjectMetadata) (o : ObjectMetadata)
        → IsAscending (oldest ∷ newer)
        → IsIn o (oldest ∷ newer)
        → lt_text o.file_name oldest.file_name ≡ false
    ge_oldest oldest newer o asc (inl e) = rw e (lt_text_irrefl oldest.file_name)
    ge_oldest oldest newer o asc (inr i) = All-IsIn _ newer o asc.0 i

    list_rows-signed :
        (ms : List ObjectMetadata) (o : ObjectMetadata) (id : BackupId ext.Time)
        (dtos : List (BackupDto ext.Time))
        → IsAscending ms
        → IsIn o ms
        → parse ext o.file_name ≡ some id
        → list_rows ext in_directories mandatory ms ≡ ok dtos
        → ShowsSignature o.file_name id dtos
    unfolding list_rows
    list_rows-signed [] o id dtos asc i e h = absurd i
    list_rows-signed (oldest ∷ newer) o id dtos asc i e h =
        let (objects, listed, eq) = >>=-ok (list_all_after checks oldest.file_name) _ h in
        let found = keep (λ n. not (is_backup in_directories n)) (map (λ m. m.file_name) objects) in
        let seen =
          checks_contain oldest.file_name o.file_name objects (ge_oldest oldest newer o asc i)
            listed in
        let (d, row, same_id, signed, restorable) = dto_of-signed mandatory found o id e in
        let e' : dtos_of ext mandatory found (reverse (oldest ∷ newer)) ≡ dtos = cc in
        (
          d,
          rw (← e') (
              IsIn-dtos_of mandatory found o d (reverse (oldest ∷ newer)) row
                (IsIn-reverse o (oldest ∷ newer) i)),
          same_id,
          signed ∙ seen,
          restorable ∙ ap (λ b. not mandatory || b) seen,
        )

    -- No name without bytes parses.
    there_and_named :
        (n : Text) (id : BackupId ext.Time)
        → is_present n backups.entries ≡ true
        → parse ext n ≡ some id
        → (is_present n backups.entries && lt_text [] n) ≡ true
    unfolding parse lt_text split_once
    there_and_named [] id h e = cc
    there_and_named (c ∷ n) id h e = rw h refl

    -- Every backup in the directory whose name parses has a row in a successful listing, which says
    -- that it is signed exactly if its signature is in the directory of checks, and that it can be
    -- restored exactly if it is signed or signing is not mandatory.
    pub list_backups-signed :
        (dtos : List (BackupDto ext.Time)) (n : Text) (id : BackupId ext.Time)
        → list_backups ext in_directories mandatory ≡ ok dtos
        → is_present n backups.entries ≡ true
        → is_backup in_directories n ≡ true
        → parse ext n ≡ some id
        → ShowsSignature n id dtos
    unfolding list_backups list_all_after
    list_backups-signed dtos n id h there backup e =
        let (objects, listed, eq) = >>=-ok (list_all_after backups []) _ h in
        let (asc, names) = listing_complete (λ m. lt_text [] m) backups objects listed in
        let (o, i, same_name) = has_name-IsIn n objects (names n ∙ there_and_named n id there e) in
        rw (← same_name) (
          list_rows-signed (keep (λ m. is_backup in_directories m.file_name) objects) o id dtos
            (keep-IsAscending _ objects asc) (IsIn-keep o _ objects (rw same_name backup) i)
            (rw same_name e) eq)
