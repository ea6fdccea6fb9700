-- ===== src/Backup/Store/Fs/Names.antt =====
-- What a write and a deletion change in a directory, name by name.
use prose_pod_server.Common.{
  ◌≡◌, refl, true, false, not, ◌&&◌, none, some, List, [], ◌∷◌, ◌++◌, Text, same, if◌then◌else◌,
  arith,
}
use prose_pod_server.Backup.Store.{ok}
use prose_pod_server.Backup.Store.Fs.{
  FsStore, Entry, file, unreadable, not_unicode, Directory, contents, is_present, unlink, write,
}

-- An entry whose name, if it has one, is Unicode.
abbrev pub IsUnicode : Entry → Type 0
IsUnicode (file n c) = Unit
IsUnicode unreadable = Unit
IsUnicode not_unicode = ⊥

pub is_present-unlink :
    (m n : Text) (es : List Entry)
    → is_present n (unlink m es) ≡ (is_present n es && not (same m n))
unfolding is_present unlink
is_present-unlink m n [] = refl
is_present-unlink m n (file k c ∷ es) = ground (arith, is_present-unlink m n es)
is_present-unlink m n (unreadable ∷ es) = is_present-unlink m n es
is_present-unlink m n (not_unicode ∷ es) = is_present-unlink m n es

contents-unlink :
    (m n : Text) (es : List Entry)
    → contents n (unlink m es) ≡ (if same m n then none else contents n es)
unfolding contents unlink
contents-unlink m n [] = ground arith
contents-unlink m n (file k c ∷ es) = ground (arith, contents-unlink m n es)
contents-unlink m n (unreadable ∷ es) = contents-unlink m n es
contents-unlink m n (not_unicode ∷ es) = contents-unlink m n es

contents-append :
    (n : Text) (es : List Entry) (m c : Text)
    → contents n (es ++ file m c ∷ [])
      ≡ elim (contents n es) [ none ↦ if same m n then some c else none | some b ↦ some b ]
unfolding contents
contents-append n [] m c = refl
contents-append n (file k b ∷ es) m c = ground (arith, contents-append n es m c)
contents-append n (unreadable ∷ es) m c = contents-append n es m c
contents-append n (not_unicode ∷ es) m c = contents-append n es m c

-- After a successful write to a directory store the name holds the bytes written, and every other
-- name what it held.
pub contents-write :
    (s : FsStore) (name bytes : Text) (d d' : Directory) (n : Text)
    → write s name bytes d ≡ ok d'
    → contents n d'.entries ≡ (if same name n then some bytes else contents n d.entries)
unfolding write
contents-write s name bytes d d' n e =
    ground (
      arith,
      contents-append n (unlink name d.entries) name bytes,
      contents-unlink name n d.entries,
    )

-- A store that does not overwrite reports an error for a name that is taken.
pub write-taken :
    (s : FsStore) (name bytes : Text) (d d' : Directory)
    → s.overwrite ≡ false
    → is_present name d.entries ≡ true
    → ¬ (write s name bytes d ≡ ok d')
unfolding write
write-taken s name bytes d d' o p e = ground arith
