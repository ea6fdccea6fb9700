-- ===== src/Backup/Store/S3/Pages.antt =====
-- The loop over the pages of a listing ends and misses nothing.
use mathlib.Core.List.{append-nil, append_assoc}
use prose_pod_server.Common.{
  ℕ, zero, suc, ◌↔◌, ◌≡◌, ◌≤◌, refl, sym, ◌∙◌, ap, Bool, true, false, Option, none, some, List, [],
  ◌∷◌, ◌++◌, map, Text, All, length, strip_prefix, starts_with, arith,
}
use prose_pod_server.Common.Int.{ℤ}
use prose_pod_server.Backup.Store.{object_not_found, ObjectMetadata, ok, err}
use prose_pod_server.Backup.Store.Fs.{IoResult}
use prose_pod_server.Backup.Store.S3.{
  Object, Page, Client, is_true, saturating_i64_to_u64, rows, on_rows, on_page, list_pages, find,
  list_all_after, check_exists, exists, metadata, Head, found, not_found, failed, on_head,
  on_exists, on_metadata,
}

-- An object of the bucket: its name, without the store's prefix, and its size.
abbrev pub Named : Type 0
Named = Text × ℤ

abbrev pub object_of : Text → Named → Object
object_of store_prefix (name, size) = record { key = some (store_prefix ++ name); size = some size }

abbrev pub metadata_of : Named → ObjectMetadata
metadata_of (name, size) = record { file_name = name; size_bytes = saturating_i64_to_u64 size }

abbrev pub all_of : List (List Named) → List Named
all_of [] = []
all_of (page ∷ pages) = page ++ all_of pages

strip_prefix-added : (p s : Text) → strip_prefix p (p ++ s) ≡ some s
unfolding strip_prefix
strip_prefix-added [] s = refl
strip_prefix-added (c ∷ p) s = ground (arith, strip_prefix-added p s)

on_exists-on_metadata :
    (key : Text) (h : Head)
    → (b : Bool) × (on_exists (on_head h) ≡ ok b)
      × ((b ≡ true) ↔ ((size : Option ℤ) × (h ≡ found size)))
      × ((b ≡ false) ↔ (on_metadata key h ≡ err object_not_found))
unfolding on_exists on_head on_metadata
on_exists-on_metadata key (found none) =
    (true, refl, (λ e. (none, refl), λ e. refl), (λ e. cc, λ e. cc))
on_exists-on_metadata key (found (some size)) =
    (true, refl, (λ e. (some size, refl), λ e. refl), (λ e. cc, λ e. cc))
on_exists-on_metadata key not_found = (false, refl, (λ e. cc, λ (s, e). cc), (λ e. refl, λ e. refl))
on_exists-on_metadata key failed = (false, refl, (λ e. cc, λ (s, e). cc), (λ e. refl, λ e. refl))

module _ (c : Client) (store_prefix : Text) where
  -- The service gives these pages from a token on: each but the last is truncated and names the token
  -- of the next.
  abbrev pub Serves : Text → Option c.Token → List (List Named) → Type 0
  Serves full token [] = ⊥
  Serves full token (page ∷ []) =
      (p : Page c.Token) × (c.list_objects full token ≡ some p)
      × (p.contents ≡ map (object_of store_prefix) page)
      × (is_true p.is_truncated ≡ false)
  Serves full token (page ∷ page' ∷ pages) =
      (p : Page c.Token) × (c.list_objects full token ≡ some p)
      × (p.contents ≡ map (object_of store_prefix) page)
      × (is_true p.is_truncated ≡ true)
      × Serves full p.next (page' ∷ pages)

  rows-map :
      (page : List Named)
      → rows c store_prefix (map (object_of store_prefix) page) ≡ ok (map metadata_of page)
  unfolding rows
  rows-map [] = refl
  rows-map ((name, size) ∷ os) = rw (strip_prefix-added store_prefix name, rows-map os) refl

  map_append :
      (a b : List Named) → map metadata_of (a ++ b) ≡ map metadata_of a ++ map metadata_of b
  map_append [] b = refl
  map_append (x ∷ a) b = ap (λ l. metadata_of x ∷ l) (map_append a b)

  on_page-ok :
      (continue : Option c.Token → List ObjectMetadata → Option (IoResult (List ObjectMetadata)))
      (results : List ObjectMetadata) (o : Option (Page c.Token)) (p : Page c.Token)
      (page : List Named) (truncated : Bool)
      → o ≡ some p
      → p.contents ≡ map (object_of store_prefix) page
      → is_true p.is_truncated ≡ truncated
      → on_page c store_prefix continue results o
        ≡ on_rows c store_prefix (continue p.next) results truncated (ok (map metadata_of page))
  unfolding on_page
  on_page-ok continue results o p page truncated e contents t =
      ap (on_page c store_prefix continue results) e
      ∙ ap
          (λ b. on_rows c store_prefix (continue p.next) results b (rows c store_prefix p.contents))
          t
      ∙ ap (on_rows c store_prefix (continue p.next) results truncated)
          (ap (rows c store_prefix) contents ∙ rows-map page)

  All-names :
      (prefix : Text) (os : List Named)
      → All (λ o. starts_with o.0 prefix ≡ true) os
      → All (λ m. starts_with m.file_name prefix ≡ true) (map metadata_of os)
  All-names prefix [] h = tt
  All-names prefix (o ∷ os) h = (h.0, All-names prefix os h.1)

  list_pages-Serves :
      (full : Text) (pages : List (List Named)) (fuel : ℕ) (token : Option c.Token)
      (results : List ObjectMetadata)
      → Serves full token pages
      → length pages ≤ fuel
      → list_pages c store_prefix fuel full token results
        ≡ some (ok (results ++ map metadata_of (all_of pages)))
  unfolding list_pages on_rows
  list_pages-Serves full [] fuel token results s h = absurd s
  list_pages-Serves full (page ∷ pages) zero token results s h = absurd (omega arith)
  list_pages-Serves full (page ∷ []) (suc fuel) token results (p, e, contents, t) h =
      on_page-ok (list_pages c store_prefix fuel full) results _ p page false e contents t
      ∙ ap (λ l. some (ok (results ++ map metadata_of l))) (sym (append-nil page))
  list_pages-Serves full (page ∷ page' ∷ pages) (suc fuel) token results (p, e, contents, t, s) h =
      on_page-ok (list_pages c store_prefix fuel full) results _ p page true e contents t
      ∙ list_pages-Serves full (page' ∷ pages) fuel p.next (results ++ map metadata_of page) s
          (omega arith)
      ∙ ap (λ l. some (ok l))
          (append_assoc results (map metadata_of page) (map metadata_of (all_of (page' ∷ pages)))
            ∙ ap (λ l. results ++ l) (sym (map_append page (all_of (page' ∷ pages)))))

  -- Where the service gives the pages of a listing one after the other, under keys that begin with
  -- the prefix of the store, `find` ends within as many requests as there are pages, and returns
  -- every object of them in their order.
  pub find-Serves :
      (prefix : Text) (pages : List (List Named)) (fuel : ℕ)
      → Serves (store_prefix ++ prefix) none pages
      → length pages ≤ fuel
      → find c store_prefix fuel prefix ≡ some (ok (map metadata_of (all_of pages)))
  unfolding find
  find-Serves prefix pages fuel s h =
      list_pages-Serves (store_prefix ++ prefix) pages fuel none [] s h

  -- Where the service gives the pages of a listing by prefix, and in them only names that begin
  -- with the prefix asked for, `list_all_after` of a bucket returns only names that begin with its
  -- argument, and not the ones that come after it.
  pub list_all_after-starts_with :
      (prefix : Text) (pages : List (List Named)) (fuel : ℕ)
      → Serves (store_prefix ++ prefix) none pages
      → length pages ≤ fuel
      → All (λ o. starts_with o.0 prefix ≡ true) (all_of pages)
      → (ms : List ObjectMetadata) × (list_all_after c store_prefix fuel prefix ≡ some (ok ms))
        × All (λ m. starts_with m.file_name prefix ≡ true) ms
  unfolding list_all_after
  list_all_after-starts_with prefix pages fuel s h named = (
    map metadata_of (all_of pages),
    list_pages-Serves (store_prefix ++ prefix) pages fuel none [] s h,
    All-names prefix (all_of pages) named,
  )

  -- Whether an object of a bucket exists is never an error. It is said to exist exactly if the
  -- service answers with the head of the object, and otherwise, also where the request fails, its
  -- metadata is not found.
  pub exists-metadata :
      (key : Text)
      → (b : Bool) × (exists c store_prefix key ≡ ok b)
        × ((b ≡ true) ↔ ((size : Option ℤ) × (c.head_object (store_prefix ++ key) ≡ found size)))
        × ((b ≡ false) ↔ (metadata c store_prefix key ≡ err object_not_found))
  unfolding exists check_exists metadata
  exists-metadata key = on_exists-on_metadata key (c.head_object (store_prefix ++ key))
