-- ===== src/Backup/Id/RoundTrip.antt =====
-- `BackupId::parse` reads what `Display` prints.
use prose_pod_server.Common.{
  ℕ, ◌≤◌, ◌<◌, ◌^◌, ◌≡◌, ◌≢◌, refl, true, some, [], ◌∷◌, ◌++◌, inl, inr, Text, split_once-append,
  split-join, join, NoneHas, arith,
}
use prose_pod_server.Common.Int.{pos}
use prose_pod_server.Backup.Id.{
  External, BackupId, dash, dot, urlencode_component, format_010, is_displayable, display, parse,
}
use prose_pod_server.Backup.Id.Decimal.{parse_i64-format_010, format_010-no_dash}
use prose_pod_server.Backup.Id.Url.{
  UrlLaws, IsBytes, has_byte-urlencode_component, decode-urlencode_component,
}

module _ (ext : External) (url : UrlLaws ext) where
  -- What a `BackupId` of the program satisfies: its texts are UTF-8, and there is at least one
  -- extension, none of which holds a dot.
  pub record IsWellFormed (id : BackupId ext.Time) : Type 0 where
    pub prefix_bytes : IsBytes id.prefix
    pub prefix_utf8 : url.is_utf8 id.prefix ≡ true
    pub description_bytes : IsBytes id.description
    pub description_utf8 : url.is_utf8 id.description ≡ true
    pub has_extension : id.extensions ≢ []
    pub no_dot : NoneHas dot id.extensions

  timestamp_bound :
      (id : BackupId ext.Time) (n : ℕ)
      → is_displayable ext id ≡ true
      → ext.unix_timestamp id.created_at ≡ pos n
      → n ≤ 9999999999
  unfolding is_displayable
  timestamp_bound id n h e = ground arith

  abbrev printed : BackupId ext.Time → ℕ → Text
  printed id n =
      urlencode_component ext id.prefix
      ++ dash
        ∷ (format_010 (pos n)
            ++ dash ∷ (urlencode_component ext id.description ++ dot ∷ join dot id.extensions))

  parse-printed :
      (id : BackupId ext.Time) (n : ℕ) (t : ext.Time)
      → IsWellFormed id
      → n < 2 ^ 63
      → ext.from_unix_timestamp (pos n) ≡ some t
      → parse ext (printed id n) ≡ some (record id { created_at = t })
  unfolding parse
  parse-printed id n t v b e = rw (
    split_once-append dash (urlencode_component ext id.prefix) _
        (has_byte-urlencode_component ext url dash id.prefix (inl refl)),
    split_once-append dash (format_010 (pos n)) _ (format_010-no_dash n),
    parse_i64-format_010 n b,
    e,
    split_once-append dot (urlencode_component ext id.description) _
        (has_byte-urlencode_component ext url dot id.description (inr (inl refl))),
    decode-urlencode_component ext url id.prefix v.prefix_bytes v.prefix_utf8,
    decode-urlencode_component ext url id.description v.description_bytes v.description_utf8,
    split-join dot id.extensions v.has_extension v.no_dot,
  )

  -- A well-formed identifier dated from 1970 on that passes the assertions of `Display` is printed,
  -- and the printed text parses to the same identifier, its date being what `time` reads from the
  -- whole seconds of the original one.
  pub parse-display :
      (id : BackupId ext.Time) (n : ℕ) (t : ext.Time)
      → IsWellFormed id
      → is_displayable ext id ≡ true
      → ext.unix_timestamp id.created_at ≡ pos n
      → ext.from_unix_timestamp (pos n) ≡ some t
      → (s : Text) × (display ext id ≡ some s) × (parse ext s ≡ some (record id { created_at = t }))
  unfolding display
  parse-display id n t v d u e =
      (printed id n, rw (d, u), parse-printed id n t v (omega (arith, timestamp_bound id n d u)) e)
