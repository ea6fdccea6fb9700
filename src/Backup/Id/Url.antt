-- ===== src/Backup/Id/Url.antt =====
-- `urlencode_component` under the documented behaviour of the `urlencoding` crate.
use prose_pod_server.Common.{
  ℕ, ◌+◌, ◌/◌, ◌%◌, ◌≤◌, ◌<◌, ◌≡◌, ◌≢◌, refl, sym, ap, ◌∙◌, Bool, true, false, none, some, [], ◌∷◌,
  ◌++◌, ◌&&◌, ◌||◌, ◌⊎◌, Text, text, leb, ltb, ◌==◌, if◌then◌else◌, has_byte, replace,
  replace-append, All, arith, inl, inr, Bool-cases,
}
use prose_pod_server.Backup.Id.{External, urlencode_component, dash, dot, slash}

-- The bytes that `urlencoding::encode` leaves alone: letters, digits and `-_.~`.
abbrev pub is_unreserved : ℕ → Bool
is_unreserved c =
    leb b'a' c && leb c b'z'
    || leb b'A' c && leb c b'Z'
    || leb b'0' c && leb c b'9'
    || c == b'-'
    || c == b'_'
    || c == b'.'
    || c == b'~'

abbrev pub hex : ℕ → ℕ
hex d = if ltb d 10 then b'0' + d else 55 + d

abbrev pub percent : ℕ → Text
percent c = b'%' ∷ hex (c / 16) ∷ hex (c % 16) ∷ []

-- What the crate documents. `unescape` puts back percent-encoded bytes, and `decode` refuses a
-- result that is not UTF-8.
pub record UrlLaws (ext : External) : Type 0 where
  pub unescape : Text → Text
  pub is_utf8 : Text → Bool
  pub encode-nil : ext.encode [] ≡ []
  pub encode-cons :
      (c : ℕ) (s : Text)
      → ext.encode (c ∷ s) ≡ (if is_unreserved c then c ∷ [] else percent c) ++ ext.encode s
  pub unescape-nil : unescape [] ≡ []
  pub unescape-cons : (c : ℕ) (s : Text) → c ≢ b'%' → unescape (c ∷ s) ≡ c ∷ unescape s
  pub unescape-percent : (c : ℕ) (s : Text) → c < 256 → unescape (percent c ++ s) ≡ c ∷ unescape s
  pub decode_lem :
      (s : Text) → ext.decode s ≡ (if is_utf8 (unescape s) then some (unescape s) else none)

abbrev pub IsBytes : Text → Type 0
IsBytes = All (λ c. c < 256)

escaped : ℕ → Text
escaped c =
    if is_unreserved c
    then if c == dash then percent dash else if c == dot then percent dot else c ∷ []
    else percent c

abbrev replaced : Text → Text
replaced t = replace slash (text "%2F") (replace dot (text "%2E") (replace dash (text "%2D") t))

-- A digit of a percent code is none of the replaced bytes.
replaced-percent : (c : ℕ) → replaced (percent c) ≡ percent c
unfolding replace
replaced-percent c = ground arith

replaced-one : (c : ℕ) → is_unreserved c ≡ true → replaced (c ∷ []) ≡ escaped c
unfolding replace escaped
replaced-one c h = ground arith

escaped-coded : (c : ℕ) → is_unreserved c ≡ false → escaped c ≡ percent c
unfolding escaped
escaped-coded c h = rw h

replaced-encoded : (c : ℕ) → replaced (if is_unreserved c then c ∷ [] else percent c) ≡ escaped c
replaced-encoded c = elim (Bool-cases (is_unreserved c)) [
  | inl plain ↦ rw plain (replaced-one c plain)
  | inr coded ↦ rw coded (replaced-percent c ∙ sym (escaped-coded c coded))
]

-- A byte that splits an identifier, or a path.
abbrev pub IsSeparator : ℕ → Type 0
IsSeparator b = (b ≡ dash) ⊎ (b ≡ dot) ⊎ (b ≡ slash)

has_byte-percent : (b c : ℕ) → b ≤ slash → b ≢ b'%' → has_byte b (percent c) ≡ false
has_byte-percent b c h k = ground arith

has_byte-escaped : (b c : ℕ) → IsSeparator b → has_byte b (escaped c) ≡ false
unfolding escaped
has_byte-escaped b c h = elim (Bool-cases (is_unreserved c)) [
  | inl plain ↦ rw plain (ground arith)
  | inr coded ↦ rw coded (has_byte-percent b c (ground arith) (ground arith))
]

has_byte-append : (b : ℕ) (s t : Text) → has_byte b (s ++ t) ≡ (has_byte b s || has_byte b t)
has_byte-append b [] t = refl
has_byte-append b (c ∷ s) t = ground (arith, has_byte-append b s t)

module _ (ext : External) (url : UrlLaws ext) where
  urlencode_component-cons :
      (c : ℕ) (s : Text) → urlencode_component ext (c ∷ s) ≡ escaped c ++ urlencode_component ext s
  unfolding urlencode_component
  urlencode_component-cons c s =
      rw (url.encode-cons c s, replace-append, replace-append, replace-append)
        (ap (λ t. t ++ urlencode_component ext s) (replaced-encoded c))

  urlencode_component-nil : urlencode_component ext [] ≡ []
  unfolding urlencode_component replace
  urlencode_component-nil = rw url.encode-nil

  -- No separator stands in an encoded component: no dash and no dot, so that the identifier splits
  -- where it was joined, and no slash, so that it names no other directory.
  pub has_byte-urlencode_component :
      (b : ℕ) (s : Text) → IsSeparator b → has_byte b (urlencode_component ext s) ≡ false
  has_byte-urlencode_component b [] h = rw urlencode_component-nil
  has_byte-urlencode_component b (c ∷ s) h = rw (
    urlencode_component-cons c s,
    has_byte-append b (escaped c),
    has_byte-escaped b c h,
    has_byte-urlencode_component b s h,
  )

  unescape-escaped :
      (c : ℕ) (s : Text) → c < 256 → url.unescape (escaped c ++ s) ≡ c ∷ url.unescape s
  unfolding escaped
  unescape-escaped c s h = ground (
    arith,
    url.unescape-percent c s,
    url.unescape-percent dash s,
    url.unescape-percent dot s,
    url.unescape-cons c s,
  )

  unescape-urlencode_component :
      (s : Text) → IsBytes s → url.unescape (urlencode_component ext s) ≡ s
  unescape-urlencode_component [] h = rw urlencode_component-nil url.unescape-nil
  unescape-urlencode_component (c ∷ s) h =
      rw (urlencode_component-cons c s, unescape-escaped c (urlencode_component ext s) h.0)
        (ap (◌∷◌ c) (unescape-urlencode_component s h.1))

  -- A text, which is UTF-8, is decoded from its encoded component.
  pub decode-urlencode_component :
      (s : Text)
      → IsBytes s
      → url.is_utf8 s ≡ true
      → ext.decode (urlencode_component ext s) ≡ some s
  decode-urlencode_component s h u =
      rw (url.decode_lem (urlencode_component ext s), unescape-urlencode_component s h, u)
