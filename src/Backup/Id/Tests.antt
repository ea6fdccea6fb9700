-- ===== src/Backup/Id/Tests.antt =====
-- The identifier of the program's own test, printed and parsed with a concrete codec.
use prose_pod_server.Common.{
  ℕ, ◌+◌, ◌-◌, ◌*◌, ◌/◌, ◌%◌, ◌<◌, ◌≡◌, ◌≢◌, refl, ap, true, false, some, [], ◌∷◌, ◌++◌, Text, text,
  ltb, ◌==◌, if◌then◌else◌, arith, inr, has_byte, replace, join,
}
use prose_pod_server.Common.Int.{ℤ, pos}
use prose_pod_server.Backup.Id.{
  External, BackupId, urlencode_component, display, parse, is_displayable, slash, decimal,
  decimal_onto, format_010,
}
use prose_pod_server.Backup.Id.Url.{
  UrlLaws, is_unreserved, percent, hex, has_byte-urlencode_component,
}
use prose_pod_server.Backup.Id.RoundTrip.{IsWellFormed, parse-display}

abbrev encode_all : Text → Text
encode_all [] = []
encode_all (c ∷ s) = (if is_unreserved c then c ∷ [] else percent c) ++ encode_all s

abbrev unhex : ℕ → ℕ
unhex c = if ltb c 58 then c - 48 else c - 55

data Mode : Type 0 where
  plain after_percent : Mode
  after_high : ℕ → Mode

unescape_in : Mode → Text → Text
unescape_in m [] = []
unescape_in plain (c ∷ s) =
    if c == b'%' then unescape_in after_percent s else c ∷ unescape_in plain s
unescape_in after_percent (c ∷ s) = unescape_in (after_high c) s
unescape_in (after_high h) (c ∷ s) = (unhex h * 16 + unhex c) ∷ unescape_in plain s

abbrev codec : External
codec = record {
  encode = encode_all;
  decode = λ s. some (unescape_in plain s);
  Time = ℤ;
  unix_timestamp = λ t. t;
  from_unix_timestamp = λ n. some n;
}

unescape-other : (c : ℕ) (s : Text) → c ≢ b'%' → unescape_in plain (c ∷ s) ≡ c ∷ unescape_in plain s
unfolding unescape_in
unescape-other c s h = ground arith

unhex-hex : (d : ℕ) → d < 16 → unhex (hex d) ≡ d
unhex-hex d h = ground arith

unescape-coded :
    (c : ℕ) (s : Text) → c < 256 → unescape_in plain (percent c ++ s) ≡ c ∷ unescape_in plain s
unfolding unescape_in
unescape-coded c s h =
    rw (unhex-hex (c / 16) (omega arith), unhex-hex (c % 16) (omega arith))
      (ap (λ d. d ∷ unescape_in plain s) (omega arith))

codec-laws : UrlLaws codec
unfolding unescape_in
codec-laws = record {
  unescape = unescape_in plain;
  is_utf8 = λ s. true;
  encode-nil = refl;
  encode-cons = λ c s. refl;
  unescape-nil = refl;
  unescape-cons = unescape-other;
  unescape-percent = unescape-coded;
  decode_lem = λ s. refl;
}

abbrev automatic : BackupId ℤ
automatic = record {
  prefix = text "prose-backup";
  created_at = pos 1772432392;
  description = text "Automatic backup";
  extensions = text "tar" ∷ text "zst" ∷ text "pgp" ∷ [];
}

display-automatic :
    display codec automatic ≡ some (text "prose%2Dbackup-1772432392-Automatic%20backup.tar.zst.pgp")
unfolding display is_displayable urlencode_component format_010 decimal decimal_onto replace join
display-automatic = refl

automatic-IsWellFormed : IsWellFormed codec codec-laws automatic
unfolding codec-laws
automatic-IsWellFormed = record {
  prefix_bytes = omega arith;
  prefix_utf8 = refl;
  description_bytes = omega arith;
  description_utf8 = refl;
  has_extension = λ e. cc;
  no_dot = (refl, (refl, (refl, tt)));
}

parse-display_example :
    (s : Text) × (display codec automatic ≡ some s) × (parse codec s ≡ some automatic)
unfolding is_displayable
parse-display_example =
    parse-display codec codec-laws automatic 1772432392 (pos 1772432392) automatic-IsWellFormed refl
      refl refl

has_byte-urlencode_component_test :
    has_byte slash (urlencode_component codec (text "../etc")) ≡ false
has_byte-urlencode_component_test =
    has_byte-urlencode_component codec codec-laws slash (text "../etc") (inr (inr refl))
