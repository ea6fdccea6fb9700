-- ===== src/Api/Color.antt =====
-- Colors of a workspace: `Color`, its `FromStr` and its `Display` (api/src/models/color.rs). The code
-- tests characters and reads bytes: a text whose characters are hexadecimal digits is its bytes.
pub mod RoundTrip
mod Tests
use Prim.Native.Nat.{bit_or}
use prose_pod_server.Common.{
  ℕ, ◌+◌, ◌-◌, ◌*◌, ◌/◌, ◌%◌, Bool, true, false, not, ◌&&◌, ◌||◌, Option, none, some, List, [], ◌∷◌,
  ◌++◌, Text, ltb, leb, any, ◌==◌, if◌then◌else◌,
}

-- `Hex([r, g, b])`
pub record Color : Type 0 where
  pub red : ℕ
  pub green : ℕ
  pub blue : ℕ

abbrev between : ℕ → ℕ → ℕ → Bool
between a b c = leb a c && leb c b

-- `none` is the panic.
unfoldable pub to_u8 : ℕ → Option ℕ
to_u8 c =
    if between b'0' b'9' c
    then some (c - b'0')
    else if between b'a' b'f' c
    then some (c - b'a' + 10)
    else if between b'A' b'F' c
    then some (c - b'A' + 10)
    else none

-- Both digits, the high one shifted within eight bits.
abbrev pub join_digits : Option ℕ → Option ℕ → Option ℕ
join_digits none l = none
join_digits (some h) none = none
join_digits (some h) (some l) = some (bit_or (h * 16 % 256) l)

unfoldable pub hex_to_u8 : ℕ → ℕ → Option ℕ
hex_to_u8 h l = join_digits (to_u8 h) (to_u8 l)

unfoldable pub is_ascii_hexdigit : ℕ → Bool
is_ascii_hexdigit c = between b'0' b'9' c || between b'a' b'f' c || between b'A' b'F' c

pub data Parsed : Type 0 where
  color : Color → Parsed
  bad_chars wrong_length not_supported panicked : Parsed

abbrev pub hex : Option ℕ → Option ℕ → Option ℕ → Parsed
hex (some r) (some g) (some b) = color (record { red = r; green = g; blue = b })
hex _ _ _ = panicked

-- The digits behind the `#`.
unfoldable pub of_digits : Text → Parsed
of_digits (r ∷ g ∷ b ∷ []) = hex (hex_to_u8 r r) (hex_to_u8 g g) (hex_to_u8 b b)
of_digits (r ∷ r' ∷ g ∷ g' ∷ b ∷ b' ∷ []) = hex (hex_to_u8 r r') (hex_to_u8 g g') (hex_to_u8 b b')
of_digits _ = wrong_length

unfoldable pub from_str : Text → Parsed
from_str [] = not_supported
from_str (c ∷ s) =
    if c == b'#'
    then if any (λ d. not (is_ascii_hexdigit d)) s then bad_chars else of_digits s
    else not_supported

abbrev pub digit : ℕ → ℕ
digit d = if ltb d 10 then b'0' + d else b'a' + (d - 10)

-- `{n:02x}` of a byte.
abbrev pub hex_byte : ℕ → Text
hex_byte n = digit (n / 16) ∷ digit (n % 16) ∷ []

unfoldable pub display : Color → Text
display c = b'#' ∷ (hex_byte c.red ++ hex_byte c.green ++ hex_byte c.blue)
