-- ===== src/Backup/Id.antt =====
-- Backup identifiers and their text: `BackupId::parse` and `Display` of `mod backup_id`
-- (api/crates/backup/src/lib.rs). Text is its bytes. The crates `urlencoding` and `time` are
-- parameters; `none` from `display` is a failed `assert!`, and from `parse` an error. A release
-- build is modelled: `debug_assert!` is not checked.
pub mod Decimal
pub mod Url
pub mod RoundTrip
mod Tests
use prose_pod_server.Common.{
  ℕ, zero, suc, ◌+◌, ◌-◌, ◌*◌, ◌/◌, ◌%◌, ◌^◌, ◌≡◌, Bool, Option, none, some, List, [], ◌∷◌, ◌++◌,
  ◌&&◌, not, true, false, Text, text, length, replicate, leb, ltb, ◌==◌, if◌then◌else◌, split_once,
  split, join, replace,
}
use prose_pod_server.Common.Int.{ℤ, pos, negsuc}

-- What is called of `urlencoding` and `time`.
pub record External : Type 1 where
  pub encode : Text → Text
  pub decode : Text → Option Text
  pub Time : Type 0
  pub unix_timestamp : Time → ℤ
  pub from_unix_timestamp : ℤ → Option Time

pub record BackupId (Time : Type 0) : Type 0 where
  pub prefix : Text
  pub created_at : Time
  pub description : Text
  pub extensions : List Text

abbrev pub dash : ℕ
dash = b'-'

abbrev pub dot : ℕ
dot = b'.'

abbrev pub slash : ℕ
slash = b'/'

infixl 5 ◌>>=◌
abbrev ◌>>=◌ {ℓ κ} : {A : Type ℓ} {B : Type κ} → Option A → (A → Option B) → Option B
none >>= f = none
some a >>= f = f a

abbrev pub is_digit : ℕ → Bool
is_digit c = leb b'0' c && leb c b'9'

-- The digits of an integer, most significant first, in front of `s`.
unfoldable pub decimal_onto : ℕ → ℕ → Text → Text
decimal_onto zero n s = s
decimal_onto (suc fuel) n s =
    let more = decimal_onto fuel (n / 10) ((b'0' + n % 10) ∷ s) in
    if ltb n 10 then (b'0' + n) ∷ s else more

-- Twenty digits hold every magnitude of 64 bits.
unfoldable pub decimal : ℕ → Text
unfolding decimal_onto
decimal n = decimal_onto 20 n []

-- `{n:010}`: the sign counts in the width.
unfoldable pub format_010 : ℤ → Text
format_010 (pos n) = replicate (10 - length (decimal n)) b'0' ++ decimal n
format_010 (negsuc n) = b'-' ∷ (replicate (9 - length (decimal (suc n))) b'0' ++ decimal (suc n))

unfoldable pub parse_digits : ℕ → Text → Option ℕ
parse_digits acc [] = some acc
parse_digits acc (c ∷ s) = if is_digit c then parse_digits (acc * 10 + (c - b'0')) s else none

abbrev negate : ℕ → ℤ
negate zero = pos 0
negate (suc n) = negsuc n

abbrev parse_unsigned : Text → Option ℕ
parse_unsigned [] = none
parse_unsigned (c ∷ s) = parse_digits 0 (c ∷ s)

abbrev positive : Text → Option ℤ
positive s = do n ← parse_unsigned s; if ltb n (2 ^ 63) then some (pos n) else none

abbrev negative : Text → Option ℤ
negative s = do n ← parse_unsigned s; if leb n (2 ^ 63) then some (negate n) else none

-- `str::parse::<i64>`: an optional sign, then digits, within 64 bits.
unfoldable pub parse_i64 : Text → Option ℤ
parse_i64 [] = none
parse_i64 (c ∷ s) =
    if c == b'+' then positive s else if c == b'-' then negative s else positive (c ∷ s)

abbrev at_most : ℤ → ℕ → Bool
at_most (pos n) k = leb n k
at_most (negsuc n) k = true

abbrev is_empty : Text → Bool
is_empty [] = true
is_empty (c ∷ s) = false

module _ (ext : External) where
  open ext use {encode, decode, Time, unix_timestamp, from_unix_timestamp}

  unfoldable pub urlencode_component : Text → Text
  urlencode_component str =
      let res = encode str in
      let res' = replace dash (text "%2D") res in
      let res'' = replace dot (text "%2E") res' in replace slash (text "%2F") res''

  -- The asserted bounds of `Display::fmt`.
  unfoldable pub is_displayable : BackupId Time → Bool
  is_displayable id =
      leb (length id.prefix) 256
      && leb (length id.description) 256
      && not (is_empty id.prefix)
      && not (is_empty id.description)
      && at_most (unix_timestamp id.created_at) 9999999999

  unfoldable pub display : BackupId Time → Option Text
  display id =
      if is_displayable id
      then some (
          urlencode_component id.prefix
          ++ dash
            ∷ (format_010 (unix_timestamp id.created_at)
                ++ dash ∷ (urlencode_component id.description ++ dot ∷ join dot id.extensions)))
      else none

  unfoldable pub parse : Text → Option (BackupId Time)
  parse str = do
    (prefix, rest) ← split_once dash str
    (timestamp_str, rest') ← split_once dash rest
    secs ← parse_i64 timestamp_str
    created_at ← from_unix_timestamp secs
    (description, extensions) ← split_once dot rest'
    prefix' ← decode prefix
    description' ← decode description
    some (record {
      prefix = prefix';
      created_at = created_at;
      description = description';
      extensions = split dot extensions;
    })
