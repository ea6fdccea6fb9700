-- ===== src/Backup/Amount.antt =====
-- Amounts of bytes in the configuration: `BytesAmount` (api/crates/backup/src/util/measurements.rs).
-- A release build is modelled, in which a product of `u64` wraps.
pub mod RoundTrip
mod Tests
use prose_pod_server.Common.{
  ℕ, ◌*◌, ◌%◌, Bool, true, false, Option, none, some, List, [], ◌∷◌, ◌++◌, Text, text, same, ltb,
  u64_mod, if◌then◌else◌,
}
use prose_pod_server.Backup.Id.{decimal, parse_digits, is_digit}

pub data BytesAmount : Type 0 where
  bytes : ℕ → BytesAmount
  kilo_bytes : ℕ → BytesAmount
  kibi_bytes : ℕ → BytesAmount
  mega_bytes : ℕ → BytesAmount
  mebi_bytes : ℕ → BytesAmount
  giga_bytes : ℕ → BytesAmount
  gibi_bytes : ℕ → BytesAmount

infixl 7 ◌*u64◌
abbrev ◌*u64◌ : ℕ → ℕ → ℕ
a *u64 b = a * b % u64_mod

unfoldable pub as_bytes : BytesAmount → ℕ
as_bytes (bytes n) = n
as_bytes (kilo_bytes n) = n *u64 1000
as_bytes (kibi_bytes n) = n *u64 1024
as_bytes (mega_bytes n) = n *u64 1000 *u64 1000
as_bytes (mebi_bytes n) = n *u64 1024 *u64 1024
as_bytes (giga_bytes n) = n *u64 1000 *u64 1000 *u64 1000
as_bytes (gibi_bytes n) = n *u64 1024 *u64 1024 *u64 1024

abbrev pub print : ℕ → Text → Text
print n unit = decimal n ++ unit

unfoldable pub display : BytesAmount → Text
display (bytes n) = print n (text "B")
display (kilo_bytes n) = print n (text "kB")
display (kibi_bytes n) = print n (text "KiB")
display (mega_bytes n) = print n (text "MB")
display (mebi_bytes n) = print n (text "MiB")
display (giga_bytes n) = print n (text "GB")
display (gibi_bytes n) = print n (text "GiB")

unfoldable pub split_leading_digits : Text → Text × Text
split_leading_digits [] = ([], [])
split_leading_digits (c ∷ s) =
    let (digits, unit) = split_leading_digits s in
    if is_digit c then (c ∷ digits, unit) else ([], c ∷ s)

abbrev pub within_u64 : ℕ → Option ℕ
within_u64 n = if ltb n u64_mod then some n else none

abbrev bounded : Option ℕ → Option ℕ
bounded none = none
bounded (some n) = within_u64 n

-- `u64::from_str` of a text of digits.
unfoldable pub parse_u64 : Text → Option ℕ
parse_u64 [] = none
parse_u64 (c ∷ s) = bounded (parse_digits 0 (c ∷ s))

pub data ParseMeasurementError : Type 0 where
  invalid_quantity invalid_unit : ParseMeasurementError

pub data Parsed : Type 0 where
  amount : BytesAmount → Parsed
  failed : ParseMeasurementError → Parsed

unfoldable pub of_unit : ℕ → Text → Parsed
of_unit n unit =
    if same unit (text "B")
    then amount (bytes n)
    else if same unit (text "kB")
    then amount (kilo_bytes n)
    else if same unit (text "KiB")
    then amount (kibi_bytes n)
    else if same unit (text "MB")
    then amount (mega_bytes n)
    else if same unit (text "MiB")
    then amount (mebi_bytes n)
    else if same unit (text "GB")
    then amount (giga_bytes n)
    else if same unit (text "GiB")
    then amount (gibi_bytes n)
    else failed invalid_unit

abbrev pub on_quantity : Text → Option ℕ → Parsed
on_quantity unit none = failed invalid_quantity
on_quantity unit (some n) = of_unit n unit

unfoldable pub from_str : Text → Parsed
from_str s = let (digits, unit) = split_leading_digits s in on_quantity unit (parse_u64 digits)
