-- ===== src/Backup/Amount/Tests.antt =====
-- The texts of the program's own tests, and the largest quantity that wraps.
use prose_pod_server.Common.{◌≡◌, ◌^◌, refl, [], text, arith}
use prose_pod_server.Backup.Amount.{
  gibi_bytes, mega_bytes, as_bytes, display, split_leading_digits, amount, from_str,
}
use prose_pod_server.Backup.Amount.RoundTrip.{from_str-display}

split_leading_digits_cases :
    (split_leading_digits (text "10MB") ≡ (text "10", text "MB"))
    × (split_leading_digits (text "10") ≡ (text "10", []))
    × (split_leading_digits (text "MB") ≡ ([], text "MB"))
    × (split_leading_digits (text "10MB123") ≡ (text "10", text "MB123"))
unfolding split_leading_digits
split_leading_digits_cases = (refl, refl, refl, refl)

-- 2³⁴ GiB is no byte at all.
as_bytes_wraps : as_bytes (gibi_bytes (2 ^ 34)) ≡ 0
unfolding as_bytes
as_bytes_wraps = refl

from_str-display_example : from_str (display (mega_bytes 512)) ≡ amount (mega_bytes 512)
from_str-display_example = from_str-display (mega_bytes 512) (omega arith)
