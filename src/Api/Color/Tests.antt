-- ===== src/Api/Color/Tests.antt =====
-- The program's own tests of colors.
use prose_pod_server.Common.{◌≡◌, ◌≢◌, refl, text, arith}
use prose_pod_server.Api.Color.{
  Color, to_u8, hex_to_u8, is_ascii_hexdigit, color, bad_chars, wrong_length, not_supported,
  panicked, of_digits, from_str, display,
}
use prose_pod_server.Api.Color.RoundTrip.{from_str-display_color, from_str-ne-panicked}

abbrev dark : Color
dark = record { red = 1; green = 35; blue = 69 }

from_str_hex :
    (from_str (text "#012345") ≡ color dark)
    × (from_str (text "#FFF") ≡ from_str (text "#ffffff"))
    × (from_str (text "#123") ≡ from_str (text "#112233"))
    × (from_str (text "#f") ≡ wrong_length)
    × (from_str (text "#gggggg") ≡ bad_chars)
    × (from_str (text "red") ≡ not_supported)
unfolding from_str of_digits hex_to_u8 to_u8 is_ascii_hexdigit
from_str_hex = (refl, refl, refl, refl, refl, refl)

display-dark : display dark ≡ text "#012345"
unfolding display
display-dark = refl

from_str-display_color_test : from_str (display dark) ≡ color dark
from_str-display_color_test = from_str-display_color dark (omega arith) (omega arith) (omega arith)

from_str-ne-panicked_test : from_str (text "#12g") ≢ panicked
from_str-ne-panicked_test = from_str-ne-panicked (text "#12g")
