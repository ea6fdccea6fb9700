-- ===== src/Api/Media.antt =====
-- Images: `detect_image_media_type` and `is_media_type` (api/crates/media-type-detect/src/lib.rs),
-- and `parse_dimensions` (api/crates/media-metadata/src/lib.rs). Data is its bytes, and an index
-- out of range panics. The walk over a JPEG runs on fuel; `none` is fuel that ran out.
pub mod Walk
mod Tests
pub mod Types
pub mod Jpeg
use prose_pod_server.Common.{
  ℕ, zero, suc, ◌+◌, ◌*◌, Bool, true, false, not, ◌&&◌, ◌||◌, Option, none, some, List, [], ◌∷◌,
  Text, text, same, starts_with, length, ltb, leb, ◌==◌, if◌then◌else◌,
}
use prose_pod_server.Common.Results.{Result, ok, err, panicked, ◌>>=◌}

abbrev pub magic_prefix_png : List ℕ
magic_prefix_png = 0x89 ∷ 0x50 ∷ 0x4E ∷ 0x47 ∷ 0x0D ∷ 0x0A ∷ 0x1A ∷ 0x0A ∷ []

abbrev pub magic_prefix_gif : List ℕ
magic_prefix_gif = 0x47 ∷ 0x49 ∷ 0x46 ∷ 0x38 ∷ []

abbrev pub magic_prefix_jpeg : List ℕ
magic_prefix_jpeg = 0xff ∷ 0xd8 ∷ 0xff ∷ []

abbrev pub image_png : Text
image_png = text "image/png"

abbrev pub image_gif : Text
image_gif = text "image/gif"

abbrev pub image_jpeg : Text
image_jpeg = text "image/jpeg"

unfoldable pub detect_image_media_type : List ℕ → Option Text
detect_image_media_type bytes =
    if starts_with bytes magic_prefix_png
    then some image_png
    else if starts_with bytes magic_prefix_gif
    then some image_gif
    else if starts_with bytes magic_prefix_jpeg
    then some image_jpeg
    else none

-- `none` is `UnusupportedMediaType`.
unfoldable pub is_media_type : List ℕ → Text → Option Bool
is_media_type bytes media_type =
    if same media_type image_png
    then some (starts_with bytes magic_prefix_png)
    else if same media_type image_gif
    then some (starts_with bytes magic_prefix_gif)
    else if same media_type image_jpeg
    then some (starts_with bytes magic_prefix_jpeg)
    else none

pub record ImageDimensions : Type 0 where
  pub width : ℕ
  pub height : ℕ

-- The kinds of `io::Error` that are returned.
pub data IoError : Type 0 where
  invalid_input invalid_data : IoError

-- `data[i]`
abbrev pub byte : List ℕ → ℕ → Result IoError ℕ
byte [] i = panicked
byte (b ∷ bytes) zero = ok b
byte (b ∷ bytes) (suc i) = byte bytes i

-- `u16::from_be_bytes` and the others
abbrev pub from_be : ℕ → ℕ → ℕ
from_be a b = a * 256 + b

abbrev pub from_be_4 : ℕ → ℕ → ℕ → ℕ → ℕ
from_be_4 a b c d = from_be a b * 65536 + from_be c d

unfoldable pub dimensions_png : List ℕ → Result IoError ImageDimensions
dimensions_png bytes = if ltb (length bytes) 24 then err invalid_data else (do
  a ← byte bytes 16
  b ← byte bytes 17
  c ← byte bytes 18
  d ← byte bytes 19
  e ← byte bytes 20
  f ← byte bytes 21
  g ← byte bytes 22
  h ← byte bytes 23
  ok (record { width = from_be_4 a b c d; height = from_be_4 e f g h }))

unfoldable pub dimensions_gif : List ℕ → Result IoError ImageDimensions
dimensions_gif bytes = if ltb (length bytes) 10 then err invalid_data else (do
  a ← byte bytes 6
  b ← byte bytes 7
  c ← byte bytes 8
  d ← byte bytes 9
  ok (record { width = from_be b a; height = from_be d c }))

abbrev pub between : ℕ → ℕ → ℕ → Bool
between a b c = leb a c && leb c b

abbrev pub is_sof : ℕ → Bool
is_sof marker =
    between 0xC0 0xC3 marker
    || between 0xC5 0xC7 marker
    || between 0xC9 0xCB marker
    || between 0xCD 0xCF marker

abbrev pub is_alone : ℕ → Bool
is_alone marker = marker == 0xD8 || marker == 0xD9 || between 0xD0 0xD7 marker

-- What a frame header at `pos` says.
unfoldable pub read_sof : List ℕ → ℕ → Result IoError ImageDimensions
read_sof bytes pos = if ltb (length bytes) (pos + 9) then err invalid_data else (do
  a ← byte bytes (pos + 5)
  b ← byte bytes (pos + 6)
  c ← byte bytes (pos + 7)
  d ← byte bytes (pos + 8)
  ok (record { width = from_be c d; height = from_be a b }))

-- One turn of the loop: a result, or the next position.
pub data Turn : Type 0 where
  finished : Result IoError ImageDimensions → Turn
  go : ℕ → Turn

abbrev pub skip_segment : ℕ → Result IoError ℕ → Result IoError ℕ → Turn
skip_segment pos (ok a) (ok b) = go (pos + (2 + from_be a b))
skip_segment pos (ok a) (err e) = finished (err e)
skip_segment pos (ok a) panicked = finished panicked
skip_segment pos (err e) r = finished (err e)
skip_segment pos panicked r = finished panicked

abbrev pub at_marker : List ℕ → ℕ → Result IoError ℕ → Turn
at_marker bytes pos (err e) = finished (err e)
at_marker bytes pos panicked = finished panicked
at_marker bytes pos (ok marker) =
    if is_sof marker
    then finished (read_sof bytes pos)
    else if is_alone marker
    then go (pos + 2)
    else if ltb (length bytes) (pos + 4)
    then finished (err invalid_data)
    else skip_segment pos (byte bytes (pos + 2)) (byte bytes (pos + 3))

abbrev pub at_byte : List ℕ → ℕ → Result IoError ℕ → Turn
at_byte bytes pos (err e) = finished (err e)
at_byte bytes pos panicked = finished panicked
at_byte bytes pos (ok b) =
    if b == 0xFF then at_marker bytes pos (byte bytes (pos + 1)) else go (pos + 1)

unfoldable pub turn : List ℕ → ℕ → Turn
turn bytes pos = at_byte bytes pos (byte bytes pos)

abbrev pub follow :
    (ℕ → Option (Result IoError ImageDimensions)) → Turn → Option (Result IoError ImageDimensions)
follow continue (finished r) = some r
follow continue (go pos) = continue pos

-- `while pos + 8 < data.len()`
unfoldable pub walk : ℕ → List ℕ → ℕ → Option (Result IoError ImageDimensions)
walk zero bytes pos = none
walk (suc fuel) bytes pos =
    if ltb (pos + 8) (length bytes)
    then follow (walk fuel bytes) (turn bytes pos)
    else some (err invalid_data)

unfoldable pub dimensions_jpeg : List ℕ → Option (Result IoError ImageDimensions)
dimensions_jpeg bytes =
    if ltb (length bytes) 2 then some (err invalid_data) else walk (length bytes) bytes 2

abbrev pub by_type : List ℕ → Text → Option Bool → Option (Result IoError ImageDimensions)
by_type bytes media_type none = some (err invalid_input)
by_type bytes media_type (some false) = some (err invalid_input)
by_type bytes media_type (some true) =
    if same media_type image_png
    then some (dimensions_png bytes)
    else if same media_type image_jpeg
    then dimensions_jpeg bytes
    else if same media_type image_gif
    then some (dimensions_gif bytes)
    else some (err invalid_input)

unfoldable pub parse_dimensions : List ℕ → Text → Option (Result IoError ImageDimensions)
parse_dimensions bytes media_type = by_type bytes media_type (is_media_type bytes media_type)
