-- ===== src/Api/Media/Tests.antt =====
-- Images by example.
use prose_pod_server.Common.{
  ℕ, ◌≡◌, refl, ◌↔◌, true, some, List, [], ◌∷◌, ◌++◌, text_dec, starts_with,
}
use prose_pod_server.Common.Results.{ok}
use prose_pod_server.Api.Media.{
  image_png, image_gif, image_jpeg, magic_prefix_png, detect_image_media_type, is_media_type,
  parse_dimensions, dimensions_png, dimensions_gif,
}
use prose_pod_server.Api.Media.Walk.{Returns, parse_dimensions-Returns}
use prose_pod_server.Api.Media.Jpeg.{
  Segment, segment, alone, Frame, encode_all, encode_frame, dimensions, parse_dimensions-encode,
}
use prose_pod_server.Api.Media.Types.{detect_image_media_type-is_media_type}

abbrev some_gif : List ℕ
some_gif = 0x47 ∷ 0x49 ∷ 0x46 ∷ 0x38 ∷ 0x39 ∷ 0x61 ∷ 0x64 ∷ 0x00 ∷ 0x32 ∷ 0x00 ∷ []

gif_test : parse_dimensions some_gif image_gif ≡ some (ok (record { width = 100; height = 50 }))
unfolding parse_dimensions is_media_type dimensions_gif text_dec starts_with
gif_test = refl

some_png_test :
    parse_dimensions
      (magic_prefix_png
        ++ (0 ∷ 0 ∷ 0 ∷ 13 ∷ 73 ∷ 72 ∷ 68 ∷ 82 ∷ 0 ∷ 0 ∷ 1 ∷ 2 ∷ 0 ∷ 0 ∷ 0 ∷ 1 ∷ []))
      image_png
    ≡ some (ok (record { width = 258; height = 1 }))
unfolding parse_dimensions is_media_type dimensions_png text_dec starts_with
some_png_test = refl

-- A comment and a restart marker stand before the frame.
abbrev some_segments : List Segment
some_segments = segment 0xFE (65 ∷ 66 ∷ []) ∷ alone 0xD0 ∷ []

abbrev some_frame : Frame
some_frame = record {
  marker = 0xC0;
  length_high = 0;
  length_low = 17;
  precision = 8;
  height_high = 1;
  height_low = 0;
  width_high = 0;
  width_low = 9;
  rest = [];
}

parse_dimensions-encode_example :
    parse_dimensions
      (0xFF ∷ 0xD8 ∷ (encode_all some_segments ++ encode_frame some_frame))
      image_jpeg
    ≡ some (ok (dimensions some_frame))
parse_dimensions-encode_example =
    parse_dimensions-encode some_segments some_frame ((refl, refl), ((refl, refl), tt)) refl

parse_dimensions-Returns_example : Returns (parse_dimensions some_gif image_jpeg)
parse_dimensions-Returns_example = parse_dimensions-Returns some_gif image_jpeg

detect_image_media_type-is_media_type_example :
    (detect_image_media_type some_gif ≡ some image_gif)
    ↔ (is_media_type some_gif image_gif ≡ some true)
detect_image_media_type-is_media_type_example =
    detect_image_media_type-is_media_type some_gif image_gif
