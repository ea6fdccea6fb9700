-- ===== src/Api/Media/Jpeg.antt =====
-- A description of a JPEG, apart from the code: segments, then the header of a frame. The parser
-- finds the dimensions of the frame.
use mathlib.Core.List.{append_assoc}
use prose_pod_server.Common.{
  ℕ, zero, suc, ◌+◌, ◌*◌, ◌/◌, ◌%◌, ◌≤◌, ◌<◌, ◌≡◌, refl, sym, ap, ◌∙◌, true, false, some, List, [],
  ◌∷◌, ◌++◌, length, length-append, All, ltb, arith, text_dec, starts_with,
}
use prose_pod_server.Common.Results.{ok}
use prose_pod_server.Api.Media.{
  ImageDimensions, byte, read_sof, turn, Turn, finished, go, follow, walk, is_sof, is_alone,
  dimensions_jpeg, is_media_type, parse_dimensions, image_jpeg,
}

pub data Segment : Type 0 where
  segment : (marker : ℕ) → (payload : List ℕ) → Segment
  alone : (marker : ℕ) → Segment

-- The length of a segment counts its own two bytes.
abbrev pub encode : Segment → List ℕ
encode (segment marker payload) =
    0xFF ∷ marker ∷ (length payload + 2) / 256 ∷ (length payload + 2) % 256 ∷ payload
encode (alone marker) = 0xFF ∷ marker ∷ []

abbrev pub encode_all : List Segment → List ℕ
encode_all [] = []
encode_all (s ∷ ss) = encode s ++ encode_all ss

abbrev pub IsSegment : Segment → Type 0
IsSegment (segment marker payload) = (is_sof marker ≡ false) × (is_alone marker ≡ false)
IsSegment (alone marker) = (is_sof marker ≡ false) × (is_alone marker ≡ true)

pub record Frame : Type 0 where
  pub marker : ℕ
  pub length_high : ℕ
  pub length_low : ℕ
  pub precision : ℕ
  pub height_high : ℕ
  pub height_low : ℕ
  pub width_high : ℕ
  pub width_low : ℕ
  pub rest : List ℕ

abbrev pub encode_frame : Frame → List ℕ
encode_frame f =
    0xFF ∷ f.marker ∷ f.length_high ∷ f.length_low ∷ f.precision ∷ f.height_high ∷ f.height_low
    ∷ f.width_high ∷ f.width_low ∷ f.rest

abbrev pub dimensions : Frame → ImageDimensions
dimensions f = record {
  width = f.width_high * 256 + f.width_low;
  height = f.height_high * 256 + f.height_low;
}

byte-append : (xs ys : List ℕ) (i k : ℕ) → i ≡ length xs + k → byte (xs ++ ys) i ≡ byte ys k
byte-append [] ys i k h = let e : i ≡ k = omega arith in ap (λ j. byte ys j) e
byte-append (x ∷ xs) ys zero k h = absurd (omega arith)
byte-append (x ∷ xs) ys (suc i) k h = byte-append xs ys i k (omega arith)

turn-segment :
    (xs ys payload : List ℕ) (marker : ℕ)
    → IsSegment (segment marker payload)
    → turn (xs ++ (encode (segment marker payload) ++ ys)) (length xs)
      ≡ go (length xs + (2 + (length payload + 2)))
unfolding turn
turn-segment xs ys payload marker (p, q) =
    let zs : List ℕ = encode (segment marker payload) ++ ys in
    let long : ltb (length (xs ++ zs)) (length xs + 4) ≡ false =
      ground (arith, length-append xs zs) in
    rw
      (
        byte-append xs zs (length xs) 0 (omega arith),
        byte-append xs zs (length xs + 1) 1 (omega arith),
        byte-append xs zs (length xs + 2) 2 (omega arith),
        byte-append xs zs (length xs + 3) 3 (omega arith),
        p,
        q,
        long,
      )
      (ap go (omega arith))

turn-alone :
    (xs ys : List ℕ) (marker : ℕ)
    → IsSegment (alone marker)
    → turn (xs ++ (encode (alone marker) ++ ys)) (length xs) ≡ go (length xs + 2)
unfolding turn
turn-alone xs ys marker (p, q) =
    let zs : List ℕ = encode (alone marker) ++ ys in
    rw
      (
        byte-append xs zs (length xs) 0 (omega arith),
        byte-append xs zs (length xs + 1) 1 (omega arith),
        p,
        q,
      )
      refl

turn-frame :
    (xs : List ℕ) (f : Frame)
    → is_sof f.marker ≡ true
    → turn (xs ++ encode_frame f) (length xs) ≡ finished (ok (dimensions f))
unfolding turn read_sof
turn-frame xs f p =
    let zs : List ℕ = encode_frame f in
    let long : ltb (length (xs ++ zs)) (length xs + 9) ≡ false =
      ground (arith, length-append xs zs) in
    rw
      (
        byte-append xs zs (length xs) 0 (omega arith),
        byte-append xs zs (length xs + 1) 1 (omega arith),
        p,
        long,
        byte-append xs zs (length xs + 5) 5 (omega arith),
        byte-append xs zs (length xs + 6) 6 (omega arith),
        byte-append xs zs (length xs + 7) 7 (omega arith),
        byte-append xs zs (length xs + 8) 8 (omega arith),
      )
      refl

walk-turn :
    (fuel : ℕ) (bytes : List ℕ) (pos : ℕ) {t : Turn}
    → pos + 8 < length bytes
    → turn bytes pos ≡ t
    → walk (suc fuel) bytes pos ≡ follow (walk fuel bytes) t
unfolding walk
walk-turn fuel bytes pos h p =
    let long : ltb (pos + 8) (length bytes) ≡ true = ground arith in rw (long, p) refl

length-encode_frame : (f : Frame) → 9 ≤ length (encode_frame f)
length-encode_frame f = omega arith

turn-segments :
    (xs ys : List ℕ) (s : Segment)
    → IsSegment s
    → turn (xs ++ (encode s ++ ys)) (length xs) ≡ go (length (xs ++ encode s))
turn-segments xs ys (segment marker payload) h =
    turn-segment xs ys payload marker h
    ∙ ap go (omega (arith, length-append xs (encode (segment marker payload))))
turn-segments xs ys (alone marker) h =
    turn-alone xs ys marker h ∙ ap go (omega (arith, length-append xs (encode (alone marker))))

length-encode : (s : Segment) → 1 ≤ length (encode s)
length-encode (segment marker payload) = omega arith
length-encode (alone marker) = omega arith

walk-encode_all :
    (fuel : ℕ) (xs : List ℕ) (ss : List Segment) (f : Frame)
    → All IsSegment ss
    → is_sof f.marker ≡ true
    → length (encode_all ss ++ encode_frame f) ≤ fuel
    → walk fuel (xs ++ (encode_all ss ++ encode_frame f)) (length xs) ≡ some (ok (dimensions f))
walk-encode_all zero xs [] f h k l = absurd (omega arith)
walk-encode_all (suc fuel) xs [] f h k l =
    walk-turn fuel _ (length xs) (omega (arith, length-append xs (encode_frame f)))
      (turn-frame xs f k)
walk-encode_all zero xs (s ∷ ss) f h k l =
    absurd (omega (arith, length-append (encode_all (s ∷ ss)) (encode_frame f)))
walk-encode_all (suc fuel) xs (s ∷ ss) f h k l =
    let w : List ℕ = encode_all ss ++ encode_frame f in
    let long : length xs + 8 < length (xs ++ (encode s ++ w)) = omega (
      arith,
      length-append (encode s) w,
      length-append (encode_all ss) (encode_frame f),
      length-append xs (encode s ++ w),
    ) in
    let shorter : length w ≤ fuel = omega (
      arith,
      length-encode s,
      length-append (encode s) (encode_all ss),
      length-append (encode_all (s ∷ ss)) (encode_frame f),
      length-append (encode_all ss) (encode_frame f),
    ) in
    rw (append_assoc (encode s) (encode_all ss) (encode_frame f)) (
      walk-turn fuel (xs ++ (encode s ++ w)) (length xs) long (turn-segments xs w s h.0)
      ∙ ap (λ bytes. walk fuel bytes (length (xs ++ encode s))) (sym (append_assoc xs (encode s) w))
      ∙ walk-encode_all fuel (xs ++ encode s) ss f h.1 k shorter)

starts_with-encode_all :
    (ss : List Segment) (f : Frame)
    → starts_with (encode_all ss ++ encode_frame f) (0xFF ∷ []) ≡ true
unfolding starts_with
starts_with-encode_all [] f = refl
starts_with-encode_all (segment marker payload ∷ ss) f = refl
starts_with-encode_all (alone marker ∷ ss) f = refl

-- Whatever segments and markers without a segment stand before the header of a frame, the
-- dimensions in that header are found, if no marker before it is one of a frame.
pub parse_dimensions-encode :
    (ss : List Segment) (f : Frame)
    → All IsSegment ss
    → is_sof f.marker ≡ true
    → parse_dimensions (0xFF ∷ 0xD8 ∷ (encode_all ss ++ encode_frame f)) image_jpeg
      ≡ some (ok (dimensions f))
unfolding parse_dimensions is_media_type dimensions_jpeg text_dec starts_with
parse_dimensions-encode ss f h k =
    let w : List ℕ = encode_all ss ++ encode_frame f in
    let xs : List ℕ = 0xFF ∷ 0xD8 ∷ [] in
    let long : ltb (length (xs ++ w)) 2 ≡ false = ground arith in
    rw (starts_with-encode_all ss f, long)
      (walk-encode_all (length (xs ++ w)) xs ss f h k (omega arith))
