-- ===== src/Api/Media/Walk.antt =====
-- The walk over a JPEG ends, and no index of the parsers is out of range.
use prose_pod_server.Common.{
  ℕ, zero, suc, ◌+◌, ◌≤◌, ◌<◌, ◌≡◌, ◌≢◌, refl, Bool, true, false, Bool-cases, Option, none, some,
  List, [], ◌∷◌, Text, if_holds, length, ltb, inl, inr, arith,
}
use prose_pod_server.Common.Results.{Result, ok, err, panicked, ◌>>=◌}
use prose_pod_server.Api.Media.{
  ImageDimensions, IoError, byte, read_sof, Turn, finished, go, skip_segment, at_marker, turn,
  follow, walk, dimensions_jpeg, dimensions_png, dimensions_gif, by_type, is_media_type,
  parse_dimensions, invalid_data, invalid_input,
}

byte-ok : (bytes : List ℕ) (i : ℕ) → i < length bytes → (b : ℕ) × (byte bytes i ≡ ok b)
byte-ok [] i h = absurd (omega arith)
byte-ok (b ∷ bytes) zero h = (b, refl)
byte-ok (b ∷ bytes) (suc i) h = byte-ok bytes i (omega arith)

-- A read in range, and what is done with it.
read-ne-panicked :
    (bytes : List ℕ) (i : ℕ) (f : ℕ → Result IoError ImageDimensions)
    → i < length bytes
    → ((b : ℕ) → f b ≢ panicked)
    → (byte bytes i >>= f) ≢ panicked
read-ne-panicked bytes i f h k = let (b, p) = byte-ok bytes i h in rw p (k b)

abbrev pub Returns : Option (Result IoError ImageDimensions) → Type 0
Returns o = (r : Result IoError ImageDimensions) × (o ≡ some r) × (r ≢ panicked)

read_sof-ne-panicked :
    (bytes : List ℕ) (pos : ℕ) → pos + 8 < length bytes → read_sof bytes pos ≢ panicked
unfolding read_sof
read_sof-ne-panicked bytes pos h = elim (Bool-cases (ltb (length bytes) (pos + 9))) [
  | inl p ↦ rw p (λ e. cc)
  | inr p ↦ rw p (
      read-ne-panicked bytes (pos + 5) _ (omega arith) (λ a.
        read-ne-panicked bytes (pos + 6) _ (omega arith) (λ b.
          read-ne-panicked bytes (pos + 7) _ (omega arith)
            (λ c. read-ne-panicked bytes (pos + 8) _ (omega arith) (λ d e. cc)))))
]

-- A turn of the loop gives a result or moves on.
data Progress (pos : ℕ) : Turn → Type 0 where
  done : {r : Result IoError ImageDimensions} → r ≢ panicked → Progress pos (finished r)
  moved : {next : ℕ} → pos < next → Progress pos (go next)

module _ (bytes : List ℕ) (pos : ℕ) (h : pos + 8 < length bytes) where
  at_marker-Progress : (marker : ℕ) → Progress pos (at_marker bytes pos (ok marker))
  at_marker-Progress marker =
      let (a, p) = byte-ok bytes (pos + 2) (omega arith) in
      let (b, q) = byte-ok bytes (pos + 3) (omega arith) in
      let alone : Progress pos (go (pos + 2)) = moved (omega arith) in
      let refused : Progress pos (finished (err invalid_data)) = done (λ e. cc) in
      let segment : Progress pos (skip_segment pos (byte bytes (pos + 2)) (byte bytes (pos + 3))) =
        rw (p, q) (moved (omega arith)) in
      if_holds (Progress pos) _ _ _ (done (read_sof-ne-panicked bytes pos h))
        (if_holds (Progress pos) _ _ _ alone (if_holds (Progress pos) _ _ _ refused segment))

  turn-Progress : Progress pos (turn bytes pos)
  unfolding turn
  turn-Progress =
      let (a, p) = byte-ok bytes pos (omega arith) in
      let (b, q) = byte-ok bytes (pos + 1) (omega arith) in
      let next : Progress pos (go (pos + 1)) = moved (omega arith) in
      rw (p, q) (if_holds (Progress pos) _ _ _ (at_marker-Progress b) next)

follow-Returns :
    (continue : ℕ → Option (Result IoError ImageDimensions)) (pos : ℕ) (t : Turn)
    → Progress pos t
    → ((next : ℕ) → pos < next → Returns (continue next))
    → Returns (follow continue t)
follow-Returns continue pos (finished r) (done h) k = (r, refl, h)
follow-Returns continue pos (go next) (moved h) k = k next h

walk-Returns :
    (fuel : ℕ) (bytes : List ℕ) (pos : ℕ)
    → 0 < fuel
    → length bytes ≤ fuel + pos
    → Returns (walk fuel bytes pos)
unfolding walk
walk-Returns zero bytes pos k h = absurd (omega arith)
walk-Returns (suc fuel) bytes pos k h = elim (Bool-cases (ltb (pos + 8) (length bytes))) [
  | inl p ↦ rw p (
      follow-Returns (walk fuel bytes) pos (turn bytes pos) (turn-Progress bytes pos (ground arith))
        (λ next l. walk-Returns fuel bytes next (ground arith) (ground arith)))
  | inr p ↦ rw p (err invalid_data, refl, λ e. cc)
]

dimensions_jpeg-Returns : (bytes : List ℕ) → Returns (dimensions_jpeg bytes)
unfolding dimensions_jpeg
dimensions_jpeg-Returns bytes = elim (Bool-cases (ltb (length bytes) 2)) [
  | inl p ↦ rw p (err invalid_data, refl, λ e. cc)
  | inr p ↦ rw p (walk-Returns (length bytes) bytes 2 (ground arith) (omega arith))
]

dimensions_png-ne-panicked : (bytes : List ℕ) → dimensions_png bytes ≢ panicked
unfolding dimensions_png
dimensions_png-ne-panicked bytes = elim (Bool-cases (ltb (length bytes) 24)) [
  | inl p ↦ rw p (λ e. cc)
  | inr p ↦
      let l : 24 ≤ length bytes = ground arith in
      rw p (
        read-ne-panicked bytes 16 _ (omega arith) (λ u.
          read-ne-panicked bytes 17 _ (omega arith) (λ v.
            read-ne-panicked bytes 18 _ (omega arith) (λ w.
              read-ne-panicked bytes 19 _ (omega arith) (λ x.
                read-ne-panicked bytes 20 _ (omega arith) (λ y.
                  read-ne-panicked bytes 21 _ (omega arith) (λ z.
                    read-ne-panicked bytes 22 _ (omega arith)
                      (λ s. read-ne-panicked bytes 23 _ (omega arith) (λ t. λ e. cc)))))))))
]

dimensions_gif-ne-panicked : (bytes : List ℕ) → dimensions_gif bytes ≢ panicked
unfolding dimensions_gif
dimensions_gif-ne-panicked bytes = elim (Bool-cases (ltb (length bytes) 10)) [
  | inl p ↦ rw p (λ e. cc)
  | inr p ↦
      let l : 10 ≤ length bytes = ground arith in
      rw p (
        read-ne-panicked bytes 6 _ (omega arith) (λ u.
          read-ne-panicked bytes 7 _ (omega arith) (λ v.
            read-ne-panicked bytes 8 _ (omega arith)
              (λ w. read-ne-panicked bytes 9 _ (omega arith) (λ x. λ e. cc)))))
]

by_type-Returns :
    (bytes : List ℕ) (media_type : Text) (o : Option Bool) → Returns (by_type bytes media_type o)
by_type-Returns bytes media_type none = (err invalid_input, refl, λ e. cc)
by_type-Returns bytes media_type (some false) = (err invalid_input, refl, λ e. cc)
by_type-Returns bytes media_type (some true) =
    if_holds Returns _ _ _ (dimensions_png bytes, refl, dimensions_png-ne-panicked bytes)
      (if_holds Returns _ _ _ (dimensions_jpeg-Returns bytes) (
        if_holds Returns _ _ _ (dimensions_gif bytes, refl, dimensions_gif-ne-panicked bytes)
          (err invalid_input, refl, λ e. cc)))

-- Whatever the bytes and the media type are, the dimensions are parsed or refused with an error:
-- the loop over a JPEG ends within as many turns as there are bytes, and no index is out of range.
pub parse_dimensions-Returns :
    (bytes : List ℕ) (media_type : Text) → Returns (parse_dimensions bytes media_type)
unfolding parse_dimensions
parse_dimensions-Returns bytes media_type =
    by_type-Returns bytes media_type (is_media_type bytes media_type)
