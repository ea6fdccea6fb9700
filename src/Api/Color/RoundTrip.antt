-- ===== src/Api/Color/RoundTrip.antt =====
-- A printed color is read back, and no text makes the parser panic.
use Prim.Native.Nat.{bit_or}
use prose_pod_server.Common.{
  ℕ, zero, suc, ◌+◌, ◌-◌, ◌*◌, ◌/◌, ◌%◌, ◌<◌, ◌≡◌, ◌≢◌, refl, ◌∙◌, ap, Bool, true, false, not, ◌&&◌,
  Option, some, [], ◌∷◌, Text, leb, any, ◌==◌, ==_iff, arith, inl, inr, Bool-cases,
}
use prose_pod_server.Api.Color.{
  Color, to_u8, hex_to_u8, is_ascii_hexdigit, color, panicked, hex, of_digits, from_str, digit,
  display,
}

-- `p` holds of every number below `n`.
abbrev all_below : ℕ → (ℕ → Bool) → Bool
all_below zero p = true
all_below (suc n) p = p n && all_below n p

all_below-holds : (n k : ℕ) (p : ℕ → Bool) → all_below n p ≡ true → k < n → p k ≡ true
all_below-holds zero k p h l = absurd (omega arith)
all_below-holds (suc n) k p h l = elim (Bool-cases (k == n)) [
  | inl last ↦ let e : k ≡ n = (==_iff k n).0 last in ap p e ∙ ground arith
  | inr before ↦ all_below-holds n k p (ground arith) (ground arith)
]

-- Two digits make one byte: the bits of one do not meet those of the other.
bit_or_digits : (h l : ℕ) → h < 16 → l < 16 → bit_or (h * 16 % 256) l ≡ h * 16 + l
bit_or_digits h l p q = (==_iff (bit_or (h * 16 % 256) l) (h * 16 + l)).0 (
    all_below-holds 16 l (λ l'. bit_or (h * 16 % 256) l' == h * 16 + l')
      (all_below-holds 16 h (λ h'. all_below 16 (λ l'. bit_or (h' * 16 % 256) l' == h' * 16 + l'))
        refl p)
      q)

to_u8-digit : (d : ℕ) → d < 16 → to_u8 (digit d) ≡ some d
unfolding to_u8
to_u8-digit d h = ground arith

is_ascii_hexdigit-digit : (d : ℕ) → d < 16 → is_ascii_hexdigit (digit d) ≡ true
unfolding is_ascii_hexdigit
is_ascii_hexdigit-digit d h = ground arith

hex_to_u8-digits : (n : ℕ) → n < 256 → hex_to_u8 (digit (n / 16)) (digit (n % 16)) ≡ some n
unfolding hex_to_u8
hex_to_u8-digits n h =
    rw (to_u8-digit (n / 16) (omega arith), to_u8-digit (n % 16) (omega arith))
      (ap (λ k. some k) (bit_or_digits (n / 16) (n % 16) (omega arith) (omega arith) ∙ omega arith))

-- A printed color of three bytes is read back.
pub from_str-display_color :
    (c : Color) → c.red < 256 → c.green < 256 → c.blue < 256 → from_str (display c) ≡ color c
unfolding from_str display of_digits
from_str-display_color c r g b =
    rw
      (
        is_ascii_hexdigit-digit (c.red / 16) (omega arith),
        is_ascii_hexdigit-digit (c.red % 16) (omega arith),
        is_ascii_hexdigit-digit (c.green / 16) (omega arith),
        is_ascii_hexdigit-digit (c.green % 16) (omega arith),
        is_ascii_hexdigit-digit (c.blue / 16) (omega arith),
        is_ascii_hexdigit-digit (c.blue % 16) (omega arith),
        hex_to_u8-digits c.red r,
        hex_to_u8-digits c.green g,
        hex_to_u8-digits c.blue b,
      )
      refl

to_u8-hexdigit : (c : ℕ) → is_ascii_hexdigit c ≡ true → (d : ℕ) × (to_u8 c ≡ some d)
unfolding to_u8 is_ascii_hexdigit
to_u8-hexdigit c h = elim (Bool-cases (leb b'0' c && leb c b'9')) [
  | inl decimal ↦ (c - b'0', rw decimal refl)
  | inr no_decimal ↦ elim (Bool-cases (leb b'a' c && leb c b'f')) [
    | inl lower ↦ (c - b'a' + 10, rw (no_decimal, lower) refl)
    | inr no_lower ↦ (c - b'A' + 10, ground arith)
  ]
]

hex_to_u8-hexdigits :
    (h l : ℕ)
    → is_ascii_hexdigit h ≡ true
    → is_ascii_hexdigit l ≡ true
    → (n : ℕ) × (hex_to_u8 h l ≡ some n)
unfolding hex_to_u8
hex_to_u8-hexdigits h l p q =
    let (a, e) = to_u8-hexdigit h p in
    let (b, f) = to_u8-hexdigit l q in (bit_or (a * 16 % 256) b, rw (e, f) refl)

hex-color :
    (x y z : Option ℕ)
    → (r : ℕ) × (x ≡ some r)
    → (g : ℕ) × (y ≡ some g)
    → (b : ℕ) × (z ≡ some b)
    → hex x y z ≢ panicked
hex-color x y z (r, e) (g, f) (b, k) h = cc

of_digits-ne-panicked :
    (s : Text) → any (λ d. not (is_ascii_hexdigit d)) s ≡ false → of_digits s ≢ panicked
unfolding of_digits
of_digits-ne-panicked [] h e = cc
of_digits-ne-panicked (a ∷ []) h e = cc
of_digits-ne-panicked (a ∷ b ∷ []) h e = cc
of_digits-ne-panicked (a ∷ b ∷ c ∷ []) h e =
    hex-color (hex_to_u8 a a) (hex_to_u8 b b) (hex_to_u8 c c)
      (hex_to_u8-hexdigits a a (ground arith) (ground arith))
      (hex_to_u8-hexdigits b b (ground arith) (ground arith))
      (hex_to_u8-hexdigits c c (ground arith) (ground arith)) e
of_digits-ne-panicked (a ∷ b ∷ c ∷ d ∷ []) h e = cc
of_digits-ne-panicked (a ∷ b ∷ c ∷ d ∷ f ∷ []) h e = cc
of_digits-ne-panicked (a ∷ b ∷ c ∷ d ∷ f ∷ g ∷ []) h e =
    hex-color (hex_to_u8 a b) (hex_to_u8 c d) (hex_to_u8 f g)
      (hex_to_u8-hexdigits a b (ground arith) (ground arith))
      (hex_to_u8-hexdigits c d (ground arith) (ground arith))
      (hex_to_u8-hexdigits f g (ground arith) (ground arith)) e
of_digits-ne-panicked (a ∷ b ∷ c ∷ d ∷ f ∷ g ∷ k ∷ s) h e = cc

-- No text makes the parser of colors panic: only hexadecimal digits are converted.
pub from_str-ne-panicked : (s : Text) → from_str s ≢ panicked
unfolding from_str
from_str-ne-panicked [] h = cc
from_str-ne-panicked (c ∷ s) h = elim (Bool-cases (c == b'#')) [
  | inr no_hash ↦ absurd (ground arith)
  | inl hash ↦ elim (Bool-cases (any (λ d. not (is_ascii_hexdigit d)) s)) [
    | inl bad ↦ absurd (ground arith)
    | inr good ↦ of_digits-ne-panicked s good (simp (hash, good) at h)
  ]
]
