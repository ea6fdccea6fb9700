-- ===== src/Backup/Amount/RoundTrip.antt =====
-- A printed amount is read back.
use prose_pod_server.Common.{
  ℕ, zero, suc, ◌+◌, ◌/◌, ◌%◌, ◌<◌, ◌≡◌, ◌≢◌, refl, ◌∙◌, ap, true, false, some, [], ◌∷◌, ◌++◌, Text,
  text, All, ltb, u64_mod, text_dec, arith, inl, inr, Bool-cases,
}
use prose_pod_server.Backup.Id.{decimal_onto, decimal, parse_digits, is_digit}
use prose_pod_server.Backup.Id.Decimal.{parse_digits-decimal_onto}
use prose_pod_server.Backup.Amount.{
  BytesAmount, bytes, kilo_bytes, kibi_bytes, mega_bytes, mebi_bytes, giga_bytes, gibi_bytes, print,
  display, split_leading_digits, parse_u64, amount, of_unit, on_quantity, from_str,
}

abbrev AreDigits : Text → Type 0
AreDigits = All (λ c. is_digit c ≡ true)

decimal_onto-AreDigits : (fuel n : ℕ) (s : Text) → AreDigits s → AreDigits (decimal_onto fuel n s)
unfolding decimal_onto
decimal_onto-AreDigits zero n s h = h
decimal_onto-AreDigits (suc f) n s h = elim (Bool-cases (ltb n 10)) [
  | inl small ↦ rw small (ground arith, h)
  | inr large ↦ rw large (decimal_onto-AreDigits f (n / 10) ((b'0' + n % 10) ∷ s) (ground arith, h))
]

decimal_onto-nonempty : (fuel n c : ℕ) (s : Text) → decimal_onto fuel n (c ∷ s) ≢ []
unfolding decimal_onto
decimal_onto-nonempty zero n c s h = cc
decimal_onto-nonempty (suc f) n c s h = elim (Bool-cases (ltb n 10)) [
  | inl small ↦ absurd (ground arith)
  | inr large ↦ decimal_onto-nonempty f (n / 10) (b'0' + n % 10) (c ∷ s) (ground arith)
]

split-AreDigits :
    (digits : Text) (c : ℕ) (unit : Text)
    → AreDigits digits
    → is_digit c ≡ false
    → split_leading_digits (digits ++ c ∷ unit) ≡ (digits, c ∷ unit)
unfolding split_leading_digits
split-AreDigits [] c unit h k = rw k refl
split-AreDigits (d ∷ ds) c unit h k = rw (h.0, split-AreDigits ds c unit h.1 k) refl

parse_u64-nonempty :
    (s : Text) (n : ℕ) → s ≢ [] → parse_digits 0 s ≡ some n → n < u64_mod → parse_u64 s ≡ some n
unfolding parse_u64
parse_u64-nonempty [] n h p k = absurd (h refl)
parse_u64-nonempty (c ∷ s) n h p k = rw p (ground arith)

decimal_nonempty : (n : ℕ) → decimal n ≢ []
unfolding decimal decimal_onto
decimal_nonempty n h = elim (Bool-cases (ltb n 10)) [
  | inl small ↦ absurd (ground arith)
  | inr large ↦ decimal_onto-nonempty 19 (n / 10) (b'0' + n % 10) [] (ground arith)
]

parse_u64-decimal : (n : ℕ) → n < u64_mod → parse_u64 (decimal n) ≡ some n
parse_u64-decimal n h =
    parse_u64-nonempty (decimal n) n (decimal_nonempty n)
      (unfold decimal parse_digits in parse_digits-decimal_onto 20 n [] (omega arith)) h

-- The text of a quantity before a unit that does not begin with a digit.
from_str-print :
    (n c : ℕ) (unit : Text)
    → n < u64_mod
    → is_digit c ≡ false
    → from_str (print n (c ∷ unit)) ≡ of_unit n (c ∷ unit)
unfolding from_str
from_str-print n c unit h k =
    ap (λ p. on_quantity p.1 (parse_u64 p.0))
      (split-AreDigits (decimal n) c unit (unfold decimal in decimal_onto-AreDigits 20 n [] tt) k)
    ∙ ap (on_quantity (c ∷ unit)) (parse_u64-decimal n h)

abbrev pub quantity : BytesAmount → ℕ
quantity (bytes n) = n
quantity (kilo_bytes n) = n
quantity (kibi_bytes n) = n
quantity (mega_bytes n) = n
quantity (mebi_bytes n) = n
quantity (giga_bytes n) = n
quantity (gibi_bytes n) = n

-- A printed amount of bytes, its quantity below 2⁶⁴, is read back with its unit.
pub from_str-display : (a : BytesAmount) → quantity a < u64_mod → from_str (display a) ≡ amount a
unfolding display of_unit text_dec
from_str-display (bytes n) h = from_str-print n b'B' [] h refl
from_str-display (kilo_bytes n) h = from_str-print n b'k' (text "B") h refl
from_str-display (kibi_bytes n) h = from_str-print n b'K' (text "iB") h refl
from_str-display (mega_bytes n) h = from_str-print n b'M' (text "B") h refl
from_str-display (mebi_bytes n) h = from_str-print n b'M' (text "iB") h refl
from_str-display (giga_bytes n) h = from_str-print n b'G' (text "B") h refl
from_str-display (gibi_bytes n) h = from_str-print n b'G' (text "iB") h refl
