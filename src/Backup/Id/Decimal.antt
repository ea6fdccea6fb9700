-- ===== src/Backup/Id/Decimal.antt =====
-- Printed integers are read back.
use native.Mathlib.Nat.{pow-suc}
use prose_pod_server.Common.{
  ℕ, zero, suc, ◌+◌, ◌-◌, ◌/◌, ◌%◌, ◌^◌, ◌≤◌, ◌<◌, ◌≡◌, refl, sym, ap, ◌∙◌, false, some, [], ◌∷◌,
  ◌++◌, Text, length, replicate, ltb, has_byte, arith, inl, inr, Bool-cases,
}
use prose_pod_server.Common.Int.{pos}
use prose_pod_server.Backup.Id.{decimal_onto, decimal, format_010, parse_digits, parse_i64, dash}

-- Reading the digits of `n` in front of `s` is reading `s` with `n` in the accumulator.
pub parse_digits-decimal_onto :
    (fuel n : ℕ) (s : Text)
    → n < 10 ^ fuel
    → parse_digits 0 (decimal_onto fuel n s) ≡ parse_digits n s
unfolding decimal_onto parse_digits
parse_digits-decimal_onto zero n s h = ground arith
parse_digits-decimal_onto (suc f) n s h = elim (Bool-cases (ltb n 10)) [
  | inl small ↦ rw small (ground arith)
  | inr large ↦ rw large (
      parse_digits-decimal_onto f (n / 10) ((b'0' + n % 10) ∷ s) (omega (arith, pow-suc 10 f))
      ∙ ground arith)
]

parse_digits-zeros : (k : ℕ) (s : Text) → parse_digits 0 (replicate k b'0' ++ s) ≡ parse_digits 0 s
unfolding parse_digits
parse_digits-zeros zero s = refl
parse_digits-zeros (suc k) s = parse_digits-zeros k s

-- A text that begins with a digit, and holds no dash.
pub record IsNumeric (s : Text) : Type 0 where
  first : ℕ
  rest : Text
  begins : s ≡ first ∷ rest
  from_zero : b'0' ≤ first
  pub no_dash : has_byte dash s ≡ false

cons-IsNumeric : (c : ℕ) (s : Text) → b'0' ≤ c → has_byte dash s ≡ false → IsNumeric (c ∷ s)
cons-IsNumeric c s h k = record {
  first = c;
  rest = s;
  begins = refl;
  from_zero = h;
  no_dash = ground arith;
}

decimal_onto-IsNumeric :
    (fuel n : ℕ) (s : Text) → has_byte dash s ≡ false → IsNumeric (decimal_onto (suc fuel) n s)
unfolding decimal_onto
decimal_onto-IsNumeric zero n s h = elim (Bool-cases (ltb n 10)) [
  | inl small ↦ rw small (cons-IsNumeric (b'0' + n) s (omega arith) h)
  | inr large ↦ rw large (cons-IsNumeric (b'0' + n % 10) s (omega arith) h)
]
decimal_onto-IsNumeric (suc fuel) n s h = elim (Bool-cases (ltb n 10)) [
  | inl small ↦ rw small (cons-IsNumeric (b'0' + n) s (omega arith) h)
  | inr large ↦ rw large (decimal_onto-IsNumeric fuel (n / 10) ((b'0' + n % 10) ∷ s) (ground arith))
]

decimal-IsNumeric : (n : ℕ) → IsNumeric (decimal n)
unfolding decimal
decimal-IsNumeric n = decimal_onto-IsNumeric 19 n [] refl

parse_digits-decimal : (n : ℕ) → n < 2 ^ 63 → parse_digits 0 (decimal n) ≡ some n
unfolding decimal
parse_digits-decimal n h =
    parse_digits-decimal_onto 20 n [] (omega arith) ∙ unfold parse_digits in refl

zeros-IsNumeric : (k : ℕ) (s : Text) → IsNumeric s → IsNumeric (replicate k b'0' ++ s)
zeros-IsNumeric zero s v = v
zeros-IsNumeric (suc k) s v = record {
  first = b'0';
  rest = replicate k b'0' ++ s;
  begins = refl;
  from_zero = omega arith;
  no_dash = ground (arith, (zeros-IsNumeric k s v).no_dash);
}

parse_i64-cons :
    (c : ℕ) (s : Text) (n : ℕ)
    → b'0' ≤ c
    → parse_digits 0 (c ∷ s) ≡ some n
    → n < 2 ^ 63
    → parse_i64 (c ∷ s) ≡ some (pos n)
unfolding parse_i64
parse_i64-cons c s n h p k = ground arith

parse_i64-IsNumeric :
    (s : Text) (n : ℕ)
    → IsNumeric s
    → parse_digits 0 s ≡ some n
    → n < 2 ^ 63
    → parse_i64 s ≡ some (pos n)
parse_i64-IsNumeric s n v p h =
    ap parse_i64 v.begins
    ∙ parse_i64-cons v.first v.rest n v.from_zero (sym (ap (parse_digits 0) v.begins) ∙ p) h

format_010-IsNumeric : (n : ℕ) → IsNumeric (format_010 (pos n))
unfolding format_010
format_010-IsNumeric n = zeros-IsNumeric (10 - length (decimal n)) (decimal n) (decimal-IsNumeric n)

-- A timestamp from 1970 on is printed without a dash and read back.
pub parse_i64-format_010 : (n : ℕ) → n < 2 ^ 63 → parse_i64 (format_010 (pos n)) ≡ some (pos n)
parse_i64-format_010 n h =
    parse_i64-IsNumeric (format_010 (pos n)) n (format_010-IsNumeric n)
      (unfold format_010 in
        (parse_digits-zeros (10 - length (decimal n)) (decimal n) ∙ parse_digits-decimal n h))
      h

pub format_010-no_dash : (n : ℕ) → has_byte dash (format_010 (pos n)) ≡ false
format_010-no_dash n = (format_010-IsNumeric n).no_dash
