-- ===== src/Common/Bytes.antt =====
-- Text as its bytes, with the operations of `str` that the program calls.
use Prim.Native.Nat.{ℕ}
use Prim.Native.Char.{code}
use Prim.Native.String.{String}
use mathlib.Core.Path.{◌≡◌}
use mathlib.Core.Logic.{ite}
use mathlib.Core.List.{List, [], ◌∷◌, reverse}
use mathlib.Core.Option.{Option, none, some}
use mathlib.Core.Bool.{Bool, true, false}
use native.Mathlib.Omega.{arith}
use native.Mathlib.Decide.{ℕ_discrete}
use prose_pod_server.Common.Tests.{if◌then◌else◌, ◌==◌, ltb}

abbrev pub Text : Type 0
Text = List ℕ

-- A literal: its code points, which are its bytes since the literals of the program are ASCII.
abbrev pub text : String → Text
text String.[] = []
text (String.◌∷◌ c s) = code c ∷ text s

unfoldable pub text_dec : Discrete Text
unfolding ℕ_discrete
text_dec = hlevel ℕ_discrete

-- `a == b` on strings.
abbrev pub same : Text → Text → Bool
same a b = ite (text_dec a b) true false

-- `s.strip_prefix(p)`, the prefix first.
unfoldable pub strip_prefix : Text → Text → Option Text
strip_prefix [] s = some s
strip_prefix (c ∷ p) [] = none
strip_prefix (c ∷ p) (d ∷ s) = if c == d then strip_prefix p s else none

unfoldable pub starts_with : Text → Text → Bool
starts_with s [] = true
starts_with [] (d ∷ p) = false
starts_with (c ∷ s) (d ∷ p) = if c == d then starts_with s p else false

unfoldable pub ends_with : Text → Text → Bool
unfolding starts_with
ends_with s p = starts_with (reverse s) (reverse p)

-- `a < b`: the order of strings is that of their bytes.
unfoldable pub lt_text : Text → Text → Bool
lt_text a [] = false
lt_text [] (d ∷ b) = true
lt_text (c ∷ a) (d ∷ b) = if c == d then lt_text a b else ltb c d

pub same→eq : (a b : Text) → same a b ≡ true → a ≡ b
same→eq a b h = ground arith

pub same_refl : (a : Text) → same a a ≡ true
same_refl a = ground arith

pub same_sym : (a b : Text) → same a b ≡ same b a
same_sym a b = ground arith
