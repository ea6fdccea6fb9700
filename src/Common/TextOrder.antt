-- ===== src/Common/TextOrder.antt =====
-- The order of strings.
use prose_pod_server.Common.Bytes.{Text, lt_text}
use Prim.Native.Nat.{ℕ}
use mathlib.Core.Path.{◌≡◌, refl}
use mathlib.Core.Bool.{true, false}
use mathlib.Core.List.{[], ◌∷◌, ◌++◌}
use native.Mathlib.Omega.{arith}

pub lt_text_asymm : (a b : Text) → lt_text a b ≡ true → lt_text b a ≡ false
unfolding lt_text
lt_text_asymm [] [] h = refl
lt_text_asymm [] (d ∷ b) h = refl
lt_text_asymm (c ∷ a) [] h = cc
lt_text_asymm (c ∷ a) (d ∷ b) h = ground (arith, lt_text_asymm a b)

-- `a ≤ b` and `b ≤ c` give `a ≤ c`.
pub lt_text_trans : (a b c : Text) → lt_text b a ≡ false → lt_text c b ≡ false → lt_text c a ≡ false
unfolding lt_text
lt_text_trans [] b [] h k = refl
lt_text_trans [] [] (e ∷ c) h k = k
lt_text_trans [] (d ∷ b) (e ∷ c) h k = refl
lt_text_trans (x ∷ a) [] c h k = cc
lt_text_trans (x ∷ a) (d ∷ b) [] h k = cc
lt_text_trans (x ∷ a) (d ∷ b) (e ∷ c) h k = ground (arith, lt_text_trans a b c)

-- A text that is not smaller is smaller once something is put behind it.
pub lt_text-append :
    (a b : Text) (c : ℕ) (s : Text) → lt_text b a ≡ false → lt_text a (b ++ c ∷ s) ≡ true
unfolding lt_text
lt_text-append [] [] c s h = refl
lt_text-append [] (d ∷ b) c s h = refl
lt_text-append (x ∷ a) [] c s h = cc
lt_text-append (x ∷ a) (d ∷ b) c s h = ground (arith, lt_text-append a b c s)

pub lt_text_irrefl : (a : Text) → lt_text a a ≡ false
unfolding lt_text
lt_text_irrefl [] = refl
lt_text_irrefl (c ∷ a) = ground (arith, lt_text_irrefl a)
