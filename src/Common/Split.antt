-- ===== src/Common/Split.antt =====
-- `split_once`, `split`, `join` and `replace` of `str`, with a one-byte separator.
use prose_pod_server.Common.Tests.{if◌then◌else◌, ◌==◌}
use prose_pod_server.Common.Bytes.{Text}
use Prim.Native.Nat.{ℕ}
use mathlib.Core.Path.{◌≡◌, refl}
use mathlib.Core.Logic.{◌≢◌}
use mathlib.Core.Bool.{Bool, false, ◌||◌}
use mathlib.Core.List.{List, [], ◌∷◌, ◌++◌, append_assoc}
use mathlib.Core.Option
use mathlib.Core.Option.{Option, none, some}
use native.Mathlib.Omega.{arith}

abbrev pub has_byte : ℕ → Text → Bool
has_byte c [] = false
has_byte c (d ∷ s) = d == c || has_byte c s

unfoldable pub split_once : ℕ → Text → Option (Text × Text)
split_once c [] = none
split_once c (d ∷ s) =
    if d == c then some ([], s) else Option.map (λ (a, b). (d ∷ a, b)) (split_once c s)

abbrev pub cons_first : ℕ → List Text → List Text
cons_first d [] = (d ∷ []) ∷ []
cons_first d (p ∷ ps) = (d ∷ p) ∷ ps

-- `s.split(c)`, never empty.
unfoldable pub split : ℕ → Text → List Text
split c [] = [] ∷ []
split c (d ∷ s) = if d == c then [] ∷ split c s else cons_first d (split c s)

unfoldable pub join : ℕ → List Text → Text
join c [] = []
join c (p ∷ []) = p
join c (p ∷ q ∷ ps) = p ++ c ∷ join c (q ∷ ps)

-- `s.replace(c, r)`
unfoldable pub replace : ℕ → Text → Text → Text
replace c r [] = []
replace c r (d ∷ s) = if d == c then r ++ replace c r s else d ∷ replace c r s

-- The separator that was put in is the one that is found.
pub split_once-append :
    (c : ℕ) (a b : Text) → has_byte c a ≡ false → split_once c (a ++ c ∷ b) ≡ some (a, b)
unfolding split_once
split_once-append c [] b h = ground arith
split_once-append c (d ∷ a) b h = ground (arith, split_once-append c a b)

pub split-append :
    (c : ℕ) (a b : Text) → has_byte c a ≡ false → split c (a ++ c ∷ b) ≡ a ∷ split c b
unfolding split
split-append c [] b h = ground arith
split-append c (d ∷ a) b h = ground (arith, split-append c a b)

pub split-none : (c : ℕ) (a : Text) → has_byte c a ≡ false → split c a ≡ a ∷ []
unfolding split
split-none c [] h = refl
split-none c (d ∷ a) h = ground (arith, split-none c a)

abbrev pub NoneHas : ℕ → List Text → Type 0
NoneHas c [] = Unit
NoneHas c (p ∷ ps) = (has_byte c p ≡ false) × NoneHas c ps

-- Joined pieces that do not hold the separator are split into the same pieces.
pub split-join : (c : ℕ) (ps : List Text) → ps ≢ [] → NoneHas c ps → split c (join c ps) ≡ ps
unfolding join
split-join c [] n h = absurd (n refl)
split-join c (p ∷ []) n h = split-none c p h.0
split-join c (p ∷ q ∷ ps) n h =
    ground (arith, split-append c p (join c (q ∷ ps)), split-join c (q ∷ ps))

pub replace-append : (c : ℕ) (r a b : Text) → replace c r (a ++ b) ≡ replace c r a ++ replace c r b
unfolding replace
replace-append c r [] b = refl
replace-append c r (d ∷ a) b =
    ground (arith, replace-append c r a b, append_assoc r (replace c r a) (replace c r b))
