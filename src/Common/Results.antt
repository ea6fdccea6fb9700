-- ===== src/Common/Results.antt =====
-- Results of fallible code.
use mathlib.Core.Path.{◌≡◌, refl}

-- A result, the error first. `panicked` is a failed `assert!`.
pub data Result {ℓ κ} (E : Type ℓ) (A : Type κ) : Type (ℓ ⊔ κ) where
  ok : A → Result E A
  err : E → Result E A
  panicked : Result E A

infixl 5 ◌>>=◌
abbrev pub ◌>>=◌ {ℓ κ λ'} :
    {E : Type ℓ} {A : Type κ} {B : Type λ'} → Result E A → (A → Result E B) → Result E B
ok a >>= f = f a
err e >>= f = err e
panicked >>= f = panicked

-- The parts of a successful chain.
pub >>=-ok {ℓ κ λ'} :
    {E : Type ℓ} {A : Type κ} {B : Type λ'} (r : Result E A) (f : A → Result E B) {b : B}
    → (r >>= f) ≡ ok b
    → (a : A) × (r ≡ ok a) × (f a ≡ ok b)
>>=-ok (ok a) f h = (a, refl, h)
>>=-ok (err e) f h = cc
>>=-ok panicked f h = cc

abbrev pub map_err {ℓ κ λ'} :
    {E : Type ℓ} {F : Type κ} {A : Type λ'} → (E → F) → Result E A → Result F A
map_err f (ok a) = ok a
map_err f (err e) = err (f e)
map_err f panicked = panicked

-- `util::either::Either`
pub data Either {ℓ κ} (A : Type ℓ) (B : Type κ) : Type (ℓ ⊔ κ) where
  e1 : A → Either A B
  e2 : B → Either A B
