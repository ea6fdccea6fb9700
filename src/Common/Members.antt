-- ===== src/Common/Members.antt =====
-- Membership in a list as a sum, and the tests that decide it.
use mathlib.Core.Path.{◌≡◌, refl}
use mathlib.Core.Logic.{◌⊎◌, inl, inr}
use mathlib.Core.Bool.{Bool, true, ◌&&◌}
use mathlib.Core.List.{List, [], ◌∷◌, ◌++◌, reverse, reverse-cons}
use native.Mathlib.Omega.{arith}
use prose_pod_server.Common.Tests.{Bool-cases}
use prose_pod_server.Common.Bytes.{Text, same, same→eq}
use prose_pod_server.Common.Lists.{keep, any, All}

abbrev pub contains : Text → List Text → Bool
contains name = any (λ n. same n name)

pub contains-keep :
    (n : Text) (p : Text → Bool) (ns : List Text) → contains n (keep p ns) ≡ (contains n ns && p n)
contains-keep n p [] = refl
contains-keep n p (m ∷ ns) = ground (arith, contains-keep n p ns, same→eq m n)

module _ {A : Type 0} where
  abbrev pub IsIn : A → List A → Type 0
  IsIn a [] = ⊥
  IsIn a (x ∷ xs) = (a ≡ x) ⊎ IsIn a xs

  pub IsIn-append_left : (a : A) (xs ys : List A) → IsIn a xs → IsIn a (xs ++ ys)
  IsIn-append_left a [] ys h = absurd h
  IsIn-append_left a (x ∷ xs) ys (inl e) = inl e
  IsIn-append_left a (x ∷ xs) ys (inr h) = inr (IsIn-append_left a xs ys h)

  pub IsIn-append_right : (a : A) (xs ys : List A) → IsIn a ys → IsIn a (xs ++ ys)
  IsIn-append_right a [] ys h = h
  IsIn-append_right a (x ∷ xs) ys h = inr (IsIn-append_right a xs ys h)

  pub IsIn-reverse : (a : A) (xs : List A) → IsIn a xs → IsIn a (reverse xs)
  IsIn-reverse a [] h = h
  IsIn-reverse a (x ∷ xs) (inl e) =
      rw reverse-cons (IsIn-append_right a (reverse xs) (x ∷ []) (inl e))
  IsIn-reverse a (x ∷ xs) (inr h) =
      rw reverse-cons (IsIn-append_left a (reverse xs) (x ∷ []) (IsIn-reverse a xs h))

  pub IsIn-keep : (a : A) (p : A → Bool) (xs : List A) → p a ≡ true → IsIn a xs → IsIn a (keep p xs)
  IsIn-keep a p [] t h = h
  IsIn-keep a p (x ∷ xs) t (inl e) = rw (← e) (rw t (inl refl))
  IsIn-keep a p (x ∷ xs) t (inr h) = elim (Bool-cases (p x)) [
    | inl kept ↦ rw kept (inr (IsIn-keep a p xs t h))
    | inr dropped ↦ rw dropped (IsIn-keep a p xs t h)
  ]

  pub All-IsIn {κ} : (P : A → Type κ) (xs : List A) (a : A) → All P xs → IsIn a xs → P a
  All-IsIn P [] a h k = absurd k
  All-IsIn P (x ∷ xs) a h (inl e) = rw e h.0
  All-IsIn P (x ∷ xs) a h (inr k) = All-IsIn P xs a h.1 k

  pub All-keep {κ} : (P : A → Type κ) (p : A → Bool) (xs : List A) → All P xs → All P (keep p xs)
  All-keep P p [] h = tt
  All-keep P p (x ∷ xs) h = elim (Bool-cases (p x)) [
    | inl kept ↦ rw kept (h.0, All-keep P p xs h.1)
    | inr dropped ↦ rw dropped (All-keep P p xs h.1)
  ]
