-- ===== src/Api/Shell/Name.antt =====
-- The name of a command shows no argument.
use prose_pod_server.Common.{
  ℕ, suc, ◌<◌, ◌≡◌, refl, ap, ◌⊎◌, Bool, true, false, none, some, List, [], ◌∷◌, ◌++◌, Text, text,
  has_byte, length, take, ◌==◌, inl, inr, arith, Option-cases,
}
use prose_pod_server.Common.Results.{ok}
use prose_pod_server.Api.Shell.{find, is_spaced, command_name}
use prose_pod_server.Api.Shell.Commands.{call, commas}

find-append : (c : ℕ) (a b : Text) → has_byte c a ≡ false → find c (a ++ c ∷ b) ≡ some (length a)
find-append c [] b h = ground arith
find-append c (d ∷ a) b h = ground (arith, find-append c a b)

-- A byte that is not in the first part, nor right behind it, is found further on or not at all.
find-behind :
    (c p : ℕ) (a b : Text)
    → has_byte c a ≡ false
    → (p == c) ≡ false
    → (find c (a ++ p ∷ b) ≡ none) ⊎ ((i : ℕ) × (find c (a ++ p ∷ b) ≡ some i) × (length a < i))
find-behind c p [] b h k = elim (Option-cases (find c b)) [
  | inl e ↦ inl (rw (k, e) refl)
  | inr (i, e) ↦ inr (suc i, rw (k, e) refl, omega arith)
]
find-behind c p (d ∷ a) b h k = elim (find-behind c p a b (ground arith) k) [
  | inl e ↦ inl (ground arith)
  | inr (i, e, l) ↦ inr (suc i, ground arith, omega arith)
]

take-append : {A : Type 0} (a b : List A) → take (length a) (a ++ b) ≡ a
take-append [] [] = refl
take-append [] (y ∷ b) = refl
take-append (x ∷ a) b = ap (λ l. x ∷ l) (take-append a b)

is_spaced-behind :
    (advanced : Bool) (a b : Text)
    → has_byte b' ' a ≡ false
    → is_spaced advanced (find b' ' (a ++ b'(' ∷ b)) (length a) ≡ true
is_spaced-behind true a b h = refl
is_spaced-behind false a b h = elim (find-behind b' ' b'(' a b h refl) [
  | inl e ↦ rw e refl
  | inr (i, e, l) ↦ rw e (ground arith)
]

-- `command_name` of a basic command does not panic and is the name that is called, whatever the
-- arguments are, if the name has no parenthesis and no space.
pub command_name-call :
    (name : Text) (args : List Text)
    → has_byte b'(' name ≡ false
    → has_byte b' ' name ≡ false
    → command_name (call name args) ≡ ok name
unfolding command_name
command_name-call name args h k =
    let rest : Text = commas args ++ text ")" in
    rw (find-append b'(' name rest h, is_spaced-behind _ name rest k) (ap ok (take-append name _))
