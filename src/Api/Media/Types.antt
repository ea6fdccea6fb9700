-- ===== src/Api/Media/Types.antt =====
-- The media type that is detected is the one that the data has.
use prose_pod_server.Common.{
  ℕ, ◌≡◌, ◌≢◌, refl, ap, sym, subst, ◌↔◌, Bool, true, false, Bool-cases, Option, some, none, List,
  [], ◌∷◌, Text, text_dec, same, same→eq, starts_with, if◌then◌else◌, arith, inl, inr,
}
use prose_pod_server.Api.Media.{
  image_png, image_gif, image_jpeg, detect_image_media_type, is_media_type,
}

-- Data does not start with two bytes that differ.
starts_with-other :
    (bytes : List ℕ) (a b : ℕ) (p q : List ℕ)
    → a ≢ b
    → starts_with bytes (a ∷ p) ≡ true
    → starts_with bytes (b ∷ q) ≡ false
unfolding starts_with
starts_with-other [] a b p q n h = cc
starts_with-other (c ∷ bytes) a b p q n h = ground arith

-- The two functions over the outcomes of the three tests.
abbrev detected : Bool → Bool → Bool → Option Text
detected png gif jpeg =
    if png
    then some image_png
    else if gif
    then some image_gif
    else if jpeg
    then some image_jpeg
    else none

abbrev confirmed : Bool → Bool → Bool → Text → Option Bool
confirmed png gif jpeg t =
    if same t image_png
    then some png
    else if same t image_gif
    then some gif
    else if same t image_jpeg
    then some jpeg
    else none

detected-confirmed :
    (png gif jpeg : Bool) (t : Text)
    → detected png gif jpeg ≡ some t
    → confirmed png gif jpeg t ≡ some true
unfolding text_dec
detected-confirmed true gif jpeg t h =
    let e : image_png ≡ t = cc in subst (λ x. confirmed true gif jpeg x ≡ some true) e refl
detected-confirmed false true jpeg t h =
    let e : image_gif ≡ t = cc in subst (λ x. confirmed false true jpeg x ≡ some true) e refl
detected-confirmed false false true t h =
    let e : image_jpeg ≡ t = cc in subst (λ x. confirmed false false true x ≡ some true) e refl
detected-confirmed false false false t h = cc

confirmed-detected :
    (png gif jpeg : Bool) (t : Text)
    → (gif ≡ true → png ≡ false)
    → (jpeg ≡ true → png ≡ false)
    → (jpeg ≡ true → gif ≡ false)
    → confirmed png gif jpeg t ≡ some true
    → detected png gif jpeg ≡ some t
confirmed-detected png gif jpeg t gp jp jg h = elim (Bool-cases (same t image_png)) [
  | inl p ↦ let k : png ≡ true = cc in rw k (ap some (sym (same→eq t image_png p)))
  | inr p ↦ elim (Bool-cases (same t image_gif)) [
    | inl q ↦ let k : gif ≡ true = cc in rw (gp k, k) (ap some (sym (same→eq t image_gif q)))
    | inr q ↦ elim (Bool-cases (same t image_jpeg)) [
      | inl r ↦
          let k : jpeg ≡ true = cc in rw (jp k, jg k, k) (ap some (sym (same→eq t image_jpeg r)))
      | inr r ↦ cc
    ]
  ]
]

-- A media type is detected exactly if `is_media_type` confirms it: the two functions agree on all
-- data and every media type.
pub detect_image_media_type-is_media_type :
    (bytes : List ℕ) (media_type : Text)
    → (detect_image_media_type bytes ≡ some media_type)
      ↔ (is_media_type bytes media_type ≡ some true)
unfolding detect_image_media_type is_media_type
detect_image_media_type-is_media_type bytes media_type = (
  detected-confirmed _ _ _ media_type,
  confirmed-detected _ _ _ media_type (starts_with-other bytes 0x47 0x89 _ _ (omega arith))
      (starts_with-other bytes 0xff 0x89 _ _ (omega arith))
      (starts_with-other bytes 0xff 0x47 _ _ (omega arith)),
)
