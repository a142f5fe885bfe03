-- ===== src/Webhook/Images.antt =====
-- pkg/webhook/pod-image-overrides.go and rook-priority.go: what the patches do, and whose answer it is.
use mathlib.Core.Path.{subst}
use ekco.Prelude.{
  ℕ, zero, suc, ◌+◌, String, ◌≡◌, refl, sym, ap, ◌∙◌, false, Option, none, some, List, [], ◌∷◌,
  ◌++◌, map, arith, ◌==◌, eq_iff, length, lookup,
}
use ekco.Webhook.{
  AdmissionRequest, AdmissionResponse, PodImages, review_of, override_pod_images, image_patches,
  rook_priority, replied,
}

-- The image that a container runs after the overrides.
abbrev pub overridden : List (String × String) → String → String
overridden overrides image = elim (lookup image overrides) [ none ↦ image | some new ↦ new ]

-- A JSON patch that replaces the image of one container.
abbrev pub set_at : ℕ → String → List String → List String
set_at i new [] = []
set_at zero new (image ∷ images) = new ∷ images
set_at (suc i) new (image ∷ images) = image ∷ set_at i new images

abbrev pub apply_patches : List (ℕ × String) → List String → List String
apply_patches [] images = images
apply_patches ((i, new) ∷ patches) images = apply_patches patches (set_at i new images)

set_at-append :
    (before : List String) (new image : String) (images : List String)
    → set_at (length before) new (before ++ image ∷ images) ≡ before ++ new ∷ images
set_at-append [] new image images = refl
set_at-append (b ∷ before) new image images =
    ap (λ l. b ∷ l) (set_at-append before new image images)

append_one :
    (before : List String) (image : String) (images : List String)
    → (before ++ image ∷ []) ++ images ≡ before ++ image ∷ images
append_one [] image images = refl
append_one (b ∷ before) image images = ap (λ l. b ∷ l) (append_one before image images)

length-append_one :
    (before : List String) (image : String) → length (before ++ image ∷ []) ≡ length before + 1
length-append_one [] image = omega arith
length-append_one (b ∷ before) image = omega (arith, length-append_one before image)

module _ (overrides : List (String × String)) where
  one_image :
      (before : List String) (image : String) (images : List String) (i : ℕ)
      → i ≡ length before
      → ((new : String)
          → apply_patches (image_patches overrides (i + 1) images) (before ++ new ∷ images)
            ≡ before ++ new ∷ map (overridden overrides) images)
      → (o : Option String)
      → apply_patches
          (elim o [
            | none ↦ image_patches overrides (i + 1) images
            | some new ↦ (i, new) ∷ image_patches overrides (i + 1) images
          ])
          (before ++ image ∷ images)
        ≡ before ++ (elim o [ none ↦ image | some new ↦ new ]) ∷ map (overridden overrides) images
  one_image before image images i same next none = next image
  one_image before image images i same next (some new) =
      ap (apply_patches (image_patches overrides (i + 1) images)) (
        ap (λ k. set_at k new (before ++ image ∷ images)) same
        ∙ set_at-append before new image images)
      ∙ next new

  after_prefix :
      (before images : List String) (i : ℕ)
      → i ≡ length before
      → apply_patches (image_patches overrides i images) (before ++ images)
        ≡ before ++ map (overridden overrides) images
  unfolding image_patches
  after_prefix before [] i same = refl
  after_prefix before (image ∷ images) i same =
      one_image before image images i same
        (λ new.
          subst
            (λ l.
              apply_patches (image_patches overrides (i + 1) images) l
              ≡ before ++ new ∷ map (overridden overrides) images)
            (append_one before new images)
            (after_prefix (before ++ new ∷ []) images (i + 1)
                (ap (λ n. n + 1) same ∙ sym (length-append_one before new))
              ∙ append_one before new (map (overridden overrides) images)))
        (lookup image overrides)

  -- Applied in their order to the images of a list of containers, the patches of the list replace every
  -- image that has an override, and leave the others.
  pub image_patches-apply :
      (images : List String)
      → apply_patches (image_patches overrides 0 images) images ≡ map (overridden overrides) images
  image_patches-apply images = after_prefix [] images 0 refl

-- To a request that has a UID, the handler of the priority class answers with another one, so the answer is
-- not taken for the request; the handler of the images answers, where it answers, with the UID of the
-- request.
pub rook_priority-uid :
    (priority_class : String) (r : AdmissionRequest) (response : AdmissionResponse)
    → (r.uid == "") ≡ false
    → rook_priority priority_class (review_of r) ≡ replied response
    → ((response.uid == r.uid) ≡ false)
      × ((format_int : ℕ → String) (decode_pod : String → Option PodImages)
            (overrides : List (String × String)) (other : AdmissionResponse)
          → override_pod_images format_int decode_pod overrides (review_of r) ≡ replied other
          → other.uid ≡ r.uid)
unfolding rook_priority override_pod_images
rook_priority-uid priority_class r response has answered = (
  ground (arith, eq_iff r.uid "", eq_iff response.uid r.uid),
  λ format_int decode_pod overrides other worked. ground arith,
)
