-- ===== src/Webhook.antt =====
-- pkg/webhook/rook-priority.go and pkg/webhook/pod-image-overrides.go: the two admission handlers. The
-- decoders of apimachinery are the parameters `review` and `decode_pod`.
pub mod Images
pub mod Install
use Prim.Native.String.{◌++◌ as join_text}
use ekco.Prelude.{
  ℕ, ◌+◌, String, Bool, true, false, ◌&&◌, ◌||◌, Option, none, some, List, [], ◌∷◌, ◌++◌, map, ◌==◌,
  if◌then◌else◌, lookup,
}
use ekco.Kube.{when}
use ekco.Prelude.Text.{join_all}

pub record AdmissionRequest : Type 0 where
  pub uid : String
  pub group : String
  pub resource : String
  pub namespace : String
  pub object : String

-- `message` is that of an error; `patch` is `none` without one.
pub record AdmissionResponse : Type 0 where
  pub uid : String
  pub allowed : Bool
  pub patch : Option String
  pub message : Option String

-- The two lists of containers of the pod under review, by their images.
pub record PodImages : Type 0 where
  pub init_images : List String
  pub images : List String

-- What a handler does: it answers, it aborts with 500, it returns without an answer, or it panics on a
-- nil pointer.
pub data Handled : Type 0 where
  replied : AdmissionResponse → Handled
  aborted_500 : String → Handled
  silent : Handled
  panicked : Handled

-- What reading the body and `Decode` make of it: an error of either, a review without a request, or one
-- with it.
pub data Review : Type 0 where
  unread : String → Review
  undecoded : String → Review
  empty_review : Review
  review_of : AdmissionRequest → Review

abbrev pub priority_patch : String → String
priority_patch priority_class =
    join_text "[{\"op\":\"replace\",\"path\":\"/spec/template/spec/priorityClassName\",\"value\":\""
      (join_text priority_class "\"}]")

abbrev pub is_rook_workload : AdmissionRequest → Bool
is_rook_workload r =
    r.group == "apps"
    && (r.resource == "deployments" || r.resource == "daemonsets")
    && r.namespace == "rook-ceph"

-- `if request.Request != nil`: a response has the UID of the request, if there is one yet.
abbrev pub uid_of : Option AdmissionRequest → String
uid_of none = ""
uid_of (some r) = r.uid

-- The request before the body is decoded.
abbrev initial_request : Option AdmissionRequest
initial_request = none

-- What follows the copy of the UID.
abbrev decide_priority : String → String → Review → Handled
decide_priority priority_class uid (unread message) = aborted_500 message
decide_priority priority_class uid (undecoded message) =
    replied (record { uid = uid; allowed = false; patch = none; message = some message })
decide_priority priority_class uid empty_review = panicked
decide_priority priority_class uid (review_of r) = replied (record {
  uid = uid;
  allowed = true;
  patch = if is_rook_workload r then some (priority_patch priority_class) else none;
  message = none;
})

-- The UID is copied before the body is read.
unfoldable pub rook_priority : String → Review → Handled
rook_priority priority_class review = decide_priority priority_class (uid_of initial_request) review

-- The patches of one list of containers, from the index of its first: the index and the new image.
unfoldable pub image_patches : List (String × String) → ℕ → List String → List (ℕ × String)
image_patches overrides i [] = []
image_patches overrides i (image ∷ images) =
    let rest = image_patches overrides (i + 1) images in
    elim (lookup image overrides) [ none ↦ rest | some new ↦ (i, new) ∷ rest ]

abbrev patch_text : (ℕ → String) → String → ℕ × String → String
patch_text format_int list (i, new) = join_text "{\"op\":\"replace\",\"path\":\"/spec/" (
    join_text list (
      join_text "/"
        (join_text (format_int i) (join_text "/image\",\"value\":\"" (join_text new "\"}")))))

abbrev pub all_patches : (ℕ → String) → List (String × String) → PodImages → List String
all_patches format_int overrides pod =
    map (patch_text format_int "initContainers") (image_patches overrides 0 pod.init_images)
    ++ map (patch_text format_int "containers") (image_patches overrides 0 pod.images)

abbrev patch_of : List String → Option String
patch_of [] = none
patch_of (p ∷ patches) = some (join_text "[" (join_text (join_all (p ∷ patches) ",") "]"))

-- A pod that cannot be decoded gets no answer.
abbrev override_pod : (ℕ → String) → List (String × String) → String → Option PodImages → Handled
override_pod format_int overrides uid none = silent
override_pod format_int overrides uid (some pod) = replied (record {
  uid = uid;
  allowed = true;
  patch = patch_of (all_patches format_int overrides pod);
  message = none;
})

unfoldable pub override_pod_images :
    (ℕ → String) → (String → Option PodImages) → List (String × String) → Review → Handled
override_pod_images format_int decode_pod overrides (unread message) = aborted_500 message
override_pod_images format_int decode_pod overrides (undecoded message) =
    replied (record { uid = ""; allowed = false; patch = none; message = some message })
override_pod_images format_int decode_pod overrides empty_review = panicked
override_pod_images format_int decode_pod overrides (review_of r) =
    if r.resource == "pods"
    then override_pod format_int overrides r.uid (decode_pod r.object)
    else replied (record { uid = r.uid; allowed = true; patch = none; message = none })
