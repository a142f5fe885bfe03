-- ===== src/Cluster/EnsureCeph/Values.antt =====
-- pkg/cluster/rook_ceph.go: the values that the chart of the CephCluster is installed with.
use mathlib.Core.Path.{subst}
use ekco.Prelude.{
  String, ◌≡◌, refl, sym, ap, ◌∙◌, false, Option, none, some, arith, ◌==◌, eq_iff, if◌then◌else◌,
}
use ekco.Errors.{ok}
use ekco.Kube.{Value, Fields, text_value, map_value, no_fields, with_field}
use ekco.Cluster.EnsureCeph.{
  field_at, set_field, as_map, image_in_version, image_in_spec, with_ceph_image,
}

pub field_at-set_field :
    (j k : String) (v : Value) (m : Fields)
    → field_at j (set_field k v m) ≡ (if k == j then v else field_at j m)
unfolding field_at set_field
field_at-set_field j k v no_fields = refl
field_at-set_field j k v (with_field i w m) =
    ground (arith, eq_iff k j, eq_iff i k, eq_iff i j, field_at-set_field j k v m)

-- The map below a key, which is empty if there is none.
abbrev pub below : String → Fields → Fields
below key m = elim (as_map (field_at key m)) [ some fields ↦ fields | none ↦ no_fields ]

-- One key has a new value, and every other has what it had.
abbrev pub SetAt : String → Value → Fields → Fields → Type 0
SetAt key v before after =
    (k : String) → field_at k after ≡ (if key == k then v else field_at k before)

abbrev pub HasImage : String → Fields → Fields → Type 0
HasImage image before after =
    (spec : Fields) × (version : Fields) × SetAt "cephClusterSpec" (map_value spec) before after
    × SetAt "cephVersion" (map_value version) (below "cephClusterSpec" before) spec
    × SetAt "image" (text_value image) (below "cephVersion" (below "cephClusterSpec" before))
        version

module _ (image : String) (values changed : Fields) where
  version-HasImage :
      (spec : Fields) (o : Option Fields)
      → as_map (field_at "cephClusterSpec" values) ≡ some spec
      → as_map (field_at "cephVersion" spec) ≡ o
      → image_in_version image values spec o ≡ ok changed
      → HasImage image values changed
  version-HasImage spec none found inner worked = cc
  version-HasImage spec (some version) found inner worked =
      let version' = set_field "image" (text_value image) version in
      let spec' = set_field "cephVersion" (map_value version') spec in
      let same : set_field "cephClusterSpec" (map_value spec') values ≡ changed = ground arith in
      let spec_below : spec ≡ below "cephClusterSpec" values = rw (found, below) in
      let version_below : version ≡ below "cephVersion" spec = rw (inner, below) in
      (
        spec',
        version',
        (λ k.
            ap (field_at k) (sym same)
            ∙ field_at-set_field k "cephClusterSpec" (map_value spec') values),
        subst (λ m. SetAt "cephVersion" (map_value version') m spec') spec_below
            (λ k. field_at-set_field k "cephVersion" (map_value version') spec),
        subst (λ m. SetAt "image" (text_value image) (below "cephVersion" m) version') spec_below
            (subst (λ m. SetAt "image" (text_value image) m version') version_below
              (λ k. field_at-set_field k "image" (text_value image) version)),
      )

  spec-HasImage :
      (o : Option Fields)
      → as_map (field_at "cephClusterSpec" values) ≡ o
      → image_in_spec image values o ≡ ok changed
      → HasImage image values changed
  spec-HasImage none found worked = cc
  spec-HasImage (some spec) found worked =
      version-HasImage spec (as_map (field_at "cephVersion" spec)) found refl worked

  -- With an image in the settings: if the values can be changed, the image is set at cephClusterSpec,
  -- cephVersion, image, in maps that are made where there are none, and every other value stays.
  pub with_ceph_image-HasImage :
      (image == "") ≡ false
      → with_ceph_image image values ≡ ok changed
      → HasImage image values changed
  unfolding with_ceph_image
  with_ceph_image-HasImage some_image worked =
      spec-HasImage (as_map (field_at "cephClusterSpec" values)) refl
        (grind (arith, some_image, worked))
