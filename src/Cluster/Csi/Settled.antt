-- ===== src/Cluster/Csi/Settled.antt =====
-- What the patch of the CSI resources leads to.
use ekco.Prelude.{
  ℕ, String, ◌≡◌, refl, false, ◌||◌, Option, none, some, List, [], ◌∷◌, arith, ◌==◌, eq_iff,
  eq_refl, ltb, if◌then◌else◌, any, All, lookup, insert,
}
use ekco.Errors.{ok}
use ekco.Kube.{ConfigMap, Version, Call, Trace, Env}
use ekco.Cluster.Versions.{rook_ceph_ns, rook_v19}
use ekco.Cluster.Csi.{
  ceph_csi_resources_patch, differs, ceph_csi_resources_needs_update, set_ceph_csi_resources,
}

-- A merge patch of the data of a ConfigMap, as the API server applies it.
abbrev pub merged : List (String × String) → List (String × String) → List (String × String)
merged [] contents = contents
merged ((k, v) ∷ patch) contents = insert k v (merged patch contents)

abbrev or_else : Option String → Option String → Option String
or_else none o = o
or_else (some v) o = some v

lookup-insert_other :
    (j k v : String) (m : List (String × String))
    → lookup j (insert k v m) ≡ (if k == j then some v else lookup j m)
lookup-insert_other j k v [] = refl
lookup-insert_other j k v ((i, w) ∷ m) =
    ground (arith, eq_iff i k, eq_iff k j, eq_iff i j, lookup-insert_other j k v m)

lookup-merged :
    (j : String) (patch m : List (String × String))
    → lookup j (merged patch m) ≡ or_else (lookup j patch) (lookup j m)
lookup-merged j [] m = refl
lookup-merged j ((k, v) ∷ patch) m =
    ground (arith, lookup-insert_other j k v (merged patch m), lookup-merged j patch m)

any-differs :
    (patch m values : List (String × String))
    → All (λ p. lookup p.0 patch ≡ some p.1) values
    → any (differs (merged patch m)) values ≡ false
any-differs patch m [] found = refl
any-differs patch m ((k, v) ∷ values) found =
    ground (arith, eq_refl v, lookup-merged k patch m, found.0, any-differs patch m values found.1)

needs_update-merged :
    (contents : List (String × String))
    → ceph_csi_resources_needs_update (merged ceph_csi_resources_patch contents) ≡ false
unfolding ceph_csi_resources_needs_update
needs_update-merged contents =
    any-differs ceph_csi_resources_patch contents ceph_csi_resources_patch
      (refl, (refl, (refl, (refl, (refl, (refl, tt))))))

-- Once the ConfigMap has what the patch merges into any data, the resources are not patched again,
-- whatever the version and the number of nodes.
pub set_ceph_csi_resources-settled :
    (rook_version : Version) (node_count : ℕ) (env : Env) (cm : ConfigMap) (t : Trace)
    → env.answer (Call.get_config_map rook_ceph_ns "rook-ceph-operator-config") t
      ≡ ok (record cm { contents = merged ceph_csi_resources_patch cm.contents })
    → set_ceph_csi_resources rook_version node_count env t ≡ (
      ok false,
      if env.semver_lt rook_version rook_v19 || ltb node_count 3
          then t
          else Call.get_config_map rook_ceph_ns "rook-ceph-operator-config" ∷ t,
    )
unfolding set_ceph_csi_resources
set_ceph_csi_resources-settled rook_version node_count env cm t found =
    ground (arith, needs_update-merged cm.contents)
