-- ===== src/Cluster/Csi.antt =====
-- pkg/cluster/rook_ceph.go: `SetCephCSIResources` and the resources that it sets.
pub mod Settled
use ekco.Prelude.{
  ℕ, String, Bool, true, false, not, ◌||◌, List, [], ◌∷◌, ◌==◌, ltb, if◌then◌else◌, any, lookup,
}
use ekco.Kube.{ConfigMap, Version, Call, Action, pure, send, ◌>>=◌, ◌>>◌, expect}
use ekco.Cluster.Exec.{before}
use ekco.Cluster.Storage.{value_or_empty}
use ekco.Cluster.Versions.{rook_ceph_ns, rook_v19}

abbrev pub ceph_csi_rbd_provisioner_resource : String
ceph_csi_rbd_provisioner_resource =
    "- name : csi-provisioner\n  resource:\n    requests:\n      memory: 128Mi\n      cpu: 100m\n    limits:\n      memory: 256Mi\n      cpu: 200m\n- name : csi-resizer\n  resource:\n    requests:\n      memory: 128Mi\n      cpu: 100m\n    limits:\n      memory: 256Mi\n      cpu: 200m\n- name : csi-attacher\n  resource:\n    requests:\n      memory: 128Mi\n      cpu: 100m\n    limits:\n      memory: 256Mi\n      cpu: 200m\n- name : csi-snapshotter\n  resource:\n    requests:\n      memory: 128Mi\n      cpu: 100m\n    limits:\n      memory: 256Mi\n      cpu: 200m\n- name : csi-rbdplugin\n  resource:\n    requests:\n      memory: 512Mi\n      cpu: 250m\n    limits:\n      memory: 1Gi\n      cpu: 500m\n- name : csi-omap-generator\n  resource:\n    requests:\n      memory: 512Mi\n      cpu: 250m\n    limits:\n      memory: 1Gi\n      cpu: 500m\n- name : liveness-prometheus\n  resource:\n    requests:\n      memory: 128Mi\n      cpu: 50m\n    limits:\n      memory: 256Mi\n      cpu: 100m\n"

abbrev pub ceph_csi_rbd_plugin_resource : String
ceph_csi_rbd_plugin_resource =
    "- name : driver-registrar\n  resource:\n    requests:\n      memory: 128Mi\n      cpu: 50m\n    limits:\n      memory: 256Mi\n      cpu: 100m\n- name : csi-rbdplugin\n  resource:\n    requests:\n      memory: 512Mi\n      cpu: 250m\n    limits:\n      memory: 1Gi\n      cpu: 500m\n- name : liveness-prometheus\n  resource:\n    requests:\n      memory: 128Mi\n      cpu: 50m\n    limits:\n      memory: 256Mi\n      cpu: 100m\n"

abbrev pub ceph_csi_cephfs_provisioner_resource : String
ceph_csi_cephfs_provisioner_resource =
    "- name : csi-provisioner\n  resource:\n    requests:\n      memory: 128Mi\n      cpu: 100m\n    limits:\n      memory: 256Mi\n      cpu: 200m\n- name : csi-resizer\n  resource:\n    requests:\n      memory: 128Mi\n      cpu: 100m\n    limits:\n      memory: 256Mi\n      cpu: 200m\n- name : csi-attacher\n  resource:\n    requests:\n      memory: 128Mi\n      cpu: 100m\n    limits:\n      memory: 256Mi\n      cpu: 200m\n- name : csi-snapshotter\n  resource:\n    requests:\n      memory: 128Mi\n      cpu: 100m\n    limits:\n      memory: 256Mi\n      cpu: 200m\n- name : csi-cephfsplugin\n  resource:\n    requests:\n      memory: 512Mi\n      cpu: 250m\n    limits:\n      memory: 1Gi\n      cpu: 500m\n- name : liveness-prometheus\n  resource:\n    requests:\n      memory: 128Mi\n      cpu: 50m\n    limits:\n      memory: 256Mi\n      cpu: 100m\n"

abbrev pub ceph_csi_cephfs_plugin_resource : String
ceph_csi_cephfs_plugin_resource =
    "- name : driver-registrar\n  resource:\n    requests:\n      memory: 128Mi\n      cpu: 50m\n    limits:\n      memory: 256Mi\n      cpu: 100m\n- name : csi-cephfsplugin\n  resource:\n    requests:\n      memory: 512Mi\n      cpu: 250m\n    limits:\n      memory: 1Gi\n      cpu: 500m\n- name : liveness-prometheus\n  resource:\n    requests:\n      memory: 128Mi\n      cpu: 50m\n    limits:\n      memory: 256Mi\n      cpu: 100m\n"

abbrev pub ceph_csi_nfs_provisioner_resource : String
ceph_csi_nfs_provisioner_resource =
    "- name : csi-provisioner\n  resource:\n    requests:\n      memory: 128Mi\n      cpu: 100m\n    limits:\n      memory: 256Mi\n      cpu: 200m\n- name : csi-nfsplugin\n  resource:\n    requests:\n      memory: 512Mi\n      cpu: 250m\n    limits:\n      memory: 1Gi\n      cpu: 500m\n"

abbrev pub ceph_csi_nfs_plugin_resource : String
ceph_csi_nfs_plugin_resource =
    "- name : driver-registrar\n  resource:\n    requests:\n      memory: 128Mi\n      cpu: 50m\n    limits:\n      memory: 256Mi\n      cpu: 100m\n- name : csi-nfsplugin\n  resource:\n    requests:\n      memory: 512Mi\n      cpu: 250m\n    limits:\n      memory: 1Gi\n      cpu: 500m\n"

-- The data of `cephCSIResourcesPatch`
abbrev pub ceph_csi_resources_patch : List (String × String)
ceph_csi_resources_patch =
    ("CSI_RBD_PROVISIONER_RESOURCE", ceph_csi_rbd_provisioner_resource)
    ∷ ("CSI_RBD_PLUGIN_RESOURCE", ceph_csi_rbd_plugin_resource)
    ∷ ("CSI_CEPHFS_PROVISIONER_RESOURCE", ceph_csi_cephfs_provisioner_resource)
    ∷ ("CSI_CEPHFS_PLUGIN_RESOURCE", ceph_csi_cephfs_plugin_resource)
    ∷ ("CSI_NFS_PROVISIONER_RESOURCE", ceph_csi_nfs_provisioner_resource)
    ∷ ("CSI_NFS_PLUGIN_RESOURCE", ceph_csi_nfs_plugin_resource)
    ∷ []

abbrev pub differs : List (String × String) → String × String → Bool
differs contents (key, value) = not (value_or_empty (lookup key contents) == value)

-- `cephCSIResourcesNeedsUpdate`
unfoldable pub ceph_csi_resources_needs_update : List (String × String) → Bool
ceph_csi_resources_needs_update contents = any (differs contents) ceph_csi_resources_patch

abbrev patch_if_needed : ConfigMap → Action Bool
patch_if_needed cm = if not (ceph_csi_resources_needs_update cm.contents) then pure false else do
  expect "patch rook-ceph-operator-config configmap" (
      send
        (Call.patch_config_map rook_ceph_ns "rook-ceph-operator-config" ceph_csi_resources_patch))
  pure true

unfoldable pub set_ceph_csi_resources : Version → ℕ → Action Bool
set_ceph_csi_resources rook_version node_count = do
  old ← before rook_version rook_v19
  if old || ltb node_count 3 then pure false else do
    cm ←
        expect "get rook-ceph-operator-config configmap"
          (send (Call.get_config_map rook_ceph_ns "rook-ceph-operator-config"))
    patch_if_needed cm
