-- ===== src/Cluster/Versions.antt =====
-- The versions and names of pkg/cluster/controller.go and pkg/cluster/constants.go.
use ekco.Prelude.{ℕ, String, List, [], ◌∷◌}
use ekco.Kube.{Version}

abbrev release : ℕ → ℕ → ℕ → Version
release major minor patch = record { major = major; minor = minor; patch = patch; pre = [] }

abbrev pub rook_v14 : Version
rook_v14 = release 1 4 0

abbrev pub rook_v19 : Version
rook_v19 = release 1 9 0

abbrev pub ceph_pacific : Version
ceph_pacific = release 16 2 0

abbrev pub ceph_quincy : Version
ceph_quincy = release 17 2 0

abbrev pub rook_ceph_ns : String
rook_ceph_ns = "rook-ceph"

abbrev pub rook_ceph_shared_fs_metadata_pool : String
rook_ceph_shared_fs_metadata_pool = "rook-shared-fs-metadata"

abbrev pub rook_ceph_shared_fs_data_pool : String
rook_ceph_shared_fs_data_pool = "rook-shared-fs-data0"

abbrev pub ceph_device_health_metrics_pool : String
ceph_device_health_metrics_pool = "device_health_metrics"

abbrev pub ceph_device_health_metrics_pool_quincy : String
ceph_device_health_metrics_pool_quincy = ".mgr"

abbrev pub rook_ceph_object_store_root_pool : String
rook_ceph_object_store_root_pool = ".rgw.root"

abbrev pub rook_ceph_object_store_metadata_pools : List String
rook_ceph_object_store_metadata_pools =
    "rgw.control" ∷ "rgw.meta" ∷ "rgw.log" ∷ "rgw.buckets.index" ∷ "rgw.buckets.non-ec" ∷ []

abbrev pub rook_ceph_object_store_metadata_pools_quincy : List String
rook_ceph_object_store_metadata_pools_quincy =
    "rgw.control" ∷ "rgw.meta" ∷ "rgw.log" ∷ "rgw.buckets.index" ∷ "rgw.buckets.non-ec" ∷ "rgw.otp"
    ∷ []

abbrev pub rook_ceph_object_store_data_pools : List String
rook_ceph_object_store_data_pools = "rgw.buckets.data" ∷ []
