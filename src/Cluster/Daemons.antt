-- ===== src/Cluster/Daemons.antt =====
-- pkg/cluster/rook_ceph.go: the numbers of mons and mgrs, `ReconcileMonCount` and `ReconcileMgrCount`.
pub mod Monotone
use ekco.Prelude.{ℕ, String, List, [], ◌∷◌, ltb, eqb, if◌then◌else◌}
use ekco.Kube.{
  Version, CephCluster, JsonPatch, word, number_value, Call, Action, lift, wrap, send, ◌>>=◌, ◌>>◌,
  done,
}
use ekco.Cluster.Versions.{rook_v19}
use ekco.Cluster.Exec.{before}

abbrev pub max_mon_count : ℕ
max_mon_count = 3

abbrev pub min_mon_count : ℕ
min_mon_count = 1

abbrev pub max_mgr_count : ℕ
max_mgr_count = 2

abbrev pub min_mgr_count : ℕ
min_mgr_count = 1

abbrev pub desired_mon_count : ℕ → ℕ
desired_mon_count node_count = if ltb node_count max_mon_count then min_mon_count else max_mon_count

abbrev pub desired_mgr_count : ℕ → ℕ
desired_mgr_count node_count = if ltb node_count max_mgr_count then min_mgr_count else max_mgr_count

abbrev pub replace_number : String → ℕ → List JsonPatch
replace_number path n =
    record { op = "replace"; path = word path ∷ []; value = number_value n } ∷ []

-- `JSONPatchCephCluster`
abbrev pub json_patch_ceph_cluster : List JsonPatch → Action (Unit {0})
json_patch_ceph_cluster patches = do lift (← send (Call.patch_ceph_cluster patches))

-- `GetCephCluster`
abbrev pub get_ceph_cluster : Action CephCluster
get_ceph_cluster = do lift (← send Call.get_ceph_cluster)

unfoldable pub reconcile_mon_count : ℕ → Action (Unit {0})
reconcile_mon_count node_count = do
  cluster ← wrap "get CephCluster config" get_ceph_cluster
  if eqb cluster.mon_count (desired_mon_count node_count)
      then done
      else if ltb (desired_mon_count node_count) cluster.mon_count
      then done
      else wrap "patch CephCluster with new mon count" (
          json_patch_ceph_cluster (replace_number "/spec/mon/count" (desired_mon_count node_count)))

unfoldable pub reconcile_mgr_count : Version → ℕ → Action (Unit {0})
reconcile_mgr_count rook_version node_count = do
  old ← before rook_version rook_v19
  if old then done else do
    cluster ← wrap "get CephCluster config" get_ceph_cluster
    if eqb cluster.mgr_count (desired_mgr_count node_count)
        then done
        else if ltb (desired_mgr_count node_count) cluster.mgr_count
        then done
        else wrap "patch CephCluster with new mgr count" (
            json_patch_ceph_cluster
              (replace_number "/spec/mgr/count" (desired_mgr_count node_count)))
