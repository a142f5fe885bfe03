-- ===== src/Ekcoops/RookStorage.antt =====
-- pkg/ekcoops/operator.go: `reconcileRook` and what it calls for the storage nodes and the levels of
-- the pools.
pub mod Levels
pub mod Usable
pub mod Quiet
use ekco.Prelude.{
  ℕ, String, Bool, true, false, not, ◌||◌, Option, none, some, List, map, ◌==◌, ltb, if◌then◌else◌,
  length, any, select,
}
use ekco.Errors.{is_not_found_err, add_error, add_failure, Error, Result, failure, wrapped, ok, err}
use ekco.Kube.{
  Node, Version, CephCluster, number, Action, pure, raise, attempt, wrap, ◌>>=◌, ◌>>◌, done, report,
}
use ekco.Util.Node.{node_is_ready}
use ekco.Cluster.Csi.{set_ceph_csi_resources}
use ekco.Cluster.Daemons.{get_ceph_cluster, reconcile_mon_count, reconcile_mgr_count}
use ekco.Cluster.Storage.{is_storage_node, use_nodes_for_storage}
use ekco.Cluster.Replication.{
  set_block_pool_replication, set_device_health_metrics_replication, set_filesystem_replication,
  set_object_store_replication,
}
use ekco.Cluster.RookVersion.{get_ceph_version}
use ekco.Cluster.Rook.{patch_filesystem_mds_placement_multinode, prioritize_rook}
use ekco.Ekcoops.Config.{Config}
use Prim.Native.String.{◌++◌ as join_text}

-- `fmt.Sprintf("%s=%s", key, value)`
abbrev pub label_text : String × String → String
label_text (key, value) = join_text key (join_text "=" value)

unfoldable pub should_use_node_for_storage : Node → CephCluster → String → Bool → Bool
should_use_node_for_storage node cluster storage_label manage_nodes =
    if not (node_is_ready node)
    then false
    else if manage_nodes
    then is_storage_node cluster.storage_nodes node.name
    else if storage_label == ""
    then true
    else any (λ label. storage_label == label_text label) node.labels

abbrev pub usable_names : CephCluster → String → Bool → List Node → List String
usable_names cluster storage_label manage_nodes nodes =
    map (λ node. node.name)
      (select (λ node. should_use_node_for_storage node cluster storage_label manage_nodes) nodes)

unfoldable pub ensure_all_used_for_storage : Config → Version → List Node → Bool → Action ℕ
ensure_all_used_for_storage cfg rook_version nodes manage_nodes = do
  cluster ← wrap "get CephCluster config" get_ceph_cluster
  use_nodes_for_storage rook_version cluster
      (usable_names cluster cfg.rook_storage_nodes_label manage_nodes nodes) manage_nodes

abbrev pub at_least : ℕ → ℕ → ℕ
at_least low n = if ltb n low then low else n

abbrev pub at_most : ℕ → ℕ → ℕ
at_most high n = if ltb high n then high else n

-- `factor`
unfoldable pub replication_factor : Config → ℕ → ℕ
replication_factor cfg num_nodes =
    at_most cfg.max_ceph_pool_replication (at_least cfg.min_ceph_pool_replication num_nodes)

-- `didUpdate || ok`, where a failed call gives false.
abbrev pub flag_of : Result Bool → Bool
flag_of (ok b) = b
flag_of (err e) = false

abbrev version_if_read : Result CephCluster → Action (Result Version)
version_if_read (ok cluster) = attempt (wrap "get ceph version" (get_ceph_version cluster))
version_if_read (err e) = pure (err (wrapped "get CephCluster config" e))

abbrev version_of : Result Version → Option Version
version_of (ok v) = some v
version_of (err e) = none

-- `multierror.Append` with the error as it is.
abbrev pub add_plain {ℓ} : {A : Type ℓ} → Option Error → Result A → Option Error
add_plain errs (ok a) = errs
add_plain errs (err e) = add_error errs e

unfoldable pub adjust_pool_replication_levels : Config → Version → ℕ → Bool → Action (Unit {0})
adjust_pool_replication_levels cfg rook_version num_nodes full = do
  let factor = replication_factor cfg num_nodes
  found ← attempt get_ceph_cluster
  read ← version_if_read found
  let ceph_version = version_of read
  r1 ←
      attempt (set_block_pool_replication rook_version ceph_version cfg.ceph_block_pool factor full)
  r2 ←
      attempt (set_filesystem_replication rook_version ceph_version cfg.ceph_filesystem factor full)
  r3 ←
      attempt
        (set_object_store_replication rook_version ceph_version cfg.ceph_object_store factor full)
  let updated = flag_of r1 || flag_of r2 || flag_of r3
  r4 ←
      attempt
        (set_device_health_metrics_replication rook_version ceph_version factor (full || updated))
  let errs = add_plain none read
  let errs = add_failure "set pool replication" errs r1
  let errs = add_failure "set filesystem replication" errs r2
  let errs = add_failure "set object store replication" errs r3
  report (add_failure "set device_health_metrics replication" errs r4)

-- A step of a reconcile whose failure is kept while the next step is tried.
abbrev pub tried {ℓ} : {A : Type ℓ} → String → Option Error → Action A → Action (Option Error)
tried note errs m = do r ← attempt m; pure (add_failure note errs r)

abbrev pub tried_if {ℓ} :
    {A : Type ℓ} → Bool → String → Option Error → Action A → Action (Option Error)
tried_if b note errs m = if b then tried note errs m else pure errs

-- With the number of ready hosts, or the error of counting them.
abbrev scale_to_ready : Config → Version → Bool → Result ℕ → Action (Option Error)
scale_to_ready cfg rook_version full (err e) = pure (
    if is_not_found_err e
    then none
    else add_error none (wrapped "ensure all ready nodes used for storage" e))
scale_to_ready cfg rook_version full (ok ready_count) = do
  errs ←
      tried "adjust pool replication levels" none
        (adjust_pool_replication_levels cfg rook_version ready_count full)
  errs ← tried "reconcile mon count" errs (reconcile_mon_count ready_count)
  tried "reconcile mgr count" errs (reconcile_mgr_count rook_version ready_count)

unfoldable pub maintain_storage : Config → Version → List Node → Bool → Action (Option Error)
maintain_storage cfg rook_version nodes full =
    if not cfg.maintain_rook_storage_nodes then pure none else do
      ready ←
          attempt (
            ensure_all_used_for_storage cfg rook_version nodes (not (cfg.rook_storage_nodes == "")))
      scale_to_ready cfg rook_version full ready

unfoldable pub maintain_rook : Config → Version → List Node → Bool → Action (Unit {0})
maintain_rook cfg rook_version nodes full = do
  errs ← maintain_storage cfg rook_version nodes full
  errs ←
      tried_if cfg.reconcile_ceph_csi_resources "patch filesystem mds placement" errs
        (set_ceph_csi_resources rook_version (length nodes))
  errs ←
      tried_if cfg.reconcile_rook_mds_placement "patch filesystem mds placement" errs
        (patch_filesystem_mds_placement_multinode cfg.ceph_filesystem (length nodes))
  errs ←
      tried_if (not (cfg.rook_priority_class == "")) "set rook priority class" errs
        (prioritize_rook cfg.rook_priority_class)
  report errs

abbrev with_cluster : Action (Unit {0}) → Result CephCluster → Action (Unit {0})
with_cluster next (ok cluster) = next
with_cluster next (err e) = if is_not_found_err e then done else raise (wrapped "get CephCluster" e)

unfoldable pub reconcile_rook : Config → Version → List Node → Bool → Action (Unit {0})
reconcile_rook cfg rook_version nodes full = do
  found ← attempt get_ceph_cluster
  with_cluster (maintain_rook cfg rook_version nodes full) found
