-- ===== src/Ekcoops/RookStorage/Quiet.antt =====
-- `reconcileRook` deletes no Node object.
use ekco.Prelude.{ℕ, Bool, List, arith}
use ekco.Kube.{Node, Version}
use ekco.Cluster.PurgeNode.Order.{Quiet}
use ekco.Cluster.Quiet.{
  get_ceph_version-Quiet, set_block_pool_replication-Quiet, set_filesystem_replication-Quiet,
  set_object_store_replication-Quiet, set_device_health_metrics_replication-Quiet,
  use_nodes_for_storage-Quiet, reconcile_mon_count-Quiet, reconcile_mgr_count-Quiet,
  set_ceph_csi_resources-Quiet, mds_placement-Quiet, prioritize_rook-Quiet,
}
use ekco.Ekcoops.Config.{Config}
use ekco.Ekcoops.RookStorage.{
  ensure_all_used_for_storage, adjust_pool_replication_levels, maintain_storage, maintain_rook,
  reconcile_rook,
}

module _ (cfg : Config) (rook_version : Version) where
  ensure_all_used_for_storage-Quiet :
      (nodes : List Node) (manage_nodes : Bool)
      → Quiet (ensure_all_used_for_storage cfg rook_version nodes manage_nodes)
  unfolding ensure_all_used_for_storage
  ensure_all_used_for_storage-Quiet nodes manage_nodes env t =
      grind (arith, use_nodes_for_storage-Quiet)

  adjust_pool_replication_levels-Quiet :
      (n : ℕ) (full : Bool) → Quiet (adjust_pool_replication_levels cfg rook_version n full)
  unfolding adjust_pool_replication_levels
  adjust_pool_replication_levels-Quiet n full env t = grind (
    arith, get_ceph_version-Quiet, set_block_pool_replication-Quiet,
    set_filesystem_replication-Quiet, set_object_store_replication-Quiet,
    set_device_health_metrics_replication-Quiet,
  )

  maintain_storage-Quiet :
      (nodes : List Node) (full : Bool) → Quiet (maintain_storage cfg rook_version nodes full)
  unfolding maintain_storage
  maintain_storage-Quiet nodes full env t = grind (
    arith, ensure_all_used_for_storage-Quiet, adjust_pool_replication_levels-Quiet,
    reconcile_mon_count-Quiet, reconcile_mgr_count-Quiet,
  )

  maintain_rook-Quiet :
      (nodes : List Node) (full : Bool) → Quiet (maintain_rook cfg rook_version nodes full)
  unfolding maintain_rook
  maintain_rook-Quiet nodes full env t = grind (
    arith, maintain_storage-Quiet, set_ceph_csi_resources-Quiet, mds_placement-Quiet,
    prioritize_rook-Quiet,
  )

  pub reconcile_rook-Quiet :
      (nodes : List Node) (full : Bool) → Quiet (reconcile_rook cfg rook_version nodes full)
  unfolding reconcile_rook
  reconcile_rook-Quiet nodes full env t = grind (arith, maintain_rook-Quiet)
