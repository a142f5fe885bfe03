-- ===== src/Cluster/Quiet.antt =====
-- The operations that maintain the storage delete no Node object.
use ekco.Prelude.{ℕ, String, ◌≡◌, refl, ◌∙◌, Bool, Option, List, [], ◌∷◌, arith}
use ekco.Errors.{Error, Result, ok, err}
use ekco.Kube.{
  Workload, Version, CephCluster, Piece, Trace, Action, lift, attempt, ◌>>=◌, ◌>>◌, Env,
}
use ekco.Cluster.PurgeNode.Order.{deletions, Quiet}
use ekco.Cluster.RookVersion.{get_rook_version, get_ceph_version}
use ekco.Cluster.Exec.{
  rook_ceph_exec, ceph_osd_pool_set_size, ceph_osd_pool_set_min_size, ceph_osd_pool_set_pg_num_min,
}
use ekco.Cluster.Replication.{
  scale_pool, set_block_pool_replication, set_filesystem_replication, scale_object_store_pools,
  after_set_size, object_store_pool_name, lower_pg_num_min, set_object_store_replication,
  set_device_health_metrics_replication,
}
use ekco.Cluster.Storage.{count_unique_hosts_with_osd, add_storage_nodes, use_nodes_for_storage}
use ekco.Cluster.Daemons.{reconcile_mon_count, reconcile_mgr_count}
use ekco.Cluster.Csi.{set_ceph_csi_resources}
use ekco.Cluster.Rook.{
  patch_filesystem_mds_placement_multinode, prioritize_rook_agent, prioritize_first,
  prioritize_rook_deployments, prioritize_all, prioritize_rook, rook_selectors,
}

module _ {A B : Type 0} (f : A → Action B) (next : (a : A) → Quiet (f a)) where
  pub after_result :
      (r : Result A) (env : Env) (t u : Trace)
      → deletions u ≡ deletions t
      → deletions ((lift r >>= f) env u).1 ≡ deletions t
  after_result (ok a) env t u same = next a env u ∙ same
  after_result (err e) env t u same = same

  pub then-Quiet : (m : Action A) → Quiet m → Quiet (m >>= f)
  then-Quiet m first env t = after_result (m env t).0 env t (m env t).1 (first env t)

pub get_rook_version-Quiet : Quiet get_rook_version
unfolding get_rook_version
get_rook_version-Quiet env t = ground arith

pub get_ceph_version-Quiet : (cluster : CephCluster) → Quiet (get_ceph_version cluster)
unfolding get_ceph_version
get_ceph_version-Quiet cluster env t = ground arith

rook_ceph_exec-Quiet :
    (rook_version : Version) (cmd : List Piece) → Quiet (rook_ceph_exec rook_version cmd)
unfolding rook_ceph_exec
rook_ceph_exec-Quiet rook_version cmd env t = ground arith

module _ (rook_version : Version) where
  set_size-Quiet :
      (ceph_version : Option Version) (name : String) (size : ℕ)
      → Quiet (ceph_osd_pool_set_size rook_version ceph_version name size)
  unfolding ceph_osd_pool_set_size
  set_size-Quiet ceph_version name size env t = grind (arith, rook_ceph_exec-Quiet)

  set_min_size-Quiet :
      (name : String) (size : ℕ) → Quiet (ceph_osd_pool_set_min_size rook_version name size)
  unfolding ceph_osd_pool_set_min_size
  set_min_size-Quiet name size env t = grind (arith, rook_ceph_exec-Quiet)

  set_pg_num_min-Quiet :
      (name : String) (n : ℕ) → Quiet (ceph_osd_pool_set_pg_num_min rook_version name n)
  unfolding ceph_osd_pool_set_pg_num_min
  set_pg_num_min-Quiet name n env t = grind (arith, rook_ceph_exec-Quiet)

  scale_pool-Quiet :
      (ceph_version : Option Version) (name : String) (level : ℕ)
      → Quiet (scale_pool rook_version ceph_version name level)
  unfolding scale_pool
  scale_pool-Quiet ceph_version name level env t = grind (arith, set_size-Quiet, set_min_size-Quiet)

  pub set_block_pool_replication-Quiet :
      (ceph_version : Option Version) (name : String) (level : ℕ) (full : Bool)
      → Quiet (set_block_pool_replication rook_version ceph_version name level full)
  unfolding set_block_pool_replication
  set_block_pool_replication-Quiet ceph_version name level full env t =
      grind (arith, scale_pool-Quiet)

  pub set_filesystem_replication-Quiet :
      (ceph_version : Option Version) (name : String) (level : ℕ) (full : Bool)
      → Quiet (set_filesystem_replication rook_version ceph_version name level full)
  unfolding set_filesystem_replication
  set_filesystem_replication-Quiet ceph_version name level full env t =
      grind (arith, scale_pool-Quiet)

  pub set_device_health_metrics_replication-Quiet :
      (ceph_version : Option Version) (level : ℕ) (full : Bool)
      → Quiet (set_device_health_metrics_replication rook_version ceph_version level full)
  unfolding set_device_health_metrics_replication
  set_device_health_metrics_replication-Quiet ceph_version level full env t =
      grind (arith, scale_pool-Quiet)

  after_set_size-Quiet :
      (store pool : String) (level : ℕ) (r : Result (Unit {0}))
      → Quiet (after_set_size rook_version store pool level r)
  after_set_size-Quiet store pool level r env t = grind (arith, set_min_size-Quiet)

  scale_object_store_pools-Quiet :
      (ceph_version : Option Version) (store : String) (level : ℕ) (pools : List String)
      → Quiet (scale_object_store_pools rook_version ceph_version store level pools)
  unfolding scale_object_store_pools
  scale_object_store_pools-Quiet ceph_version store level [] env t = refl
  scale_object_store_pools-Quiet ceph_version store level (pool ∷ pools) env t =
      let name = object_store_pool_name store pool in
      let rest = scale_object_store_pools rook_version ceph_version store level pools in
      let after = after_set_size rook_version store pool level in
      then-Quiet (λ r. after r >> rest)
        (λ r.
          then-Quiet (λ _. rest)
            (λ _. scale_object_store_pools-Quiet ceph_version store level pools) (after r)
            (after_set_size-Quiet store pool level r))
        (attempt (ceph_osd_pool_set_size rook_version ceph_version name level))
        (set_size-Quiet ceph_version name level) env t

  lower_pg_num_min-Quiet :
      (store : String) (pools : List String) (errs : Option Error)
      → Quiet (lower_pg_num_min rook_version store errs pools)
  unfolding lower_pg_num_min
  lower_pg_num_min-Quiet store [] errs env t = refl
  lower_pg_num_min-Quiet store (pool ∷ pools) errs env t =
      grind (arith, set_pg_num_min-Quiet, lower_pg_num_min-Quiet store pools)

  pub set_object_store_replication-Quiet :
      (ceph_version : Option Version) (name : String) (level : ℕ) (full : Bool)
      → Quiet (set_object_store_replication rook_version ceph_version name level full)
  unfolding set_object_store_replication
  set_object_store_replication-Quiet ceph_version name level full env t =
      grind (arith, scale_object_store_pools-Quiet, lower_pg_num_min-Quiet)

  pub use_nodes_for_storage-Quiet :
      (cluster : CephCluster) (names : List String) (manage_nodes : Bool)
      → Quiet (use_nodes_for_storage rook_version cluster names manage_nodes)
  unfolding use_nodes_for_storage add_storage_nodes count_unique_hosts_with_osd
  use_nodes_for_storage-Quiet cluster names manage_nodes env t = ground arith

  pub reconcile_mgr_count-Quiet : (n : ℕ) → Quiet (reconcile_mgr_count rook_version n)
  unfolding reconcile_mgr_count
  reconcile_mgr_count-Quiet n env t = ground arith

  pub set_ceph_csi_resources-Quiet : (n : ℕ) → Quiet (set_ceph_csi_resources rook_version n)
  unfolding set_ceph_csi_resources
  set_ceph_csi_resources-Quiet n env t = ground arith

pub reconcile_mon_count-Quiet : (n : ℕ) → Quiet (reconcile_mon_count n)
unfolding reconcile_mon_count
reconcile_mon_count-Quiet n env t = ground arith

pub mds_placement-Quiet :
    (name : String) (n : ℕ) → Quiet (patch_filesystem_mds_placement_multinode name n)
unfolding patch_filesystem_mds_placement_multinode
mds_placement-Quiet name n env t = ground arith

prioritize_first-Quiet :
    (class : String) (deployments : List Workload) → Quiet (prioritize_first class deployments)
unfolding prioritize_first
prioritize_first-Quiet class [] env t = refl
prioritize_first-Quiet class (d ∷ deployments) env t =
    ground (arith, prioritize_first-Quiet class deployments env t)

prioritize_rook_deployments-Quiet :
    (class selector : String) → Quiet (prioritize_rook_deployments class selector)
unfolding prioritize_rook_deployments
prioritize_rook_deployments-Quiet class selector env t = grind (arith, prioritize_first-Quiet)

prioritize_rook_agent-Quiet : (class : String) → Quiet (prioritize_rook_agent class)
unfolding prioritize_rook_agent
prioritize_rook_agent-Quiet class env t = ground arith

prioritize_all-Quiet :
    (class : String) (selectors : List String) → Quiet (prioritize_all class selectors)
unfolding prioritize_all
prioritize_all-Quiet class [] env t = refl
prioritize_all-Quiet class (s ∷ selectors) env t =
    grind (arith, prioritize_rook_deployments-Quiet, prioritize_all-Quiet class selectors)

pub prioritize_rook-Quiet : (class : String) → Quiet (prioritize_rook class)
unfolding prioritize_rook
prioritize_rook-Quiet class =
    then-Quiet (λ _. prioritize_all class rook_selectors)
      (λ _. prioritize_all-Quiet class rook_selectors) (prioritize_rook_agent class)
      (prioritize_rook_agent-Quiet class)
