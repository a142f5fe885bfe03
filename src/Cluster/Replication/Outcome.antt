-- ===== src/Cluster/Replication/Outcome.antt =====
-- What `SetBlockPoolReplication` and `SetDeviceHealthMetricsReplication` do on each path.
use ekco.Prelude.{
  ℕ, String, Bool, true, false, [], ◌∷◌, ◌≡◌, ◌≢◌, ◌||◌, eq_iff, ltb, Option, if◌then◌else◌, arith,
}
use ekco.Errors.{ok}
use ekco.Kube.{Version, CephBlockPool, Call, Env, Trace}
use ekco.Cluster.Versions.{rook_v14}
use ekco.Cluster.Exec.{rook_ceph_exec, ceph_osd_pool_set_size, ceph_osd_pool_set_min_size}
use ekco.Cluster.Exec.Outcome.{list_rook_pods}
use ekco.Cluster.Replication.{block_pool_patches, scale_pool, set_block_pool_replication}

module _ (rook_version : Version) (ceph_version : Option Version) (env : Env) where
  -- With Rook 1.4 or later and a server that accepts the patch, the pool is patched to the level if it
  -- is below it or on a full reconcile, and is left alone otherwise; the result says which.
  pub set_block_pool_replication_new :
      (name : String) (level : ℕ) (full : Bool) (pool : CephBlockPool) (t : Trace)
      → name ≢ ""
      → env.semver_lt rook_version rook_v14 ≡ false
      → env.answer (Call.get_block_pool name) t ≡ ok pool
      → env.answer
          (Call.patch_block_pool pool.name (block_pool_patches level))
          (Call.get_block_pool name ∷ t)
        ≡ ok tt
      → set_block_pool_replication rook_version ceph_version name level full env t ≡ (
          if ltb pool.replicated_size level || full
          then (
            ok true,
            Call.patch_block_pool pool.name (block_pool_patches level)
                ∷ Call.get_block_pool name
                ∷ t,
          )
          else (ok false, Call.get_block_pool name ∷ t))
  unfolding set_block_pool_replication
  set_block_pool_replication_new name level full pool t named new found patched =
      ground (arith, eq_iff name "")

  -- If no Rook pod is listed, the sizes of a pool are reported as set although no command ran.
  pub scale_pool_without_pods :
      (name : String) (level : ℕ) (t : Trace)
      → ((t : Trace) → env.answer (list_rook_pods rook_version env) t ≡ ok [])
      → scale_pool rook_version ceph_version name level env t
        ≡ (ok tt, list_rook_pods rook_version env ∷ list_rook_pods rook_version env ∷ t)
  unfolding scale_pool ceph_osd_pool_set_size ceph_osd_pool_set_min_size rook_ceph_exec
  scale_pool_without_pods name level t none_listed =
      ground (arith, none_listed t, none_listed (list_rook_pods rook_version env ∷ t))
