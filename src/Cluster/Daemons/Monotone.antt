-- ===== src/Cluster/Daemons/Monotone.antt =====
-- The numbers of mons and mgrs are only ever raised.
use ekco.Prelude.{ℕ, false, ◌∷◌, ◌≡◌, ltb, if◌then◌else◌, arith}
use ekco.Errors.{ok}
use ekco.Kube.{Version, CephCluster, Call, Env, Trace}
use ekco.Cluster.Versions.{rook_v19}
use ekco.Cluster.Daemons.{replace_number, reconcile_mon_count, reconcile_mgr_count}

module _ (env : Env) (node_count : ℕ) (cluster : CephCluster) (t : Trace)
    (found : env.answer Call.get_ceph_cluster t ≡ ok cluster) where
  -- If the CephCluster is read, whatever the server answers then, one patch is sent exactly if it has
  -- fewer mons than wanted, and it asks for 1 mon below three nodes and for 3 from there on.
  pub reconcile_mon_count-trace : (reconcile_mon_count node_count env t).1 ≡ (
      if ltb cluster.mon_count (if ltb node_count 3 then 1 else 3)
      then Call.patch_ceph_cluster
          (replace_number "/spec/mon/count" (if ltb node_count 3 then 1 else 3))
        ∷ Call.get_ceph_cluster
        ∷ t
      else Call.get_ceph_cluster ∷ t)
  unfolding reconcile_mon_count
  reconcile_mon_count-trace = ground arith

  -- With Rook 1.9 or later, if the CephCluster is read, one patch is sent exactly if it has fewer mgrs
  -- than wanted, and it asks for 1 mgr below two nodes and for 2 from there on.
  pub reconcile_mgr_count-trace :
      (rook_version : Version)
      → env.semver_lt rook_version rook_v19 ≡ false
      → (reconcile_mgr_count rook_version node_count env t).1 ≡ (
          if ltb cluster.mgr_count (if ltb node_count 2 then 1 else 2)
          then Call.patch_ceph_cluster
              (replace_number "/spec/mgr/count" (if ltb node_count 2 then 1 else 2))
            ∷ Call.get_ceph_cluster
            ∷ t
          else Call.get_ceph_cluster ∷ t)
  unfolding reconcile_mgr_count
  reconcile_mgr_count-trace rook_version new = ground arith
