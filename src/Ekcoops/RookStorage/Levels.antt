-- ===== src/Ekcoops/RookStorage/Levels.antt =====
-- The replication level that the operator asks for.
use ekco.Prelude.{ℕ, ◌≤◌, ◌≡◌, arith, ltb, if◌then◌else◌}
use ekco.Ekcoops.Config.{Config}
use ekco.Ekcoops.RookStorage.{replication_factor}

-- With limits in order, the level stays within them, is the number of ready hosts unless that lies
-- outside and else the nearer limit, and never falls when hosts are added.
pub replication_factor_bounds :
    (cfg : Config) (n m : ℕ)
    → cfg.min_ceph_pool_replication ≤ cfg.max_ceph_pool_replication
    → n ≤ m
    → (cfg.min_ceph_pool_replication ≤ replication_factor cfg n)
      × (replication_factor cfg n ≤ cfg.max_ceph_pool_replication)
      × (replication_factor cfg n ≡ (
          if ltb n cfg.min_ceph_pool_replication
          then cfg.min_ceph_pool_replication
          else if ltb cfg.max_ceph_pool_replication n
          then cfg.max_ceph_pool_replication
          else n))
      × (replication_factor cfg n ≤ replication_factor cfg m)
unfolding replication_factor
replication_factor_bounds cfg n m ordered more = ground arith
