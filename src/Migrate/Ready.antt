-- ===== src/Migrate/Ready.antt =====
-- pkg/migrate/storage.go: whether the cluster is ready, and the endpoints of pkg/server/server.go that
-- ask for it.
use ekco.Prelude.{
  ℕ, String, Bool, true, false, not, Option, none, some, ◌==◌, ltb, if◌then◌else◌, length,
}
use ekco.Errors.{is_not_found_err, Result, failure, wrapped, ok, err}
use ekco.Kube.{CephCluster, Secret, StorageClass, Call, Action, pure, raise, send, ◌>>=◌, expect}
use ekco.Cluster.Versions.{rook_ceph_ns}
use ekco.Ekcoops.Config.{Config}

pub record MigrationReadyResult : Type 0 where
  pub ready : Bool
  pub reason : String

pub record ClusterReadyResult : Type 0 where
  pub ready : Bool
  pub reason : String
  pub nr_nodes : ℕ
  pub required_nr_nodes : ℕ

abbrev pub not_yet : String → MigrationReadyResult
not_yet reason = record { ready = false; reason = reason }

-- `Status.CephStatus` is nil, or its health is read.
abbrev is_unhealthy : Option String → Bool
is_unhealthy none = false
is_unhealthy (some health) = not (health == "HEALTH_OK")

abbrev class_found : Result StorageClass → Action MigrationReadyResult
class_found (ok c) = pure (record { ready = true; reason = "migration ready" })
class_found (err e) =
    if is_not_found_err e
    then raise (failure "rook storageclass not found")
    else raise (wrapped "get ceph storageclass" e)

abbrev after_secret : Config → Result Secret → Action MigrationReadyResult
after_secret cfg (ok s) = do
  class ← send (Call.get_storage_class cfg.rook_storage_class)
  class_found class
after_secret cfg (err e) =
    if is_not_found_err e
    then pure (not_yet "ceph object store secret not found")
    else raise (wrapped "get ceph object store secret" e)

abbrev secret_and_class : Config → Action MigrationReadyResult
secret_and_class cfg = do
  secret ← send (Call.get_secret rook_ceph_ns "rook-ceph-object-user-rook-ceph-store-kurl")
  after_secret cfg secret

abbrev after_cluster : Config → Result CephCluster → Action MigrationReadyResult
after_cluster cfg (err e) =
    if is_not_found_err e
    then pure (not_yet "Ceph cluster not created")
    else raise (wrapped "failed to get ceph cluster" e)
after_cluster cfg (ok cluster) =
    if not (cluster.phase == "Ready")
    then pure (not_yet "ceph cluster was not ready")
    else if is_unhealthy cluster.health
    then pure (not_yet "ceph cluster was not healthy")
    else secret_and_class cfg

unfoldable pub is_migration_ready : Config → Action MigrationReadyResult
is_migration_ready cfg = do cluster ← send Call.get_ceph_cluster; after_cluster cfg cluster

unfoldable pub is_cluster_ready : Config → Action ClusterReadyResult
is_cluster_ready cfg = do
  nodes ← expect "failed to list nodes" (send Call.list_nodes)
  let enough = not (ltb (length nodes) cfg.rook_minimum_node_count)
  pure (record {
    ready = enough;
    reason = if enough then "" else "required number of cluster nodes are not met";
    nr_nodes = length nodes;
    required_nr_nodes = cfg.rook_minimum_node_count;
  })
