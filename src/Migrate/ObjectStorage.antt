-- ===== src/Migrate/ObjectStorage.antt =====
-- pkg/migrate/storage.go: `migrateObjectStorage`, which takes minio down once its data is in Rook.
pub mod KeepsMinio
use Prim.Native.String.{◌++◌ as join_text}
use ekco.Prelude.{String, true, false, not, List, [], ◌∷◌, ◌==◌, if◌then◌else◌, is_empty, lookup}
use ekco.Errors.{failure}
use ekco.Kube.{
  Pod, Service, Secret, Endpoint, Component, Call, minio, Action, pure, raise, lift, attempt, wrap,
  send, ◌>>=◌, ◌>>◌, expect, plain, delete_if_present, when,
}
use ekco.Cluster.Storage.{value_or_empty}
use ekco.Cluster.Versions.{rook_ceph_ns}
use ekco.Objectstore.Usage.{is_minio_in_use}
use ekco.Objectstore.Sync.{sync_all_buckets}
use ekco.Objectstore.Consumers.{Move, update_consumers}

-- A pause of a component with its deferred resumption, which runs whether or not there was an error.
unfoldable pub while_paused : Component → Action (Unit {0}) → Action (Unit {0})
while_paused c m = do
  send (Call.set_paused c true)
  r ← attempt m
  send (Call.set_paused c false)
  lift r

abbrev pub no_selector : List (String × String)
no_selector = ("doesnotexist", "doesnotexist") ∷ []

-- The address of the first pod that runs.
unfoldable pub running_ip : List Pod → String
running_ip [] = ""
running_ip (pod ∷ pods) =
    let rest = running_ip pods in if pod.status.phase == "Running" then pod.status.pod_ip else rest

abbrev some_pods : List Pod → Action (List Pod)
some_pods pods =
    if is_empty pods
    then raise (failure "unable to find existing minio pod to migrate from")
    else pure pods

-- Minio runs as a single pod or as a statefulset.
unfoldable pub minio_pod_ip : String → Action String
minio_pod_ip ns = do
  single ← expect "list minio pods" (send (Call.list_pods ns "app=minio"))
  pods ← if not (is_empty single) then pure single else do
    ha ← expect "list ha-minio pods" (send (Call.list_pods ns "app=ha-minio"))
    some_pods ha
  if running_ip pods == ""
      then raise (failure "unable to find running minio pod to migrate from")
      else pure (running_ip pods)

abbrev pub read_key : String → Secret → String
read_key key s = value_or_empty (lookup key s.contents)

abbrev pub minio_endpoint : String → Secret → Endpoint
minio_endpoint ip s = record {
  address = join_text ip ":9000";
  access_key = read_key "MINIO_ACCESS_KEY" s;
  secret_key = read_key "MINIO_SECRET_KEY" s;
}

abbrev rook_endpoint : Service → Secret → Endpoint
rook_endpoint service s = record {
  address = service.cluster_ip;
  access_key = read_key "AccessKey" s;
  secret_key = read_key "SecretKey" s;
}

-- Where the consumers are moved to, and from.
abbrev pub move_to : String → Endpoint → Endpoint → Move
move_to ns minio_store rook = record {
  endpoint = rook.address;
  hostname = "http://rook-ceph-rgw-rook-ceph-store.rook-ceph";
  access_key = rook.access_key;
  secret_key = rook.secret_key;
  original_hostname = join_text "minio." ns;
  original_secret_key = minio_store.secret_key;
}

-- What is read before anything changes: the two object stores.
unfoldable pub find_stores : String → Action (Endpoint × Endpoint)
find_stores ns = do
  ip ← minio_pod_ip ns
  credentials ← expect "retrieve minio credentials" (send (Call.get_secret ns "minio-credentials"))
  service ←
      expect "retrieve rook object store endpoint"
        (send (Call.get_service rook_ceph_ns "rook-ceph-rgw-rook-ceph-store"))
  secret ←
      expect "retrieve rook object store credentials"
        (send (Call.get_secret rook_ceph_ns "rook-ceph-object-user-rook-ceph-store-kurl"))
  pure (minio_endpoint ip credentials, rook_endpoint service secret)

unfoldable pub delete_minio : String → Action (Unit {0})
delete_minio ns = do
  delete_if_present "delete minio statefulset" (send (Call.delete_stateful_set ns "ha-minio"))
  delete_if_present "delete minio deployment" (send (Call.delete_deployment ns "minio"))
  delete_if_present "delete minio namespace" (send (Call.delete_namespace ns))

-- From the two stores on.
unfoldable pub move_data : String → Endpoint → Endpoint → Action (Unit {0})
move_data ns minio_store rook = do
  expect "disable existing minio service"
      (send (Call.patch_service_selector ns "minio" no_selector))
  wrap "migrate data from minio to rook" (sync_all_buckets minio_store rook)
  wrap "update secrets in the cluster to point to the new rook object store"
      (update_consumers (move_to ns minio_store rook))
  delete_minio ns

unfoldable pub move_found : String → Action (Unit {0})
move_found ns = do (minio_store, rook) ← find_stores ns; move_data ns minio_store rook

unfoldable pub migrate_object_storage : String → Action (Unit {0})
migrate_object_storage ns = do
  in_use ← plain "check if minio is in use" (is_minio_in_use ns)
  when in_use (while_paused minio (move_found ns))
