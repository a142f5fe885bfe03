-- ===== src/Tests/Migration.antt =====
-- A cluster with a highly available minio that is migrated to Rook's object store.
use ekco.Prelude.{ℕ, ◌≤◌, String, ◌≡◌, refl, ◌⊎◌, none, some, List, [], ◌∷◌, ◌++◌}
use ekco.Errors.{ok}
use ekco.Kube.{Workload, Endpoint, ObjectInfo, MigrationStatus, Call, Trace, Env}
use ekco.Objectstore.Sync.{copy_objects, sync_bucket, sync_buckets, sync_all_buckets}
use ekco.Objectstore.Sync.Copies.{AllCopied, clients, sync_all_buckets-copies}
use ekco.Objectstore.Usage.{is_minio_in_use}
use ekco.Migrate.ObjectStorage.{migrate_object_storage}
use ekco.Migrate.ObjectStorage.KeepsMinio.{
  removals, Moved, started, paused, migrate_object_storage-removals,
}
use ekco.Migrate.Status.{status_of, object_storage_and_pvcs}
use ekco.Migrate.Status.History.{history}
use ekco.Migrate.Status.Machine.{Run, object_storage_and_pvcs-Run}
use ekco.Util.Restart.{await, check_deployment, check_stateful_set}
use ekco.Util.Restart.Waits.{Ready, SettledDeployment, SettledStatefulSet, await-Settled}
use ekco.Cluster.Minio.{migrate_minio_data}
use ekco.Cluster.Minio.KeepsData.{cleanups, Switched, migrate_minio_data-Outcome}
use ekco.Cluster.Rebalance.{maybe_rebalance_minio_servers}
use ekco.Cluster.Rebalance.Safe.{losses}
use ekco.Cluster.Rebalance.Safe.Whole.{Rebalanced, maybe_rebalance-Outcome}
use ekco.Tests.Env.{nothing, env_with, tools_pod, ceph, master}
use ekco.Tests.Settings.{settings}

abbrev ha_minio : Workload
ha_minio = record {
  name = "ha-minio";
  labels = [];
  annotations = ("kurl.sh/desired-scale", "3") ∷ [];
  pod_annotations = [];
  replicas = some 3;
  node_selector = [];
  containers = [];
  priority_class_name = "";
  status = record {
    replicas = 3;
    ready_replicas = 3;
    available_replicas = 3;
    unavailable_replicas = 0;
    updated_replicas = 3;
  };
}

abbrev report_txt : ObjectInfo
report_txt = record {
  key = "report.txt";
  size = 12;
  content_type = "text/plain";
  content_encoding = "";
}

abbrev env : Env
env = env_with none (record nothing {
  nodes = ok (master ∷ []);
  pods = ok (record tools_pod { claim_names = "data" ∷ [] } ∷ []);
  cluster = ok ceph;
  secret = ok (record { name = "keys"; contents = [] });
  service = ok (record { name = "minio"; selector = []; cluster_ip = "10.96.0.1" });
  storage_class = ok (record { annotations = [] });
  stateful_set = ok ha_minio;
  buckets = ok ("backups" ∷ []);
  objects = report_txt ∷ [];
})

abbrev old_store : Endpoint
old_store = record { address = "10.1.0.1:9000"; access_key = "a"; secret_key = "b" }

abbrev new_store : Endpoint
new_store = record { address = "10.96.0.1"; access_key = "c"; secret_key = "d" }

abbrev copied_trace : Trace
copied_trace = (sync_all_buckets old_store new_store env []).1

synced : sync_all_buckets old_store new_store env [] ≡ (ok tt, copied_trace)
unfolding sync_all_buckets sync_buckets sync_bucket copy_objects
synced = refl

sync_all_buckets-copies_example :
    (buckets : List String) × (env.answer
        (Call.list_buckets old_store)
        (clients old_store new_store env [])
      ≡ ok buckets)
    × AllCopied old_store new_store env buckets copied_trace
sync_all_buckets-copies_example =
    sync_all_buckets-copies old_store new_store env [] copied_trace synced

migrate_object_storage-removals_example :
    (removals (migrate_object_storage "minio" env []).1 ≡ removals [])
    ⊎ Moved "minio" env
        (started "minio" env (paused "minio" env (is_minio_in_use "minio" env []).1))
migrate_object_storage-removals_example = migrate_object_storage-removals "minio" env []

object_storage_and_pvcs-Run_example :
    (new : List MigrationStatus) × (history (object_storage_and_pvcs settings env []).1
      ≡ new ++ history [])
    × Run settings env (status_of []) new
object_storage_and_pvcs-Run_example = object_storage_and_pvcs-Run settings env []

await-Settled_example :
    let seen = Call.get_stateful_set "minio" "ha-minio" ∷ [] in
    (await (check_deployment "minio" "ha-minio") 2 env [] ≡ (ok tt, seen)
      → (k : ℕ) × (k ≤ 2)
        × Ready (check_deployment "minio" "ha-minio") env k [] seen
        × ((v : Trace) × (w : Workload) × (seen ≡ Call.get_deployment "minio" "ha-minio" ∷ v)
            × (env.answer (Call.get_deployment "minio" "ha-minio") v ≡ ok w)
            × SettledDeployment w.status))
    × (await (check_stateful_set "minio" "ha-minio") 2 env [] ≡ (ok tt, seen)
        → (k : ℕ) × (k ≤ 2)
          × Ready (check_stateful_set "minio" "ha-minio") env k [] seen
          × ((v : Trace) × (w : Workload) × (seen ≡ Call.get_stateful_set "minio" "ha-minio" ∷ v)
              × (env.answer (Call.get_stateful_set "minio" "ha-minio") v ≡ ok w)
              × SettledStatefulSet w.status))
await-Settled_example =
    await-Settled "minio" "ha-minio" env 2 [] (Call.get_stateful_set "minio" "ha-minio" ∷ [])

migrate_minio_data-Outcome_example :
    (cleanups (migrate_minio_data "minio" env []).1 ≡ cleanups [])
    ⊎ ((before : Trace) × Switched "minio" env before)
migrate_minio_data-Outcome_example = migrate_minio_data-Outcome "minio" env []

maybe_rebalance-Outcome_example :
    (losses (maybe_rebalance_minio_servers "minio" env []).1 ≡ losses [])
    ⊎ Rebalanced "minio" env [] (maybe_rebalance_minio_servers "minio" env []).1
maybe_rebalance-Outcome_example = maybe_rebalance-Outcome "minio" env []
